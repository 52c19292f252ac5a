-- ===== src/Rcu/Reader/Nesting.antt =====
-- include/urcu/static/urcu.h: read_lock against read_unlock, and the classes of a reader's word.
use liburcu.Prelude.{ℕ, ◌+◌, ◌<◌, ◌≡◌, ◌≢◌, ◌↔◌, arith, word_mod, true, ◌==◌, if◌then◌else◌}
use liburcu.Rcu.Reader.{
  nest_of, phase_of, rcu_gp_ctr_nest_mask, rcu_read_lock_update, rcu_read_unlock_update,
  rcu_read_ongoing, switch_parity, rcu_reader_state, RcuState, is_outermost,
}

-- For a word below 2 ^ 64 whose nesting count has not reached RCU_GP_CTR_NEST_MASK, and any
-- `rcu_gp.ctr` below 2 ^ 64 with a count of one: read_lock leaves the reader in a section, nested
-- one deeper, in its old phase if it was in a section already and in that of `rcu_gp.ctr`
-- if not; and read_unlock then gives the old count back, is the outermost unlock exactly when the
-- lock was, and restores the whole word of a nested section.
pub unlock-lock :
    (gp v : ℕ)
    → gp < word_mod
    → nest_of gp ≡ 1
    → v < word_mod
    → nest_of v ≢ rcu_gp_ctr_nest_mask
    → record {
      ongoing : rcu_read_ongoing (rcu_read_lock_update gp v) ≡ true;
      deeper : nest_of (rcu_read_lock_update gp v) ≡ nest_of v + 1;
      phase :
          phase_of (rcu_read_lock_update gp v)
          ≡ (if rcu_read_ongoing v then phase_of v else phase_of gp);
      undone : nest_of (rcu_read_unlock_update (rcu_read_lock_update gp v)) ≡ nest_of v;
      outermost : is_outermost (rcu_read_lock_update gp v) ≡ (nest_of v == 0);
      restored : nest_of v ≢ 0 → rcu_read_unlock_update (rcu_read_lock_update gp v) ≡ v;
    }
unfolding rcu_read_lock_update rcu_read_unlock_update rcu_read_ongoing
unlock-lock gp v small one word fits = record {
  ongoing = ground arith;
  deeper = ground arith;
  phase = ground arith;
  undone = ground arith;
  outermost = ground arith;
  restored = ground arith;
}

-- Two switches of parity give `rcu_gp.ctr` back, one keeps its count, and exactly the
-- readers in a section change their class: a current reader becomes old, an old one current.
pub switch_parity_classes : (gp v : ℕ) → record {
  twice : switch_parity (switch_parity gp) ≡ gp;
  count : nest_of (switch_parity gp) ≡ nest_of gp;
  inactive :
      (rcu_reader_state gp v ≡ RcuState.inactive)
      ↔ (rcu_reader_state (switch_parity gp) v ≡ RcuState.inactive);
  current :
      (rcu_reader_state gp v ≡ RcuState.active_current)
      ↔ (rcu_reader_state (switch_parity gp) v ≡ RcuState.active_old);
  old :
      (rcu_reader_state gp v ≡ RcuState.active_old)
      ↔ (rcu_reader_state (switch_parity gp) v ≡ RcuState.active_current);
}
unfolding switch_parity rcu_reader_state
switch_parity_classes gp v = record {
  twice = ground arith;
  count = ground arith;
  inactive = ground arith;
  current = ground arith;
  old = ground arith;
}
