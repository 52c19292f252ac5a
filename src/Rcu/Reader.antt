-- ===== src/Rcu/Reader.antt =====
-- include/urcu/static/urcu.h: the word of a reader, and what read_lock and read_unlock make of it.
-- A word is below 2 ^ 64. `v & RCU_GP_CTR_NEST_MASK` is `nest_of v`, and the bit
-- `v & RCU_GP_CTR_PHASE` is `phase_of v`, 0 or 1.
pub mod Nesting
use liburcu.Prelude.{
  ℕ, ◌+◌, ◌-◌, ◌/◌, ◌%◌, ◌^◌, Bool, true, false, ◌==◌, if◌then◌else◌, word_add, word_sub,
}

abbrev pub rcu_gp_count : ℕ
rcu_gp_count = 1

-- 1UL << (sizeof(unsigned long) << 2), with an `unsigned long` of eight bytes
abbrev pub rcu_gp_ctr_phase : ℕ
rcu_gp_ctr_phase = 2 ^ 32

abbrev pub rcu_gp_ctr_nest_mask : ℕ
rcu_gp_ctr_nest_mask = rcu_gp_ctr_phase - 1

abbrev pub nest_of : ℕ → ℕ
nest_of v = v % rcu_gp_ctr_phase

abbrev pub phase_of : ℕ → ℕ
phase_of v = v / rcu_gp_ctr_phase % 2

pub data RcuState : Type 0 where
  active_current active_old inactive : RcuState

-- `v` is the one load of the reader's word. Two words have the same phase bit exactly when the
-- bit is clear in their exclusive or.
unfoldable pub rcu_reader_state : ℕ → ℕ → RcuState
rcu_reader_state gp v =
    if nest_of v == 0
    then RcuState.inactive
    else (if phase_of v == phase_of gp then RcuState.active_current else RcuState.active_old)

-- What read_lock stores in the word `tmp` of the reader, where `gp` is its load of `rcu_gp.ctr`.
unfoldable pub rcu_read_lock_update : ℕ → ℕ → ℕ
rcu_read_lock_update gp tmp = if nest_of tmp == 0 then gp else word_add tmp rcu_gp_count

-- What read_unlock stores.
unfoldable pub rcu_read_unlock_update : ℕ → ℕ
rcu_read_unlock_update tmp = word_sub tmp rcu_gp_count

-- Whether this unlock is the outermost, which goes on to `wake_up_gp`.
abbrev pub is_outermost : ℕ → Bool
is_outermost tmp = nest_of tmp == rcu_gp_count

unfoldable pub rcu_read_ongoing : ℕ → Bool
rcu_read_ongoing v = if nest_of v == 0 then false else true

-- rcu_gp.ctr ^ RCU_GP_CTR_PHASE
unfoldable pub switch_parity : ℕ → ℕ
switch_parity v = if phase_of v == 0 then v + rcu_gp_ctr_phase else v - rcu_gp_ctr_phase
