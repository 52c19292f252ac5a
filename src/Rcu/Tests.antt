-- ===== src/Rcu/Tests.antt =====
-- Runs of the urcu model, and its theorems at them.
use liburcu.Prelude.{
  ℕ, zero, suc, ◌+◌, ◌^◌, ◌≡◌, ◌≢◌, ◌⊎◌, ◌↔◌, refl, arith, true, [], ◌∷◌, ◌&&◌, ◌==◌, has,
  minus_one, if◌then◌else◌,
}
use native.Mathlib.Decide.{ℕ_discrete}
use liburcu.Rcu.Reader.{
  nest_of, phase_of, RcuState, rcu_reader_state, rcu_read_lock_update, rcu_read_unlock_update,
  rcu_read_ongoing, is_outermost, switch_parity,
}
use liburcu.Rcu.Reader.Nesting.{unlock-lock, switch_parity_classes}
use liburcu.Rcu.Scan.{Lists, first, second, visit, input, scan_pass}
use liburcu.Rcu.System
use liburcu.Rcu.System.{
  System, Step, WriterPc, Run, here, then_step, init, enter, finished, idle, called, count_attempt,
  leave_or_wait, switch_and_wait, take_locks, put_back,
}
use liburcu.Rcu.GracePeriod.{Leaves, synchronize_rcu_waits}
use liburcu.Rcu.Wakeup.{Waker, no_lost_wakeup}
use liburcu.Rcu.Progress.{stays, place, scan_pass_sorts}
use liburcu.Rcu.Completion.{OwnRun, synchronize_rcu_returns}

abbrev Trace : System → Type 0
Trace s = (t : System) × Run s t

abbrev start : (s : System) → Trace s
start s = (s, here)

infixl 5 ◌▸◌
abbrev ◌▸◌ : {s t : System} (r : Trace s) → Step r.0 t → Trace s
r ▸ st = (_, then_step r.1 st)

-- Reader 0 is in a section.
in_section : Trace init
unfolding rcu_read_lock_update
in_section =
    start init
    ▸ System.register 0 refl refl refl refl
    ▸ System.load_gp 0 refl refl refl
    ▸ System.store_ctr 0 1 refl

-- The writer's next step, from wherever it stands.
writer_move : (s : System) (w : WriterPc) → s.writer ≡ w → (t : System) × Step s t
unfolding ℕ_discrete
writer_move s System.idle e = (_, System.call e)
writer_move s System.called e = (_, System.lock e)
writer_move s (System.loop_head p) e = (_, System.attempt p e)
writer_move s (System.scan p []) e = (_, System.examined p e)
writer_move s (System.scan p (i ∷ todo)) e = (_, System.examine p i todo e)
writer_move s (System.relax p) e = (_, System.relock p e)
writer_move s (System.wait_gp p) e = elim (ℕ_discrete s.futex minus_one) [
  | yes f ↦ (_, System.unchanged p e f)
  | no f ↦ (_, System.changed p e f)
]
writer_move s (System.futex_wait p) e = elim (ℕ_discrete s.futex minus_one) [
  | yes f ↦ (_, System.sleep p e f)
  | no f ↦ (_, System.would_block p e f)
]
writer_move s (System.asleep p) e = (_, System.interrupted p e)
writer_move s System.parity e = (_, System.switch e)
writer_move s System.splice e = (_, System.finish e)
writer_move s System.finished e = (_, System.return e)

-- `n` steps of the writer.
rounds : {s : System} → ℕ → Trace s → Trace s
unfolding writer_move take_locks count_attempt leave_or_wait switch_and_wait put_back visit
    rcu_reader_state switch_parity
rounds zero r = r
rounds (suc n) r = let m = writer_move r.0 r.0.writer refl in rounds n (m.0, then_step r.1 m.1)

-- The first wait finds the reader current, the second old.
waiting : Trace (enter in_section.0)
unfolding rounds in_section
waiting = rounds 8 (start _)

at_relax : waiting.0.writer ≡ System.relax second
unfolding waiting
at_relax = refl

grace_period : Trace (enter in_section.0)
unfolding waiting rounds rcu_read_unlock_update
grace_period = rounds 5 (waiting ▸ System.unlock_outer 0 refl refl)

synchronize_rcu_waits_example : Leaves 0 grace_period.1
unfolding grace_period rcu_read_ongoing
synchronize_rcu_waits_example = synchronize_rcu_waits in_section.1 refl grace_period.1 refl 0 refl

-- After a hundred attempts the writer sleeps.
sleeping : Trace init
unfolding rounds in_section
sleeping = rounds 409 in_section

is_asleep : sleeping.0.writer ≡ System.asleep second
unfolding sleeping
is_asleep = refl

no_lost_wakeup_example :
    ((sleeping.0.futex ≡ minus_one) × Waker second sleeping.0)
    ⊎ ((i : ℕ) × ((sleeping.0.reader i).pc ≡ System.wake))
no_lost_wakeup_example = no_lost_wakeup sleeping.1 second is_asleep

-- A call behind the section of a reader that is still registered.
quiet_call : Trace init
unfolding in_section rcu_read_unlock_update
quiet_call =
    in_section
    ▸ System.unlock_outer 0 refl refl
    ▸ System.no_waiter 0 refl (λ e. ground arith)
    ▸ System.call refl

synchronize_rcu_returns_example :
    (t : System) × OwnRun quiet_call.0 t
    × (t.writer ≡ finished)
    × (t.reader ≡ (quiet_call.0).reader)
unfolding quiet_call in_section rcu_read_lock_update rcu_read_unlock_update
synchronize_rcu_returns_example = synchronize_rcu_returns quiet_call.0 refl (λ j. ground arith)

unlock-lock_example : record {
  ongoing : rcu_read_ongoing (rcu_read_lock_update 1 (2 ^ 32 + 1)) ≡ true;
  deeper : nest_of (rcu_read_lock_update 1 (2 ^ 32 + 1)) ≡ nest_of (2 ^ 32 + 1) + 1;
  phase :
      phase_of (rcu_read_lock_update 1 (2 ^ 32 + 1))
      ≡ (if rcu_read_ongoing (2 ^ 32 + 1) then phase_of (2 ^ 32 + 1) else phase_of 1);
  undone :
      nest_of (rcu_read_unlock_update (rcu_read_lock_update 1 (2 ^ 32 + 1))) ≡ nest_of (2 ^ 32 + 1);
  outermost : is_outermost (rcu_read_lock_update 1 (2 ^ 32 + 1)) ≡ (nest_of (2 ^ 32 + 1) == 0);
  restored :
      nest_of (2 ^ 32 + 1) ≢ 0
      → rcu_read_unlock_update (rcu_read_lock_update 1 (2 ^ 32 + 1)) ≡ 2 ^ 32 + 1;
}
unlock-lock_example = unlock-lock 1 (2 ^ 32 + 1) (omega arith) refl (omega arith) (omega arith)

switch_parity_classes_example : record {
  twice : switch_parity (switch_parity 1) ≡ 1;
  count : nest_of (switch_parity 1) ≡ nest_of 1;
  inactive :
      (rcu_reader_state 1 1 ≡ RcuState.inactive)
      ↔ (rcu_reader_state (switch_parity 1) 1 ≡ RcuState.inactive);
  current :
      (rcu_reader_state 1 1 ≡ RcuState.active_current)
      ↔ (rcu_reader_state (switch_parity 1) 1 ≡ RcuState.active_old);
  old :
      (rcu_reader_state 1 1 ≡ RcuState.active_old)
      ↔ (rcu_reader_state (switch_parity 1) 1 ≡ RcuState.active_current);
}
switch_parity_classes_example = switch_parity_classes 1 1

-- Reader 1 is current, reader 2 old, reader 3 inactive.
three_readers : Lists
three_readers = record { registry = 1 ∷ 2 ∷ 3 ∷ []; cur_snap = []; qsreaders = [] }

words : ℕ → ℕ
words i = if i == 1 then 1 else if i == 2 then 2 ^ 32 + 1 else 0

scan_pass_sorts_example :
    (has 2 (input first (scan_pass first 1 words (input first three_readers) three_readers))
      ≡ (stays 1 words 2 && has 2 (input first three_readers)))
    × (has 2 (input first three_readers) ≡ true
        → has 2 (
            place first
              (rcu_reader_state 1 (words 2))
              (scan_pass first 1 words (input first three_readers) three_readers))
          ≡ true)
scan_pass_sorts_example = scan_pass_sorts first 1 words three_readers 2
