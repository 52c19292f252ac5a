-- ===== src/Rcu/GracePeriod.antt =====
-- src/urcu.c, `synchronize_rcu`: what its return tells the caller.
use liburcu.Prelude.{ℕ, ◌≡◌, ◌≢◌, ◌⊎◌, inl, inr, true, arith, ap}
use liburcu.Rcu.Reader.{rcu_read_ongoing}
use liburcu.Rcu.System
use liburcu.Rcu.System.{
  System, Step, Run, here, then_step, idle, finished, init, enter, take_locks, count_attempt,
  leave_or_wait, switch_and_wait, put_back,
}
use liburcu.Rcu.Invariant.{Inv, Run-Inv, Inv-init, Step-Inv, stage}

-- The step is the outermost `rcu_read_unlock` of reader `i`.
abbrev pub Unlocks : ℕ → {s t : System} → Step s t → Type 0
Unlocks i (System.unlock_outer j a b) = j ≡ i
Unlocks i _ = ⊥

-- Reader `i` ends a read-side section somewhere in the run.
abbrev pub Leaves : ℕ → {s t : System} → Run s t → Type 0
Leaves i here = ⊥
Leaves i (then_step r st) = Leaves i r ⊎ Unlocks i st

Step-older :
    {s t : System}
    → Inv s
    → (i : ℕ) (st : Step s t) → s.older i ≡ true
    → (t.older i ≡ true) ⊎ Unlocks i st
unfolding take_locks count_attempt leave_or_wait switch_and_wait put_back rcu_read_ongoing
Step-older inv i (System.unlock_outer j a b) h = ground arith
Step-older inv i (System.call e) h = ground (arith, inv.older_active i h)
Step-older inv i (System.lock e) h = ground arith
Step-older inv i st h = ground arith

Run-older :
    {s t : System}
    → Inv s
    → (i : ℕ) (r : Run s t) → s.older i ≡ true
    → (t.older i ≡ true) ⊎ Leaves i r
Run-older inv i here h = inl h
Run-older inv i (then_step r st) h = elim (Run-older inv i r h) [
  | inl old ↦ elim (Step-older (Run-Inv inv r) i st old) [
    | inl still ↦ inl still
    | inr left ↦ inr (inr left)
  ]
  | inr left ↦ inr (inl left)
]

not-older : {t : System} → Inv t → t.writer ≡ finished → (i : ℕ) → t.older i ≢ true
not-older inv e i h = rw (ap stage e) at (inv.waited i h)

-- From every reachable state: a reader that is in a read-side section when `synchronize_rcu` is
-- called ends that section, by its outermost `rcu_read_unlock`, before the call returns, whatever
-- the readers and the threads that register or unregister do meanwhile.
pub synchronize_rcu_waits :
    {s t : System}
    → Run init s
    → s.writer ≡ idle
    → (r : Run (enter s) t) → t.writer ≡ finished
    → (i : ℕ) → rcu_read_ongoing (s.reader i).ctr ≡ true
    → Leaves i r
synchronize_rcu_waits before e r done i reading =
    elim (Run-older (Step-Inv (Run-Inv Inv-init before) (System.call e)) i r reading) [
      | inl old ↦
          absurd
            (not-older (Run-Inv (Step-Inv (Run-Inv Inv-init before) (System.call e)) r) done i old)
      | inr left ↦ left
    ]
