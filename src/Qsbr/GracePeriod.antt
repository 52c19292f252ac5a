-- ===== src/Qsbr/GracePeriod.antt =====
-- src/urcu-qsbr.c, `synchronize_rcu`: what its return tells the caller.
use liburcu.Prelude.{ℕ, ◌≡◌, ◌⊎◌, inl, inr, true, arith, ap}
use liburcu.Qsbr.System
use liburcu.Qsbr.System.{
  System, Step, Run, here, then_step, idle, finished, init, enter, take_locks, count_attempt,
  leave_or_wait, put_back, rcu_read_ongoing,
}
use liburcu.Qsbr.Invariant.{Inv, Run-Inv, Inv-init, Step-Inv, stage}

-- The step announces that reader `i` is quiescent: the store of its rcu_quiescent_state, or
-- of its rcu_thread_offline.
abbrev pub Announces : ℕ → {s t : System} → Step s t → Type 0
Announces i (System.store_quiescent j g e) = j ≡ i
Announces i (System.offline j a b) = j ≡ i
Announces i _ = ⊥

-- Reader `i` does so somewhere in the run.
abbrev pub Quiesces : ℕ → {s t : System} → Run s t → Type 0
Quiesces i here = ⊥
Quiesces i (then_step r st) = Quiesces i r ⊎ Announces i st

Step-older :
    {s t : System}
    → Inv s
    → (i : ℕ) (st : Step s t) → s.older i ≡ true
    → (t.older i ≡ true) ⊎ Announces i st
unfolding take_locks count_attempt leave_or_wait put_back rcu_read_ongoing
Step-older inv i (System.store_quiescent j g e) h = ground arith
Step-older inv i (System.offline j a b) h = ground arith
Step-older inv i (System.call e) h = ground (arith, inv.older_online i h)
Step-older inv i (System.lock e f) h = ground arith
Step-older inv i st h = ground arith

Run-older :
    {s t : System}
    → Inv s
    → (i : ℕ) (r : Run s t) → s.older i ≡ true
    → (t.older i ≡ true) ⊎ Quiesces i r
Run-older inv i here h = inl h
Run-older inv i (then_step r st) h = elim (Run-older inv i r h) [
  | inr before ↦ inr (inl before)
  | inl old ↦ elim (Step-older (Run-Inv inv r) i st old) [
    | inl still ↦ inl still
    | inr now ↦ inr (inr now)
  ]
]

-- From every reachable state: a reader that is online when synchronize_rcu is called, the caller
-- itself being offline, announces a quiescent state or goes offline before the call returns,
-- whatever the readers and the threads that register or unregister do meanwhile. Fewer than 2 ^ 63
-- grace periods have begun.
pub qsbr_synchronize_waits :
    {s t : System}
    → Run init s
    → s.writer ≡ idle
    → (r : Run (enter s) t) → t.writer ≡ finished
    → (i : ℕ) → rcu_read_ongoing (s.reader i).ctr ≡ true
    → Quiesces i r
qsbr_synchronize_waits before e r done i reading =
    let inv = Step-Inv (Run-Inv Inv-init before) (System.call e) in
    elim (Run-older inv i r reading) [
      | inl old ↦ absurd (rw (ap stage done) at ((Run-Inv inv r).waited i old))
      | inr announced ↦ announced
    ]
