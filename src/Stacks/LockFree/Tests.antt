-- ===== src/Stacks/LockFree/Tests.antt =====
-- Runs of include/urcu/static/lfstack.h.
use liburcu.Prelude.{ℕ, ◌≡◌, refl, some, List, [], ◌∷◌, true, false, arith}
use liburcu.Stacks.Spec.{popped, pushed, replay, spec}
use liburcu.Stacks.LockFree.{Stack, Step, Reachable, fresh, then_step, push_at, pop_at}
use liburcu.Stacks.Chain.{Linked}
use liburcu.Stacks.LockFree.Invariant.{lock_free_refines}

abbrev Trace : Type 0
Trace = (s : Stack) × Reachable s

infixl 5 ◌▸◌
abbrev ◌▸◌ : (r : Trace) {t : Stack} → Step r.0 t → Trace
r ▸ st = (_, then_step r.1 st)

-- Two pushes of which the first one's cmpxchg fails once, and a pop.
two_pushes_and_a_pop : Trace
unfolding push_at pop_at replay spec
two_pushes_and_a_pop =
    (_, fresh)
    ▸ Step.start_push 24 (λ e. ground arith) refl refl (λ i. refl)
    ▸ Step.push_step 24
    ▸ Step.start_push 40 (λ e. ground arith) refl refl (λ i. refl)
    ▸ Step.push_step 40
    ▸ Step.push_step 40
    ▸ Step.push_step 24
    ▸ Step.push_step 24
    ▸ Step.push_step 24
    ▸ Step.start_pop 0 refl
    ▸ Step.pop_step 0
    ▸ Step.pop_step 0
    ▸ Step.pop_step 0

what_happened :
    (two_pushes_and_a_pop.0).events ≡ popped 24 false ∷ pushed 24 true ∷ pushed 40 false ∷ []
unfolding two_pushes_and_a_pop push_at pop_at replay spec
what_happened = refl

lock_free_refines_example :
    (items : List ℕ) × ((replay 0 (two_pushes_and_a_pop.0).events ≡ some items)
      × Linked 0 (two_pushes_and_a_pop.0).next (two_pushes_and_a_pop.0).head items)
lock_free_refines_example = lock_free_refines two_pushes_and_a_pop.1
