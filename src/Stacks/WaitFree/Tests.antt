-- ===== src/Stacks/WaitFree/Tests.antt =====
-- Runs of include/urcu/static/wfstack.h.
use liburcu.Prelude.{ℕ, ◌≡◌, refl, some, List, [], ◌∷◌, true, false, arith}
use liburcu.Stacks.Spec.{popped, pushed, would_block, replay, spec}
use liburcu.Stacks.Chain.{Linked}
use liburcu.Stacks.WaitFree.{
  Stack, Step, Reachable, fresh, then_step, push_at, pop_at, exchange, linking,
}
use liburcu.Stacks.WaitFree.Invariant.{link, wait_free_refines, sync_next_waits}

abbrev Trace : Type 0
Trace = (s : Stack) × Reachable s

infixl 5 ◌▸◌
abbrev ◌▸◌ : (r : Trace) {t : Stack} → Step r.0 t → Trace
r ▸ st = (_, then_step r.1 st)

-- A node is pushed, another one up to its exchange; a pop reads the latter at the head.
held_up : Trace
unfolding push_at pop_at exchange replay spec
held_up =
    (_, fresh)
    ▸ Step.start_push 24 (λ e. ground arith) (λ e. ground arith) refl refl refl (λ i. refl)
    ▸ Step.push_step 24
    ▸ Step.start_push 40 (λ e. ground arith) (λ e. ground arith) refl refl refl (λ i. refl)
    ▸ Step.start_pop 0 false refl
    ▸ Step.pop_step 0

-- The pop gives up, the push goes on, and another pop takes the node.
popped_at_last : Trace
unfolding held_up push_at pop_at exchange replay spec
popped_at_last =
    held_up
    ▸ Step.pop_step 0
    ▸ Step.push_step 40
    ▸ Step.start_pop 1 true refl
    ▸ Step.pop_step 1
    ▸ Step.pop_step 1
    ▸ Step.pop_step 1

what_happened :
    (popped_at_last.0).events
    ≡ popped 40 false ∷ would_block ∷ pushed 40 true ∷ pushed 24 false ∷ []
unfolding held_up popped_at_last push_at pop_at exchange replay spec
what_happened = refl

wait_free_refines_example :
    (items : List ℕ) × ((replay 1 (popped_at_last.0).events ≡ some items)
      × Linked 1 (link popped_at_last.0) (popped_at_last.0).head items)
wait_free_refines_example = wait_free_refines popped_at_last.1

sync_next_waits_example : (old_head : ℕ) × ((held_up.0).push 40 ≡ linking old_head)
unfolding held_up push_at pop_at exchange replay spec
sync_next_waits_example = sync_next_waits {i = 0} {blocking = false} held_up.1 refl refl
