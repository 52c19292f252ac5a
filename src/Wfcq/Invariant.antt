-- ===== src/Wfcq/Invariant.antt =====
-- include/urcu/static/wfcqueue.h: what a queue holds, and that each step keeps it.
mod Defs
mod Enqueue
mod Dequeue
pub use Defs.*
pub use Dequeue.{swap_tail-Holds, move_head-Holds}
use mathlib.Core.Path.{subst}
use liburcu.Prelude.{ℕ, ◌≡◌, ◌≢◌, ◌∷◌, ◌++◌, [], List, refl, arith}
use liburcu.Wfcq.Queue.{Queue, init, Step, Reachable, fresh, then_step}
use liburcu.Wfcq.Invariant.Enqueue.{
  node_init-Holds, exchange_tail-Holds, store_next-Holds, start_dequeue-Holds,
}
use liburcu.Wfcq.Invariant.Dequeue.{dequeue_step-Holds}

Holds-init : (h : ℕ) → h ≢ 0 → Holds h (init h) []
Holds-init h ne = record {
  chain = refl;
  distinct = (refl, tt);
  no_null = ground arith;
  at_tail = refl;
  taken = λ n m. cc;
  pending = λ n k. absurd (k refl);
  order = refl;
  local = tt;
}

pub Step-Holds :
    {h : ℕ} {s t : Queue} {items : List ℕ}
    → Holds h s items
    → Step h s t
    → (rest : List ℕ) × Holds h t rest
Step-Holds {items = l} inv (Step.init_node n off own) = (l, node_init-Holds n off own inv)
Step-Holds {items = l} inv (Step.exchange n off nz own e) =
    (l ++ n ∷ [], exchange_tail-Holds n off nz own e inv)
Step-Holds {items = l} inv (Step.store n owed) = (l, store_next-Holds n owed inv)
Step-Holds {items = l} inv (Step.start r b e) = (l, start_dequeue-Holds r b e inv)
Step-Holds {h} {s} {items = l} inv Step.advance = dequeue_step-Holds h s l inv

-- A reachable queue holds some list of nodes.
pub Reachable-Holds :
    {h : ℕ} {s : Queue} → h ≢ 0 → Reachable h s → (items : List ℕ) × Holds h s items
Reachable-Holds ne fresh = ([], Holds-init _ ne)
Reachable-Holds ne (then_step r st) = let (items, inv) = Reachable-Holds ne r in Step-Holds inv st
