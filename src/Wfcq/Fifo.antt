-- ===== src/Wfcq/Fifo.antt =====
-- include/urcu/static/wfcqueue.h: the order of the queue, and what a dequeue returns.
use mathlib.Core.List.{append-nil}
use mathlib.Core.Path.{sym, ◌∙◌}
use liburcu.Prelude.{
  ℕ, ◌≡◌, ◌≢◌, ◌⊎◌, refl, ap, Bool-cases, false, List, [], ◌∷◌, ◌++◌, ◌==◌, has, arith, inl, inr,
  is_empty,
}
use liburcu.Wfcq.Queue.{
  Queue, null, node, idle, check_tail, sync_head, swap_tail, move_head, dequeue_at, dequeue_step,
  Reachable,
}
use liburcu.Wfcq.Chain.{last, has-last}
use liburcu.Wfcq.Invariant.{Reachable-Holds, swap_tail-Holds, move_head-Holds}

-- Any number of threads enqueue while one dequeues: the nodes dequeued so far, in order, are the
-- first of the nodes enqueued, in the order of the enqueuers' exchanges; and the tail is
-- the last of the rest, or the head node where nothing is left.
pub first_in_first_out :
    {h : ℕ} {s : Queue}
    → h ≢ 0
    → Reachable h s
    → (rest : List ℕ) × ((s.enqueued ≡ s.dequeued ++ rest) × (s.tail ≡ last h rest))
first_in_first_out ne r = let (rest, inv) = Reachable-Holds ne r in (rest, (inv.order, inv.at_tail))

last-head : (h : ℕ) (l : List ℕ) → last h l ≡ h → has h l ≡ false → l ≡ []
last-head h [] e u = refl
last-head h (c ∷ cs) e u = absurd (ground (arith, has-last c cs))

-- A dequeue returns NULL only at a moment when no enqueued node is left: each has been dequeued.
pub null_when_empty :
    {h : ℕ} {s : Queue}
    → h ≢ 0
    → Reachable h s
    → s.pc ≡ check_tail
    → (dequeue_step h s).pc ≡ idle null
    → s.enqueued ≡ s.dequeued
unfolding dequeue_step dequeue_at
null_when_empty {h} {s} ne r at e =
    let (rest, inv) = Reachable-Holds ne r in
    let t : s.tail ≡ h = elim (Bool-cases (s.tail == h)) [
      | inl z ↦ ground arith
      | inr z ↦ let d : sync_head ≡ idle null = rw (at, z) at e in cc
    ] in
    inv.order
    ∙ ap (λ l. s.dequeued ++ l) (last-head h rest (sym inv.at_tail ∙ t) (inv.distinct.0))
    ∙ append-nil s.dequeued

-- The accesses at which a dequeue hands out the node: the cmpxchg that succeeds, and the store to
-- the head node.
abbrev pub Returning : ℕ → Queue → Type 0
Returning n s = ((s.pc ≡ swap_tail n) × (s.tail ≡ n)) ⊎ ((nx : ℕ) × (s.pc ≡ move_head n nx))

-- Where a dequeue returns a node, it is the oldest node enqueued and not dequeued yet; it is
-- returned once; and the flag CDS_WFCQ_STATE_LAST says whether no other was left.
pub dequeue_takes_oldest :
    {h : ℕ} {s : Queue} (n : ℕ)
    → h ≢ 0
    → Reachable h s
    → Returning n s
    → (rest : List ℕ) × ((s.enqueued ≡ s.dequeued ++ n ∷ rest)
        × (((dequeue_step h s).dequeued ≡ s.dequeued ++ n ∷ [])
            × ((dequeue_step h s).pc ≡ idle (node n (is_empty rest)))))
unfolding dequeue_step dequeue_at
dequeue_takes_oldest {h} {s} n ne r (inl (at, t)) =
    let (items, inv) = Reachable-Holds ne r in
    let (one, after) = swap_tail-Holds n at t inv in
    (
      [],
      (
        inv.order ∙ ap (λ l. s.dequeued ++ l) one,
        (rw (at, t) (ground arith), rw (at, t) (ground arith)),
      ),
    )
dequeue_takes_oldest {h} {s} n ne r (inr (nx, at)) =
    let (items, inv) = Reachable-Holds ne r in
    let (rest, (first, after)) = move_head-Holds n nx at inv in
    (nx ∷ rest, (inv.order ∙ ap (λ l. s.dequeued ++ l) first, (rw at refl, rw at refl)))
