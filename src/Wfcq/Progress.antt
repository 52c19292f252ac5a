-- ===== src/Wfcq/Progress.antt =====
-- include/urcu/static/wfcqueue.h: a dequeue that nothing disturbs returns.
use mathlib.Core.Path.{◌∙◌, subst}
use liburcu.Prelude.{
  ℕ, zero, suc, ◌≡◌, ◌≢◌, refl, ap, Bool, true, false, List, [], ◌∷◌, ◌++◌, ◌==◌, has, arith,
  is_empty,
}
use liburcu.Wfcq.Queue.{
  Queue, Result, null, node, idle, dequeue_at, dequeue_step, Reachable, start_dequeue,
}
use liburcu.Wfcq.Chain.{Chain, last}
use liburcu.Wfcq.Invariant.{view, Reachable-Holds}

-- The dequeuer's next `k` accesses, with no other thread between.
unfoldable pub alone : ℕ → ℕ → Queue → Queue
alone zero h s = s
alone (suc k) h s = alone k h (dequeue_step h s)

-- What a dequeue of the queue `items` returns.
unfoldable pub outcome : List ℕ → Result
outcome [] = null
outcome (n ∷ rest) = node n (is_empty rest)

-- A whole dequeue, by what the loads read.
runs_null :
    (h : ℕ) (b : Bool) (s : Queue)
    → (s.next h == 0) ≡ true
    → (s.tail == h) ≡ true
    → (alone 5 h (start_dequeue b s)).pc ≡ idle null
unfolding alone dequeue_step dequeue_at
runs_null h b s e t = rw (e, t) refl

runs_last :
    (h : ℕ) (b : Bool) (s : Queue)
    → (s.next h == 0) ≡ false
    → (s.next (s.next h) == 0) ≡ true
    → (s.tail == s.next h) ≡ true
    → (alone 5 h (start_dequeue b s)).pc ≡ idle (node (s.next h) true)
unfolding alone dequeue_step dequeue_at
runs_last h b s e l t = rw (e, e, l, t) refl

runs_more :
    (h : ℕ) (b : Bool) (s : Queue)
    → (s.next h == 0) ≡ false
    → (s.next (s.next h) == 0) ≡ false
    → (alone 5 h (start_dequeue b s)).pc ≡ idle (node (s.next h) false)
unfolding alone dequeue_step dequeue_at
runs_more h b s e l = rw (e, e, l) refl

returns :
    (h : ℕ) (s : Queue) (items : List ℕ) (b : Bool)
    → Chain s.old_tail s.next h items
    → has 0 (h ∷ items) ≡ false
    → s.tail ≡ last h items
    → ((n : ℕ) → s.old_tail n ≡ 0)
    → (alone 5 h (start_dequeue b s)).pc ≡ idle (outcome items)
unfolding outcome
returns h s [] b c z t quiet = runs_null h b s (ground arith) (ground arith)
returns h s (n ∷ []) b (l, c) z t quiet =
    let first : s.next h ≡ n = ground (arith, quiet n) in
    runs_last h b s (ground arith) (ground arith) (ground arith)
    ∙ ap (λ x. idle (node x true)) first
returns h s (n ∷ m ∷ items) b (l, (k, c)) z t quiet =
    let first : s.next h ≡ n = ground (arith, quiet n) in
    let second : s.next n ≡ m = ground (arith, quiet m) in
    runs_more h b s (ground arith) (ground arith) ∙ ap (λ x. idle (node x false)) first

-- Once no enqueue stands between its exchange and its store, a dequeue, blocking or not, returns
-- within five shared accesses: the oldest node, with the flag of the last one, or NULL where
-- every node has been dequeued.
pub dequeue_returns :
    {h : ℕ} {s : Queue} (r : Result) (b : Bool)
    → h ≢ 0
    → Reachable h s
    → s.pc ≡ idle r
    → ((n : ℕ) → s.old_tail n ≡ 0)
    → (rest : List ℕ) × ((s.enqueued ≡ s.dequeued ++ rest)
        × ((alone 5 h (start_dequeue b s)).pc ≡ idle (outcome rest)))
dequeue_returns {h} {s} r b ne reach at quiet =
    let (items, inv) = Reachable-Holds ne reach in
    let c = subst (λ p. Chain s.old_tail (view h p s.next) h items) at inv.chain in
    (items, (inv.order, returns h s items b c inv.no_null inv.at_tail quiet))
