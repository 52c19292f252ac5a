-- ===== src/Wfcq/Tests.antt =====
-- Runs of a queue, and the theorems at them.
use liburcu.Prelude.{
  ℕ, zero, suc, ◌≡◌, ◌≢◌, refl, inl, inr, Bool, true, false, List, [], ◌∷◌, is_empty, arith,
}
use liburcu.Wfcq.Queue.{
  Queue, init, null, would_block, node, idle, exchange_tail, store_next, start_dequeue, dequeue_at,
  dequeue_step, Step, Reachable, fresh, then_step, was_non_empty,
}
use liburcu.Wfcq.Chain.{last}
use liburcu.Wfcq.Fifo.{first_in_first_out, null_when_empty, dequeue_takes_oldest}
use liburcu.Wfcq.Blocking.{waits_for_enqueuer}
use liburcu.Wfcq.Progress.{alone, outcome, dequeue_returns}

-- The head node is at 1.
abbrev pub head_node : ℕ
head_node = 1

head_node-NonNull : head_node ≢ 0
head_node-NonNull e = ground arith

-- Two enqueues that overlap: both exchanges, and the second one's store only.
abbrev pub overlapping : Queue
overlapping = store_next 11 (exchange_tail 11 (exchange_tail 10 (init 1)))

overlapping-Reachable : Reachable 1 overlapping
overlapping-Reachable =
    then_step
      (then_step
        (then_step fresh (Step.exchange 10 (λ e. ground arith) (λ e. ground arith) refl refl))
        (Step.exchange 11 (λ e. ground arith) (λ e. ground arith) refl refl))
      (Step.store 11 (λ e. ground arith))

abbrev pub linked : Queue
linked = store_next 10 overlapping

linked-Reachable : Reachable 1 linked
linked-Reachable = then_step overlapping-Reachable (Step.store 10 (λ e. ground arith))

-- The dequeuer's next accesses.
abbrev pub accesses : ℕ → Queue → Queue
accesses zero s = s
accesses (suc k) s = dequeue_step 1 (accesses k s)

accesses-Reachable : (k : ℕ) (s : Queue) → Reachable 1 s → Reachable 1 (accesses k s)
accesses-Reachable zero s r = r
accesses-Reachable (suc k) s r = then_step (accesses-Reachable k s r) Step.advance

start-Reachable :
    (b : Bool) (s : Queue) → s.pc ≡ idle null → Reachable 1 s → Reachable 1 (start_dequeue b s)
start-Reachable b s e r = then_step r (Step.start null b e)

would_block_run : (accesses 4 (start_dequeue false overlapping)).pc ≡ idle would_block
unfolding dequeue_step dequeue_at
would_block_run = refl

second_not_first : was_non_empty 1 (linked.tail) ≡ true
second_not_first = refl

first_in_first_out_example : (rest : List ℕ) × ((10 ∷ 11 ∷ [] ≡ 10 ∷ rest) × (11 ≡ last 1 rest))
unfolding dequeue_step dequeue_at
first_in_first_out_example =
    first_in_first_out {h = 1} {s = accesses 4 (start_dequeue true linked)} head_node-NonNull
      (accesses-Reachable 4 _ (start-Reachable true linked refl linked-Reachable))

null_when_empty_example :
    (accesses 1 (start_dequeue true (init 1))).enqueued
    ≡ (accesses 1 (start_dequeue true (init 1))).dequeued
unfolding dequeue_step dequeue_at
null_when_empty_example =
    null_when_empty {h = 1} {s = accesses 1 (start_dequeue true (init 1))} head_node-NonNull
      (accesses-Reachable 1 _ (start-Reachable true (init 1) refl fresh)) refl refl

dequeue_takes_oldest_example :
    (rest : List ℕ) × ((10 ∷ 11 ∷ [] ≡ 10 ∷ rest)
      × (((accesses 4 (start_dequeue true linked)).dequeued ≡ 10 ∷ [])
          × ((accesses 4 (start_dequeue true linked)).pc ≡ idle (node 10 (is_empty rest)))))
unfolding dequeue_step dequeue_at
dequeue_takes_oldest_example =
    dequeue_takes_oldest {h = 1} {s = accesses 3 (start_dequeue true linked)} 10 head_node-NonNull
      (accesses-Reachable 3 _ (start-Reachable true linked refl linked-Reachable)) (inr (11, refl))

waits_for_enqueuer_example :
    (m : ℕ) × (((accesses 2 (start_dequeue true overlapping)).old_tail m ≡ 1) × (head_node ≢ 0))
unfolding dequeue_step dequeue_at
waits_for_enqueuer_example =
    waits_for_enqueuer {h = 1} {s = accesses 2 (start_dequeue true overlapping)} 1 head_node-NonNull
      (accesses-Reachable 2 _ (start-Reachable true overlapping refl overlapping-Reachable))
      (inl (refl, refl)) refl

linked-quiet : (n : ℕ) → linked.old_tail n ≡ 0
linked-quiet n = ground arith

dequeue_returns_example :
    (rest : List ℕ) × ((10 ∷ 11 ∷ [] ≡ rest)
      × ((alone 5 1 (start_dequeue true linked)).pc ≡ idle (outcome rest)))
dequeue_returns_example =
    dequeue_returns {h = 1} {s = linked} null true head_node-NonNull linked-Reachable refl
      linked-quiet
