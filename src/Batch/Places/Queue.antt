-- ===== src/Batch/Places/Queue.antt =====
-- A wait node joins the queue, and a leader takes all of them.
use liburcu.Prelude.{
  ℕ, ◌≡◌, ◌≢◌, refl, true, false, ◌||◌, List, [], ◌∷◌, is_empty, has, Distinct, update,
  if◌then◌else◌, update_elim, arith,
}
use liburcu.Batch.System.{WaitState, Pc, add, move, start, urcu_wait_waiting}
use liburcu.Batch.Places.{
  waits, leads_queue, batch, has_led, wakes, adds, arrival, arrival_facts, no_members, Places,
}

module _ {queue : List ℕ} {state : ℕ → WaitState} {pc : ℕ → Pc} {leader : ℕ → ℕ}
    (inv : Places queue state pc leader) where
  open inv use {
    queue_distinct, batch_distinct, queued, apart, leads_it, one, batched, led, queue_untorn,
    batch_untorn, added, own_running, not_own,
  }

  -- urcu_wait_add
  pub add-Places :
      (i : ℕ)
      → pc i ≡ add
      → Places (i ∷ queue) state (update pc i (arrival (is_empty queue))) leader
  add-Places i e =
      let p = arrival (is_empty queue) in
      let (empty, (in_queue, (not_add, (not_led, (lq, no_wake))))) =
        arrival_facts (is_empty queue) in
      let none : (n : ℕ) → has n (batch p) ≡ false = λ n. rw empty refl in
      let off : has i queue ≡ false = ground (arith, queued i) in
      let first : (j : ℕ) → leads_queue p ≡ true → leads_queue (pc j) ≡ false =
        λ j k. ground (arith, leads_it j, no_members queue j) in
      record {
        queue_distinct = (off, queue_distinct);
        batch_distinct = λ j.
            update_elim (λ q. Distinct (batch q)) pc i p j (λ f. rw empty tt)
              (λ f. batch_distinct j);
        queued = λ n k.
            update_elim (λ q. (waits q || leads_queue q) ≡ true) pc i p n (λ f. in_queue)
              (λ f. queued n (ground arith));
        apart = λ n j k.
            update_elim (λ q. has n (batch q) ≡ false) pc i p j (λ f. none n)
              (λ f. ground (arith, apart n j, batched n j));
        leads_it = λ j.
            update_elim (λ q. leads_queue q ≡ true → has j (i ∷ queue) ≡ true) pc i p j
              (λ f. ground arith) (λ f. ground (arith, leads_it j));
        one = λ j k.
            update_elim (λ q. leads_queue q ≡ true → leads_queue (update pc i p k) ≡ true → j ≡ k)
              pc i p j
              (λ f.
                update_elim (λ q. leads_queue p ≡ true → leads_queue q ≡ true → j ≡ k) pc i p k
                  (λ g. ground arith) (λ g. ground (arith, first k)))
              (λ f.
                update_elim (λ q. leads_queue (pc j) ≡ true → leads_queue q ≡ true → j ≡ k) pc i p k
                  (λ g. ground (arith, first j)) (λ g. one j k));
        batched = λ n j.
            update_elim (λ q. has n (batch q) ≡ true → n ≢ j → waits (update pc i p n) ≡ true) pc i
              p j (λ f. ground (arith, none n))
              (λ f k ne.
                update_elim (λ q. waits q ≡ true) pc i p n (λ g. ground (arith, batched n j k ne))
                  (λ g. batched n j k ne));
        led = λ n j.
            update_elim (λ q. has n (batch q) ≡ true → leader n ≡ j) pc i p j
              (λ f. ground (arith, none n)) (λ f. led n j);
        queue_untorn = λ n k. ground (arith, queue_untorn n, added i);
        batch_untorn = λ n j.
            update_elim (λ q. has n (batch q) ≡ true → (state n).teardown ≡ false) pc i p j
              (λ f. ground (arith, none n)) (λ f. batch_untorn n j);
        added = λ j.
            update_elim (λ q. adds q ≡ true → state j ≡ urcu_wait_waiting) pc i p j
              (λ f. ground (arith, not_add)) (λ f. added j);
        own_running = λ j.
            update_elim (λ q. has_led q ≡ true → (state j).running ≡ true) pc i p j
              (λ f. ground (arith, not_led)) (λ f. own_running j);
        not_own = λ j n.
            update_elim (λ q. wakes q n ≡ true → n ≢ j) pc i p j (λ f. ground (arith, no_wake n))
              (λ f. not_own j n);
      }

  -- urcu_move_waiters
  pub move-Places :
      (i : ℕ)
      → pc i ≡ move
      → Places [] state (update pc i (start queue)) (λ n. if has n queue then i else leader n)
  move-Places i e = record {
    queue_distinct = tt;
    batch_distinct = λ j.
        update_elim (λ q. Distinct (batch q)) pc i (start queue) j (λ f. queue_distinct)
          (λ f. batch_distinct j);
    queued = λ n k. absurd (ground arith);
    apart = λ n j k. absurd (ground arith);
    leads_it = λ j.
        update_elim (λ q. leads_queue q ≡ true → has j [] ≡ true) pc i (start queue) j
          (λ f. ground arith) (λ f k. absurd (f (one j i k (ground arith))));
    one = λ j k.
        update_elim
          (λ q. leads_queue q ≡ true → leads_queue (update pc i (start queue) k) ≡ true → j ≡ k) pc
          i (start queue) j (λ f. ground arith) (λ f l. absurd (f (one j i l (ground arith))));
    batched = λ n j.
        update_elim
          (λ q. has n (batch q) ≡ true → n ≢ j → waits (update pc i (start queue) n) ≡ true) pc i
          (start queue) j
          (λ f k ne.
            update_elim (λ q. waits q ≡ true) pc i (start queue) n (λ g. ground arith)
              (λ g. ground (arith, queued n k, one n i)))
          (λ f k ne.
            update_elim (λ q. waits q ≡ true) pc i (start queue) n
              (λ g. ground (arith, batched n j k ne)) (λ g. batched n j k ne));
    led = λ n j.
        update_elim (λ q. has n (batch q) ≡ true → (if has n queue then i else leader n) ≡ j) pc i
          (start queue) j (λ f. ground arith) (λ f. ground (arith, led n j, apart n j));
    queue_untorn = λ n k. absurd (ground arith);
    batch_untorn = λ n j.
        update_elim (λ q. has n (batch q) ≡ true → (state n).teardown ≡ false) pc i (start queue) j
          (λ f. queue_untorn n) (λ f. batch_untorn n j);
    added = λ j.
        update_elim (λ q. adds q ≡ true → state j ≡ urcu_wait_waiting) pc i (start queue) j
          (λ f. ground arith) (λ f. added j);
    own_running = λ j.
        update_elim (λ q. has_led q ≡ true → (state j).running ≡ true) pc i (start queue) j
          (λ f. ground (arith, own_running i)) (λ f. own_running j);
    not_own = λ j n.
        update_elim (λ q. wakes q n ≡ true → n ≢ j) pc i (start queue) j (λ f. ground arith)
          (λ f. not_own j n);
  }
