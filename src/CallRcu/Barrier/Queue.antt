-- ===== src/CallRcu/Barrier/Queue.antt =====
-- rcu_barrier makes its completion and queues its works.
use mathlib.Core.Path.{subst}
use mathlib.Core.List.{append-nil}
use liburcu.Prelude.{
  ℕ, ◌+◌, ◌≡◌, ◌≢◌, ◌≤◌, ◌<◌, refl, sym, ap, ◌∙◌, inl, inr, ◌⊎◌, true, List, [], ◌∷◌, ◌++◌, has,
  length, Distinct, update, update_elim, arith,
}
use liburcu.CallRcu.System.{Callback, work, ThreadPc, read_worker, enqueue, barrier, Completion}
use liburcu.CallRcu.Order.{IsPrefix}
use liburcu.CallRcu.Count.{count, tally, tally_zero}
use liburcu.CallRcu.Barrier.{Barriers, runs, todo, passed, grown, queued_once, passed-runs}

module _ {workers : List ℕ} {thread : ℕ → ThreadPc} {completion : ℕ → Completion} {allocated : ℕ}
    {called invoked : ℕ → List Callback} {before : ℕ → ℕ → List Callback}
    (inv : Barriers workers thread completion allocated called invoked before) where
  open inv use {
    at_most_once, unborn, pending, owned, born, todo_distinct, todo_known, snapshot, snapshot_free,
    counts, known, finished,
  }

  -- rcu_barrier queues its work at the next worker.
  pub work-Barriers :
      (t b w : ℕ) (ws : List ℕ)
      → thread t ≡ enqueue b (w ∷ ws)
      → Barriers workers
          (update thread t (read_worker w (barrier b ws)))
          completion
          allocated
          (update called w (called w ++ work b ∷ []))
          invoked
          before
  work-Barriers t b w ws e =
      let p : ThreadPc = read_worker w (barrier b ws) in
      let called' : ℕ → List Callback = update called w (called w ++ work b ∷ []) in
      let mine : runs (thread t) b ≡ true = rw e (ground arith) in
      let next : has w (todo (thread t)) ≡ true = rw e (ground arith) in
      let fresh_here : count b (called w) ≡ 0 = pending t b w mine next in
      let apart : Distinct (w ∷ ws) =
        subst (λ (q : ThreadPc). Distinct (todo q)) e (todo_distinct t) in
      let either : (d v : ℕ)
          → ((d ≡ b) × ((v ≡ w) × (count d (called' v) ≡ 1)))
            ⊎ (count d (called' v) ≡ count d (called v)) =
        λ d v.
          update_elim
            (λ l. ((d ≡ b) × ((v ≡ w) × (count d l ≡ 1))) ⊎ (count d l ≡ count d (called v))) called
            w (called w ++ work b ∷ []) v
            (λ f. queued_once d b v w (called w) (called v) f (ap called f) fresh_here)
            (λ f. inr refl) in
      record {
        at_most_once = λ d v. elim (either d v) [
          | inl (f, (g, k)) ↦ omega arith
          | inr k ↦ omega (arith, at_most_once d v)
        ];
        unborn = λ d v k. elim (either d v) [
          | inl (f, (g, l)) ↦ absurd (omega (arith, born t b mine))
          | inr l ↦ l ∙ unborn d v k
        ];
        pending = λ u d v.
            update_elim (λ q. runs q d ≡ true → has v (todo q) ≡ true → count d (called' v) ≡ 0)
              thread t p u
              (λ f k h. elim (either d v) [
                | inl (g, (i, l)) ↦ absurd (ground (arith, apart.0))
                | inr l ↦ l ∙ ground (arith, pending t b v mine (rw e (ground arith)))
              ])
              (λ f k h. elim (either d v) [
                | inl (g, (i, l)) ↦
                    absurd
                      (f (sym (owned u d k) ∙ (ap (λ j. (completion j).owner) g ∙ owned t b mine)))
                | inr l ↦ l ∙ pending u d v k h
              ]);
        owned = λ u d.
            update_elim (λ q. runs q d ≡ true → (completion d).owner ≡ u) thread t p u
              (λ f k. ground (arith, owned t b mine)) (λ f. owned u d);
        born = λ u d.
            update_elim (λ q. runs q d ≡ true → d < allocated) thread t p u
              (λ f k. ground (arith, born t b mine)) (λ f. born u d);
        todo_distinct = λ u.
            update_elim (λ q. Distinct (todo q)) thread t p u (λ f. apart.1) (λ f. todo_distinct u);
        todo_known = λ u v.
            update_elim (λ q. has v (todo q) ≡ true → has v workers ≡ true) thread t p u
              (λ f k. todo_known t v (rw e (ground arith))) (λ f. todo_known u v);
        snapshot = λ d v.
            update_elim (λ l. IsPrefix (before d v) l) called w (called w ++ work b ∷ []) v
              (λ f. grown (before d v) (called w) (work b ∷ []) (rw (sym f) (snapshot d v)))
              (λ f. snapshot d v);
        snapshot_free = snapshot_free;
        counts = counts;
        known = λ d v k. elim (either d v) [
          | inl (f, (g, l)) ↦ ground (arith, todo_known t w next)
          | inr l ↦ known d v (λ z. k (l ∙ z))
        ];
        finished = λ u d.
            update_elim (λ q. passed q d ≡ true → (completion d).barrier_count ≡ 0) thread t p u
              (λ f k. absurd (ground arith)) (λ f. finished u d);
      }

  -- rcu_barrier makes its completion.
  pub start-Barriers :
      (t futex refs : ℕ)
      → Distinct workers
      → ((b w : ℕ) → count b (invoked w) ≤ count b (called w))
      → Barriers workers
          (update thread t (enqueue allocated workers))
          (update completion allocated
            (record { barrier_count = length workers; futex = futex; refcount = refs; owner = t }))
          (allocated + 1)
          called
          invoked
          (update before allocated called)
  start-Barriers t futex refs dist le =
      let p : ThreadPc = enqueue allocated workers in
      let c : Completion = record {
        barrier_count = length workers;
        futex = futex;
        refcount = refs;
        owner = t;
      } in
      let old : (u b : ℕ) → runs (thread u) b ≡ true → b ≢ allocated =
        λ u b k e. omega (arith, born u b k) in
      record {
        at_most_once = at_most_once;
        unborn = λ b w k. unborn b w (omega arith);
        pending = λ u b w.
            update_elim (λ q. runs q b ≡ true → has w (todo q) ≡ true → count b (called w) ≡ 0)
              thread t p u (λ e k h. unborn b w (ground arith)) (λ e. pending u b w);
        owned = λ u b.
            update_elim (λ q. runs q b ≡ true → (update completion allocated c b).owner ≡ u) thread
              t p u
              (λ e k.
                update_elim (λ q. q.owner ≡ u) completion allocated c b (λ f. sym e)
                  (λ f. absurd (f (ground arith))))
              (λ e k.
                update_elim (λ q. q.owner ≡ u) completion allocated c b (λ f. absurd (old u b k f))
                  (λ f. owned u b k));
        born = λ u b.
            update_elim (λ q. runs q b ≡ true → b < allocated + 1) thread t p u
              (λ e k. ground arith) (λ e k. omega (arith, born u b k));
        todo_distinct = λ u.
            update_elim (λ q. Distinct (todo q)) thread t p u (λ e. dist) (λ e. todo_distinct u);
        todo_known = λ u w.
            update_elim (λ q. has w (todo q) ≡ true → has w workers ≡ true) thread t p u (λ e k. k)
              (λ e. todo_known u w);
        snapshot = λ b w.
            update_elim (λ l. IsPrefix (l w) (called w)) before allocated called b
              (λ e. ([], sym (append-nil (called w)))) (λ e. snapshot b w);
        snapshot_free = λ b w.
            update_elim (λ l. count b (l w) ≡ 0) before allocated called b
              (λ e. unborn b w (omega arith)) (λ e. snapshot_free b w);
        counts = λ b k.
            update_elim (λ q. q.barrier_count + tally b workers invoked ≡ length workers) completion
              allocated c b
              (λ e.
                let zero =
                  tally_zero b workers invoked
                    (λ w. omega (arith, le b w, unborn b w (omega arith))) in
                omega arith)
              (λ e. counts b (omega arith));
        known = known;
        finished = λ u b.
            update_elim
              (λ q. passed q b ≡ true → (update completion allocated c b).barrier_count ≡ 0) thread
              t p u (λ e k. absurd (ground arith))
              (λ e k.
                update_elim (λ q. q.barrier_count ≡ 0) completion allocated c b
                  (λ f. absurd (old u b (passed-runs (thread u) b k) f)) (λ f. finished u b k));
      }
