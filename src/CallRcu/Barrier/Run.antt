-- ===== src/CallRcu/Barrier/Run.antt =====
-- A worker runs a callback.

use liburcu.Prelude.{
  ℕ, ◌+◌, ◌-◌, ◌≡◌, ◌≢◌, ◌≤◌, ◌<◌, refl, sym, ap, ◌∙◌, true, List, [], ◌∷◌, ◌++◌, has, length,
  Distinct, update, update_elim, arith,
}
use liburcu.CallRcu.System.{Callback, user, work, ThreadPc, Completion}
use liburcu.CallRcu.Count.{count, tally, count-append, tally_one, tally_less, tally_same}
use liburcu.CallRcu.Barrier.{Barriers}

module _ {workers : List ℕ} {thread : ℕ → ThreadPc} {completion : ℕ → Completion} {allocated : ℕ}
    {called invoked : ℕ → List Callback} {before : ℕ → ℕ → List Callback}
    (inv : Barriers workers thread completion allocated called invoked before) where
  open inv use {
    at_most_once, unborn, pending, owned, born, todo_distinct, todo_known, snapshot, snapshot_free,
    counts, known, finished,
  }

  -- A callback of call_rcu runs.
  pub ran_user-Barriers :
      (w head : ℕ)
      → Barriers workers thread completion allocated called
          (update invoked w (invoked w ++ user head ∷ []))
          before
  ran_user-Barriers w head = record {
    at_most_once = at_most_once;
    unborn = unborn;
    pending = pending;
    owned = owned;
    born = born;
    todo_distinct = todo_distinct;
    todo_known = todo_known;
    snapshot = snapshot;
    snapshot_free = snapshot_free;
    counts = λ b k.
        rw
          (tally_same b workers invoked (update invoked w (invoked w ++ user head ∷ [])) (λ v.
            update_elim (λ l. count b l ≡ count b (invoked v)) invoked w
              (invoked w ++ user head ∷ []) v
              (λ e. rw e (omega (arith, count-append b (invoked w) (user head ∷ [])))) (λ e. refl)))
          (counts b k);
    known = known;
    finished = finished;
  }

  -- A work runs: its count goes down.
  pub ran_work-Barriers :
      (b w : ℕ)
      → Distinct workers
      → ((d v : ℕ) → count d (invoked v) ≤ count d (called v))
      → count b (called w) ≢ 0
      → count b (invoked w) ≡ 0
      → Barriers workers thread
          (update completion b
            (record (completion b) { barrier_count = (completion b).barrier_count - 1 }))
          allocated
          called
          (update invoked w (invoked w ++ work b ∷ []))
          before
  ran_work-Barriers b w dist le there off =
      let l = invoked w ++ work b ∷ [] in
      let c : Completion = record (completion b) {
        barrier_count = (completion b).barrier_count - 1;
      } in
      let member : has w workers ≡ true = known b w there in
      let alive : b < allocated = ground (arith, unborn b w) in
      let others : (d : ℕ)
          → d ≢ b
          → tally d workers (update invoked w l) ≡ tally d workers invoked =
        λ d ne. tally_same d workers invoked (update invoked w l) (λ v.
          update_elim (λ m. count d m ≡ count d (invoked v)) invoked w l v
            (λ e. rw e (ground (arith, count-append d (invoked w) (work b ∷ [])))) (λ e. refl)) in
      let more = tally_one b workers invoked w l dist member in
      let one : count b l ≡ 1 = ground (arith, count-append b (invoked w) (work b ∷ [])) in
      let less =
        tally_less b workers invoked w (λ v. omega (arith, le b v, at_most_once b v)) member off in
      record {
        at_most_once = at_most_once;
        unborn = unborn;
        pending = pending;
        owned = λ t d k.
            update_elim (λ q. q.owner ≡ t) completion b c d
              (λ f. ap (λ i. (completion i).owner) (sym f) ∙ owned t d k) (λ f. owned t d k);
        born = born;
        todo_distinct = todo_distinct;
        todo_known = todo_known;
        snapshot = snapshot;
        snapshot_free = snapshot_free;
        counts = λ d k.
            update_elim
              (λ q. q.barrier_count + tally d workers (update invoked w l) ≡ length workers)
              completion b c d (λ f. rw f (omega (arith, more, one, less, counts b alive)))
              (λ f. rw (others d f) (counts d k));
        known = known;
        finished = λ t d k.
            update_elim (λ q. q.barrier_count ≡ 0) completion b c d
              (λ f.
                let z = finished t d k in
                let same = ap (λ i. (completion i).barrier_count) f in omega arith)
              (λ f. finished t d k);
      }
