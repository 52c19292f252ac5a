-- ===== src/CallRcu/Barrier.antt =====
-- src/urcu-call-rcu-impl.h: the works of rcu_barrier, and its completion.
pub mod Queue
pub mod Run
use mathlib.Core.Path.{subst}
use mathlib.Core.List.{append-nil, append_assoc}
use liburcu.Prelude.{
  ℕ, ◌+◌, ◌-◌, ◌≡◌, ◌≢◌, ◌≤◌, ◌<◌, refl, sym, ap, ◌∙◌, Bool, Bool-cases, inl, inr, ◌⊎◌, true, false,
  List, [], ◌∷◌, ◌++◌, ◌==◌, has, length, Distinct, update, update_elim, arith,
}
use liburcu.CallRcu.System.{
  Callback, user, work, ThreadPc, outside, read_worker, set_worker, wake_worker, enqueue,
  dec_completion, read_count, read_completion, wait_completion, sleep_completion, put, done, Rest,
  return, barrier, Completion,
}
use liburcu.CallRcu.Order.{IsPrefix}
use liburcu.CallRcu.Count.{
  count, tally, count-append, tally_one, tally_less, tally_same, tally_zero,
}

abbrev pub rest_runs : Rest → ℕ → Bool
rest_runs return b = false
rest_runs (barrier c ws) b = b == c

-- A thread in rcu_barrier, with its completion.
abbrev pub runs : ThreadPc → ℕ → Bool
runs outside b = false
runs (read_worker w rest) b = rest_runs rest b
runs (set_worker w rest) b = rest_runs rest b
runs (wake_worker w rest) b = rest_runs rest b
runs (enqueue c ws) b = b == c
runs (dec_completion c) b = b == c
runs (read_count c) b = b == c
runs (read_completion c) b = b == c
runs (wait_completion c) b = b == c
runs (sleep_completion c) b = b == c
runs (put c) b = b == c
runs (done c) b = b == c

abbrev pub rest_todo : Rest → List ℕ
rest_todo return = []
rest_todo (barrier c ws) = ws

-- The workers that it has not given its work yet.
abbrev pub todo : ThreadPc → List ℕ
todo (read_worker w rest) = rest_todo rest
todo (set_worker w rest) = rest_todo rest
todo (wake_worker w rest) = rest_todo rest
todo (enqueue c ws) = ws
todo _ = []

-- It has read that the count is 0.
abbrev pub passed : ThreadPc → ℕ → Bool
passed (put c) b = b == c
passed (done c) b = b == c
passed _ b = false

pub record Barriers (workers : List ℕ) (thread : ℕ → ThreadPc) (completion : ℕ → Completion)
    (allocated : ℕ) (called invoked : ℕ → List Callback) (before : ℕ → ℕ → List Callback)
    : Type 0 where
  pub at_most_once : (b w : ℕ) → count b (called w) ≤ 1
  pub unborn : (b w : ℕ) → allocated ≤ b → count b (called w) ≡ 0
  pub pending :
      (t b w : ℕ)
      → runs (thread t) b ≡ true
      → has w (todo (thread t)) ≡ true
      → count b (called w) ≡ 0
  pub owned : (t b : ℕ) → runs (thread t) b ≡ true → (completion b).owner ≡ t
  pub born : (t b : ℕ) → runs (thread t) b ≡ true → b < allocated
  pub todo_distinct : (t : ℕ) → Distinct (todo (thread t))
  pub todo_known : (t w : ℕ) → has w (todo (thread t)) ≡ true → has w workers ≡ true
  pub snapshot : (b w : ℕ) → IsPrefix (before b w) (called w)
  pub snapshot_free : (b w : ℕ) → count b (before b w) ≡ 0
  pub counts :
      (b : ℕ)
      → b < allocated
      → (completion b).barrier_count + tally b workers invoked ≡ length workers
  pub known : (b w : ℕ) → count b (called w) ≢ 0 → has w workers ≡ true
  pub finished : (t b : ℕ) → passed (thread t) b ≡ true → (completion b).barrier_count ≡ 0

pub grown : (xs ys zs : List Callback) → IsPrefix xs ys → IsPrefix xs (ys ++ zs)
grown xs ys zs (more, e) = (more ++ zs, ap (λ l. l ++ zs) e ∙ append_assoc xs more zs)

pub passed-runs : (p : ThreadPc) (b : ℕ) → passed p b ≡ true → runs p b ≡ true
passed-runs p b k = ground arith

pub queued_once :
    (d b v w : ℕ) (l m : List Callback)
    → v ≡ w
    → m ≡ l
    → count b l ≡ 0
    → ((d ≡ b) × ((v ≡ w) × (count d (l ++ work b ∷ []) ≡ 1)))
      ⊎ (count d (l ++ work b ∷ []) ≡ count d m)
queued_once d b v w l m e f z = elim (Bool-cases (d == b)) [
  | inl k ↦ inl (ground arith, (e, ground (arith, count-append d l (work b ∷ []))))
  | inr k ↦ inr (rw f (ground (arith, count-append d l (work b ∷ []))))
]

module _ {workers : List ℕ} {thread : ℕ → ThreadPc} {completion : ℕ → Completion} {allocated : ℕ}
    {called invoked : ℕ → List Callback} {before : ℕ → ℕ → List Callback}
    (inv : Barriers workers thread completion allocated called invoked before) where
  open inv use {
    at_most_once, unborn, pending, owned, born, todo_distinct, todo_known, snapshot, snapshot_free,
    counts, known, finished,
  }

  -- A thread goes on.
  pub goto-Barriers :
      (t : ℕ) (p : ThreadPc)
      → ((b : ℕ) → runs p b ≡ true → runs (thread t) b ≡ true)
      → Distinct (todo p)
      → ((w : ℕ) → has w (todo p) ≡ true → has w (todo (thread t)) ≡ true)
      → ((b : ℕ) → passed p b ≡ true → (completion b).barrier_count ≡ 0)
      → Barriers workers (update thread t p) completion allocated called invoked before
  goto-Barriers t p r d td pa = record {
    at_most_once = at_most_once;
    unborn = unborn;
    pending = λ u b w.
        update_elim (λ q. runs q b ≡ true → has w (todo q) ≡ true → count b (called w) ≡ 0) thread t
          p u (λ e k h. pending t b w (r b k) (td w h)) (λ e. pending u b w);
    owned = λ u b.
        update_elim (λ q. runs q b ≡ true → (completion b).owner ≡ u) thread t p u
          (λ e k. rw e (owned t b (r b k))) (λ e. owned u b);
    born = λ u b.
        update_elim (λ q. runs q b ≡ true → b < allocated) thread t p u (λ e k. born t b (r b k))
          (λ e. born u b);
    todo_distinct =
        λ u. update_elim (λ q. Distinct (todo q)) thread t p u (λ e. d) (λ e. todo_distinct u);
    todo_known = λ u w.
        update_elim (λ q. has w (todo q) ≡ true → has w workers ≡ true) thread t p u
          (λ e k. todo_known t w (td w k)) (λ e. todo_known u w);
    snapshot = snapshot;
    snapshot_free = snapshot_free;
    counts = counts;
    known = known;
    finished = λ u b.
        update_elim (λ q. passed q b ≡ true → (completion b).barrier_count ≡ 0) thread t p u
          (λ e. pa b) (λ e. finished u b);
  }

  -- The futex or the reference count of a completion changes.
  pub completion-Barriers :
      (b : ℕ) (c : Completion)
      → c.barrier_count ≡ (completion b).barrier_count
      → c.owner ≡ (completion b).owner
      → Barriers workers thread (update completion b c) allocated called invoked before
  completion-Barriers b c e o = record {
    at_most_once = at_most_once;
    unborn = unborn;
    pending = pending;
    owned = λ t d k.
        update_elim (λ q. q.owner ≡ t) completion b c d
          (λ f. o ∙ (ap (λ i. (completion i).owner) (sym f) ∙ owned t d k)) (λ f. owned t d k);
    born = born;
    todo_distinct = todo_distinct;
    todo_known = todo_known;
    snapshot = snapshot;
    snapshot_free = snapshot_free;
    counts = λ d k.
        update_elim (λ q. q.barrier_count + tally d workers invoked ≡ length workers) completion b c
          d (λ f. rw (e, sym f) (counts d k)) (λ f. counts d k);
    known = known;
    finished = λ t d k.
        update_elim (λ q. q.barrier_count ≡ 0) completion b c d
          (λ f. rw (e, sym f) (finished t d k)) (λ f. finished t d k);
  }

  -- A callback of call_rcu is queued.
  pub user-Barriers :
      (w head : ℕ)
      → Barriers workers thread completion allocated
          (update called w (called w ++ user head ∷ []))
          invoked
          before
  user-Barriers w head =
      let same : (b v : ℕ)
          → count b (update called w (called w ++ user head ∷ []) v) ≡ count b (called v) =
        λ b v.
          update_elim (λ l. count b l ≡ count b (called v)) called w (called w ++ user head ∷ []) v
            (λ e. rw e (omega (arith, count-append b (called w) (user head ∷ [])))) (λ e. refl) in
      record {
        at_most_once = λ b v. omega (arith, same b v, at_most_once b v);
        unborn = λ b v k. omega (arith, same b v, unborn b v k);
        pending = λ t b v k h. omega (arith, same b v, pending t b v k h);
        owned = owned;
        born = born;
        todo_distinct = todo_distinct;
        todo_known = todo_known;
        snapshot = λ b v.
            update_elim (λ l. IsPrefix (before b v) l) called w (called w ++ user head ∷ []) v
              (λ e. grown (before b v) (called w) (user head ∷ []) (rw (sym e) (snapshot b v)))
              (λ e. snapshot b v);
        snapshot_free = snapshot_free;
        counts = counts;
        known = λ b v k. known b v (λ z. k (same b v ∙ z));
        finished = finished;
      }
