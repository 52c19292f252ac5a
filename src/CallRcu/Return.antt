-- ===== src/CallRcu/Return.antt =====
-- src/urcu-call-rcu-impl.h: rcu_barrier under each step, and its return.
use mathlib.Core.Path.{subst}
use mathlib.Core.List.{append_assoc}
use liburcu.Prelude.{
  ℕ, ◌+◌, ◌-◌, ◌≡◌, ◌≢◌, ◌≤◌, refl, sym, ap, ◌∙◌, true, false, List, [], ◌∷◌, ◌++◌, ◌==◌, if_elim,
  has, length, Distinct, is_empty, minus_one, int32_dec, arith,
}
use liburcu.CallRcu.System.{
  System, user, work, WorkerPc, splice, invoke, complete_read, complete_set, complete_wake,
  complete_put, check_empty, read_futex, futex_wait, ThreadPc, outside, read_worker, set_worker,
  wake_worker, enqueue, dec_completion, read_count, read_completion, wait_completion,
  sleep_completion, put, done, Rest, return, barrier, go_on, work_on, goto, is_asleep, asleep_on,
  wake_barrier, wake_call_rcu_thread, worker_at, thread_at, rcu_barrier, Step, Reachable, fresh,
  then_step,
}
use liburcu.CallRcu.Order.{IsPrefix, hand, AllOrder}
use liburcu.CallRcu.Fifo.{Reachable-Order}
use liburcu.CallRcu.Count.{count, count-append, tally_less, longer_prefix}
use liburcu.CallRcu.Barrier.Queue.{work-Barriers, start-Barriers}
use liburcu.CallRcu.Barrier.Run.{ran_user-Barriers, ran_work-Barriers}
use liburcu.CallRcu.Barrier.{
  Barriers, runs, rest_runs, todo, rest_todo, passed, goto-Barriers, completion-Barriers,
  user-Barriers,
}
use liburcu.CallRcu.Steady.{Reachable_workers}

abbrev pub AllBarriers : System → Type 0
AllBarriers s = Barriers s.workers s.thread s.completion s.allocated s.called s.invoked s.before

go_on_facts :
    (rest : Rest)
    → ((b : ℕ) → runs (go_on rest) b ≡ rest_runs rest b)
      × ((todo (go_on rest) ≡ rest_todo rest) × ((b : ℕ) → passed (go_on rest) b ≡ false))
go_on_facts return = (λ b. refl, (refl, λ b. refl))
go_on_facts (barrier c ws) = (λ b. refl, (refl, λ b. refl))

asleep_on_facts :
    (b : ℕ) (p : ThreadPc)
    → asleep_on b p ≡ true
    → ((c : ℕ) → runs (dec_completion b) c ≡ true → runs p c ≡ true) × (todo p ≡ [])
asleep_on_facts b p k = (λ c l. ground arith, ground arith)

-- The callbacks that have run are some of those that were called.
count_invoked : (s : System) → AllOrder s → (b w : ℕ) → count b (s.invoked w) ≤ count b (s.called w)
count_invoked s order b w =
    let split = ap (count b) ((order w).split) in
    omega (
      arith,
      split,
      count-append b (s.invoked w ++ hand (s.worker w)) (s.queue w),
      count-append b (s.invoked w) (hand (s.worker w)),
    )

module _ (s : System) (inv : AllBarriers s) where
  open inv use {at_most_once, owned, finished, todo_distinct}

  move-Barriers :
      (t : ℕ) (p p' : ThreadPc)
      → s.thread t ≡ p
      → ((b : ℕ) → runs p' b ≡ true → runs p b ≡ true)
      → todo p' ≡ todo p
      → ((b : ℕ) → passed p' b ≡ true → (s.completion b).barrier_count ≡ 0)
      → AllBarriers (goto t p' s)
  move-Barriers t p p' e r td pa =
      goto-Barriers inv t p' (λ b k. rw e (r b k))
        (rw td (subst (λ (q : ThreadPc). Distinct (todo q)) e (todo_distinct t)))
        (λ w k. rw (e, sym td) k) pa

  -- A thread in rcu_barrier goes on, with no work left to queue.
  wait_on :
      (t b : ℕ) (p p' : ThreadPc)
      → s.thread t ≡ p
      → ((c : ℕ) → runs p c ≡ (c == b))
      → ((c : ℕ) → runs p' c ≡ (c == b))
      → todo p ≡ []
      → todo p' ≡ []
      → ((c : ℕ) → passed p' c ≡ true → (s.completion c).barrier_count ≡ 0)
      → AllBarriers (goto t p' s)
  wait_on t b p p' e r r' d d' pa =
      move-Barriers t p p' e (λ c k. rw (r c, sym (r' c)) k) (d' ∙ sym d) pa

  thread_at-Barriers : (t : ℕ) (p : ThreadPc) → s.thread t ≡ p → AllBarriers (thread_at t p s)
  unfolding thread_at wake_call_rcu_thread
  thread_at-Barriers t (read_worker w rest) e =
      let (r, (d, pa)) = go_on_facts rest in
      if_elim AllBarriers (s.futex w == minus_one)
        (λ k.
          move-Barriers t (read_worker w rest) (set_worker w rest) e (λ b l. l) refl
            (λ b l. absurd (ground arith)))
        (λ k.
          move-Barriers t (read_worker w rest) (go_on rest) e (λ b l. rw (sym (r b)) l) d
            (λ b l. absurd (ground (arith, pa b))))
  thread_at-Barriers t (set_worker w rest) e =
      move-Barriers t (set_worker w rest) (wake_worker w rest) e (λ b l. l) refl
        (λ b l. absurd (ground arith))
  thread_at-Barriers t (wake_worker w rest) e =
      let (r, (d, pa)) = go_on_facts rest in
      let on =
        move-Barriers t (wake_worker w rest) (go_on rest) e (λ b l. rw (sym (r b)) l) d
          (λ b l. absurd (ground (arith, pa b))) in
      if_elim (λ s'. AllBarriers (goto t (go_on rest) s')) (is_asleep (s.worker w)) (λ k. on)
        (λ k. on)
  thread_at-Barriers t (enqueue b []) e =
      wait_on t b (enqueue b []) (dec_completion b) e (λ c. refl) (λ c. refl) refl refl
        (λ c k. absurd (ground arith))
  thread_at-Barriers t (enqueue b (w ∷ ws)) e = work-Barriers inv t b w ws e
  thread_at-Barriers t (dec_completion b) e =
      completion-Barriers
        (wait_on t b (dec_completion b) (read_count b) e (λ c. refl) (λ c. refl) refl refl
          (λ c k. absurd (ground arith)))
        b (record (s.completion b) { futex = int32_dec (s.completion b).futex }) refl refl
  thread_at-Barriers t (read_count b) e =
      if_elim AllBarriers ((s.completion b).barrier_count == 0)
        (λ z.
          wait_on t b (read_count b) (put b) e (λ c. refl) (λ c. refl) refl refl
            (λ c k. let same : c ≡ b = ground arith in rw same (ground arith)))
        (λ z.
          wait_on t b (read_count b) (read_completion b) e (λ c. refl) (λ c. refl) refl refl
            (λ c k. absurd (ground arith)))
  thread_at-Barriers t (read_completion b) e =
      if_elim AllBarriers ((s.completion b).futex == minus_one)
        (λ z.
          wait_on t b (read_completion b) (wait_completion b) e (λ c. refl) (λ c. refl) refl refl
            (λ c k. absurd (ground arith)))
        (λ z.
          wait_on t b (read_completion b) (dec_completion b) e (λ c. refl) (λ c. refl) refl refl
            (λ c k. absurd (ground arith)))
  thread_at-Barriers t (wait_completion b) e =
      if_elim AllBarriers ((s.completion b).futex == minus_one)
        (λ z.
          wait_on t b (wait_completion b) (sleep_completion b) e (λ c. refl) (λ c. refl) refl refl
            (λ c k. absurd (ground arith)))
        (λ z.
          wait_on t b (wait_completion b) (dec_completion b) e (λ c. refl) (λ c. refl) refl refl
            (λ c k. absurd (ground arith)))
  thread_at-Barriers t (put b) e =
      completion-Barriers
        (wait_on t b (put b) (done b) e (λ c. refl) (λ c. refl) refl refl
          (λ c k. finished t c (rw e k)))
        b (record (s.completion b) { refcount = (s.completion b).refcount - 1 }) refl refl
  thread_at-Barriers t (done b) e =
      move-Barriers t (done b) outside e (λ c k. absurd (ground arith)) refl
        (λ c k. absurd (ground arith))
  thread_at-Barriers t _ e = inv

  worker_at-Barriers :
      AllOrder s
      → Distinct s.workers
      → (w : ℕ) (p : WorkerPc) → s.worker w ≡ p
      → AllBarriers (worker_at w p s)
  unfolding worker_at wake_barrier
  worker_at-Barriers order dist w splice e =
      if_elim AllBarriers (is_empty (s.queue w)) (λ k. inv) (λ k. inv)
  worker_at-Barriers order dist w (invoke (user h ∷ rest)) e = ran_user-Barriers inv w h
  worker_at-Barriers order dist w (invoke (work b ∷ rest)) e =
      let split = ap (count b) (
        subst (λ (q : WorkerPc). s.called w ≡ (s.invoked w ++ hand q) ++ s.queue w) e
          ((order w).split)) in
      let sum : count b (s.called w)
          ≡ (count b (s.invoked w) + (1 + count b rest)) + count b (s.queue w) =
        ground (
          arith,
          split,
          count-append b (s.invoked w ++ work b ∷ rest) (s.queue w),
          count-append b (s.invoked w) (work b ∷ rest),
        ) in
      ran_work-Barriers inv b w dist (count_invoked s order) (λ z. omega arith)
        (omega (arith, at_most_once b w))
  worker_at-Barriers order dist w (complete_read b rest) e =
      if_elim AllBarriers ((s.completion b).futex == minus_one) (λ k. inv) (λ k. inv)
  worker_at-Barriers order dist w (complete_set b rest) e =
      completion-Barriers inv b (record (s.completion b) { futex = 0 }) refl refl
  worker_at-Barriers order dist w (complete_wake b rest) e =
      let t = (s.completion b).owner in
      if_elim (λ s'. AllBarriers (work_on w (complete_put b rest) s')) (asleep_on b (s.thread t))
        (λ k.
          let (r, d) = asleep_on_facts b (s.thread t) k in
          move-Barriers t (s.thread t) (dec_completion b) refl r (sym d)
            (λ c l. absurd (ground arith)))
        (λ k. inv)
  worker_at-Barriers order dist w (complete_put b rest) e =
      completion-Barriers inv b
        (record (s.completion b) { refcount = (s.completion b).refcount - 1 }) refl refl
  worker_at-Barriers order dist w check_empty e =
      if_elim AllBarriers (is_empty (s.queue w)) (λ k. inv) (λ k. inv)
  worker_at-Barriers order dist w read_futex e =
      if_elim AllBarriers (s.futex w == minus_one) (λ k. inv) (λ k. inv)
  worker_at-Barriers order dist w futex_wait e =
      if_elim AllBarriers (s.futex w == minus_one) (λ k. inv) (λ k. inv)
  worker_at-Barriers order dist w _ e = inv

Step-Barriers :
    {s t : System} → AllOrder s → Distinct s.workers → AllBarriers s → Step s t → AllBarriers t
unfolding rcu_barrier
Step-Barriers {s} order dist inv (Step.call_rcu t w head e m) =
    user-Barriers
      (move-Barriers s inv t outside (read_worker w return) e (λ b k. k) refl
        (λ b k. absurd (ground arith)))
      w head
Step-Barriers {s} order dist inv (Step.call_barrier t e) =
    start-Barriers inv t 0 (length s.workers + 1) dist (count_invoked s order)
Step-Barriers {s} order dist inv (Step.thread_step t) = thread_at-Barriers s inv t (s.thread t) refl
Step-Barriers {s} order dist inv (Step.worker_step w) =
    worker_at-Barriers s inv order dist w (s.worker w) refl
Step-Barriers {s} order dist inv (Step.worker_interrupted w e) = inv
Step-Barriers {s} order dist inv (Step.thread_interrupted t b e) =
    wait_on s inv t b (sleep_completion b) (wait_completion b) e (λ c. refl) (λ c. refl) refl refl
      (λ c k. absurd (ground arith))

Reachable-Barriers : {ws : List ℕ} {s : System} → Distinct ws → Reachable ws s → AllBarriers s
Reachable-Barriers dist fresh = record {
  at_most_once = λ b w. omega arith;
  unborn = λ b w k. refl;
  pending = λ t b w k. absurd (ground arith);
  owned = λ t b k. absurd (ground arith);
  born = λ t b k. absurd (ground arith);
  todo_distinct = λ t. tt;
  todo_known = λ t w k. absurd (ground arith);
  snapshot = λ b w. ([], refl);
  snapshot_free = λ b w. refl;
  counts = λ b k. absurd (omega arith);
  known = λ b w k. absurd (k refl);
  finished = λ t b k. absurd (ground arith);
}
Reachable-Barriers dist (then_step r st) =
    Step-Barriers (Reachable-Order r) (rw (Reachable_workers r) dist) (Reachable-Barriers dist r) st

-- With any number of workers, no one twice: when a rcu_barrier is about to return, each worker has
-- run each callback that had been queued at it when the barrier was called. They are a prefix of
-- those that it has run.
pub rcu_barrier_waits :
    {workers : List ℕ} {s : System} (t b w : ℕ)
    → Distinct workers
    → Reachable workers s
    → s.thread t ≡ done b
    → has w workers ≡ true
    → IsPrefix (s.before b w) (s.invoked w)
rcu_barrier_waits {workers = ws} {s} t b w dist r e m =
    let inv = Reachable-Barriers dist r in
    let order = Reachable-Order r in
    let same : s.workers ≡ ws = Reachable_workers r in
    let done_all = inv.finished t b (rw e (ground arith)) in
    let full = inv.counts b (inv.born t b (rw e (ground arith))) in
    let ran_here : count b (s.invoked w) ≢ 0 = λ z. omega (
      arith,
      tally_less b s.workers s.invoked w
          (λ v. omega (arith, count_invoked s order b v, inv.at_most_once b v)) (rw same m) z,
    ) in
    let (more, f) = inv.snapshot b w in
    let split = (order w).split in
    longer_prefix b (s.before b w) (s.invoked w) more (hand (s.worker w) ++ s.queue w)
      (sym f ∙ (split ∙ append_assoc (s.invoked w) (hand (s.worker w)) (s.queue w)))
      (inv.snapshot_free b w) ran_here
