-- ===== src/CallRcu/Fifo.antt =====
-- src/urcu-call-rcu-impl.h: the order of the callbacks under each step.

use liburcu.Prelude.{
  ℕ, ◌-◌, ◌≡◌, refl, sym, true, false, List, [], ◌∷◌, ◌++◌, ◌==◌, if_elim, is_empty, minus_one,
  arith,
}
use liburcu.CallRcu.System.{
  System, user, work, WorkerPc, dec_futex, splice, synchronize, grace, invoke, complete_read,
  complete_set, complete_wake, complete_put, check_empty, read_futex, futex_wait, asleep, ThreadPc,
  read_worker, wake_worker, enqueue, read_count, read_completion, wait_completion, work_on, ran,
  is_asleep, asleep_on, wake_barrier, wake_call_rcu_thread, worker_at, thread_at, rcu_barrier, Step,
  Reachable, fresh, then_step,
}
use liburcu.CallRcu.Order.{
  IsPrefix, hand, unready, OrderOf, AllOrder, work_on-Order, enqueue_on-Order, ran-Order,
  splice-Order, begin-Order, end-Order,
}

sleeps_free : (p : WorkerPc) → is_asleep p ≡ true → (hand p ≡ []) × (unready p ≡ false)
sleeps_free p k = ground arith

wake_call_rcu_thread-Order :
    (s : System) → AllOrder s → (w : ℕ) → AllOrder (wake_call_rcu_thread w s)
unfolding wake_call_rcu_thread
wake_call_rcu_thread-Order s inv w =
    if_elim AllOrder (is_asleep (s.worker w))
      (λ k.
        let (h, u) = sleeps_free (s.worker w) k in
        work_on-Order s inv w (s.worker w) dec_futex refl (sym h) refl u)
      (λ k. inv)

worker_at-Order :
    (s : System) → AllOrder s → (w : ℕ) (p : WorkerPc) → s.worker w ≡ p → AllOrder (worker_at w p s)
unfolding worker_at wake_barrier
worker_at-Order s inv w dec_futex e = work_on-Order s inv w dec_futex splice e refl refl refl
worker_at-Order s inv w splice e =
    if_elim AllOrder (is_empty (s.queue w))
      (λ k. work_on-Order s inv w splice check_empty e refl refl refl) (λ k. splice-Order s inv w e)
worker_at-Order s inv w (synchronize l) e = begin-Order s inv w l e
worker_at-Order s inv w (grace l) e = end-Order s inv w l e
worker_at-Order s inv w (invoke []) e =
    work_on-Order s inv w (invoke []) check_empty e refl refl refl
worker_at-Order s inv w (invoke (user h ∷ rest)) e =
    ran-Order s inv w (user h) rest (invoke rest) e refl refl
worker_at-Order s inv w (invoke (work b ∷ rest)) e =
    if_elim (λ p. AllOrder (work_on w p (ran w (work b) s)))
      ((s.completion b).barrier_count - 1 == 0)
      (λ k. ran-Order s inv w (work b) rest (complete_read b rest) e refl refl)
      (λ k. ran-Order s inv w (work b) rest (complete_put b rest) e refl refl)
worker_at-Order s inv w (complete_read b l) e =
    if_elim AllOrder ((s.completion b).futex == minus_one)
      (λ k. work_on-Order s inv w (complete_read b l) (complete_set b l) e refl refl refl)
      (λ k. work_on-Order s inv w (complete_read b l) (complete_put b l) e refl refl refl)
worker_at-Order s inv w (complete_set b l) e =
    work_on-Order s inv w (complete_set b l) (complete_wake b l) e refl refl refl
worker_at-Order s inv w (complete_wake b l) e =
    let on = work_on-Order s inv w (complete_wake b l) (complete_put b l) e refl refl refl in
    if_elim (λ s'. AllOrder (work_on w (complete_put b l) s'))
      (asleep_on b (s.thread ((s.completion b).owner))) (λ k. on) (λ k. on)
worker_at-Order s inv w (complete_put b l) e =
    work_on-Order s inv w (complete_put b l) (invoke l) e refl refl refl
worker_at-Order s inv w check_empty e =
    if_elim AllOrder (is_empty (s.queue w))
      (λ k. work_on-Order s inv w check_empty read_futex e refl refl refl)
      (λ k. work_on-Order s inv w check_empty splice e refl refl refl)
worker_at-Order s inv w read_futex e =
    if_elim AllOrder (s.futex w == minus_one)
      (λ k. work_on-Order s inv w read_futex futex_wait e refl refl refl)
      (λ k. work_on-Order s inv w read_futex dec_futex e refl refl refl)
worker_at-Order s inv w futex_wait e =
    if_elim AllOrder (s.futex w == minus_one)
      (λ k. work_on-Order s inv w futex_wait asleep e refl refl refl)
      (λ k. work_on-Order s inv w futex_wait dec_futex e refl refl refl)
worker_at-Order s inv w asleep e = inv

thread_at-Order : (s : System) → AllOrder s → (t : ℕ) (p : ThreadPc) → AllOrder (thread_at t p s)
unfolding thread_at
thread_at-Order s inv t (read_worker w rest) =
    if_elim AllOrder (s.futex w == minus_one) (λ k. inv) (λ k. inv)
thread_at-Order s inv t (wake_worker w rest) = wake_call_rcu_thread-Order s inv w
thread_at-Order s inv t (enqueue b (w ∷ ws)) = enqueue_on-Order s inv w (work b)
thread_at-Order s inv t (read_count b) =
    if_elim AllOrder ((s.completion b).barrier_count == 0) (λ k. inv) (λ k. inv)
thread_at-Order s inv t (read_completion b) =
    if_elim AllOrder ((s.completion b).futex == minus_one) (λ k. inv) (λ k. inv)
thread_at-Order s inv t (wait_completion b) =
    if_elim AllOrder ((s.completion b).futex == minus_one) (λ k. inv) (λ k. inv)
thread_at-Order s inv t _ = inv

Step-Order : {s t : System} → AllOrder s → Step s t → AllOrder t
unfolding rcu_barrier
Step-Order {s} inv (Step.call_rcu t w head e m) = enqueue_on-Order s inv w (user head)
Step-Order {s} inv (Step.call_barrier t e) = inv
Step-Order {s} inv (Step.thread_step t) = thread_at-Order s inv t (s.thread t)
Step-Order {s} inv (Step.worker_step w) = worker_at-Order s inv w (s.worker w) refl
Step-Order {s} inv (Step.worker_interrupted w e) =
    work_on-Order s inv w asleep futex_wait e refl refl refl
Step-Order {s} inv (Step.thread_interrupted t b e) = inv

pub Reachable-Order : {workers : List ℕ} {s : System} → Reachable workers s → (w : ℕ) → OrderOf s w
Reachable-Order fresh = λ w. record {
  split = refl;
  begun = λ k. absurd (ground arith);
  ended = λ k. ([], refl);
  behind = ([], refl);
}
Reachable-Order (then_step r st) = Step-Order (Reachable-Order r) st

-- Whatever threads call call_rcu and rcu_barrier: a worker has run a prefix of the callbacks that
-- were queued at it, in the order in which they were queued, each once; what it has not run is in
-- its hand or in its queue, in that order; and each that it has run had been queued when a grace
-- period began that has ended.
pub callbacks_wait :
    {workers : List ℕ} {s : System} (w : ℕ)
    → Reachable workers s
    → (s.called w ≡ (s.invoked w ++ hand (s.worker w)) ++ s.queue w)
      × IsPrefix (s.invoked w) (s.waited w)
callbacks_wait w r = let inv = Reachable-Order r w in (inv.split, inv.behind)
