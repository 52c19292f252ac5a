-- ===== src/CallRcu/Steady.antt =====
-- src/urcu-call-rcu-impl.h: the list of workers under each step.

use liburcu.Prelude.{ℕ, ◌≡◌, refl, ◌∙◌, List, [], ◌∷◌, ◌==◌, if_elim, is_empty, minus_one}
use liburcu.CallRcu.System.{
  System, user, work, WorkerPc, splice, invoke, complete_read, complete_wake, complete_put,
  check_empty, read_futex, futex_wait, ThreadPc, read_worker, wake_worker, enqueue, read_count,
  read_completion, wait_completion, go_on, work_on, goto, is_asleep, asleep_on, wake_barrier,
  wake_call_rcu_thread, worker_at, thread_at, rcu_barrier, Step, Reachable, fresh, then_step,
}

-- No step changes which workers there are.
abbrev SameWorkers : System → System → Type 0
SameWorkers s t = t.workers ≡ s.workers

thread_at_workers : (s : System) (t : ℕ) (p : ThreadPc) → (thread_at t p s).workers ≡ s.workers
unfolding thread_at wake_call_rcu_thread
thread_at_workers s t (read_worker w rest) =
    if_elim (SameWorkers s) (s.futex w == minus_one) (λ k. refl) (λ k. refl)
thread_at_workers s t (wake_worker w rest) =
    if_elim (λ s'. SameWorkers s (goto t (go_on rest) s')) (is_asleep (s.worker w)) (λ k. refl)
      (λ k. refl)
thread_at_workers s t (enqueue b []) = refl
thread_at_workers s t (enqueue b (w ∷ ws)) = refl
thread_at_workers s t (read_count b) =
    if_elim (SameWorkers s) ((s.completion b).barrier_count == 0) (λ k. refl) (λ k. refl)
thread_at_workers s t (read_completion b) =
    if_elim (SameWorkers s) ((s.completion b).futex == minus_one) (λ k. refl) (λ k. refl)
thread_at_workers s t (wait_completion b) =
    if_elim (SameWorkers s) ((s.completion b).futex == minus_one) (λ k. refl) (λ k. refl)
thread_at_workers s t _ = refl

worker_at_workers : (s : System) (w : ℕ) (p : WorkerPc) → (worker_at w p s).workers ≡ s.workers
unfolding worker_at wake_barrier
worker_at_workers s w splice =
    if_elim (SameWorkers s) (is_empty (s.queue w)) (λ k. refl) (λ k. refl)
worker_at_workers s w (invoke []) = refl
worker_at_workers s w (invoke (user h ∷ rest)) = refl
worker_at_workers s w (invoke (work b ∷ rest)) = refl
worker_at_workers s w (complete_read b rest) =
    if_elim (SameWorkers s) ((s.completion b).futex == minus_one) (λ k. refl) (λ k. refl)
worker_at_workers s w (complete_wake b rest) =
    if_elim (λ s'. SameWorkers s (work_on w (complete_put b rest) s'))
      (asleep_on b (s.thread ((s.completion b).owner))) (λ k. refl) (λ k. refl)
worker_at_workers s w check_empty =
    if_elim (SameWorkers s) (is_empty (s.queue w)) (λ k. refl) (λ k. refl)
worker_at_workers s w read_futex =
    if_elim (SameWorkers s) (s.futex w == minus_one) (λ k. refl) (λ k. refl)
worker_at_workers s w futex_wait =
    if_elim (SameWorkers s) (s.futex w == minus_one) (λ k. refl) (λ k. refl)
worker_at_workers s w _ = refl

Step_workers : {s t : System} → Step s t → t.workers ≡ s.workers
unfolding rcu_barrier
Step_workers (Step.call_rcu t w head e m) = refl
Step_workers (Step.call_barrier t e) = refl
Step_workers {s} (Step.thread_step t) = thread_at_workers s t (s.thread t)
Step_workers {s} (Step.worker_step w) = worker_at_workers s w (s.worker w)
Step_workers (Step.worker_interrupted w e) = refl
Step_workers (Step.thread_interrupted t b e) = refl

pub Reachable_workers : {ws : List ℕ} {s : System} → Reachable ws s → s.workers ≡ ws
Reachable_workers fresh = refl
Reachable_workers (then_step r st) = Step_workers st ∙ Reachable_workers r
