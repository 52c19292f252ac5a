-- ===== src/CallRcu/Tests.antt =====
-- A callback, and a rcu_barrier behind it, on one worker, and the theorems at them.
use liburcu.Prelude.{◌≡◌, refl, [], ◌∷◌, ◌++◌}
use liburcu.CallRcu.System.{
  System, Step, Reachable, fresh, then_step, worker_at, thread_at, rcu_barrier, wake_barrier,
  wake_call_rcu_thread,
}
use liburcu.CallRcu.Order.{IsPrefix, hand}
use liburcu.CallRcu.Fifo.{callbacks_wait}
use liburcu.CallRcu.Return.{rcu_barrier_waits}

abbrev Trace : Type 0
Trace = (s : System) × Reachable (4 ∷ []) s

infixl 5 ◌▸◌
abbrev ◌▸◌ : (r : Trace) {t : System} → Step r.0 t → Trace
r ▸ st = (_, then_step r.1 st)

-- Thread 1 has called call_rcu at worker 4; thread 2 has queued the work of its rcu_barrier.
queued : Trace
unfolding worker_at thread_at rcu_barrier wake_call_rcu_thread
queued =
    (_, fresh)
    ▸ Step.call_rcu 1 4 80 refl refl
    ▸ Step.thread_step 1
    ▸ Step.call_barrier 2 refl
    ▸ Step.thread_step 2
    ▸ Step.thread_step 2
    ▸ Step.thread_step 2

-- Worker 4 runs the callback and the work, whose count then is 0.
worker_ran : Trace
unfolding queued worker_at thread_at rcu_barrier wake_call_rcu_thread
worker_ran =
    queued
    ▸ Step.worker_step 4
    ▸ Step.worker_step 4
    ▸ Step.worker_step 4
    ▸ Step.worker_step 4
    ▸ Step.worker_step 4
    ▸ Step.worker_step 4

-- Thread 2 reads it.
returns : Trace
unfolding worker_ran queued worker_at thread_at rcu_barrier wake_barrier wake_call_rcu_thread
returns = worker_ran ▸ Step.thread_step 2 ▸ Step.thread_step 2 ▸ Step.thread_step 2

callbacks_wait_example :
    ((worker_ran.0).called 4
      ≡ ((worker_ran.0).invoked 4 ++ hand ((worker_ran.0).worker 4)) ++ (worker_ran.0).queue 4)
    × IsPrefix ((worker_ran.0).invoked 4) ((worker_ran.0).waited 4)
callbacks_wait_example = callbacks_wait 4 worker_ran.1

rcu_barrier_waits_example : IsPrefix ((returns.0).before 0 4) ((returns.0).invoked 4)
unfolding returns worker_ran queued worker_at thread_at rcu_barrier wake_barrier
    wake_call_rcu_thread
rcu_barrier_waits_example = rcu_barrier_waits 2 0 4 (refl, tt) returns.1 refl refl
