-- ===== src/Defer/Tests.antt =====
-- A queue at work, and the theorems at it.
use mathlib.Core.Option
use liburcu.Prelude.{◌≡◌, refl, List, [], ◌∷◌, ◌++◌, some, arith}
use liburcu.Defer.Queue.{
  Call, DeferQueue, decode, enqueue, wake_up_defer, defer_rcu, rcu_defer_barrier_queue,
  rcu_defer_barrier_thread, dq_fct_mark,
}
use liburcu.Defer.Encoding.{done}
use liburcu.Defer.Pending.{Pending}
use liburcu.Defer.Thread.{Op, defer, barrier, deferred, fresh, run_ops, run_ops-Pending}
use liburcu.Defer.Reclaim.{
  enqueue_all, barrier_takes_snapshot, rcu_defer_barrier, AllPending, rcu_defer_barrier-AllPending,
}

empty_queue : DeferQueue
empty_queue = fresh (λ i. 0)

empty_queue-Pending : Pending empty_queue []
unfolding empty_queue
empty_queue-Pending = record {
  fct = 0;
  front_size = 0;
  back_size = 0;
  small = omega arith;
  fits = omega arith;
  front = done refl refl refl;
  back = done refl refl refl;
}

-- Odd data, the same function again, the marker as data, an odd function.
some_ops : List Op
some_ops = defer 16 5 ∷ defer 16 8 ∷ defer 16 dq_fct_mark ∷ defer 33 2 ∷ barrier ∷ defer 33 4 ∷ []

some_ops_run :
    Option.map (λ (r : DeferQueue × List Call). r.1) (run_ops some_ops empty_queue)
    ≡ some ((16, 5) ∷ (16, 8) ∷ (16, dq_fct_mark) ∷ (33, 2) ∷ [])
unfolding run_ops some_ops empty_queue defer_rcu rcu_defer_barrier_thread rcu_defer_barrier_queue
    decode enqueue wake_up_defer
some_ops_run = refl

run_ops-Pending_example :
    (dq' : DeferQueue) × (ran held : List Call) × (run_ops some_ops empty_queue ≡ some (dq', ran))
    × Pending dq' held
    × (ran ++ held ≡ [] ++ deferred some_ops)
run_ops-Pending_example = run_ops-Pending some_ops empty_queue-Pending

two_calls : List Call
two_calls = (16, 5) ∷ (33, 2) ∷ []

barrier_takes_snapshot_example :
    (dq' : DeferQueue) × (rcu_defer_barrier_queue
        (enqueue_all two_calls empty_queue)
        (empty_queue.head)
      ≡ some (dq', []))
    × Pending dq' two_calls
unfolding two_calls empty_queue
barrier_takes_snapshot_example = barrier_takes_snapshot two_calls empty_queue-Pending (omega arith)

rcu_defer_barrier-AllPending_example :
    (dqs' : List DeferQueue) × (rcu_defer_barrier (empty_queue ∷ empty_queue ∷ [])
      ≡ some (dqs', []))
    × AllPending dqs' ([] ∷ [] ∷ [])
rcu_defer_barrier-AllPending_example =
    rcu_defer_barrier-AllPending (empty_queue ∷ empty_queue ∷ []) ([] ∷ [] ∷ [])
      (empty_queue-Pending, (empty_queue-Pending, tt)) (omega arith)
