-- ===== src/Defer/Thread.antt =====
-- src/urcu-defer-impl.h: a thread that defers calls and flushes its queue, in any order.
use mathlib.Core.List.{append-nil, append_assoc}
use liburcu.Prelude.{ℕ, ◌≡◌, refl, sym, ◌∙◌, ap, List, [], ◌∷◌, ◌++◌, Option, none, some}
use liburcu.Defer.Queue.{Call, DeferQueue, defer_rcu, rcu_defer_barrier_thread}
use liburcu.Defer.Pending.{Pending, defer_rcu-Pending, rcu_defer_barrier_thread-Pending}

-- A fresh queue: thread-local storage is zero, and the array is what `malloc` returns.
abbrev pub fresh : (ℕ → ℕ) → DeferQueue
fresh q = record { head = 0; last_fct_in = 0; tail = 0; last_fct_out = 0; q = q; last_head = 0 }

pub data Op : Type 0 where
  defer : (fct p : ℕ) → Op
  barrier : Op

abbrev pub deferred : List Op → List Call
deferred [] = []
deferred (defer c p ∷ ops) = (c, p) ∷ deferred ops
deferred (barrier ∷ ops) = deferred ops

-- The calls that the operations make; the futex of the defer thread is at 0, so no thread waits.
unfoldable pub run_ops : List Op → DeferQueue → Option (DeferQueue × List Call)
run_ops [] dq = some (dq, [])
run_ops (defer c p ∷ ops) dq = elim (defer_rcu c p dq 0) [
  | none ↦ none
  | some r ↦ elim (run_ops ops r.queue) [ none ↦ none | some (dq', ran) ↦ some (dq', r.ran ++ ran) ]
]
run_ops (barrier ∷ ops) dq = elim (rcu_defer_barrier_thread dq) [
  | none ↦ none
  | some (dq1, first) ↦ elim (run_ops ops dq1) [
    | none ↦ none
    | some (dq', ran) ↦ some (dq', first ++ ran)
  ]
]

-- On a queue that holds the calls `cs`, any sequence of `defer_rcu` and
-- `rcu_defer_barrier_thread` succeeds, and the calls made, followed by those that the queue holds
-- in the end, are `cs` and the deferred calls in the order of their deferring: none is
-- lost, repeated, or run before an older one, at any function and data, aligned or not.
pub run_ops-Pending :
    (ops : List Op) {dq : DeferQueue} {cs : List Call}
    → Pending dq cs
    → (dq' : DeferQueue) × (ran held : List Call) × (run_ops ops dq ≡ some (dq', ran))
      × Pending dq' held
      × (ran ++ held ≡ cs ++ deferred ops)
unfolding run_ops
run_ops-Pending [] {dq} {cs} s = (dq, [], cs, refl, s, sym (append-nil cs))
run_ops-Pending (defer c p ∷ ops) {dq} {cs} s =
    let (r, ok, (held, keeps, order)) = defer_rcu-Pending c p 0 s in
    let (dq', ran, held', runs, keeps', order') = run_ops-Pending ops keeps in
    (
      dq',
      r.ran ++ ran,
      held',
      rw (ok, runs, run_ops) refl,
      keeps',
      append_assoc r.ran ran held'
          ∙ ap (λ l. r.ran ++ l) order'
          ∙ sym (append_assoc r.ran held (deferred ops))
          ∙ ap (λ l. l ++ deferred ops) order
          ∙ append_assoc cs ((c, p) ∷ []) (deferred ops),
    )
run_ops-Pending (barrier ∷ ops) {dq} {cs} s =
    let (dq1, ok, keeps) = rcu_defer_barrier_thread-Pending s in
    let (dq', ran, held', runs, keeps', order') = run_ops-Pending ops keeps in
    (
      dq',
      cs ++ ran,
      held',
      rw (ok, runs, run_ops) refl,
      keeps',
      append_assoc cs ran held' ∙ ap (λ l. cs ++ l) order',
    )
