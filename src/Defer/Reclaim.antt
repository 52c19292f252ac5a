-- ===== src/Defer/Reclaim.antt =====
-- src/urcu-defer-impl.h: `rcu_defer_barrier`, by which the defer thread empties the queues of the
-- other threads, up to the heads that it read before the grace period.
use mathlib.Core.List.{append_assoc, append-nil}
use mathlib.Core.Path.{subst}
use liburcu.Prelude.{
  ℕ, ◌+◌, ◌*◌, ◌≤◌, ◌<◌, ◌≡◌, refl, List, map, [], ◌∷◌, ◌++◌, Option, none, some, ◌==◌,
  if◌then◌else◌, length, word_add, word_sub, word_mod, arith, inl, inr, Bool-cases,
}
use liburcu.Defer.Queue.{Call, DeferQueue, enqueue, rcu_defer_barrier_queue, defer_queue_size}
use liburcu.Defer.Encoding.{Encoded-zero}
use liburcu.Defer.Pending.{
  Pending, IsSplit, enqueue-IsSplit, whole, used, rcu_defer_barrier_queue-IsSplit,
}

-- What the owner of the queue defers while the reclaiming thread waits, with room for all of it.
pub enqueue_all : List Call → DeferQueue → DeferQueue
enqueue_all [] dq = dq
enqueue_all ((c, p) ∷ ds) dq = enqueue_all ds (enqueue c p dq)

enqueue-used :
    (c p : ℕ) (dq : DeferQueue)
    → dq.tail < word_mod
    → word_sub dq.head dq.tail + 3 ≤ defer_queue_size
    → word_sub (enqueue c p dq).head (enqueue c p dq).tail ≤ word_sub dq.head dq.tail + 3
unfolding enqueue
enqueue-used c p dq small room = ground arith

enqueue_all-IsSplit :
    (es : List Call) {dq : DeferQueue} {at : ℕ} {cs ds : List Call} (s : IsSplit dq at cs ds)
    → word_sub dq.head dq.tail + 3 * length es ≤ defer_queue_size
    → IsSplit (enqueue_all es dq) at cs (ds ++ es)
unfolding enqueue_all
enqueue_all-IsSplit [] {ds} s room = rw (append-nil ds) s
enqueue_all-IsSplit ((c, p) ∷ es) {dq} {at} {cs} {ds} s room =
    subst (λ l. IsSplit (enqueue_all es (enqueue c p dq)) at cs l)
      (append_assoc ds ((c, p) ∷ []) es)
      (enqueue_all-IsSplit es (enqueue-IsSplit s c p (omega (arith, used s)))
        (omega (arith, enqueue-used c p dq s.small (omega arith))))

-- A queue holds the calls `cs` when the reclaiming thread reads its head. Whatever its owner
-- defers until the grace period is over, with room for it, the reclaiming thread then
-- makes exactly the calls `cs`, in order, and leaves exactly the later ones in the queue.
pub barrier_takes_snapshot :
    (es : List Call) {dq : DeferQueue} {cs : List Call}
    → Pending dq cs
    → word_sub dq.head dq.tail + 3 * length es ≤ defer_queue_size
    → (dq' : DeferQueue) × (rcu_defer_barrier_queue (enqueue_all es dq) dq.head ≡ some (dq', cs))
      × Pending dq' es
barrier_takes_snapshot es s room =
    let (dq', ran, left, same) =
      rcu_defer_barrier_queue-IsSplit (enqueue_all-IsSplit es (whole s) room) in
    (dq', ran, left)

-- The first loop of `rcu_defer_barrier`: each queue's head is read, and the entries are counted.
pub snapshot : DeferQueue → DeferQueue
snapshot dq = record dq { last_head = dq.head }

pub num_items : ℕ → List DeferQueue → ℕ
num_items n [] = n
num_items n (dq ∷ dqs) = num_items (word_add n (word_sub dq.head dq.tail)) dqs

-- The second: each queue is decoded up to that head.
pub barrier_queues : List DeferQueue → Option (List DeferQueue × List Call)
barrier_queues [] = some ([], [])
barrier_queues (dq ∷ dqs) = elim (rcu_defer_barrier_queue dq dq.last_head) [
  | none ↦ none
  | some (dq', ran) ↦ elim (barrier_queues dqs) [
    | none ↦ none
    | some (dqs', later) ↦ some (dq' ∷ dqs', ran ++ later)
  ]
]

pub rcu_defer_barrier : List DeferQueue → Option (List DeferQueue × List Call)
rcu_defer_barrier [] = some ([], [])
rcu_defer_barrier (dq ∷ dqs) =
    let taken = map snapshot (dq ∷ dqs) in
    if num_items 0 (dq ∷ dqs) == 0 then some (taken, []) else barrier_queues taken

-- The queues hold these calls, queue by queue.
abbrev pub AllPending : List DeferQueue → List (List Call) → Type 0
AllPending [] [] = Unit
AllPending (dq ∷ dqs) (cs ∷ css) = Pending dq cs × AllPending dqs css
AllPending _ _ = ⊥

abbrev pub calls_of : List (List Call) → List Call
calls_of [] = []
calls_of (cs ∷ css) = cs ++ calls_of css

abbrev pub emptied : List (List Call) → List (List Call)
emptied [] = []
emptied (cs ∷ css) = [] ∷ emptied css

Pending-snapshot : {dq : DeferQueue} {cs : List Call} → Pending dq cs → Pending (snapshot dq) cs
unfolding snapshot
Pending-snapshot s = record {
  fct = s.fct;
  front_size = s.front_size;
  back_size = s.back_size;
  small = s.small;
  fits = s.fits;
  front = s.front;
  back = s.back;
}

barrier_queues-AllPending :
    (dqs : List DeferQueue) (css : List (List Call))
    → AllPending dqs css
    → (dqs' : List DeferQueue) × (barrier_queues (map snapshot dqs) ≡ some (dqs', calls_of css))
      × AllPending dqs' (emptied css)
unfolding barrier_queues snapshot
barrier_queues-AllPending [] [] h = ([], refl, tt)
barrier_queues-AllPending [] (cs ∷ css) h = absurd h
barrier_queues-AllPending (dq ∷ dqs) [] h = absurd h
barrier_queues-AllPending (dq ∷ dqs) (cs ∷ css) (s, rest) =
    let (dq', ran, left, same) = rcu_defer_barrier_queue-IsSplit (whole (Pending-snapshot s)) in
    let (dqs', later, done) = barrier_queues-AllPending dqs css rest in
    (dq' ∷ dqs', rw (ran, later, barrier_queues) refl, (left, done))

num_items-AllPending :
    (n : ℕ) (dqs : List DeferQueue) (css : List (List Call))
    → AllPending dqs css
    → n + length dqs * defer_queue_size < word_mod
    → num_items n dqs ≡ 0
    → (n ≡ 0) × (calls_of css ≡ [])
unfolding num_items
num_items-AllPending n [] [] h b e = (e, refl)
num_items-AllPending n [] (cs ∷ css) h b e = absurd h
num_items-AllPending n (dq ∷ dqs) [] h b e = absurd h
num_items-AllPending n (dq ∷ dqs) (cs ∷ css) (s, rest) b e =
    let (zero_sum, none_later) =
      num_items-AllPending (word_add n (word_sub dq.head dq.tail)) dqs css rest
        (omega (arith, used s, s.fits)) e in
    let none_here : cs ≡ [] = Encoded-zero (omega (arith, used s, s.fits)) s.back in
    (omega (arith, used s, s.fits), rw (none_here, none_later) refl)

AllPending-snapshot :
    (dqs : List DeferQueue) (css : List (List Call))
    → AllPending dqs css
    → calls_of css ≡ []
    → AllPending (map snapshot dqs) (emptied css)
AllPending-snapshot [] [] h e = tt
AllPending-snapshot [] (cs ∷ css) h e = absurd h
AllPending-snapshot (dq ∷ dqs) [] h e = absurd h
AllPending-snapshot (dq ∷ dqs) ([] ∷ css) (s, rest) e =
    (Pending-snapshot s, AllPending-snapshot dqs css rest e)
AllPending-snapshot (dq ∷ dqs) ((c ∷ cs) ∷ css) h e = cc e

-- `rcu_defer_barrier` over queues that hold calls, fewer than 2 ^ 52 of them: it succeeds and makes
-- exactly the calls of every queue, in order, queue by queue; each queue is then empty, also
-- where the grace period is skipped because no call was found.
pub rcu_defer_barrier-AllPending :
    (dqs : List DeferQueue) (css : List (List Call))
    → AllPending dqs css
    → length dqs * defer_queue_size < word_mod
    → (dqs' : List DeferQueue) × (rcu_defer_barrier dqs ≡ some (dqs', calls_of css))
      × AllPending dqs' (emptied css)
unfolding rcu_defer_barrier
rcu_defer_barrier-AllPending [] [] h b = ([], refl, tt)
rcu_defer_barrier-AllPending [] (cs ∷ css) h b = absurd h
rcu_defer_barrier-AllPending (dq ∷ dqs) [] h b = absurd h
rcu_defer_barrier-AllPending (dq ∷ dqs) (cs ∷ css) h b =
    elim (Bool-cases (num_items 0 (dq ∷ dqs) == 0)) [
      | inl e ↦
          let (zero_sum, none_held) =
            num_items-AllPending 0 (dq ∷ dqs) (cs ∷ css) h (omega arith) (ground arith) in
          (
            map snapshot (dq ∷ dqs),
            rw (e, none_held) refl,
            AllPending-snapshot (dq ∷ dqs) (cs ∷ css) h none_held,
          )
      | inr e ↦
          let (dqs', ran, left) = barrier_queues-AllPending (dq ∷ dqs) (cs ∷ css) h in
          (dqs', rw e ran, left)
    ]
