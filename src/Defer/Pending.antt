-- ===== src/Defer/Pending.antt =====
-- src/urcu-defer-impl.h: the calls that a queue holds, and what the operations do to them.
use mathlib.Core.Path.{subst}
use liburcu.Prelude.{
  ℕ, ◌+◌, ◌-◌, ◌%◌, ◌≤◌, ◌<◌, ◌≡◌, ◌≢◌, inl, inr, refl, sym, true, false, not, ◌||◌, List, [], ◌∷◌,
  ◌++◌, some, ◌==◌, arith, word_mod, word_add, word_sub, Bool-cases, ltb,
}
use liburcu.Defer.Queue.{
  Call, DeferQueue, Deferred, store, enqueue, defer_rcu, wake_up_defer, rcu_defer_barrier_queue,
  rcu_defer_barrier_thread, defer_queue_size, dq_is_fct_bit, dq_set_fct_bit, dq_fct_mark,
}
use liburcu.Defer.Encoding.{
  Encoded, done, plain, aligned, marked, Encoded-head, Encoded-zero, Encoded-nil, Encoded-append,
  Encoded-store, decode-Encoded,
}

-- The queue holds the calls `cs` up to position `at`, where `fct` is current, and then `ds`.
pub record IsSplit (dq : DeferQueue) (at : ℕ) (cs ds : List Call) : Type 0 where
  pub fct : ℕ
  pub front_size : ℕ
  pub back_size : ℕ
  pub small : dq.tail < word_mod
  pub fits : front_size + back_size ≤ defer_queue_size
  pub front : Encoded dq.q at fct dq.tail dq.last_fct_out front_size cs
  pub back : Encoded dq.q dq.head dq.last_fct_in at fct back_size ds

-- The queue holds the calls `cs`.
abbrev pub Pending : DeferQueue → List Call → Type 0
Pending dq cs = IsSplit dq dq.tail [] cs

module _ {dq : DeferQueue} {at : ℕ} {cs ds : List Call} (s : IsSplit dq at cs ds) where
  open s use {fct, front_size, back_size, small, fits, front, back}

  at_small : at < word_mod
  at_small = omega (arith, Encoded-head small front)

  pub head_count : dq.head ≡ (dq.tail + (front_size + back_size)) % word_mod
  head_count = omega (arith, Encoded-head small front, Encoded-head at_small back)

  pub used : word_sub dq.head dq.tail ≡ front_size + back_size
  used = omega (arith, head_count, small, fits)

  -- The decoder, run to a head that was read earlier, makes the calls up to there.
  pub rcu_defer_barrier_queue-IsSplit :
      (dq' : DeferQueue) × (rcu_defer_barrier_queue dq at ≡ some (dq', cs))
      × Pending dq' ds
      × (dq'.head ≡ dq.head)
  unfolding rcu_defer_barrier_queue
  rcu_defer_barrier_queue-IsSplit = (
    record dq { tail = at; last_fct_out = fct },
    rw
        (
          decode-Encoded (defer_queue_size + 1) small (omega (arith, fits)) (omega arith) front,
          rcu_defer_barrier_queue,
        )
        refl,
    record {
      fct = fct;
      front_size = 0;
      back_size = back_size;
      small = at_small;
      fits = omega (arith, fits);
      front = done refl refl refl;
      back = back;
    },
    refl,
  )

  -- Entries up to the head stand whatever is stored behind it.
  store_front :
      (w k v : ℕ) (buf : ℕ → ℕ)
      → w ≡ (dq.head + k) % word_mod
      → front_size + back_size + k < defer_queue_size
      → Encoded buf at fct dq.tail dq.last_fct_out front_size cs
      → Encoded (store buf w v) at fct dq.tail dq.last_fct_out front_size cs
  store_front w k v buf place b e =
      Encoded-store w v (back_size + k) small (omega (arith, head_count)) (omega arith) e

  store_back :
      (w k v : ℕ) (buf : ℕ → ℕ)
      → w ≡ (dq.head + k) % word_mod
      → front_size + back_size + k < defer_queue_size
      → Encoded buf dq.head dq.last_fct_in at fct back_size ds
      → Encoded (store buf w v) dq.head dq.last_fct_in at fct back_size ds
  store_back w k v buf place b e =
      Encoded-store w v k at_small (omega (arith, Encoded-head at_small back)) (omega arith) e

  module _ (c p : ℕ) (room : front_size + back_size + 3 ≤ defer_queue_size) where
    abbrev h0 : ℕ
    h0 = dq.head

    abbrev h1 : ℕ
    h1 = word_add h0 1

    abbrev h2 : ℕ
    h2 = word_add h1 1

    enqueue_plain :
        dq.last_fct_in ≡ c
        → dq_is_fct_bit p ≡ false
        → p ≢ dq_fct_mark
        → IsSplit (record dq { q = store dq.q h0 p; head = h1 }) at cs (ds ++ (c, p) ∷ [])
    enqueue_plain same even proper = record {
      fct = fct;
      front_size = front_size;
      back_size = back_size + 1;
      small = small;
      fits = omega arith;
      front = store_front h0 0 p dq.q (omega (arith, head_count)) (omega arith) front;
      back =
          Encoded-append (store_back h0 0 p dq.q (omega (arith, head_count)) (omega arith) back)
            (rw (sym same) (plain p 0 refl (ground arith) even proper (done refl refl refl)));
    }

    enqueue_aligned :
        dq_is_fct_bit c ≡ false
        → IsSplit
            (record dq {
              last_fct_in = c;
              q = store (store dq.q h0 (dq_set_fct_bit c)) h1 p;
              head = h2;
            })
            at
            cs
            (ds ++ (c, p) ∷ [])
    enqueue_aligned even = record {
      fct = fct;
      front_size = front_size;
      back_size = back_size + 2;
      small = small;
      fits = omega arith;
      front = store_front h1 1 p _ refl (omega arith) (
          store_front h0 0 (dq_set_fct_bit c) dq.q (omega (arith, head_count)) (omega arith) front);
      back =
          Encoded-append
            (store_back h1 1 p _ refl (omega arith) (
              store_back h0 0 (dq_set_fct_bit c) dq.q (omega (arith, head_count)) (omega arith)
                back))
            (aligned c p 0 refl (ground (arith, head_count)) even (ground (arith, head_count))
              (done refl refl refl));
    }

    enqueue_marked :
        IsSplit
          (record dq {
            last_fct_in = c;
            q = store (store (store dq.q h0 dq_fct_mark) h1 c) h2 p;
            head = word_add h2 1;
          })
          at
          cs
          (ds ++ (c, p) ∷ [])
    enqueue_marked = record {
      fct = fct;
      front_size = front_size;
      back_size = back_size + 3;
      small = small;
      fits = omega arith;
      front = store_front h2 2 p _ (omega arith) (omega arith) (
          store_front h1 1 c _ refl (omega arith)
            (store_front h0 0 dq_fct_mark dq.q (omega (arith, head_count)) (omega arith) front));
      back =
          Encoded-append
            (store_back h2 2 p _ (omega arith) (omega arith) (
              store_back h1 1 c _ refl (omega arith)
                (store_back h0 0 dq_fct_mark dq.q (omega (arith, head_count)) (omega arith) back)))
            (marked c p 0 refl (ground (arith, head_count)) (ground (arith, head_count))
              (ground (arith, head_count)) (done refl refl refl));
    }

    pub enqueue-IsSplit : IsSplit (enqueue c p dq) at cs (ds ++ (c, p) ∷ [])
    unfolding enqueue
    enqueue-IsSplit =
        elim (Bool-cases (not (dq.last_fct_in == c) || dq_is_fct_bit p || p == dq_fct_mark)) [
          | inl new ↦ elim (Bool-cases (dq_is_fct_bit c || c == dq_fct_mark)) [
            | inl odd ↦ rw (new, odd) enqueue_marked
            | inr even ↦ rw (new, even) (enqueue_aligned (ground arith))
          ]
          | inr old ↦ rw old (enqueue_plain (ground arith) (ground arith) (ground arith))
        ]

pub enqueue-tail : (c p : ℕ) (dq : DeferQueue) → (enqueue c p dq).tail ≡ dq.tail
unfolding enqueue
enqueue-tail c p dq = ground arith

Pending-enqueue :
    {dq : DeferQueue} {cs : List Call} (c p : ℕ) (s : Pending dq cs)
    → s.front_size + s.back_size + 3 ≤ defer_queue_size
    → Pending (enqueue c p dq) (cs ++ (c, p) ∷ [])
Pending-enqueue {dq} {cs} c p s room =
    subst (λ t. IsSplit (enqueue c p dq) t [] (cs ++ (c, p) ∷ [])) (sym (enqueue-tail c p dq))
      (enqueue-IsSplit s c p room)

pub whole : {dq : DeferQueue} {cs : List Call} → Pending dq cs → IsSplit dq dq.head cs []
whole s = record {
  fct = _;
  front_size = s.front_size + s.back_size;
  back_size = 0;
  small = s.small;
  fits = omega (arith, s.fits);
  front = Encoded-append s.front s.back;
  back = done refl refl refl;
}

-- The decoder of the whole queue makes every call that it holds, in order.
pub rcu_defer_barrier_thread-Pending :
    {dq : DeferQueue} {cs : List Call}
    → Pending dq cs
    → (dq' : DeferQueue) × (rcu_defer_barrier_thread dq ≡ some (dq', cs)) × Pending dq' []
unfolding rcu_defer_barrier_thread
rcu_defer_barrier_thread-Pending {dq} {cs} s = elim (Bool-cases (word_sub dq.head dq.tail == 0)) [
  | inl e ↦
      let none_held : cs ≡ [] = Encoded-zero (ground (arith, used s)) s.back in
      (dq, rw (e, none_held) refl, rw none_held at s)
  | inr e ↦
      let (dq', ran, left, same) = rcu_defer_barrier_queue-IsSplit (whole s) in
      (dq', rw e ran, left)
]

-- One call of `defer_rcu` on a queue that holds the calls `cs`: it succeeds, the calls that it
-- makes itself and those that the queue holds behind it are, in order, `cs` and the new call.
pub defer_rcu-Pending :
    {dq : DeferQueue} {cs : List Call} (c p futex : ℕ)
    → Pending dq cs
    → (r : Deferred) × (defer_rcu c p dq futex ≡ some r)
      × ((held : List Call) × Pending r.queue held × (r.ran ++ held ≡ cs ++ (c, p) ∷ []))
unfolding defer_rcu
defer_rcu-Pending {dq} {cs} c p futex s =
    elim (Bool-cases (ltb (word_sub dq.head dq.tail) (defer_queue_size - 2))) [
      | inl e ↦ (
        record {
          queue = enqueue c p dq;
          futex = (wake_up_defer futex).0;
          wakes = (wake_up_defer futex).1;
          ran = [];
        },
        rw e refl,
        (cs ++ (c, p) ∷ [], Pending-enqueue c p s (ground (arith, used s)), refl),
      )
      | inr e ↦
          let (dq', ran, left) = rcu_defer_barrier_thread-Pending s in
          let flushed : (word_sub dq'.head dq'.tail == 0) ≡ true =
            ground (arith, used left, Encoded-nil left.front, Encoded-nil left.back) in
          (
            record {
              queue = enqueue c p dq';
              futex = (wake_up_defer futex).0;
              wakes = (wake_up_defer futex).1;
              ran = cs;
            },
            rw (e, ran, flushed) refl,
            (
              (c, p) ∷ [],
              Pending-enqueue c p left
                  (omega (arith, Encoded-nil left.front, Encoded-nil left.back)),
              refl,
            ),
          )
    ]
