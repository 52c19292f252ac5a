-- ===== src/Ref/Count.antt =====
-- include/urcu/ref.h: the count of references, and what the calls return.
use mathlib.Core.Path.{subst}
use liburcu.Prelude.{
  ℕ, ◌+◌, ◌-◌, ◌≡◌, ◌≢◌, ◌≤◌, ◌<◌, refl, Bool, true, false, ◌||◌, List, [], ◌∷◌, length, has, ◌==◌,
  if◌then◌else◌, if_elim, update_elim, arith,
}
use liburcu.Ref.{
  Counter, Pc, Event, outside, read_safe, swap_safe, read_unless_zero, swap_unless_zero, got,
  overflow, was_zero, dropped, released, long_max, goto, note, take, drop_one, try_safe,
  try_unless_zero, get_at, urcu_ref_put, Step, Reachable, fresh, then_step,
}

-- In urcu_ref_get_safe.
abbrev pub in_safe : Pc → Bool
in_safe read_safe = true
in_safe (swap_safe old) = true
in_safe _ = false

-- The expected value of a cmpxchg.
abbrev pub expects : Pc → ℕ
expects (swap_safe old) = old
expects (swap_unless_zero old) = old
expects _ = 1

abbrev pub is_released : Event → Bool
is_released released = true
is_released _ = false

abbrev pub is_got : Event → Bool
is_got got = true
is_got _ = false

-- How often `release` has been called.
abbrev pub releases : List Event → ℕ
releases [] = 0
releases (released ∷ es) = releases es + 1
releases (got ∷ es) = releases es
releases (overflow ∷ es) = releases es
releases (was_zero ∷ es) = releases es
releases (dropped ∷ es) = releases es

record Inv (c : Counter) : Type 0 where
  counts : c.refcount ≡ length c.holders
  bounded : c.refcount ≤ long_max
  holds : (i : ℕ) → in_safe (c.pc i) ≡ true → has i c.holders ≡ true
  expected : (i : ℕ) → (expects (c.pc i) ≢ 0) × (expects (c.pc i) ≢ long_max)
  once : releases c.events ≡ (if c.refcount == 0 then 1 else 0)

length-drop_one : (i : ℕ) (l : List ℕ) → has i l ≡ true → length l ≡ length (drop_one i l) + 1
length-drop_one i [] h = absurd (ground arith)
length-drop_one i (j ∷ rest) h = ground (arith, length-drop_one i rest)

has-drop_one : (i k : ℕ) (l : List ℕ) → k ≢ i → has k (drop_one i l) ≡ has k l
has-drop_one i k [] ne = refl
has-drop_one i k (j ∷ rest) ne = ground (arith, has-drop_one i k rest ne)

has_some : (i : ℕ) (l : List ℕ) → has i l ≡ true → length l ≢ 0
has_some i [] h = absurd (ground arith)
has_some i (j ∷ rest) h = ground arith

released_once :
    (z : Bool) (es : List Event)
    → releases es ≡ 0
    → releases ((if z then released else dropped) ∷ es) ≡ (if z then 1 else 0)
released_once true es r = ground arith
released_once false es r = r

-- What a step of urcu_ref_get_safe or urcu_ref_get_unless_zero does.
pub data Outcome (c d : Counter) : Type 0 where
  goes_on : d.refcount ≡ c.refcount → d.holders ≡ c.holders → d.events ≡ c.events → Outcome c d
  succeeds :
      c.refcount < long_max
      → c.refcount ≢ 0
      → d.refcount ≡ c.refcount + 1
      → d.events ≡ got ∷ c.events
      → Outcome c d
  fails_at_max :
      c.refcount ≡ long_max → d.refcount ≡ c.refcount → d.events ≡ overflow ∷ c.events → Outcome c d
  fails_at_zero :
      c.refcount ≡ 0 → d.refcount ≡ c.refcount → d.events ≡ was_zero ∷ c.events → Outcome c d

module _ (c : Counter) (inv : Inv c) where
  open inv use {counts, bounded, holds, expected, once}

  goto-Inv :
      (i : ℕ) (p : Pc)
      → (in_safe p ≡ true → has i c.holders ≡ true)
      → (expects p ≢ 0) × (expects p ≢ long_max)
      → Inv (goto i p c)
  goto-Inv i p h x = record {
    counts = counts;
    bounded = bounded;
    holds = λ j.
        update_elim (λ q. in_safe q ≡ true → has j c.holders ≡ true) c.pc i p j (λ e k. rw e (h k))
          (λ e. holds j);
    expected = λ j.
        update_elim (λ q. (expects q ≢ 0) × (expects q ≢ long_max)) c.pc i p j (λ e. x)
          (λ e. expected j);
    once = once;
  }

  take-Inv : (i : ℕ) → c.refcount ≢ 0 → c.refcount ≢ long_max → Inv (take i c)
  take-Inv i nz nm = record {
    counts = ground (arith, counts);
    bounded = omega (arith, bounded, nm);
    holds = λ j.
        update_elim (λ q. in_safe q ≡ true → has j (i ∷ c.holders) ≡ true) c.pc i outside j
          (λ e k. absurd (ground arith)) (λ e k. ground (arith, holds j));
    expected = λ j.
        update_elim (λ q. (expects q ≢ 0) × (expects q ≢ long_max)) c.pc i outside j
          (λ e. ground arith) (λ e. expected j);
    once = ground (arith, once);
  }

  fail-Inv :
      (i : ℕ) (e : Event)
      → releases (e ∷ c.events) ≡ releases c.events
      → Inv (note e (goto i outside c))
  fail-Inv i e r =
      let on = goto-Inv i outside (λ k. absurd (ground arith)) (ground arith) in
      record {
        counts = counts;
        bounded = bounded;
        holds = on.holds;
        expected = on.expected;
        once = rw r once;
      }

  try_safe-Inv : (i : ℕ) → has i c.holders ≡ true → Inv (try_safe i c.refcount c)
  unfolding try_safe
  try_safe-Inv i h =
      if_elim Inv (c.refcount == long_max) (λ k. fail-Inv i overflow refl)
        (λ k. goto-Inv i (swap_safe c.refcount) (λ m. h) (ground (arith, has_some i c.holders h)))

  try_unless_zero-Inv : (i : ℕ) → Inv (try_unless_zero i c.refcount c)
  unfolding try_unless_zero
  try_unless_zero-Inv i =
      if_elim Inv ((c.refcount == 0) || (c.refcount == long_max))
        (λ k.
          if_elim (λ e. Inv (note e (goto i outside c))) (c.refcount == 0)
            (λ m. fail-Inv i was_zero refl) (λ m. fail-Inv i overflow refl))
        (λ k. goto-Inv i (swap_unless_zero c.refcount) (λ m. absurd (ground arith)) (ground arith))

  get_at-Inv : (i : ℕ) (p : Pc) → c.pc i ≡ p → Inv (get_at i p c)
  unfolding get_at
  get_at-Inv i outside e = inv
  get_at-Inv i read_safe e = try_safe-Inv i (holds i (rw e refl))
  get_at-Inv i (swap_safe old) e =
      if_elim Inv (c.refcount == old)
        (λ k. let x = expected i in take-Inv i (ground arith) (ground arith))
        (λ k. try_safe-Inv i (holds i (rw e refl)))
  get_at-Inv i read_unless_zero e = try_unless_zero-Inv i
  get_at-Inv i (swap_unless_zero old) e =
      if_elim Inv (c.refcount == old)
        (λ k. let x = expected i in take-Inv i (ground arith) (ground arith))
        (λ k. try_unless_zero-Inv i)

  put-Inv : (i : ℕ) → c.pc i ≡ outside → has i c.holders ≡ true → Inv (urcu_ref_put i c)
  unfolding urcu_ref_put
  put-Inv i e h = record {
    counts = ground (arith, length-drop_one i c.holders h);
    bounded = omega (arith, bounded);
    holds = λ j k. ground (arith, holds j, has-drop_one i j c.holders);
    expected = expected;
    once =
        released_once (c.refcount - 1 == 0) c.events
          (ground (arith, once, counts, has_some i c.holders h));
  }

  try_safe-Outcome : (i : ℕ) → Outcome c (try_safe i c.refcount c)
  unfolding try_safe
  try_safe-Outcome i =
      if_elim (Outcome c) (c.refcount == long_max) (λ k. fails_at_max (ground arith) refl refl)
        (λ k. goes_on refl refl refl)

  try_unless_zero-Outcome : (i : ℕ) → Outcome c (try_unless_zero i c.refcount c)
  unfolding try_unless_zero
  try_unless_zero-Outcome i =
      if_elim (Outcome c) ((c.refcount == 0) || (c.refcount == long_max))
        (λ k.
          if_elim (λ e. Outcome c (note e (goto i outside c))) (c.refcount == 0)
            (λ m. fails_at_zero (ground arith) refl refl)
            (λ m. fails_at_max (ground arith) refl refl))
        (λ k. goes_on refl refl refl)

  swap-Outcome : (i : ℕ) → expects (c.pc i) ≡ c.refcount → Outcome c (take i c)
  swap-Outcome i e =
      let x = expected i in succeeds (ground (arith, bounded)) (ground arith) refl refl

  get_at-Outcome : (i : ℕ) (p : Pc) → c.pc i ≡ p → Outcome c (get_at i p c)
  unfolding get_at
  get_at-Outcome i outside e = goes_on refl refl refl
  get_at-Outcome i read_safe e = try_safe-Outcome i
  get_at-Outcome i (swap_safe old) e =
      if_elim (Outcome c) (c.refcount == old) (λ k. swap-Outcome i (ground arith))
        (λ k. try_safe-Outcome i)
  get_at-Outcome i read_unless_zero e = try_unless_zero-Outcome i
  get_at-Outcome i (swap_unless_zero old) e =
      if_elim (Outcome c) (c.refcount == old) (λ k. swap-Outcome i (ground arith))
        (λ k. try_unless_zero-Outcome i)

Step-Inv : {c d : Counter} → Inv c → Step c d → Inv d
Step-Inv {c} inv (Step.get i e h) = goto-Inv c inv i read_safe (λ k. h) (ground arith)
Step-Inv {c} inv (Step.get_unless_zero i e) =
    goto-Inv c inv i read_unless_zero (λ k. absurd (ground arith)) (ground arith)
Step-Inv {c} inv (Step.on i) = get_at-Inv c inv i (c.pc i) refl
Step-Inv {c} inv (Step.put i e h) = put-Inv c inv i e h

Reachable-Inv : {c : Counter} → Reachable c → Inv c
Reachable-Inv (fresh i) = record {
  counts = refl;
  bounded = omega arith;
  holds = λ j k. absurd (ground arith);
  expected = λ j. ground arith;
  once = refl;
}
Reachable-Inv (then_step r st) = Step-Inv (Reachable-Inv r) st

-- However many threads take and put references: the count is the number of references that are held,
-- and at most LONG_MAX; and `release` has been called once if no reference is held, and not at all
-- if one is.
pub released_when_unheld :
    {c : Counter}
    → Reachable c
    → (c.refcount ≡ length c.holders)
      × ((c.refcount ≤ long_max) × (releases c.events ≡ (if length c.holders == 0 then 1 else 0)))
released_when_unheld {c} r =
    let inv = Reachable-Inv r in
    (
      inv.counts,
      (
        inv.bounded,
        subst (λ (n : ℕ). releases c.events ≡ (if n == 0 then 1 else 0)) inv.counts inv.once,
      ),
    )

-- Each step of urcu_ref_get_safe and urcu_ref_get_unless_zero either goes on with the count and the
-- holders as they are; or returns true, from a count that is neither 0 nor LONG_MAX and grows by
-- one; or returns false, with the count as it is, and this is LONG_MAX, or 0.
pub get-Outcome : {c : Counter} (i : ℕ) → Reachable c → Outcome c (get_at i (c.pc i) c)
get-Outcome {c} i r = get_at-Outcome c (Reachable-Inv r) i (c.pc i) refl
