-- ===== src/Hash/Tables/Places.antt =====
-- src/rculfhash-mm-order.c and src/rculfhash-mm-chunk.c: each bucket has its own place, in an
-- array that is allocated.
use native.Mathlib.Nat.{
  mod-lt, mod-eq_of_lt, mod-eq-sub-mod, div-add-mod, le-div_iff_mul-le, div-lt_iff_lt-mul,
}
use mathlib.Core.Path.{sym, ◌∙◌}
use liburcu.Prelude.{
  ℕ, ◌+◌, ◌-◌, ◌*◌, ◌/◌, ◌%◌, ◌^◌, ◌<◌, ◌≤◌, ◌≡◌, ap, Bool-cases, true, false, ◌==◌, ltb,
  if◌then◌else◌, inl, inr, arith, pow_pos, pow-add, pow_mono,
}
use liburcu.Hash.Order.{fls_u64}
use liburcu.Hash.Order.Laws.{fls_bounds}
use liburcu.Hash.Tables.{order_alloc, order_bucket_at, chunk_alloc, chunk_bucket_at}

-- Two to the order and to the one before it.
pow_half : (o : ℕ) → 1 ≤ o → 2 ^ o ≡ 2 * 2 ^ (o - 1)
pow_half o h = let e : o ≡ 1 + (o - 1) = omega arith in ap (λ (t : ℕ). 2 ^ t) e ∙ pow-add 1 (o - 1)

-- Where the array of the order starts in the order of the indices.
abbrev pub base_of : ℕ → ℕ
base_of o = if o == 0 then 0 else 2 ^ (o - 1)

-- The order of an index that is not in the first array.
order_above :
    (m k index : ℕ)
    → index < 2 ^ 64
    → 2 ^ m ≤ index
    → index < 2 ^ k
    → (m < fls_u64 index) × (fls_u64 index ≤ k)
order_above m k index small big below =
    let p = pow_pos m in
    let (hi, lo) = (fls_bounds index (omega arith)).u64 small in
    let o = fls_u64 index in
    let above : m < o = elim (Bool-cases (ltb m o)) [
      | inl b ↦ ground arith
      | inr b ↦ let q = pow_mono o m (ground arith) in absurd (omega arith)
    ] in
    let capped : o ≤ k = elim (Bool-cases (ltb k o)) [
      | inl b ↦ let q = pow_mono k (o - 1) (ground arith) in absurd (omega arith)
      | inr b ↦ ground arith
    ] in
    (above, capped)

-- The order allocator, 2 ^ m being the least number of buckets, of a table of 2 ^ k buckets,
-- m at most k: the node of a bucket stands in the array of an order up to k that is
-- allocated, within it, and its place gives the index back, so that no two share one.
pub order_bucket_at_place :
    (m k index : ℕ)
    → m ≤ k
    → index < 2 ^ k
    → index < 2 ^ 64
    → (((order_bucket_at m index).0 ≤ k)
        × ((order_bucket_at m index).1 < order_alloc m (order_bucket_at m index).0))
      × (base_of (order_bucket_at m index).0 + (order_bucket_at m index).1 ≡ index)
unfolding order_bucket_at order_alloc
order_bucket_at_place m k index le below small = elim (Bool-cases (ltb index (2 ^ m))) [
  | inl b ↦ rw b ((ground arith, ground arith), ground arith)
  | inr b ↦
      let p = pow_pos m in
      let big : 2 ^ m ≤ index = ground arith in
      let (above, capped) = order_above m k index small big below in
      let (hi, lo) = (fls_bounds index (omega arith)).u64 small in
      let o = fls_u64 index in
      let half = pow_half o (omega arith) in
      let q = pow_pos (o - 1) in
      let rest : index % 2 ^ (o - 1) ≡ index - 2 ^ (o - 1) =
        mod-eq-sub-mod lo ∙ mod-eq_of_lt (omega (arith, half)) in
      let z : (o == 0) ≡ false = ground arith in
      let a : ltb m o ≡ true = ground arith in
      rw (b, z, a, rest) ((capped, omega (arith, half)), omega arith)
]

-- The chunk allocator, likewise: the chunk of a bucket is one that the allocation of some order up
-- to k makes, and its place gives the index back.
pub chunk_bucket_at_place :
    (m k index : ℕ)
    → m ≤ k
    → index < 2 ^ k
    → index < 2 ^ 64
    → ((order : ℕ) × ((order ≤ k)
          × (((chunk_alloc m order).0 ≤ (chunk_bucket_at m index).0)
              × ((chunk_bucket_at m index).0 < (chunk_alloc m order).1))))
      × (((chunk_bucket_at m index).1 < 2 ^ m)
          × (2 ^ m * (chunk_bucket_at m index).0 + (chunk_bucket_at m index).1 ≡ index))
unfolding chunk_bucket_at chunk_alloc
chunk_bucket_at_place m k index le below small =
    let p = pow_pos m in
    let within : (index % 2 ^ m < 2 ^ m) × (2 ^ m * (index / 2 ^ m) + index % 2 ^ m ≡ index) =
      (mod-lt index p, div-add-mod index (2 ^ m)) in
    elim (Bool-cases (ltb index (2 ^ m))) [
      | inl b ↦ ((0, (omega arith, (omega arith, (div-lt_iff_lt-mul p).1 (ground arith)))), within)
      | inr b ↦
          let (above, capped) = order_above m k index small (ground arith) below in
          let (hi, lo) = (fls_bounds index (ground arith)).u64 small in
          let o = fls_u64 index in
          let len = 2 ^ (o - 1 - m) in
          let whole : len * 2 ^ m ≡ 2 ^ (o - 1) =
            sym (pow-add (o - 1 - m) m) ∙ ap (λ (t : ℕ). 2 ^ t) (omega arith) in
          let half = pow_half o (omega arith) in
          let z : (o == 0) ≡ false = ground arith in
          let a : ltb m o ≡ true = ground arith in
          (
            (
              o,
              (
                capped,
                rw (z, a)
                    (
                      (le-div_iff_mul-le p).1 (omega (arith, whole)),
                      (div-lt_iff_lt-mul p).1 (omega (arith, whole, half)),
                    ),
              ),
            ),
            within,
          )
    ]
