-- ===== src/Hash/Order/Laws.antt =====
-- What `fls` and the order of a size are.
use native.Mathlib.Nat.{
  mul-le-mul_right, lt_of_mul-lt-mul_right, le_of_mul-le-mul_right, div-lt_iff_lt-mul, mod-eq_of_lt,
  mul_assoc, div-eq_of_lt, mul-lt-mul_of_pos_right,
}
use native.Mathlib.Decide.{dec_lt}
use liburcu.Prelude.{
  ℕ, ◌+◌, ◌-◌, ◌*◌, ◌/◌, ◌%◌, ◌^◌, ◌≤◌, ◌<◌, ◌≡◌, refl, true, false, ◌≢◌, inl, inr, sym, ap, ◌∙◌,
  arith, Bool-cases, pow_mono, pow-add, pow_pos, ◌==◌,
}
use liburcu.Hash.Order.{
  Shift, shift_step, fls_u64, fls_u32, cds_lfht_get_count_order_u32, cds_lfht_get_count_order_ulong,
}

-- The shifts so far have multiplied `v` by 2 ^ (w - r), and left fewer than `k` zeros on top.
record Shifted (w k v : ℕ) (s : Shift) : Type 0 where
  place : s.r ≤ w
  value : s.x ≡ v * 2 ^ (w - s.r)
  low : 2 ^ (w - k) ≤ s.x
  high : s.x < 2 ^ w

below_one : {q : ℕ} → (q == 0) ≡ true → q < 1
below_one e = ground arith

nonzero : {q : ℕ} → (q == 0) ≡ false → q ≢ 0
nonzero e h = ground arith

nothing_at_zero : {v r : ℕ} → r ≡ 0 → v < 2 ^ r → 0 < v → ⊥
nothing_at_zero {v} e h p = let h1 : v < 2 ^ 0 = rw e at h in omega arith

zero_test : (x : ℕ) → 0 < x → (x == 0) ≡ false
zero_test x h = ground arith

module _ (w k v : ℕ) (positive : 0 < v) (fits : k + k ≤ w) where
  -- A word with `k` zeros on top has room for the shift.
  room : (s : Shift) → Shifted w (k + k) v s → s.x < 2 ^ (w - k) → k < s.r
  room s h small = elim (dec_lt k s.r) [
    | yes p ↦ p
    | no p ↦ absurd (
        omega (
          arith,
          h.value,
          pow_mono (w - k) (w - s.r) (omega arith),
          mul-le-mul_right (2 ^ (w - s.r)) positive,
        ))
  ]

  shifted :
      (s : Shift)
      → Shifted w (k + k) v s
      → s.x < 2 ^ (w - k)
      → Shifted w k v (record { x = s.x * 2 ^ k % 2 ^ w; r = s.r - k })
  shifted s h small =
      let r_big = room s h small in
      let whole : 2 ^ (w - k) * 2 ^ k ≡ 2 ^ w =
        sym (pow-add (w - k) k) ∙ ap (λ (t : ℕ). 2 ^ t) (omega arith) in
      let below : s.x * 2 ^ k < 2 ^ w =
        omega (arith, whole, mul-lt-mul_of_pos_right small (pow_pos k)) in
      let more : 2 ^ (w - s.r) * 2 ^ k ≡ 2 ^ (w - (s.r - k)) =
        sym (pow-add (w - s.r) k) ∙ ap (λ (t : ℕ). 2 ^ t) (omega (arith, h.place)) in
      let least : 2 ^ (w - (k + k)) * 2 ^ k ≡ 2 ^ (w - k) =
        sym (pow-add (w - (k + k)) k) ∙ ap (λ (t : ℕ). 2 ^ t) (omega arith) in
      record {
        place = omega (arith, h.place);
        value =
            mod-eq_of_lt below
            ∙ ap (λ (t : ℕ). t * 2 ^ k) h.value
            ∙ mul_assoc v (2 ^ (w - s.r)) (2 ^ k)
            ∙ ap (λ (t : ℕ). v * t) more;
        low = rw (mod-eq_of_lt below) (omega (arith, least, mul-le-mul_right (2 ^ k) h.low));
        high = rw (mod-eq_of_lt below) below;
      }

  shift_step-Shifted : (s : Shift) → Shifted w (k + k) v s → Shifted w k v (shift_step w k s)
  shift_step-Shifted s h = elim (Bool-cases (s.x / 2 ^ (w - k) == 0)) [
    | inl e ↦
        rw e (shifted s h (omega (arith, (div-lt_iff_lt-mul (pow_pos (w - k))).0 (below_one e))))
    | inr e ↦ rw e (record {
      place = h.place;
      value = h.value;
      low = elim (dec_lt s.x (2 ^ (w - k))) [
        | yes p ↦ absurd (nonzero e (div-eq_of_lt p))
        | no p ↦ omega arith
      ];
      high = h.high;
    })
  ]

-- With no zero on top, `v` has its highest bit at place `r`.
highest : (w v : ℕ) (s : Shift) → 0 < v → Shifted w 1 v s → (v < 2 ^ s.r) × (2 ^ (s.r - 1) ≤ v)
highest w v s pos h =
    let whole : 2 ^ s.r * 2 ^ (w - s.r) ≡ 2 ^ w =
      sym (pow-add s.r (w - s.r)) ∙ ap (λ (t : ℕ). 2 ^ t) (omega (arith, h.place)) in
    let below : v < 2 ^ s.r =
      lt_of_mul-lt-mul_right (2 ^ (w - s.r)) (omega (arith, whole, h.value, h.high)) in
    let some_place : 0 < s.r = elim (dec_lt 0 s.r) [
      | yes p ↦ p
      | no p ↦ absurd (nothing_at_zero (omega arith) below pos)
    ] in
    let half : 2 ^ (s.r - 1) * 2 ^ (w - s.r) ≡ 2 ^ (w - 1) =
      sym (pow-add (s.r - 1) (w - s.r)) ∙ ap (λ (t : ℕ). 2 ^ t) (omega (arith, h.place)) in
    (below, le_of_mul-le-mul_right (omega (arith, half, h.value, h.low)) (pow_pos (w - s.r)))

-- `fls_u64` of a nonzero word is the position of its highest bit, counted from 1, and likewise
-- `fls_u32`.
pub fls_bounds : (x : ℕ) → 0 < x → record {
  u64 : x < 2 ^ 64 → (x < 2 ^ fls_u64 x) × (2 ^ (fls_u64 x - 1) ≤ x);
  u32 : x < 2 ^ 32 → (x < 2 ^ fls_u32 x) × (2 ^ (fls_u32 x - 1) ≤ x);
}
unfolding fls_u64 fls_u32
fls_bounds x pos = record {
  u64 = λ small.
      let start : Shifted 64 64 x (record { x = x; r = 64 }) = record {
        place = omega arith;
        value = omega arith;
        low = omega arith;
        high = small;
      } in
      let step = λ (k : ℕ) (f : k + k ≤ 64). shift_step-Shifted 64 k x pos f in
      rw (zero_test x pos) (
        highest 64 x _ pos (
          step 1 (omega arith) _ (
            step 2 (omega arith) _ (
              step 4 (omega arith) _ (
                step 8 (omega arith) _
                  (step 16 (omega arith) _ (step 32 (omega arith) _ start)))))));
  u32 = λ small.
      let start : Shifted 32 32 x (record { x = x; r = 32 }) = record {
        place = omega arith;
        value = omega arith;
        low = omega arith;
        high = small;
      } in
      let step = λ (k : ℕ) (f : k + k ≤ 32). shift_step-Shifted 32 k x pos f in
      rw (zero_test x pos) (
        highest 32 x _ pos (
          step 1 (omega arith) _ (
            step 2 (omega arith) _
              (step 4 (omega arith) _ (step 8 (omega arith) _ (step 16 (omega arith) _ start))))));
}

least_order :
    (x o m : ℕ)
    → 0 < x
    → (x - 1 ≡ 0 → o ≡ 0)
    → (0 < x - 1 → (x - 1 < 2 ^ o) × (2 ^ (o - 1) ≤ x - 1))
    → (x ≤ 2 ^ o) × (x ≤ 2 ^ m → o ≤ m)
least_order x o m pos at_one above = elim (dec_lt 0 (x - 1)) [
  | yes p ↦ (
    omega (arith, (above p).0),
    λ h. elim (dec_lt m o) [
      | yes q ↦ absurd (omega (arith, (above p).1, pow_mono m (o - 1) (omega arith)))
      | no q ↦ omega arith
    ],
  )
  | no p ↦ (omega (arith, pow_pos o), λ h. omega (arith, at_one (omega arith)))
]

fls_zero : (x : ℕ) → x ≡ 0 → (fls_u64 x ≡ 0) × (fls_u32 x ≡ 0)
unfolding fls_u64 fls_u32
fls_zero x e = rw e (refl, refl)

-- The order of a nonzero word is the least `m` with x <= 2 ^ m, also of a 32-bit word.
pub count_order_least : (x m : ℕ) → 0 < x → record {
  ulong :
      x ≤ 2 ^ 64
      → (x ≤ 2 ^ cds_lfht_get_count_order_ulong x)
        × (x ≤ 2 ^ m → cds_lfht_get_count_order_ulong x ≤ m);
  u32 :
      x ≤ 2 ^ 32
      → (x ≤ 2 ^ cds_lfht_get_count_order_u32 x) × (x ≤ 2 ^ m → cds_lfht_get_count_order_u32 x ≤ m);
}
unfolding cds_lfht_get_count_order_ulong cds_lfht_get_count_order_u32
count_order_least x m pos = record {
  ulong = λ small. rw (zero_test x pos) (
      least_order x (fls_u64 (x - 1)) m pos (λ e. (fls_zero (x - 1) e).0)
        (λ p. (fls_bounds (x - 1) p).u64 (omega arith)));
  u32 = λ small. rw (zero_test x pos) (
      least_order x (fls_u32 (x - 1)) m pos (λ e. (fls_zero (x - 1) e).1)
        (λ p. (fls_bounds (x - 1) p).u32 (omega arith)));
}
