-- ===== src/Hash/Reverse/Buckets.antt =====
-- src/rculfhash.c: why the nodes of one bucket stand together in the list that is sorted by the
-- reversed hash. `hash & (size - 1)` of `lookup_bucket` is `hash % size`, the size a power of two.
use native.Mathlib.Nat.{
  pow-suc, zero-add, suc-add, div-div-eq-div-mul, mod-eq-sub-mul-div, mul-div-le, add-mul-div_right,
  div-eq_of_lt, mul_comm, add_comm,
}
use liburcu.Prelude.{
  ℕ, zero, suc, ◌+◌, ◌-◌, ◌*◌, ◌/◌, ◌%◌, ◌^◌, ◌≤◌, ◌<◌, ◌≡◌, ◌↔◌, refl, sym, ◌∙◌, ap, arith,
  pow_pos, pow-add,
}
use liburcu.Hash.Reverse.{bit_reverse_ulong}
use liburcu.Hash.Reverse.Spec.{reverse_bits, bit_reverse_ulong_lem}

reverse_bits-lt : (n v : ℕ) → reverse_bits n v < 2 ^ n
unfolding reverse_bits
reverse_bits-lt zero v = omega arith
reverse_bits-lt (suc n) v = simp pow-suc (grind (arith, reverse_bits-lt n (v / 2)))

-- The lowest bits come out on top.
reverse_bits-add :
    (k m v : ℕ) → reverse_bits (k + m) v ≡ reverse_bits k v * 2 ^ m + reverse_bits m (v / 2 ^ k)
unfolding reverse_bits
reverse_bits-add zero m v = let one : v / 1 ≡ v = omega arith in rw (zero-add, one) (omega arith)
reverse_bits-add (suc k) m v =
    let halves : v / 2 / 2 ^ k ≡ v / 2 ^ suc k =
      div-div-eq-div-mul v 2 (2 ^ k) ∙ ap (λ (t : ℕ). v / t) (simp pow-suc (omega arith)) in
    rw suc-add (
      omega (
        arith,
        reverse_bits-add k m (v / 2),
        ap (λ (t : ℕ). v % 2 * t) (pow-add k m),
        ap (reverse_bits m) halves,
      ))

mod_double : (v p : ℕ) → v % (p * 2) ≡ v % 2 + 2 * (v / 2 % p)
mod_double v p =
    let halves : v / (p * 2) ≡ v / 2 / p =
      ap (λ (t : ℕ). v / t) (mul_comm p 2) ∙ sym (div-div-eq-div-mul v 2 p) in
    omega (
      arith,
      mod-eq-sub-mul-div v (p * 2),
      mod-eq-sub-mul-div (v / 2) p,
      ap (λ (t : ℕ). p * t) halves,
      mul-div-le (v / 2) p,
      mul-div-le v (p * 2),
    )

two_digits :
    (a b p r s : ℕ) → a < 2 → b < 2 → r < p → s < p → a * p + r ≡ b * p + s → (a ≡ b) × (r ≡ s)
two_digits zero zero p r s ha hb hr hs h = omega arith
two_digits zero (suc zero) p r s ha hb hr hs h = omega arith
two_digits (suc zero) zero p r s ha hb hr hs h = omega arith
two_digits (suc zero) (suc zero) p r s ha hb hr hs h = omega arith
two_digits (suc (suc a)) b p r s ha hb hr hs h = absurd (omega arith)
two_digits a (suc (suc b)) p r s ha hb hr hs h = absurd (omega arith)

-- Equal reversals are equal lowest bits.
lowest_bits : (k v w : ℕ) → (reverse_bits k v ≡ reverse_bits k w) ↔ (v % 2 ^ k ≡ w % 2 ^ k)
unfolding reverse_bits
lowest_bits zero v w = (λ h. omega arith, λ h. refl)
lowest_bits (suc k) v w =
    let low : (x : ℕ) → x % 2 ^ suc k ≡ x % 2 + 2 * (x / 2 % 2 ^ k) =
      λ x. simp pow-suc (mod_double x (2 ^ k)) in
    (
      λ h.
          let (digit, rest) =
            two_digits (v % 2) (w % 2) (2 ^ k) _ _ (omega arith) (omega arith)
              (reverse_bits-lt k (v / 2)) (reverse_bits-lt k (w / 2)) h in
          omega (arith, low v, low w, (lowest_bits k (v / 2) (w / 2)).0 rest),
      λ h.
          let digit : v % 2 ≡ w % 2 = omega (arith, low v, low w) in
          let rest : v / 2 % 2 ^ k ≡ w / 2 % 2 ^ k = omega (arith, low v, low w) in
          rw (digit, (lowest_bits k (v / 2) (w / 2)).1 rest) refl,
    )

highest_bits : (k m v : ℕ) → k + m ≡ 64 → bit_reverse_ulong v / 2 ^ m ≡ reverse_bits k v
highest_bits k m v e =
    rw
      (
        bit_reverse_ulong_lem v,
        ← e,
        reverse_bits-add k m v,
        add_comm (reverse_bits k v * 2 ^ m) (reverse_bits m (v / 2 ^ k)),
      )
      (omega (
        arith,
        add-mul-div_right (reverse_bits m (v / 2 ^ k)) (reverse_bits k v) (pow_pos m),
        div-eq_of_lt (reverse_bits-lt m (v / 2 ^ k)),
      ))

-- With 2 ^ k buckets, k at most 64: two words have the same bucket exactly when their reversals
-- agree in the highest k bits. So the nodes of one bucket, sorted by reversed hash, are a run
-- of the list with no node of another bucket in between.
pub bucket_range :
    (k v w : ℕ)
    → k ≤ 64
    → (v % 2 ^ k ≡ w % 2 ^ k)
      ↔ (bit_reverse_ulong v / 2 ^ (64 - k) ≡ bit_reverse_ulong w / 2 ^ (64 - k))
bucket_range k v w h =
    let e : k + (64 - k) ≡ 64 = omega arith in
    rw (highest_bits k (64 - k) v e, highest_bits k (64 - k) w e)
      ((lowest_bits k v w).1, (lowest_bits k v w).0)
