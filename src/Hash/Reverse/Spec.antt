-- ===== src/Hash/Reverse/Spec.antt =====
-- The reversal against its definition bit by bit.
use native.Mathlib.Nat.{pow-suc}
use liburcu.Prelude.{
  ℕ, zero, suc, ◌+◌, ◌*◌, ◌/◌, ◌%◌, ◌^◌, ◌<◌, ◌≡◌, refl, Bool, true, ◌&&◌, ◌==◌, ltb, arith, ==_iff,
  false, if◌then◌else◌, ap,
}
use liburcu.Hash.Reverse.{bit_reverse_u8, bit_reverse_u64, bit_reverse_ulong, byte}

-- The lowest `n` bits of `v`, in reverse.
unfoldable pub reverse_bits : ℕ → ℕ → ℕ
reverse_bits zero v = 0
reverse_bits (suc n) v = v % 2 * 2 ^ n + reverse_bits n (v / 2)

-- A test of the first `n` numbers, each under the weight of those before it.
passes : (test : ℕ → Bool) → (n : ℕ) → Bool
passes test zero = true
passes test (suc n) = let before = passes test n in if test n then before else false

passes-lookup : (test : ℕ → Bool) (n b : ℕ) → b < n → passes test n ≡ true → test b ≡ true
unfolding passes
passes-lookup test zero b lt e = absurd (omega arith)
passes-lookup test (suc n) b lt e = ground (arith, passes-lookup test n b)

u8_table : passes (λ b. bit_reverse_u8 b == reverse_bits 8 b) 256 ≡ true
unfolding passes bit_reverse_u8 reverse_bits
u8_table = refl

u8_lem : (b : ℕ) → b < 256 → bit_reverse_u8 b ≡ reverse_bits 8 b
u8_lem b h = (==_iff _ _).0 (passes-lookup _ 256 b h u8_table)

u8_twice_table :
    passes (λ b. (bit_reverse_u8 (bit_reverse_u8 b) == b) && ltb (bit_reverse_u8 b) 256) 256 ≡ true
unfolding passes bit_reverse_u8
u8_twice_table = refl

pub u8_twice :
    (b : ℕ) → b < 256 → (bit_reverse_u8 (bit_reverse_u8 b) ≡ b) × (bit_reverse_u8 b < 256)
u8_twice b h = ground (arith, passes-lookup _ 256 b h u8_twice_table)

-- Eight bits at a time.
reverse_bits_byte :
    (n v : ℕ)
    → reverse_bits (suc (suc (suc (suc (suc (suc (suc (suc n)))))))) v
      ≡ reverse_bits 8 (v % 256) * 2 ^ n + reverse_bits n (v / 256)
unfolding reverse_bits
reverse_bits_byte n v =
    let d0 : v % 256 % 2 ≡ v % 2 = omega arith in
    let d1 : v % 256 / 2 % 2 ≡ v / 2 % 2 = omega arith in
    let d2 : v % 256 / 2 / 2 % 2 ≡ v / 2 / 2 % 2 = omega arith in
    let d3 : v % 256 / 2 / 2 / 2 % 2 ≡ v / 2 / 2 / 2 % 2 = omega arith in
    let d4 : v % 256 / 2 / 2 / 2 / 2 % 2 ≡ v / 2 / 2 / 2 / 2 % 2 = omega arith in
    let d5 : v % 256 / 2 / 2 / 2 / 2 / 2 % 2 ≡ v / 2 / 2 / 2 / 2 / 2 % 2 = omega arith in
    let d6 : v % 256 / 2 / 2 / 2 / 2 / 2 / 2 % 2 ≡ v / 2 / 2 / 2 / 2 / 2 / 2 % 2 = omega arith in
    let d7 : v % 256 / 2 / 2 / 2 / 2 / 2 / 2 / 2 % 2 ≡ v / 2 / 2 / 2 / 2 / 2 / 2 / 2 % 2 =
      omega arith in
    let q : v / 2 / 2 / 2 / 2 / 2 / 2 / 2 / 2 ≡ v / 256 = omega arith in
    rw (d0, d1, d2, d3, d4, d5, d6, d7, q) (simp pow-suc (omega arith))

-- One byte of a word, and the next.
byte_step :
    (n k v : ℕ)
    → v / 2 ^ (8 * k) / 256 ≡ v / 2 ^ (8 * (k + 1))
    → reverse_bits (suc (suc (suc (suc (suc (suc (suc (suc n)))))))) (v / 2 ^ (8 * k))
      ≡ bit_reverse_u8 (byte v k) * 2 ^ n + reverse_bits n (v / 2 ^ (8 * (k + 1)))
byte_step n k v e =
    let u = u8_lem (byte v k) (omega arith) in rw (u, ← e) (reverse_bits_byte n (v / 2 ^ (8 * k)))

none_left : (v : ℕ) → reverse_bits 0 v ≡ 0
unfolding reverse_bits
none_left v = refl

-- The table method is the reversal of 64 bits.
pub bit_reverse_ulong_lem : (v : ℕ) → bit_reverse_ulong v ≡ reverse_bits 64 v
unfolding bit_reverse_ulong bit_reverse_u64
bit_reverse_ulong_lem v =
    let start : reverse_bits 64 v ≡ reverse_bits 64 (v / 2 ^ (8 * 0)) =
      ap (reverse_bits 64) (omega arith) in
    omega (
      arith,
      start,
      byte_step 56 0 v (omega arith),
      byte_step 48 1 v (omega arith),
      byte_step 40 2 v (omega arith),
      byte_step 32 3 v (omega arith),
      byte_step 24 4 v (omega arith),
      byte_step 16 5 v (omega arith),
      byte_step 8 6 v (omega arith),
      byte_step 0 7 v (omega arith),
      none_left,
    )
