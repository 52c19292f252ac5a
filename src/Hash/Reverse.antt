-- ===== src/Hash/Reverse.antt =====
-- src/rculfhash.c: reversal of the bits of a word by a table of bytes.
pub mod Spec
pub mod Buckets
pub mod Involution
use liburcu.Prelude.{ℕ, zero, suc, ◌+◌, ◌*◌, ◌/◌, ◌%◌, ◌^◌, List, [], ◌∷◌, ◌++◌}

-- The macros R2, R4 and R6.
abbrev pub r2 : ℕ → List ℕ
r2 n = n ∷ (n + 2 * 64) ∷ (n + 1 * 64) ∷ (n + 3 * 64) ∷ []

abbrev pub r4 : ℕ → List ℕ
r4 n = r2 n ++ (r2 (n + 2 * 16) ++ (r2 (n + 1 * 16) ++ r2 (n + 3 * 16)))

abbrev pub r6 : ℕ → List ℕ
r6 n = r4 n ++ (r4 (n + 2 * 4) ++ (r4 (n + 1 * 4) ++ r4 (n + 3 * 4)))

unfoldable pub bit_reverse_table : List ℕ
bit_reverse_table = r6 0 ++ (r6 2 ++ (r6 1 ++ r6 3))

abbrev pub get_or : List ℕ → ℕ → ℕ → ℕ
get_or [] i d = d
get_or (x ∷ xs) zero d = x
get_or (x ∷ xs) (suc i) d = get_or xs i d

-- The argument is a `uint8_t`, so the index is in range.
unfoldable pub bit_reverse_u8 : ℕ → ℕ
unfolding bit_reverse_table
bit_reverse_u8 v = get_or bit_reverse_table (v % 256) 0

-- The cast of `v >> 8 * k` to `uint8_t`.
abbrev pub byte : ℕ → ℕ → ℕ
byte v k = v / 2 ^ (8 * k) % 256

-- The eight operands of `|` have no bit in common, so the sum is their union.
unfoldable pub bit_reverse_u64 : ℕ → ℕ
bit_reverse_u64 v =
    bit_reverse_u8 (byte v 0) * 2 ^ 56
    + bit_reverse_u8 (byte v 1) * 2 ^ 48
    + bit_reverse_u8 (byte v 2) * 2 ^ 40
    + bit_reverse_u8 (byte v 3) * 2 ^ 32
    + bit_reverse_u8 (byte v 4) * 2 ^ 24
    + bit_reverse_u8 (byte v 5) * 2 ^ 16
    + bit_reverse_u8 (byte v 6) * 2 ^ 8
    + bit_reverse_u8 (byte v 7)

-- The 64-bit build.
unfoldable pub bit_reverse_ulong : ℕ → ℕ
bit_reverse_ulong v = bit_reverse_u64 v
