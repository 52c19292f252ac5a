-- ===== src/Hash/Order.antt =====
-- src/rculfhash.c: the position of the highest bit, and the order of a table size.
pub mod Laws
use liburcu.Prelude.{ℕ, ◌+◌, ◌-◌, ◌*◌, ◌/◌, ◌%◌, ◌^◌, ◌==◌, if◌then◌else◌, word_mod, minus_one}

-- A word being shifted, and the position so far.
pub record Shift : Type 0 where
  pub x : ℕ
  pub r : ℕ

-- `if (!(x & mask)) { x <<= k; r -= k; }`, the mask being the highest `k` of `w` bits.
abbrev pub shift_step : (w k : ℕ) → Shift → Shift
shift_step w k s =
    if s.x / 2 ^ (w - k) == 0 then record { x = s.x * 2 ^ k % 2 ^ w; r = s.r - k } else s

-- The portable versions. On x86 the source takes the `bsr` instruction.
unfoldable pub fls_u64 : ℕ → ℕ
fls_u64 x =
    if x == 0
    then 0
    else (let s32 = shift_step 64 32 (record { x = x; r = 64 }) in
        let s16 = shift_step 64 16 s32 in
        let s8 = shift_step 64 8 s16 in
        let s4 = shift_step 64 4 s8 in let s2 = shift_step 64 2 s4 in (shift_step 64 1 s2).r)

unfoldable pub fls_u32 : ℕ → ℕ
fls_u32 x =
    if x == 0
    then 0
    else (let s16 = shift_step 32 16 (record { x = x; r = 32 }) in
        let s8 = shift_step 32 8 s16 in
        let s4 = shift_step 32 4 s8 in let s2 = shift_step 32 2 s4 in (shift_step 32 1 s2).r)

-- The `int` results of -1 are bit patterns. A result of `fls` fits.
unfoldable pub cds_lfht_get_count_order_u32 : ℕ → ℕ
cds_lfht_get_count_order_u32 x = if x == 0 then minus_one else fls_u32 (x - 1)

unfoldable pub cds_lfht_get_count_order_ulong : ℕ → ℕ
cds_lfht_get_count_order_ulong x = if x == 0 then minus_one else fls_u64 (x - 1)
