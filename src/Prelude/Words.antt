-- ===== src/Prelude/Words.antt =====
-- The machine words of the 64-bit build: `unsigned long`, and the `int32_t` of a futex.
use Prim.Native.Nat.{ℕ, ◌+◌, ◌-◌, ◌%◌, ◌^◌}

-- `unsigned long` arithmetic wraps at this modulus.
abbrev pub word_mod : ℕ
word_mod = 2 ^ 64

abbrev pub word_add : ℕ → ℕ → ℕ
word_add a b = (a + b) % word_mod

abbrev pub word_sub : ℕ → ℕ → ℕ
word_sub a b = (a + word_mod - b) % word_mod

-- An `int32_t` as its bit pattern.
abbrev pub int32_mod : ℕ
int32_mod = 2 ^ 32

-- The pattern of -1.
abbrev pub minus_one : ℕ
minus_one = int32_mod - 1

abbrev pub int32_dec : ℕ → ℕ
int32_dec a = (a + int32_mod - 1) % int32_mod
