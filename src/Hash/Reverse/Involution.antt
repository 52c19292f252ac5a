-- ===== src/Hash/Reverse/Involution.antt =====
-- Reversing twice.
use liburcu.Prelude.{ℕ, ◌+◌, ◌*◌, ◌^◌, ◌<◌, ◌≡◌, arith, word_mod}
use liburcu.Hash.Reverse.{bit_reverse_u64, bit_reverse_ulong, byte}
use liburcu.Hash.Reverse.Spec.{u8_twice}

abbrev word_of : (a b c d e f g h : ℕ) → ℕ
word_of a b c d e f g h =
    a * 2 ^ 56 + b * 2 ^ 48 + c * 2 ^ 40 + d * 2 ^ 32 + e * 2 ^ 24 + f * 2 ^ 16 + g * 2 ^ 8 + h

module _ (a b c d e f g h : ℕ) (ha : a < 256) (hb : b < 256) (hc : c < 256) (hd : d < 256)
    (he : e < 256) (hf : f < 256) (hg : g < 256) (hh : h < 256) where
  bytes_of_word : record {
    w : word_of a b c d e f g h < word_mod;
    b0 : byte (word_of a b c d e f g h) 0 ≡ h;
    b1 : byte (word_of a b c d e f g h) 1 ≡ g;
    b2 : byte (word_of a b c d e f g h) 2 ≡ f;
    b3 : byte (word_of a b c d e f g h) 3 ≡ e;
    b4 : byte (word_of a b c d e f g h) 4 ≡ d;
    b5 : byte (word_of a b c d e f g h) 5 ≡ c;
    b6 : byte (word_of a b c d e f g h) 6 ≡ b;
    b7 : byte (word_of a b c d e f g h) 7 ≡ a;
  }
  bytes_of_word = omega arith

-- `bit_reverse_ulong` undoes itself on every word, and gives a word.
pub bit_reverse_ulong_twice :
    (v : ℕ)
    → v < word_mod
    → (bit_reverse_ulong (bit_reverse_ulong v) ≡ v) × (bit_reverse_ulong v < word_mod)
unfolding bit_reverse_ulong bit_reverse_u64
bit_reverse_ulong_twice v small =
    let t = λ (k : ℕ). u8_twice (byte v k) (omega arith) in
    let w =
      bytes_of_word _ _ _ _ _ _ _ _ (t 0).1 (t 1).1 (t 2).1 (t 3).1 (t 4).1 (t 5).1 (t 6).1
        (t 7).1 in
    (
      rw
          (
            w.b0,
            w.b1,
            w.b2,
            w.b3,
            w.b4,
            w.b5,
            w.b6,
            w.b7,
            (t 0).0,
            (t 1).0,
            (t 2).0,
            (t 3).0,
            (t 4).0,
            (t 5).0,
            (t 6).0,
            (t 7).0,
          )
          (omega arith),
      w.w,
    )
