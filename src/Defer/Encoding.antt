-- ===== src/Defer/Encoding.antt =====
-- src/urcu-defer-impl.h: what the entries of a queue stand for, and that the decoder reads it.
use liburcu.Prelude.{
  ℕ, zero, suc, ◌+◌, ◌%◌, ◌≤◌, ◌<◌, ◌≡◌, ◌≢◌, refl, false, List, [], ◌∷◌, ◌++◌, some, arith,
  word_mod, word_add,
}
use liburcu.Defer.Queue.{
  Call, cell, store, decode, defer_queue_size, dq_is_fct_bit, dq_set_fct_bit, dq_fct_mark,
}

-- From position `i` and with current function `f`, the next `n` entries encode the calls `cs`,
-- up to position `h` and function `g`.
pub data Encoded (buf : ℕ → ℕ) (h g : ℕ) : ℕ → ℕ → ℕ → List Call → Type 0 where
  done : {i f n : ℕ} → i ≡ h → f ≡ g → n ≡ 0 → Encoded buf h g i f n []
  plain :
      {i f n : ℕ} {cs : List Call} (p m : ℕ)
      → n ≡ suc m
      → cell buf i ≡ p
      → dq_is_fct_bit p ≡ false
      → p ≢ dq_fct_mark
      → Encoded buf h g (word_add i 1) f m cs
      → Encoded buf h g i f n ((f, p) ∷ cs)
  aligned :
      {i f n : ℕ} {cs : List Call} (c p m : ℕ)
      → n ≡ suc (suc m)
      → cell buf i ≡ dq_set_fct_bit c
      → dq_is_fct_bit c ≡ false
      → cell buf (word_add i 1) ≡ p
      → Encoded buf h g (word_add (word_add i 1) 1) c m cs
      → Encoded buf h g i f n ((c, p) ∷ cs)
  marked :
      {i f n : ℕ} {cs : List Call} (c p m : ℕ)
      → n ≡ suc (suc (suc m))
      → cell buf i ≡ dq_fct_mark
      → cell buf (word_add i 1) ≡ c
      → cell buf (word_add (word_add i 1) 1) ≡ p
      → Encoded buf h g (word_add (word_add (word_add i 1) 1) 1) c m cs
      → Encoded buf h g i f n ((c, p) ∷ cs)

module _ {buf : ℕ → ℕ} {h g : ℕ} where
  -- The entries end where the head is.
  pub Encoded-head :
      {i f n : ℕ} {cs : List Call}
      → i < word_mod
      → Encoded buf h g i f n cs
      → h ≡ (i + n) % word_mod
  Encoded-head w (done e f z) = omega arith
  Encoded-head w (plain p m z e b k r) = omega (arith, Encoded-head (omega arith) r)
  Encoded-head w (aligned c p m z e b k r) = omega (arith, Encoded-head (omega arith) r)
  Encoded-head w (marked c p m z e b k r) = omega (arith, Encoded-head (omega arith) r)

  pub Encoded-zero : {i f n : ℕ} {cs : List Call} → n ≡ 0 → Encoded buf h g i f n cs → cs ≡ []
  Encoded-zero e (done x y z) = refl
  Encoded-zero e (plain p m z x b k r) = absurd (omega arith)
  Encoded-zero e (aligned c p m z x b k r) = absurd (omega arith)
  Encoded-zero e (marked c p m z x b k r) = absurd (omega arith)

  pub Encoded-nil : {i f n : ℕ} → Encoded buf h g i f n [] → n ≡ 0
  Encoded-nil (done x y z) = z

  -- The decoder makes the calls, in order, and stops at the head.
  pub decode-Encoded :
      (fuel : ℕ) {i f n : ℕ} {cs : List Call}
      → i < word_mod
      → n < fuel
      → fuel ≤ defer_queue_size + 1
      → Encoded buf h g i f n cs
      → decode fuel buf h i f ≡ some (record { at = h; fct = g; calls = cs })
  unfolding decode
  decode-Encoded zero w b s e = absurd (omega arith)
  decode-Encoded (suc fuel) w b s (done e f z) = ground arith
  decode-Encoded (suc fuel) w b s (plain p m z e o k r) = ground (
    arith,
    Encoded-head (omega arith) r,
    decode-Encoded fuel (omega arith) (omega arith) (omega arith) r,
  )
  decode-Encoded (suc fuel) w b s (aligned c p m z e o k r) = ground (
    arith,
    Encoded-head (omega arith) r,
    decode-Encoded fuel (omega arith) (omega arith) (omega arith) r,
  )
  decode-Encoded (suc fuel) w b s (marked c p m z e o k r) = ground (
    arith,
    Encoded-head (omega arith) r,
    decode-Encoded fuel (omega arith) (omega arith) (omega arith) r,
  )

  -- Entries followed by entries.
  pub Encoded-append :
      {h' g' i f n m : ℕ} {cs ds : List Call}
      → Encoded buf h g i f n cs
      → Encoded buf h' g' h g m ds
      → Encoded buf h' g' i f (n + m) (cs ++ ds)
  Encoded-append {n} {m} (done e f z) r =
      let none_added : n + m ≡ m = omega arith in rw (e, f, none_added) r
  Encoded-append (plain p k z e o a q) r = plain p _ (omega arith) e o a (Encoded-append q r)
  Encoded-append (aligned c p k z e o a q) r =
      aligned c p _ (omega arith) e o a (Encoded-append q r)
  Encoded-append (marked c p k z e o a q) r = marked c p _ (omega arith) e o a (Encoded-append q r)

  -- A store behind the entries leaves them alone.
  pub Encoded-store :
      {i f n : ℕ} {cs : List Call} (w v k : ℕ)
      → i < word_mod
      → w ≡ (i + n + k) % word_mod
      → n + k < defer_queue_size
      → Encoded buf h g i f n cs
      → Encoded (store buf w v) h g i f n cs
  Encoded-store w v k s e b (done x y z) = done x y z
  Encoded-store w v k s e b (plain p m z x o a q) =
      plain p m z (ground arith) o a
        (Encoded-store w v k (omega arith) (omega arith) (omega arith) q)
  Encoded-store w v k s e b (aligned c p m z x o a q) =
      aligned c p m z (ground arith) o (ground arith)
        (Encoded-store w v k (omega arith) (omega arith) (omega arith) q)
  Encoded-store w v k s e b (marked c p m z x o a q) =
      marked c p m z (ground arith) (ground arith) (ground arith)
        (Encoded-store w v k (omega arith) (omega arith) (omega arith) q)
