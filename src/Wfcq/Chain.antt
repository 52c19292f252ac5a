-- ===== src/Wfcq/Chain.antt =====
-- include/urcu/static/wfcqueue.h: the nodes of a queue, as `next` links them from the head node
-- on, where an enqueue may still owe a link.
use mathlib.Core.Path.{subst}
use liburcu.Prelude.{
  Distinct, Bool-cases, sym, ap, ◌∙◌, refl, ◌==◌, ℕ, ◌≡◌, ◌≢◌, ◌⊎◌, inl, inr, true, false, List, [],
  ◌∷◌, ◌++◌, has, has-append, update, arith,
}

-- `b` follows `a`: linked, or its enqueue is about to link it.
abbrev pub Follows : (old next : ℕ → ℕ) → ℕ → ℕ → Type 0
Follows old next a b = ((next a ≡ b) × (old b ≡ 0)) ⊎ ((next a ≡ 0) × (old b ≡ a))

-- The nodes `bs` follow `a`, and nothing follows the last.
abbrev pub Chain : (old next : ℕ → ℕ) → ℕ → List ℕ → Type 0
Chain old next a [] = next a ≡ 0
Chain old next a (b ∷ bs) = Follows old next a b × Chain old next b bs

abbrev pub last : ℕ → List ℕ → ℕ
last a [] = a
last a (b ∷ bs) = last b bs

-- The chain does not change with what is elsewhere.
pub Chain-agree :
    (old old' next next' : ℕ → ℕ) (a : ℕ) (bs : List ℕ)
    → Chain old next a bs
    → ((x : ℕ) → has x (a ∷ bs) ≡ true → next' x ≡ next x)
    → ((x : ℕ) → has x bs ≡ true → old' x ≡ old x)
    → Chain old' next' a bs
Chain-agree old old' next next' a [] c fn fo = ground (arith, fn a)
Chain-agree old old' next next' a (b ∷ bs) (l, c) fn fo =
    let rest =
      Chain-agree old old' next next' b bs c (λ x m. ground (arith, fn x))
        (λ x m. ground (arith, fo x)) in
    (ground (arith, fn a, fo b), rest)

-- An owed link is owed by a node of the chain that is not the last.
owner-has :
    (old next : ℕ → ℕ) (n a : ℕ) (bs : List ℕ)
    → Chain old next a bs
    → has n bs ≡ true
    → old n ≢ 0
    → has (old n) (a ∷ bs) ≡ true
owner-has old next n a [] c m ne = absurd (ground arith)
owner-has old next n a (b ∷ bs) (l, c) m ne = elim (Bool-cases (n == b)) [
  | inl e ↦ ground arith
  | inr e ↦ ground (arith, owner-has old next n b bs c)
]

-- The store of the link that the enqueue of `n` owes.
pub Chain-link :
    (old next : ℕ → ℕ) (n a : ℕ) (bs : List ℕ)
    → Chain old next a bs
    → Distinct (a ∷ bs)
    → has n bs ≡ true
    → old n ≢ 0
    → Chain (update old n 0) (update next (old n) n) a bs
Chain-link old next n a [] c d m ne = absurd (ground arith)
Chain-link old next n a (b ∷ bs) (l, c) (u, (v, d)) m ne = elim (Bool-cases (n == b)) [
  | inl e ↦
      let rest =
        Chain-agree old (update old n 0) next (update next (old n) n) b bs c (λ x k. ground arith)
          (λ x k. ground arith) in
      (ground arith, rest)
  | inr e ↦
      let rest = Chain-link old next n b bs c (v, d) (ground arith) ne in
      (ground (arith, owner-has old next n b bs c), rest)
]

-- A node at the end, the link still owed.
pub Chain-snoc :
    (old next : ℕ → ℕ) (n a : ℕ) (bs : List ℕ)
    → Chain old next a bs
    → has n (a ∷ bs) ≡ false
    → next n ≡ 0
    → Chain (update old n (last a bs)) next a (bs ++ n ∷ [])
Chain-snoc old next n a [] c m e = ground arith
Chain-snoc old next n a (b ∷ bs) (l, c) m e =
    (ground arith, Chain-snoc old next n b bs c (ground arith) e)

pub last-append : (a n : ℕ) (bs : List ℕ) → last a (bs ++ n ∷ []) ≡ n
last-append a n [] = ground arith
last-append a n (b ∷ bs) = last-append b n bs

pub has-last : (a : ℕ) (bs : List ℕ) → has (last a bs) (a ∷ bs) ≡ true
has-last a [] = ground arith
has-last a (b ∷ bs) = ground (arith, has-last b bs)

pub Distinct-snoc : (n : ℕ) (bs : List ℕ) → Distinct bs → has n bs ≡ false → Distinct (bs ++ n ∷ [])
Distinct-snoc n [] d m = ground arith
Distinct-snoc n (b ∷ bs) (u, d) m =
    (ground (arith, has-append b bs (n ∷ [])), Distinct-snoc n bs d (ground arith))

-- What the first node is, where the head node has a successor.
pub Chain-first :
    (old next : ℕ → ℕ) (a n : ℕ) (bs : List ℕ)
    → Chain old next a bs
    → next a ≡ n
    → n ≢ 0
    → (cs : List ℕ) × ((bs ≡ n ∷ cs) × ((old n ≡ 0) × Chain old next n cs))
Chain-first old next a n [] c e ne = absurd (ground arith)
Chain-first old next a n (b ∷ bs) (inl (p, o), c) e ne =
    let same = sym p ∙ e in
    (bs, (ap (λ x. x ∷ bs) same, subst (λ x. (old x ≡ 0) × Chain old next x bs) same (o, c)))
Chain-first old next a n (b ∷ bs) (inr (p, o), c) e ne = absurd (ne (sym e ∙ p))

-- The node that an owed link is to come from has none.
pub owner-next :
    (old next : ℕ → ℕ) (n a : ℕ) (bs : List ℕ)
    → Chain old next a bs
    → has n bs ≡ true
    → old n ≢ 0
    → next (old n) ≡ 0
owner-next old next n a [] c m ne = absurd (ground arith)
owner-next old next n a (b ∷ bs) (l, c) m ne = elim (Bool-cases (n == b)) [
  | inl e ↦ ground arith
  | inr e ↦ owner-next old next n b bs c (ground arith) ne
]

-- Only the last node has no successor and none owed.
pub Chain-owes :
    (old next : ℕ → ℕ) (a : ℕ) (bs : List ℕ)
    → Chain old next a bs
    → next a ≡ 0
    → has 0 (a ∷ bs) ≡ false
    → (bs ≡ []) ⊎ ((n : ℕ) × ((has n bs ≡ true) × (old n ≡ a)))
Chain-owes old next a [] c e z = inl refl
Chain-owes old next a (b ∷ bs) (inl (p, o), c) e z = absurd (ground arith)
Chain-owes old next a (b ∷ bs) (inr (p, o), c) e z = inr (b, (ground arith, o))
