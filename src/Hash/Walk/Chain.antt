-- ===== src/Hash/Walk/Chain.antt =====
-- src/rculfhash.c: the list as a list of nodes, and the loop of the reads on it.
use liburcu.Prelude.{
  ℕ, zero, suc, ◌<◌, ◌≤◌, ◌≡◌, ◌≢◌, refl, sym, ap, ◌∙◌, Bool, Bool-cases, true, false, Option, some,
  List, [], ◌∷◌, ◌==◌, if◌then◌else◌, length, arith, inl, inr,
}
use liburcu.Hash.Walk.{Nodes, Iter, at_end, walk, for_each}

-- The nodes `xs` are linked from the address `a` on, up to the end.
abbrev pub Linked : Nodes → ℕ → List ℕ → Type 0
Linked t a [] = a ≡ 0
Linked t a (x ∷ xs) = (a ≡ x) × ((x ≢ 0) × Linked t (t.next x).to xs)

-- Their reversed hashes do not fall below `low`, nor decrease.
abbrev pub Ascending : Nodes → ℕ → List ℕ → Type 0
Ascending t low [] = Unit
Ascending t low (x ∷ xs) = (low ≤ t.reverse_hash x) × Ascending t (t.reverse_hash x) xs

abbrev pub keep : (ℕ → Bool) → List ℕ → List ℕ
keep p [] = []
keep p (x ∷ xs) = let rest = keep p xs in if p x then x ∷ rest else rest

abbrev pub iter_at : Nodes → ℕ → Iter
iter_at t x = record { node = x; next = t.next x }

abbrev pub first_of : Nodes → (ℕ → Bool) → List ℕ → Iter
first_of t p [] = at_end
first_of t p (x ∷ xs) = let rest = first_of t p xs in if p x then iter_at t x else rest

-- Where the loop stops nothing is left to take, and elsewhere it takes what it should.
abbrev pub Seeks : (stop take p : ℕ → Bool) → List ℕ → Type 0
Seeks stop take p [] = Unit
Seeks stop take p (x ∷ xs) =
    ((stop x ≡ true → keep p (x ∷ xs) ≡ []) × (stop x ≡ false → take x ≡ p x))
    × Seeks stop take p xs

first_of-none : (t : Nodes) (p : ℕ → Bool) (xs : List ℕ) → keep p xs ≡ [] → first_of t p xs ≡ at_end
first_of-none t p [] e = refl
first_of-none t p (x ∷ xs) e = elim (Bool-cases (p x)) [
  | inl y ↦ let d : x ∷ keep p xs ≡ [] = rw y at e in cc
  | inr y ↦ rw y (first_of-none t p xs (rw y at e))
]

pub walk-first_of :
    (n : ℕ) (t : Nodes) (stop take p : ℕ → Bool) (a : ℕ) (xs : List ℕ)
    → Linked t a xs
    → Seeks stop take p xs
    → length xs < n
    → walk n t stop take a ≡ some (first_of t p xs)
unfolding walk
walk-first_of zero t stop take p a xs l s h = absurd (omega arith)
walk-first_of (suc n) t stop take p a [] l s h = rw l refl
walk-first_of (suc n) t stop take p a (x ∷ xs) (e, (nz, l)) ((s, k), more) h =
    let z : (x == 0) ≡ false = ground arith in
    rw e (elim (Bool-cases (stop x)) [
      | inl y ↦ rw (z, y) (ap (λ i. some i) (sym (first_of-none t p (x ∷ xs) (s y))))
      | inr y ↦ elim (Bool-cases (p x)) [
        | inl q ↦ rw (z, y, k y, q) refl
        | inr q ↦
            rw (z, y, k y, q) (walk-first_of n t stop take p (t.next x).to xs l more (omega arith))
      ]
    ])

-- The step of a for loop finds the next node to take from each that it takes.
abbrev pub Advances : Nodes → (Iter → Option Iter) → (ℕ → Bool) → List ℕ → Type 0
Advances t advance p [] = Unit
Advances t advance p (x ∷ xs) =
    (p x ≡ true → advance (iter_at t x) ≡ some (first_of t p xs)) × Advances t advance p xs

pub for_each-keep :
    (n : ℕ) (t : Nodes) (advance : Iter → Option Iter) (p : ℕ → Bool) (a : ℕ) (xs : List ℕ)
    → Linked t a xs
    → Advances t advance p xs
    → length xs < n
    → for_each n advance (first_of t p xs) ≡ some (keep p xs)
unfolding for_each
for_each-keep zero t advance p a xs l s h = absurd (omega arith)
for_each-keep (suc n) t advance p a [] l s h = refl
for_each-keep (suc n) t advance p a (x ∷ xs) (e, (nz, l)) (s, more) h =
    let z : (x == 0) ≡ false = ground arith in
    elim (Bool-cases (p x)) [
      | inl q ↦
          rw (q, z, s q, for_each-keep n t advance p (t.next x).to xs l more (omega arith), q) refl
      | inr q ↦
          let skip : first_of t p (x ∷ xs) ≡ first_of t p xs = rw q refl in
          let dropped : keep p xs ≡ keep p (x ∷ xs) = rw q refl in
          ap (λ i. for_each (suc n) advance i) skip
          ∙ for_each-keep (suc n) t advance p (t.next x).to xs l more (omega arith)
          ∙ ap (λ k. some k) dropped
    ]
