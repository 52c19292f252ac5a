-- ===== src/Hash/Walk/Visits.antt =====
-- src/rculfhash.c: what the loops over the table visit.
use liburcu.Prelude.{
  ℕ, ◌<◌, ◌≤◌, ◌≡◌, refl, Bool, true, false, ◌&&◌, some, List, [], ◌∷◌, ◌==◌, ltb, length, arith,
}
use liburcu.Hash.Walk.{
  Nodes, visible, cds_lfht_lookup, cds_lfht_next_duplicate, cds_lfht_next, cds_lfht_first,
  cds_lfht_for_each_duplicate, cds_lfht_for_each,
}
use liburcu.Hash.Walk.Chain.{Linked, Ascending, keep, Seeks, walk-first_of, Advances, for_each-keep}

-- The nodes that a lookup is for.
abbrev pub matching : Nodes → ℕ → (ℕ → Bool) → ℕ → Bool
matching t rh match n = visible t n && ((t.reverse_hash n == rh) && match n)

-- Behind a node with a greater hash there is none with this one.
keep-above :
    (t : Nodes) (rh low : ℕ) (match : ℕ → Bool) (xs : List ℕ)
    → Ascending t low xs
    → rh < low
    → keep (matching t rh match) xs ≡ []
keep-above t rh low match [] asc h = refl
keep-above t rh low match (x ∷ xs) (o, more) h =
    let rest = keep-above t rh (t.reverse_hash x) match xs more (omega arith) in
    let off : matching t rh match x ≡ false = ground arith in rw (off, rest) refl

lookup-Seeks :
    (t : Nodes) (rh low : ℕ) (match : ℕ → Bool) (xs : List ℕ)
    → Ascending t low xs
    → Seeks (λ n. ltb rh (t.reverse_hash n)) (matching t rh match) (matching t rh match) xs
lookup-Seeks t rh low match [] a = tt
lookup-Seeks t rh low match (x ∷ xs) (o, a) =
    let stops : ltb rh (t.reverse_hash x) ≡ true → keep (matching t rh match) (x ∷ xs) ≡ [] =
      λ y. keep-above t rh (t.reverse_hash x) match (x ∷ xs) (omega arith, a) (ground arith) in
    ((stops, λ y. refl), lookup-Seeks t rh (t.reverse_hash x) match xs a)

duplicate-Seeks :
    (t : Nodes) (rh low : ℕ) (match : ℕ → Bool) (xs : List ℕ)
    → Ascending t low xs
    → rh ≤ low
    → Seeks (λ n. ltb rh (t.reverse_hash n)) (λ n. visible t n && match n) (matching t rh match) xs
duplicate-Seeks t rh low match [] a h = tt
duplicate-Seeks t rh low match (x ∷ xs) (o, a) h =
    let stops : ltb rh (t.reverse_hash x) ≡ true → keep (matching t rh match) (x ∷ xs) ≡ [] =
      λ y. keep-above t rh (t.reverse_hash x) match (x ∷ xs) (omega arith, a) (ground arith) in
    ((stops, λ y. ground arith), duplicate-Seeks t rh (t.reverse_hash x) match xs a (omega arith))

duplicate-Advances :
    (n : ℕ) (t : Nodes) (rh low a : ℕ) (match : ℕ → Bool) (xs : List ℕ)
    → Linked t a xs
    → Ascending t low xs
    → length xs < n
    → Advances t (cds_lfht_next_duplicate n t match) (matching t rh match) xs
unfolding cds_lfht_next_duplicate
duplicate-Advances n t rh low a match [] l asc h = tt
duplicate-Advances n t rh low a match (x ∷ xs) (e, (nz, l)) (o, asc) h = (
  λ q.
      let same : t.reverse_hash x ≡ rh = ground arith in
      walk-first_of n t (λ y. ltb (t.reverse_hash x) (t.reverse_hash y))
        (λ y. visible t y && match y) (matching t rh match) (t.next x).to xs l
        (rw same (duplicate-Seeks t rh (t.reverse_hash x) match xs asc (omega arith)))
        (omega arith),
  duplicate-Advances n t rh (t.reverse_hash x) (t.next x).to match xs l asc (omega arith),
)

-- On a sorted list behind the bucket, with fuel above its length: the loop over the duplicates of
-- a key ends, and visits exactly the nodes of this hash that match, that are not removed and
-- are no bucket nodes, each once and in the order of the list.
pub for_each_duplicate_visits :
    (n : ℕ) (t : Nodes) (bucket rh low : ℕ) (match : ℕ → Bool) (xs : List ℕ)
    → Linked t (t.next bucket).to xs
    → Ascending t low xs
    → length xs < n
    → cds_lfht_for_each_duplicate n t bucket rh match ≡ some (keep (matching t rh match) xs)
unfolding cds_lfht_for_each_duplicate cds_lfht_lookup
for_each_duplicate_visits n t bucket rh low match xs l asc h =
    let p = matching t rh match in
    let found =
      walk-first_of n t (λ y. ltb rh (t.reverse_hash y)) p p (t.next bucket).to xs l
        (lookup-Seeks t rh low match xs asc) h in
    rw (cds_lfht_for_each_duplicate, cds_lfht_lookup, found)
      (for_each-keep n t (cds_lfht_next_duplicate n t match) p (t.next bucket).to xs l
        (duplicate-Advances n t rh low (t.next bucket).to match xs l asc h) h)

next-Seeks : (p : ℕ → Bool) (xs : List ℕ) → Seeks (λ n. false) p p xs
next-Seeks p [] = tt
next-Seeks p (x ∷ xs) = ((λ y. absurd (ground arith), λ y. refl), next-Seeks p xs)

next-Advances :
    (n : ℕ) (t : Nodes) (a : ℕ) (xs : List ℕ)
    → Linked t a xs
    → length xs < n
    → Advances t (cds_lfht_next n t) (visible t) xs
unfolding cds_lfht_next
next-Advances n t a [] l h = tt
next-Advances n t a (x ∷ xs) (e, (nz, l)) h = (
  λ q.
      walk-first_of n t (λ y. false) (visible t) (visible t) (t.next x).to xs l
        (next-Seeks (visible t) xs) (omega arith),
  next-Advances n t (t.next x).to xs l (omega arith),
)

-- On a list behind bucket 0, with fuel above its length: the loop over the whole table ends, and
-- visits exactly the nodes that are not removed and are no bucket nodes, each once and in the
-- order of the list.
pub for_each_visits :
    (n : ℕ) (t : Nodes) (bucket : ℕ) (xs : List ℕ)
    → Linked t (t.next bucket).to xs
    → length xs < n
    → cds_lfht_for_each n t bucket ≡ some (keep (visible t) xs)
unfolding cds_lfht_for_each cds_lfht_first cds_lfht_next
for_each_visits n t bucket xs l h =
    let v = visible t in
    let found = walk-first_of n t (λ y. false) v v (t.next bucket).to xs l (next-Seeks v xs) h in
    rw (cds_lfht_for_each, cds_lfht_first, cds_lfht_next, found)
      (for_each-keep n t (cds_lfht_next n t) v (t.next bucket).to xs l
        (next-Advances n t (t.next bucket).to xs l h) h)
