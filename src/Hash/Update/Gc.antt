-- ===== src/Hash/Update/Gc.antt =====
-- src/rculfhash.c, `_cds_lfht_gc_bucket`: which nodes it unlinks.
use mathlib.Core.Path.{sym, ◌∙◌, subst}
use liburcu.Prelude.{
  Distinct, ℕ, zero, suc, ◌<◌, ◌≡◌, ◌≢◌, ◌⊎◌, refl, ap, Bool, Bool-cases, true, false, none, some,
  List, [], ◌∷◌, ◌==◌, ltb, if◌then◌else◌, length, has, arith, inl, inr, update_elim,
}
use liburcu.Hash.Walk.{Link, Nodes}
use liburcu.Hash.Walk.Chain.{Linked}
use liburcu.Hash.Update.{
  Place, with_bucket_of, is_live, gc_asserts, unlink, gc_scan, _cds_lfht_gc_bucket,
}

abbrev pub removed : Nodes → ℕ → Bool
removed t n = (t.next n).removed

-- The list without its removed nodes, up to the first node behind the hash.
abbrev pub sweep : Nodes → ℕ → List ℕ → List ℕ
sweep t rh [] = []
sweep t rh (x ∷ xs) =
    let rest = sweep t rh xs in
    if ltb rh (t.reverse_hash x) then x ∷ xs else if removed t x then rest else x ∷ rest

-- Without the first of them.
abbrev pub cut : Nodes → ℕ → List ℕ → List ℕ
cut t rh [] = []
cut t rh (x ∷ xs) =
    let rest = cut t rh xs in
    if ltb rh (t.reverse_hash x) then x ∷ xs else if removed t x then xs else x ∷ rest

pub Linked-agree :
    (t u : Nodes) (a : ℕ) (xs : List ℕ)
    → Linked t a xs
    → ((x : ℕ) → has x xs ≡ true → (u.next x).to ≡ (t.next x).to)
    → Linked u a xs
Linked-agree t u a [] l f = l
Linked-agree t u a (x ∷ xs) (e, (nz, l)) f = (
  e,
  (
    nz,
    subst (λ (k : ℕ). Linked u k xs) (sym (f x (ground arith)))
        (Linked-agree t u (t.next x).to xs l (λ y m. f y (ground arith))),
  ),
)

pub has-cut : (t : Nodes) (rh y : ℕ) (xs : List ℕ) → has y xs ≡ false → has y (cut t rh xs) ≡ false
has-cut t rh y [] h = refl
has-cut t rh y (x ∷ xs) h = ground (arith, has-cut t rh y xs)

pub Distinct-cut : (t : Nodes) (rh : ℕ) (xs : List ℕ) → Distinct xs → Distinct (cut t rh xs)
Distinct-cut t rh [] d = d
Distinct-cut t rh (x ∷ xs) (u, d) = elim (Bool-cases (ltb rh (t.reverse_hash x))) [
  | inl s ↦ rw s (u, d)
  | inr s ↦ elim (Bool-cases (removed t x)) [
    | inl r ↦ rw (s, r) d
    | inr r ↦ rw (s, r) (has-cut t rh x xs u, Distinct-cut t rh xs d)
  ]
]

sweep-cut : (t : Nodes) (rh : ℕ) (xs : List ℕ) → sweep t rh (cut t rh xs) ≡ sweep t rh xs
sweep-cut t rh [] = refl
sweep-cut t rh (x ∷ xs) = elim (Bool-cases (ltb rh (t.reverse_hash x))) [
  | inl s ↦ rw (s, s) refl
  | inr s ↦ elim (Bool-cases (removed t x)) [
    | inl r ↦ rw (s, r) refl
    | inr r ↦ rw (s, r, s, r) (ap (λ l. x ∷ l) (sweep-cut t rh xs))
  ]
]

pub sweep-agree :
    (t u : Nodes) (rh : ℕ) (xs : List ℕ)
    → u.reverse_hash ≡ t.reverse_hash
    → ((y : ℕ) → removed u y ≡ removed t y)
    → sweep u rh xs ≡ sweep t rh xs
sweep-agree t u rh [] e f = refl
sweep-agree t u rh (x ∷ xs) e f = rw (e, f x, sweep-agree t u rh xs e f) refl

pub unlink-at : (p : Place) (t : Nodes) → ((unlink p t).next p.prev).to ≡ p.next.to
unlink-at p t = let z : (p.prev == p.prev) ≡ true = ground arith in rw z refl

pub unlink-off :
    (p : Place) (t : Nodes) (y : ℕ) → p.prev ≢ y → ((unlink p t).next y).to ≡ (t.next y).to
unlink-off p t y ne = let z : (y == p.prev) ≡ false = ground arith in rw z refl

-- The place that the inner loop finds.
unfoldable pub Found : Nodes → ℕ → ℕ → List ℕ → Place → Type 0
Found t rh prev xs p =
    (has p.prev (prev ∷ xs) ≡ true)
    × ((p.iter ≡ t.next p.prev)
        × ((removed t p.prev ≡ false)
            × (Linked (unlink p t) ((unlink p t).next prev).to (cut t rh xs)
                × (length (cut t rh xs) < length xs))))

pub Found-here :
    (t : Nodes) (rh prev x : ℕ) (xs : List ℕ)
    → Linked t (t.next x).to xs
    → Distinct (prev ∷ x ∷ xs)
    → removed t prev ≡ false
    → ltb rh (t.reverse_hash x) ≡ false
    → removed t x ≡ true
    → Found t rh prev (x ∷ xs) (record { prev = prev; iter = t.next prev; next = t.next x })
unfolding Found
Found-here t rh prev x xs l d keeps s r =
    let p : Place = record { prev = prev; iter = t.next prev; next = t.next x } in
    let linked : Linked (unlink p t) (t.next x).to xs =
      Linked-agree t (unlink p t) (t.next x).to xs l (λ y m. ground arith) in
    let short : xs ≡ cut t rh (x ∷ xs) = rw (s, r) refl in
    let relinked = subst (λ (a : ℕ). Linked (unlink p t) a xs) (sym (unlink-at p t)) linked in
    (
      ground arith,
      (
        refl,
        (
          keeps,
          subst
              (λ (ys : List ℕ).
                Linked (unlink p t) ((unlink p t).next prev).to ys × (length ys < suc (length xs)))
              short (relinked, omega arith),
        ),
      ),
    )

pub Found-skip :
    (t : Nodes) (rh prev x : ℕ) (xs : List ℕ) (p : Place)
    → (t.next prev).to ≡ x
    → x ≢ 0
    → has prev (x ∷ xs) ≡ false
    → ltb rh (t.reverse_hash x) ≡ false
    → removed t x ≡ false
    → Found t rh x xs p
    → Found t rh prev (x ∷ xs) p
unfolding Found
Found-skip t rh prev x xs p e nz u s r (m, (i, (q, (l', short)))) =
    let kept : x ∷ cut t rh xs ≡ cut t rh (x ∷ xs) = rw (s, r) refl in
    let off : p.prev ≢ prev = λ y. ground arith in
    let head : ((unlink p t).next prev).to ≡ x = unlink-off p t prev off ∙ e in
    (
      ground arith,
      (
        i,
        (
          q,
          subst
              (λ (ys : List ℕ).
                Linked (unlink p t) ((unlink p t).next prev).to ys × (length ys < suc (length xs)))
              kept ((head, (nz, l')), omega arith),
        ),
      ),
    )

scan-Found :
    (k : ℕ) (t : Nodes) (rh prev : ℕ) (xs : List ℕ)
    → Linked t (t.next prev).to xs
    → Distinct (prev ∷ xs)
    → removed t prev ≡ false
    → length xs < k
    → ((gc_scan k t rh prev (t.next prev) ≡ some none) × (sweep t rh xs ≡ xs))
      ⊎ ((p : Place) × ((gc_scan k t rh prev (t.next prev) ≡ some (some p)) × Found t rh prev xs p))
unfolding gc_scan
scan-Found zero t rh prev xs l d keeps h = absurd (omega arith)
scan-Found (suc k) t rh prev [] l d keeps h = inl (rw l refl, refl)
scan-Found (suc k) t rh prev (x ∷ xs) (e, (nz, l)) (u, d) keeps h =
    let z : (x == 0) ≡ false = ground arith in
    elim (Bool-cases (ltb rh (t.reverse_hash x))) [
      | inl s ↦ inl (rw (e, z, s) refl, rw s refl)
      | inr s ↦ elim (Bool-cases (removed t x)) [
        | inl r ↦
            let p : Place = record { prev = prev; iter = t.next prev; next = t.next x } in
            inr (p, (rw (e, z, s, r) refl, Found-here t rh prev x xs l (u, d) keeps s r))
        | inr r ↦
            let step : gc_scan (suc k) t rh prev (t.next prev) ≡ gc_scan k t rh x (t.next x) =
              rw (e, z, s, r) refl in
            let swept : sweep t rh (x ∷ xs) ≡ x ∷ sweep t rh xs = rw (s, r) refl in
            elim (scan-Found k t rh x xs l d r (omega arith)) [
              | inl (g, same) ↦ inl (step ∙ g, swept ∙ ap (λ ys. x ∷ ys) same)
              | inr (p, (g, f)) ↦ inr (p, (step ∙ g, Found-skip t rh prev x xs p e nz u s r f))
            ]
      ]
    ]

-- Unlinking changes the `next` of a node that stays; its flags do not change.
pub unlink-removed :
    (p : Place) (t : Nodes) (y : ℕ)
    → removed t p.prev ≡ false
    → ((unlink p t).next y).removed ≡ (t.next y).removed
unlink-removed p t y keeps = elim (Bool-cases (y == p.prev)) [
  | inl z ↦ let same : y ≡ p.prev = ground arith in rw (z, same) (sym keeps)
  | inr z ↦ rw z refl
]

unlink-kept :
    (p : Place) (t : Nodes) (y : ℕ)
    → removed t p.prev ≡ false
    → removed t y ≡ true
    → (unlink p t).next y ≡ t.next y
unlink-kept p t y keeps r =
    let ne : y ≢ p.prev = λ e.
      let k : removed t p.prev ≡ true = subst (λ (w : ℕ). removed t w ≡ true) e r in ground arith in
    let z : (y == p.prev) ≡ false = ground arith in rw z refl

-- What one call leaves: the list without its removed nodes up to the hash, each flag of a node,
-- and the words of the removed nodes, as they were.
unfoldable pub Swept : Nodes → Nodes → ℕ → ℕ → List ℕ → Type 0
Swept t u bucket rh xs =
    Linked u (u.next bucket).to (sweep t rh xs)
    × (((y : ℕ) → (u.next y).removed ≡ (t.next y).removed)
        × (((y : ℕ) → removed t y ≡ true → u.next y ≡ t.next y)
            × (u.reverse_hash ≡ t.reverse_hash)))

-- The owner of a removal is set no earlier than the removal.
abbrev pub OwnsRemoved : Nodes → Type 0
OwnsRemoved t = (y : ℕ) → removed t y ≡ false → (t.next y).removal_owner ≡ false

unlink-OwnsRemoved : (p : Place) (t : Nodes) → OwnsRemoved t → OwnsRemoved (unlink p t)
unlink-OwnsRemoved p t owns y =
    update_elim (λ (l : Link). l.removed ≡ false → l.removal_owner ≡ false) t.next p.prev
      (with_bucket_of p.iter p.next.to) y (λ e k. refl) (λ e. owns y)

pub gc_bucket-Swept :
    (k fuel : ℕ) (t : Nodes) (bucket node : ℕ) (xs : List ℕ)
    → Linked t (t.next bucket).to xs
    → Distinct (bucket ∷ xs)
    → removed t bucket ≡ false
    → OwnsRemoved t
    → gc_asserts t bucket node ≡ true
    → length xs < k
    → length xs < fuel
    → (u : Nodes) × ((_cds_lfht_gc_bucket k fuel t bucket node ≡ some u)
        × Swept t u bucket (t.reverse_hash node) xs)
unfolding _cds_lfht_gc_bucket Found Swept
gc_bucket-Swept zero fuel t bucket node xs l d keeps owns asserted h f = absurd (omega arith)
gc_bucket-Swept (suc k) fuel t bucket node xs l d keeps owns asserted h f =
    let rh = t.reverse_hash node in
    elim (scan-Found fuel t rh bucket xs l d keeps f) [
      | inl (g, same) ↦ (
        t,
        (
          rw (_cds_lfht_gc_bucket, asserted, g) refl,
          (
            subst (λ (ys : List ℕ). Linked t (t.next bucket).to ys) (sym same) l,
            (λ y. refl, (λ y r. refl, refl)),
          ),
        ),
      )
      | inr (p, (g, (m, (i, (q, (l', short)))))) ↦
          let d' : Distinct (bucket ∷ cut t rh xs) =
            (has-cut t rh bucket xs (d.0), Distinct-cut t rh xs (d.1)) in
          let keeps' : removed (unlink p t) bucket ≡ false = unlink-removed p t bucket q ∙ keeps in
          let word : is_live p.iter ≡ true = rw i (rw (q, owns p.prev q) refl) in
          let owns' = unlink-OwnsRemoved p t owns in
          let asserted' : gc_asserts (unlink p t) bucket node ≡ true =
            rw (keeps', owns' bucket keeps') (ground arith) in
          let (u, (e, (l'', (flags, (words, hashes))))) =
            gc_bucket-Swept k fuel (unlink p t) bucket node (cut t rh xs) l' d' keeps' owns'
              asserted' (omega arith) (omega arith) in
          let swept =
            sweep-agree t (unlink p t) rh (cut t rh xs) refl (λ y. unlink-removed p t y q)
            ∙ sweep-cut t rh xs in
          (
            u,
            (
              rw (_cds_lfht_gc_bucket, asserted, g, word) e,
              (
                subst (λ (ys : List ℕ). Linked u (u.next bucket).to ys) swept l'',
                (
                  λ y. flags y ∙ unlink-removed p t y q,
                  (λ y r. words y (unlink-removed p t y q ∙ r) ∙ unlink-kept p t y q r, hashes),
                ),
              ),
            ),
          )
    ]
