-- ===== src/Hash/Update/Add/Insert.antt =====
-- src/rculfhash.c, `_cds_lfht_add` without uniqueness: where the node goes.
use mathlib.Core.Path.{sym, ◌∙◌, subst}
use liburcu.Prelude.{
  Distinct, ℕ, zero, suc, ◌<◌, ◌≡◌, ◌≢◌, ◌⊎◌, refl, ap, Bool, Bool-cases, true, false, some, List,
  [], ◌∷◌, ◌==◌, ltb, if◌then◌else◌, length, has, arith, inl, inr,
}
use liburcu.Hash.Walk.{Link, Nodes}
use liburcu.Hash.Walk.Chain.{Linked}
use liburcu.Hash.Update.{Place}
use liburcu.Hash.Update.Gc.{removed, cut, Found, Found-here, Found-skip, Linked-agree}
use liburcu.Hash.Update.Add.{insert, gc_node, add_scan, link_node, chain_step}

-- The list with the node behind the last that has no greater hash, without the removed nodes
-- before that place.
abbrev pub inserted : Nodes → ℕ → List ℕ → List ℕ
inserted t n [] = n ∷ []
inserted t n (x ∷ xs) =
    let rest = inserted t n xs in
    if ltb (t.reverse_hash n) (t.reverse_hash x)
    then n ∷ x ∷ xs
    else if removed t x
    then rest
    else x ∷ rest

pub inserted-cut :
    (t : Nodes) (n : ℕ) (xs : List ℕ) → inserted t n (cut t (t.reverse_hash n) xs) ≡ inserted t n xs
inserted-cut t n [] = refl
inserted-cut t n (x ∷ xs) = elim (Bool-cases (ltb (t.reverse_hash n) (t.reverse_hash x))) [
  | inl s ↦ rw (s, s) refl
  | inr s ↦ elim (Bool-cases (removed t x)) [
    | inl r ↦ rw (s, r) refl
    | inr r ↦ rw (s, r, s, r) (ap (λ l. x ∷ l) (inserted-cut t n xs))
  ]
]

-- The place of an insertion: the list behind `prev` with the node linked in.
unfoldable pub Placed : Nodes → ℕ → ℕ → List ℕ → ℕ → Link → Type 0
Placed t n prev xs p iter =
    (has p (prev ∷ xs) ≡ true)
    × ((iter ≡ t.next p)
        × ((removed t p ≡ false)
            × Linked (link_node false n p iter t) ((link_node false n p iter t).next prev).to
                (inserted t n xs)))

link-Linked :
    (t : Nodes) (n prev : ℕ) (rest : List ℕ)
    → Linked t (t.next prev).to rest
    → has n (prev ∷ rest) ≡ false
    → has prev rest ≡ false
    → n ≢ 0
    → Linked
        (link_node false n prev (t.next prev) t)
        ((link_node false n prev (t.next prev) t).next prev).to
        (n ∷ rest)
link-Linked t n prev rest l m u nz =
    let v = link_node false n prev (t.next prev) t in
    let at : (v.next prev).to ≡ n = let z : (prev == prev) ≡ true = ground arith in rw z refl in
    let on : (v.next n).to ≡ (t.next prev).to =
      let off : (n == prev) ≡ false = ground arith in
      let self : (n == n) ≡ true = ground arith in rw (off, self) refl in
    let same = Linked-agree t v (t.next prev).to rest l (λ y k.
      let a : (y == prev) ≡ false = ground arith in
      let b : (y == n) ≡ false = ground arith in rw (a, b) refl) in
    (at, (nz, subst (λ (a : ℕ). Linked v a rest) (sym on) same))

Placed-skip :
    (t : Nodes) (n prev x : ℕ) (xs : List ℕ) (p : ℕ) (iter : Link)
    → (t.next prev).to ≡ x
    → x ≢ 0
    → has prev (x ∷ xs) ≡ false
    → has n (prev ∷ x ∷ xs) ≡ false
    → ltb (t.reverse_hash n) (t.reverse_hash x) ≡ false
    → removed t x ≡ false
    → Placed t n x xs p iter
    → Placed t n prev (x ∷ xs) p iter
unfolding Placed
Placed-skip t n prev x xs p iter e nz u m s r (k, (i, (q, l))) =
    let v = link_node false n p iter t in
    let kept : x ∷ inserted t n xs ≡ inserted t n (x ∷ xs) = rw (s, r) refl in
    let head : (v.next prev).to ≡ x =
      let a : (prev == p) ≡ false = ground arith in
      let b : (prev == n) ≡ false = ground arith in rw (a, b) e in
    (
      ground arith,
      (i, (q, subst (λ (ys : List ℕ). Linked v (v.next prev).to ys) kept (head, (nz, l)))),
    )

pub scan-Placed :
    (k : ℕ) (t : Nodes) (match : ℕ → Bool) (n prev : ℕ) (xs : List ℕ) (len : ℕ)
    → Linked t (t.next prev).to xs
    → Distinct (prev ∷ xs)
    → has n (prev ∷ xs) ≡ false
    → n ≢ 0
    → removed t prev ≡ false
    → length xs < k
    → ((p : ℕ) × ((iter : Link) × ((c : ℕ) × ((add_scan k t false false match n prev
                  (t.next prev)
                  len
                ≡ some (insert p iter, c))
              × Placed t n prev xs p iter))))
      ⊎ ((p : Place) × ((c : ℕ) × ((add_scan k t false false match n prev (t.next prev) len
                ≡ some (gc_node p, c))
              × Found t (t.reverse_hash n) prev xs p)))
unfolding add_scan Placed
scan-Placed zero t match n prev xs len l d m nz keeps h = absurd (omega arith)
scan-Placed (suc k) t match n prev [] len l d m nz keeps h = inl (
  prev,
  (
    t.next prev,
    (len, (rw l refl, (ground arith, (refl, (keeps, link-Linked t n prev [] l m refl nz))))),
  ),
)
scan-Placed (suc k) t match n prev (x ∷ xs) len (e, (xz, l)) (u, d) m nz keeps h =
    let z : (x == 0) ≡ false = ground arith in
    let placed : ltb (t.reverse_hash n) (t.reverse_hash x) ≡ true
        → n ∷ x ∷ xs ≡ inserted t n (x ∷ xs) =
      λ s. rw s refl in
    elim (Bool-cases (ltb (t.reverse_hash n) (t.reverse_hash x))) [
      | inl s ↦ inl (
        prev,
        (
          t.next prev,
          (
            len,
            (
              rw (e, z, s) refl,
              (
                ground arith,
                (
                  refl,
                  (
                    keeps,
                    subst
                        (λ (ys : List ℕ).
                          Linked (link_node false n prev (t.next prev) t)
                            ((link_node false n prev (t.next prev) t).next prev).to ys)
                        (placed s) (link-Linked t n prev (x ∷ xs) (e, (xz, l)) m u nz),
                  ),
                ),
              ),
            ),
          ),
        ),
      )
      | inr s ↦ elim (Bool-cases (removed t x)) [
        | inl r ↦ inr (
          record { prev = prev; iter = t.next prev; next = t.next x },
          (
            len,
            (rw (e, z, s, r) refl, Found-here t (t.reverse_hash n) prev x xs l (u, d) keeps s r),
          ),
        )
        | inr r ↦
            let len' = chain_step t prev (t.next prev) (t.next x) len in
            let step : add_scan (suc k) t false false match n prev (t.next prev) len
                ≡ add_scan k t false false match n x (t.next x) len' =
              rw (e, z, s, r) refl in
            elim (scan-Placed k t match n x xs len' l d (ground arith) nz r (omega arith)) [
              | inl (p, (iter, (c, (g, f)))) ↦
                  inl (p, (iter, (c, (step ∙ g, Placed-skip t n prev x xs p iter e xz u m s r f))))
              | inr (p, (c, (g, f))) ↦
                  inr (p, (c, (step ∙ g, Found-skip t (t.reverse_hash n) prev x xs p e xz u s r f)))
            ]
      ]
    ]
