-- ===== src/Hash/Update/Add/Sorted.antt =====
-- src/rculfhash.c, `_cds_lfht_add` without uniqueness: what the list is afterwards.
use mathlib.Core.Path.{sym, ◌∙◌, subst}
use liburcu.Prelude.{
  Distinct, ℕ, zero, suc, ◌<◌, ◌≤◌, ◌≡◌, ◌≢◌, refl, ap, Bool, Bool-cases, true, false, none, some,
  List, [], ◌∷◌, ◌==◌, ◌||◌, ltb, length, has, arith, inl, inr,
}
use liburcu.Hash.Walk.{Link, Nodes}
use liburcu.Hash.Walk.Chain.{Linked, Ascending}
use liburcu.Hash.Update.{unlink}
use liburcu.Hash.Update.Gc.{removed, cut, Found, unlink-removed, Distinct-cut, has-cut}
use liburcu.Hash.Update.Add.{link_node, Added, _cds_lfht_add}
use liburcu.Hash.Update.Add.Insert.{inserted, inserted-cut, Placed, scan-Placed}

inserted-agree :
    (t u : Nodes) (n : ℕ) (xs : List ℕ)
    → u.reverse_hash ≡ t.reverse_hash
    → ((y : ℕ) → (u.next y).removed ≡ (t.next y).removed)
    → inserted u n xs ≡ inserted t n xs
inserted-agree t u n [] e f = refl
inserted-agree t u n (x ∷ xs) e f = rw (e, f x, inserted-agree t u n xs e f) refl

inserted-Ascending :
    (t : Nodes) (n low : ℕ) (xs : List ℕ)
    → Ascending t low xs
    → low ≤ t.reverse_hash n
    → Ascending t low (inserted t n xs)
inserted-Ascending t n low [] a h = (h, tt)
inserted-Ascending t n low (x ∷ xs) (o, a) h =
    elim (Bool-cases (ltb (t.reverse_hash n) (t.reverse_hash x))) [
      | inl s ↦ rw s (h, (ground arith, a))
      | inr s ↦ elim (Bool-cases (removed t x)) [
        | inl r ↦ rw (s, r) (inserted-Ascending t n low xs (lower t low x xs o a) h)
        | inr r ↦ rw (s, r) (o, inserted-Ascending t n (t.reverse_hash x) xs a (ground arith))
      ]
    ]
  where
    lower :
        (t : Nodes) (low x : ℕ) (xs : List ℕ)
        → low ≤ t.reverse_hash x
        → Ascending t (t.reverse_hash x) xs
        → Ascending t low xs
    lower t low x [] o a = tt
    lower t low x (y ∷ ys) o (p, a) = (omega arith, a)

Ascending-agree :
    (t u : Nodes) (low : ℕ) (xs : List ℕ)
    → u.reverse_hash ≡ t.reverse_hash
    → Ascending t low xs
    → Ascending u low xs
Ascending-agree t u low [] e a = tt
Ascending-agree t u low (x ∷ xs) e (o, a) =
    let p : u.reverse_hash x ≡ t.reverse_hash x = ap (λ (f : ℕ → ℕ). f x) e in
    (
      omega arith,
      subst (λ (w : ℕ). Ascending u w xs) (sym p) (Ascending-agree t u (t.reverse_hash x) xs e a),
    )

has-inserted :
    (t : Nodes) (n y : ℕ) (xs : List ℕ)
    → removed t y ≡ false
    → has y (inserted t n xs) ≡ ((y == n) || has y xs)
has-inserted t n y [] r = ground arith
has-inserted t n y (x ∷ xs) r = ground (arith, has-inserted t n y xs r)

has-inserted_self : (t : Nodes) (n : ℕ) (xs : List ℕ) → has n (inserted t n xs) ≡ true
has-inserted_self t n [] = ground arith
has-inserted_self t n (x ∷ xs) = ground (arith, has-inserted_self t n xs)

-- The flags of the nodes after the stores of an insertion.
link-removed :
    (t : Nodes) (n p y : ℕ) (iter : Link)
    → removed t p ≡ false
    → y ≢ n
    → ((link_node false n p iter t).next y).removed ≡ (t.next y).removed
link-removed t n p y iter keeps ne =
    let b : (y == n) ≡ false = ground arith in
    elim (Bool-cases (y == p)) [
      | inl z ↦
          let same : p ≡ y = ground arith in
          let k : (t.next y).removed ≡ false = subst (λ (w : ℕ). removed t w ≡ false) same keeps in
          rw z (sym k)
      | inr z ↦ rw (z, b) refl
    ]

link-removed_self :
    (t : Nodes) (n p : ℕ) (iter : Link)
    → n ≢ p
    → ((link_node false n p iter t).next n).removed ≡ false
link-removed_self t n p iter ne =
    let a : (n == p) ≡ false = ground arith in
    let b : (n == n) ≡ true = ground arith in rw (a, b) refl

-- What a call leaves.
Holding : Nodes → ℕ → ℕ → List ℕ → Added → Type 0
Holding t bucket n xs r =
    (r.found ≡ none)
    × (Linked r.nodes (r.nodes.next bucket).to (inserted t n xs)
        × ((r.nodes.reverse_hash ≡ t.reverse_hash)
            × (((r.nodes.next n).removed ≡ false)
                × ((y : ℕ) → y ≢ n → (r.nodes.next y).removed ≡ (t.next y).removed))))

add-Holding :
    (k fuel : ℕ) (t : Nodes) (match : ℕ → Bool) (bucket n : ℕ) (xs : List ℕ)
    → Linked t (t.next bucket).to xs
    → Distinct (bucket ∷ xs)
    → has n (bucket ∷ xs) ≡ false
    → n ≢ 0
    → removed t bucket ≡ false
    → length xs < k
    → length xs < fuel
    → (r : Added) × ((_cds_lfht_add k fuel t false false match bucket n ≡ some r)
        × Holding t bucket n xs r)
unfolding _cds_lfht_add Placed Found Holding
add-Holding zero fuel t match bucket n xs l d m nz keeps h f = absurd (omega arith)
add-Holding (suc k) fuel t match bucket n xs l d m nz keeps h f =
    elim (scan-Placed fuel t match n bucket xs 0 l d m nz keeps f) [
      | inl (p, (iter, (c, (g, (b, (i, (q, placed))))))) ↦
          let ne : n ≢ p = λ e. ground arith in
          (
            record { nodes = link_node false n p iter t; found = none; chain_len = c },
            (
              rw (_cds_lfht_add, g) refl,
              (
                refl,
                (
                  placed,
                  (
                    refl,
                    (link-removed_self t n p iter ne, λ y off. link-removed t n p y iter q off),
                  ),
                ),
              ),
            ),
          )
      | inr (p, (c, (g, (b, (i, (q, (l', short))))))) ↦
          let d' : Distinct (bucket ∷ cut t (t.reverse_hash n) xs) = (
            has-cut t (t.reverse_hash n) bucket xs (d.0),
            Distinct-cut t (t.reverse_hash n) xs (d.1),
          ) in
          let m' : has n (bucket ∷ cut t (t.reverse_hash n) xs) ≡ false =
            ground (arith, has-cut t (t.reverse_hash n) n xs) in
          let keeps' = unlink-removed p t bucket q ∙ keeps in
          let (r, (e, (fd, (l'', (hashes, (itself, flags)))))) =
            add-Holding k fuel (unlink p t) match bucket n (cut t (t.reverse_hash n) xs) l' d' m' nz
              keeps' (omega arith) (omega arith) in
          let same =
            inserted-agree t (unlink p t) n (cut t (t.reverse_hash n) xs) refl
              (λ y. unlink-removed p t y q)
            ∙ inserted-cut t n xs in
          (
            r,
            (
              rw (_cds_lfht_add, g) e,
              (
                fd,
                (
                  subst (λ (ys : List ℕ). Linked r.nodes (r.nodes.next bucket).to ys) same l'',
                  (hashes, (itself, λ y off. flags y off ∙ unlink-removed p t y q)),
                ),
              ),
            ),
          )
    ]

-- On a sorted list behind the bucket of its hash, with no node twice: _cds_lfht_add without
-- uniqueness ends on fuel above the length, and the list then is sorted, has the node, and has of
-- the other nodes that were not removed exactly those that it had; the node is not removed,
-- and the flag of no other node has changed.
pub add_sorts :
    (k fuel : ℕ) (t : Nodes) (match : ℕ → Bool) (bucket n low : ℕ) (xs : List ℕ)
    → Linked t (t.next bucket).to xs
    → Distinct (bucket ∷ xs)
    → Ascending t low xs
    → low ≤ t.reverse_hash n
    → has n (bucket ∷ xs) ≡ false
    → n ≢ 0
    → removed t bucket ≡ false
    → length xs < k
    → length xs < fuel
    → (r : Added) × ((_cds_lfht_add k fuel t false false match bucket n ≡ some r)
        × ((ys : List ℕ) × (Linked r.nodes (r.nodes.next bucket).to ys
              × (Ascending r.nodes low ys
                  × ((has n ys ≡ true)
                      × (((y : ℕ) → y ≢ n → removed t y ≡ false → has y ys ≡ has y xs)
                          × (((r.nodes.next n).removed ≡ false)
                              × ((y : ℕ)
                                  → y ≢ n
                                  → (r.nodes.next y).removed ≡ (t.next y).removed))))))))
unfolding Holding
add_sorts k fuel t match bucket n low xs l d a o m nz keeps h f =
    let (r, (e, (fd, (l', (hashes, (itself, flags)))))) =
      add-Holding k fuel t match bucket n xs l d m nz keeps h f in
    let sorted = inserted-Ascending t n low xs a o in
    (
      r,
      (
        e,
        (
          inserted t n xs,
          (
            l',
            (
              Ascending-agree t r.nodes low (inserted t n xs) hashes sorted,
              (
                has-inserted_self t n xs,
                (λ y ne live. ground (arith, has-inserted t n y xs live), (itself, flags)),
              ),
            ),
          ),
        ),
      ),
    )
