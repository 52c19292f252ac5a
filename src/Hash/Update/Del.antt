-- ===== src/Hash/Update/Del.antt =====
-- src/rculfhash.c, `_cds_lfht_del`: what a deletion leaves in the list.
use mathlib.Core.Path.{sym, ◌∙◌, subst}
use liburcu.Prelude.{
  Distinct, ℕ, ◌<◌, ◌≡◌, ◌≢◌, refl, ap, Bool-cases, true, false, some, List, [], ◌∷◌, ◌==◌, ltb,
  length, has, arith, inl, inr, ◌≤◌, update_elim,
}
use liburcu.Hash.Walk.{Link, Nodes}
use liburcu.Hash.Walk.Chain.{Linked, Ascending}
use liburcu.Hash.Update.{
  ok, enoent, set_next, gc_asserts, _cds_lfht_gc_bucket, flag_removed, flag_removal_owner,
  _cds_lfht_del,
}
use liburcu.Hash.Update.Gc.{removed, OwnsRemoved, sweep, Linked-agree, Swept, gc_bucket-Swept}

has-sweep :
    (t : Nodes) (rh y : ℕ) (xs : List ℕ) → removed t y ≡ false → has y (sweep t rh xs) ≡ has y xs
has-sweep t rh y [] r = refl
has-sweep t rh y (x ∷ xs) r = ground (arith, has-sweep t rh y xs r)

above_absent :
    (t : Nodes) (n low : ℕ) (xs : List ℕ)
    → Ascending t low xs
    → t.reverse_hash n < low
    → has n xs ≡ false
above_absent t n low [] a h = refl
above_absent t n low (x ∷ xs) (o, a) h =
    let rest = above_absent t n (t.reverse_hash x) xs a (omega arith) in
    let ne : n ≢ x = λ e. let same = ap t.reverse_hash e in omega arith in ground arith

sweep_drops :
    (t : Nodes) (n low : ℕ) (xs : List ℕ)
    → Ascending t low xs
    → removed t n ≡ true
    → has n (sweep t (t.reverse_hash n) xs) ≡ false
sweep_drops t n low [] a r = refl
sweep_drops t n low (x ∷ xs) (o, a) r =
    elim (Bool-cases (ltb (t.reverse_hash n) (t.reverse_hash x))) [
      | inl s ↦ rw s (above_absent t n (t.reverse_hash x) (x ∷ xs) (omega arith, a) (ground arith))
      | inr s ↦ elim (Bool-cases (removed t x)) [
        | inl q ↦ rw (s, q) (sweep_drops t n (t.reverse_hash x) xs a r)
        | inr q ↦
            let ne : n ≢ x = λ e.
              let k : removed t x ≡ true = subst (λ (w : ℕ). removed t w ≡ true) e r in
              ground arith in
            let z : (n == x) ≡ false = ground arith in
            rw (s, q, z) (sweep_drops t n (t.reverse_hash x) xs a r)
      ]
    ]

-- A store that changes only flags changes no link, and no flag of another node.
set_next-to :
    (t : Nodes) (n y : ℕ) (k : Link)
    → k.to ≡ (t.next n).to
    → ((set_next n k t).next y).to ≡ (t.next y).to
set_next-to t n y k e = elim (Bool-cases (y == n)) [
  | inl z ↦ let same : y ≡ n = ground arith in rw z (e ∙ ap (λ (w : ℕ). (t.next w).to) (sym same))
  | inr z ↦ rw z refl
]

set_next-removed :
    (t : Nodes) (n y : ℕ) (k : Link)
    → y ≢ n
    → ((set_next n k t).next y).removed ≡ (t.next y).removed
set_next-removed t n y k ne = let z : (y == n) ≡ false = ground arith in rw z refl

mark-OwnsRemoved :
    (t : Nodes) (n : ℕ) → OwnsRemoved t → OwnsRemoved (set_next n (flag_removed (t.next n)) t)
mark-OwnsRemoved t n owns y =
    update_elim (λ (l : Link). l.removed ≡ false → l.removal_owner ≡ false) t.next n
      (flag_removed (t.next n)) y (λ e k. absurd (ground arith)) (λ e. owns y)

-- A deletion of a node that passes the assertions, once its bucket has been swept.
del_ends :
    (fuel : ℕ) (t v : Nodes) (bucket n : ℕ)
    → (n == 0) ≡ false
    → removed t n ≡ false
    → (t.next n).bucket ≡ false
    → _cds_lfht_gc_bucket fuel fuel (set_next n (flag_removed (t.next n)) t) bucket n ≡ some v
    → removed v n ≡ true
    → (v.next n).removal_owner ≡ false
    → _cds_lfht_del fuel t bucket n ≡ some (set_next n (flag_removal_owner (v.next n)) v, ok)
unfolding _cds_lfht_del
del_ends fuel t v bucket n z live plain g swept owner = rw (z, live, g, plain, swept, owner) refl

-- A node of the list that is neither removed nor the bucket of another hash, behind the bucket of
-- its hash, which is not removed, on a sorted list with no node twice and with the owner of a
-- removal set on no node that is not removed: _cds_lfht_del fails no assertion, ends with 0 on fuel
-- above the length, and leaves the node removed and off the list, with every other node that was
-- not removed still on it. A second deletion of the node returns -ENOENT.
pub del_unlinks :
    (fuel : ℕ) (t : Nodes) (bucket n low : ℕ) (xs : List ℕ)
    → Linked t (t.next bucket).to xs
    → Distinct (bucket ∷ xs)
    → Ascending t low xs
    → removed t bucket ≡ false
    → has n xs ≡ true
    → n ≢ 0
    → removed t n ≡ false
    → (t.next n).bucket ≡ false
    → OwnsRemoved t
    → t.reverse_hash bucket ≤ t.reverse_hash n
    → length xs < fuel
    → (u : Nodes) × ((_cds_lfht_del fuel t bucket n ≡ some (u, ok))
        × ((_cds_lfht_del fuel u bucket n ≡ some (u, enoent))
            × ((ys : List ℕ) × (Linked u (u.next bucket).to ys
                  × ((has n ys ≡ false)
                      × ((y : ℕ) → y ≢ n → removed t y ≡ false → has y ys ≡ has y xs))))))
unfolding _cds_lfht_del Swept
del_unlinks fuel t bucket n low xs l d a keeps m nz live plain owns behind h =
    let free = owns n live in
    let rh = t.reverse_hash n in
    let marked = set_next n (flag_removed (t.next n)) t in
    let off : bucket ≢ n = λ e. ground arith in
    let z : (n == 0) ≡ false = ground arith in
    let self : (n == n) ≡ true = ground arith in
    let other : (bucket == n) ≡ false = ground arith in
    let r : (marked.next n).removed ≡ true = rw self refl in
    let b : marked.next bucket ≡ t.next bucket = rw other refl in
    let lm : Linked marked (marked.next bucket).to xs =
      subst (λ (k : Link). Linked marked k.to xs) (sym b)
        (Linked-agree t marked (t.next bucket).to xs l
          (λ y k. set_next-to t n y (flag_removed (t.next n)) refl)) in
    let km : removed marked bucket ≡ false = ap (λ (k : Link). k.removed) b ∙ keeps in
    let asserted : gc_asserts marked bucket n ≡ true =
      rw (other, keeps, owns bucket keeps) (ground arith) in
    let (v, (g, (lv, (flags, (words, hashes))))) =
      gc_bucket-Swept fuel fuel marked bucket n xs lm d km (mark-OwnsRemoved t n owns) asserted h
        h in
    let ys = sweep marked rh xs in
    let gone : has n ys ≡ false = sweep_drops marked n low xs a r in
    let word : v.next n ≡ flag_removed (t.next n) = words n r ∙ (rw self refl) in
    let u = set_next n (flag_removal_owner (v.next n)) v in
    let owner : (v.next n).removal_owner ≡ false = ap (λ (k : Link). k.removal_owner) word ∙ free in
    let swept : (v.next n).removed ≡ true = flags n ∙ r in
    let dead : (u.next n).removed ≡ true = rw self (flags n ∙ r) in
    let lu : Linked u (u.next bucket).to ys =
      subst (λ (k : ℕ). Linked u k ys)
        (sym (set_next-to v n bucket (flag_removal_owner (v.next n)) refl))
        (Linked-agree v u (v.next bucket).to ys lv
          (λ y k. set_next-to v n y (flag_removal_owner (v.next n)) refl)) in
    (
      u,
      (
        del_ends fuel t v bucket n z live plain g swept owner,
        (
          rw (z, dead) refl,
          (
            ys,
            (
              lu,
              (
                gone,
                λ y ne k.
                    has-sweep marked rh y xs
                      (set_next-removed t n y (flag_removed (t.next n)) ne ∙ k),
              ),
            ),
          ),
        ),
      ),
    )
