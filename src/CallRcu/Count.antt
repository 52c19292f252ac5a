-- ===== src/CallRcu/Count.antt =====
-- How often a work of rcu_barrier stands in a list of callbacks, and on how many workers it has run.
use mathlib.Core.Path.{subst}
use liburcu.Prelude.{
  ℕ, ◌+◌, ◌≡◌, ◌≢◌, ◌≤◌, ◌<◌, refl, sym, ap, Bool-cases, inl, inr, true, false, List, [], ◌∷◌, ◌++◌,
  ◌==◌, if◌then◌else◌, has, length, Distinct, update, arith,
}
use liburcu.CallRcu.System.{Callback, user, work}
use liburcu.CallRcu.Order.{IsPrefix}

abbrev pub ones : ℕ → Callback → ℕ
ones b (user head) = 0
ones b (work c) = if b == c then 1 else 0

-- How often the work of the completion stands in the list.
abbrev pub count : ℕ → List Callback → ℕ
count b [] = 0
count b (c ∷ rest) = ones b c + count b rest

-- How often it stands in the lists of the workers together.
abbrev pub tally : ℕ → List ℕ → (ℕ → List Callback) → ℕ
tally b [] lists = 0
tally b (w ∷ ws) lists = count b (lists w) + tally b ws lists

pub count-append : (b : ℕ) (xs ys : List Callback) → count b (xs ++ ys) ≡ count b xs + count b ys
count-append b [] ys = omega arith
count-append b (c ∷ rest) ys = omega (arith, count-append b rest ys)

pub tally_other :
    (b : ℕ) (ws : List ℕ) (lists : ℕ → List Callback) (w : ℕ) (l : List Callback)
    → has w ws ≡ false
    → tally b ws (update lists w l) ≡ tally b ws lists
tally_other b [] lists w l h = refl
tally_other b (v ∷ ws) lists w l h =
    let rest = tally_other b ws lists w l (ground arith) in
    let same : update lists w l v ≡ lists v = ground arith in rw (same, rest) refl

-- One more of a worker's, one more of all.
pub tally_one :
    (b : ℕ) (ws : List ℕ) (lists : ℕ → List Callback) (w : ℕ) (l : List Callback)
    → Distinct ws
    → has w ws ≡ true
    → tally b ws (update lists w l) + count b (lists w) ≡ tally b ws lists + count b l
tally_one b [] lists w l d h = absurd (ground arith)
tally_one b (v ∷ ws) lists w l (off, d) h = elim (Bool-cases (w == v)) [
  | inl k ↦
      let e : w ≡ v = ground arith in
      let here : update lists w l v ≡ l = ground arith in
      let rest = tally_other b ws lists w l (ground arith) in rw (here, rest, e) (omega arith)
  | inr k ↦
      let there : update lists w l v ≡ lists v = ground arith in
      let rest = tally_one b ws lists w l d (ground arith) in rw there (omega (arith, rest))
]

pub tally_bound :
    (b : ℕ) (ws : List ℕ) (lists : ℕ → List Callback)
    → ((w : ℕ) → count b (lists w) ≤ 1)
    → tally b ws lists ≤ length ws
tally_bound b [] lists f = omega arith
tally_bound b (v ∷ ws) lists f = omega (arith, f v, tally_bound b ws lists f)

-- A worker that has not run it is missing from the tally.
pub tally_less :
    (b : ℕ) (ws : List ℕ) (lists : ℕ → List Callback) (w : ℕ)
    → ((v : ℕ) → count b (lists v) ≤ 1)
    → has w ws ≡ true
    → count b (lists w) ≡ 0
    → tally b ws lists < length ws
tally_less b [] lists w f h z = absurd (ground arith)
tally_less b (v ∷ ws) lists w f h z = elim (Bool-cases (w == v)) [
  | inl k ↦
      let e : w ≡ v = ground arith in
      let here : count b (lists v) ≡ 0 = subst (λ (u : ℕ). count b (lists u) ≡ 0) e z in
      omega (arith, here, tally_bound b ws lists f)
  | inr k ↦ omega (arith, f v, tally_less b ws lists w f (ground arith) z)
]

-- Two prefixes of one list, of which the second one has a work that the first one has not.
pub longer_prefix :
    (b : ℕ) (xs ys r s : List Callback)
    → xs ++ r ≡ ys ++ s
    → count b xs ≡ 0
    → count b ys ≢ 0
    → IsPrefix xs ys
longer_prefix b [] ys r s e z n = (ys, refl)
longer_prefix b (x ∷ xs) [] r s e z n = absurd (n refl)
longer_prefix b (x ∷ xs) (y ∷ ys) r s e z n =
    let head : x ≡ y = cc in
    let tails : xs ++ r ≡ ys ++ s = cc in
    let none : (ones b x ≡ 0) × (count b xs ≡ 0) = omega arith in
    let same : ones b x ≡ ones b y = ap (ones b) head in
    let (rest, f) = longer_prefix b xs ys r s tails (none.1) (λ k. n (omega arith)) in
    (rest, subst (λ (c : Callback). y ∷ ys ≡ c ∷ (xs ++ rest)) (sym head) (ap (λ l. y ∷ l) f))

pub tally_same :
    (b : ℕ) (ws : List ℕ) (lists lists' : ℕ → List Callback)
    → ((w : ℕ) → count b (lists' w) ≡ count b (lists w))
    → tally b ws lists' ≡ tally b ws lists
tally_same b [] lists lists' f = refl
tally_same b (w ∷ ws) lists lists' f = rw (f w, tally_same b ws lists lists' f) refl

pub tally_zero :
    (b : ℕ) (ws : List ℕ) (lists : ℕ → List Callback)
    → ((w : ℕ) → count b (lists w) ≡ 0)
    → tally b ws lists ≡ 0
tally_zero b [] lists f = refl
tally_zero b (w ∷ ws) lists f = omega (arith, f w, tally_zero b ws lists f)
