-- ===== src/Stacks/Chain.antt =====
-- include/urcu/static/lfstack.h and wfstack.h: a chain of nodes as a list, and what the sequential
-- stack says to each call.
use liburcu.Prelude.{
  ℕ, ◌≡◌, ◌≢◌, refl, sym, ap, Bool, true, false, not, some, none, List, [], ◌∷◌, ◌==◌, has, arith,
  is_empty, if◌then◌else◌,
}
use liburcu.Stacks.Spec.{
  Event, pushed, popped, popped_null, popped_all, would_block, spec, replay, holds, top_of, same,
}

-- The nodes from the address `a` on, up to the mark `empty`.
abbrev pub Linked : (empty : ℕ) (next : ℕ → ℕ) → ℕ → List ℕ → Type 0
Linked empty next a [] = a ≡ empty
Linked empty next a (x ∷ xs) = (a ≡ x) × ((x ≢ empty) × Linked empty next (next x) xs)

pub Linked-agree :
    (empty : ℕ) (next next' : ℕ → ℕ) (a : ℕ) (xs : List ℕ)
    → Linked empty next a xs
    → ((x : ℕ) → has x xs ≡ true → next' x ≡ next x)
    → Linked empty next' a xs
Linked-agree empty next next' a [] l f = l
Linked-agree empty next next' a (x ∷ xs) (e, (nz, l)) f =
    let rest = Linked-agree empty next next' (next x) xs l (λ y m. ground (arith, f y)) in
    (e, (nz, rw (f x (ground arith)) rest))

-- An empty head is an empty stack.
pub Linked-empty :
    (empty : ℕ) (next : ℕ → ℕ) (a : ℕ) (xs : List ℕ)
    → Linked empty next a xs
    → ((a == empty) ≡ is_empty xs) × (top_of empty xs ≡ a)
Linked-empty empty next a [] l = ground arith
Linked-empty empty next a (x ∷ xs) l = ground arith

pub empty_items :
    (empty : ℕ) (next : ℕ → ℕ) (a : ℕ) (xs : List ℕ)
    → Linked empty next a xs
    → (a == empty) ≡ true
    → xs ≡ []
empty_items empty next a [] l z = refl
empty_items empty next a (x ∷ xs) (e, (nz, l)) z = absurd (ground arith)

pub head_has :
    (empty : ℕ) (next : ℕ → ℕ) (a : ℕ) (xs : List ℕ)
    → Linked empty next a xs
    → (a == empty) ≡ false
    → has a xs ≡ true
head_has empty next a [] l z = absurd (ground arith)
head_has empty next a (x ∷ xs) (e, (nz, l)) z = ground arith

pub split_head :
    (empty : ℕ) (next : ℕ → ℕ) (a : ℕ) (xs : List ℕ)
    → Linked empty next a xs
    → a ≢ empty
    → (rest : List ℕ) × ((xs ≡ a ∷ rest) × Linked empty next (next a) rest)
split_head empty next a [] l nz = absurd (nz l)
split_head empty next a (x ∷ xs) (e, (xz, l)) nz = (xs, (ap (λ y. y ∷ xs) (sym e), rw e l))

-- What the sequential stack says to each call.
pub push_spec :
    (empty : ℕ) (n : ℕ) (b : Bool) (l : List ℕ)
    → b ≡ is_empty l
    → spec empty (pushed n (not b)) l ≡ some (n ∷ l)
unfolding spec
push_spec empty n b l e = rw e (push_same n (is_empty l) l)
  where
    push_same :
        (n : ℕ) (c : Bool) (l : List ℕ)
        → (if same (not c) (not c) then some (n ∷ l) else none) ≡ some (n ∷ l)
    push_same n true l = refl
    push_same n false l = refl

pub null_spec : (empty : ℕ) → spec empty popped_null [] ≡ some []
unfolding spec
null_spec empty = refl

pub pop_spec :
    (empty : ℕ) (x n : ℕ) (b : Bool) (rest : List ℕ)
    → x ≡ n
    → b ≡ is_empty rest
    → spec empty (popped n b) (x ∷ rest) ≡ some rest
unfolding spec
pop_spec empty x n b [] e f = ground arith
pop_spec empty x n b (y ∷ rest) e f = ground arith

pub all_spec : (empty t : ℕ) (l : List ℕ) → top_of 0 l ≡ t → spec empty (popped_all t) l ≡ some []
unfolding spec
all_spec empty t l e = ground arith

pub block_spec : (empty : ℕ) (l : List ℕ) → spec empty would_block l ≡ some l
unfolding spec
block_spec empty l = refl

pub subst_holds :
    (empty : ℕ) (n : ℕ) (es : List Event) (l : List ℕ)
    → replay empty es ≡ some l
    → holds empty n es ≡ false
    → has n l ≡ false
subst_holds empty n es l e h = rw (holds, e) at h
