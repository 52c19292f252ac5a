-- ===== src/Stacks/Spec.antt =====
-- What a stack promises: each call takes effect at once, at some moment between its start and its
-- return, and returns what a sequential stack would.
use liburcu.Prelude.{
  ℕ, ◌≡◌, Bool, true, false, not, Option, none, some, List, [], ◌∷◌, ◌==◌, if◌then◌else◌, is_empty,
  has,
}

-- A call that has taken effect, with what it returns: pop_all the top, or NULL, the address 0.
pub data Event : Type 0 where
  pushed : (node : ℕ) → (was_non_empty : Bool) → Event
  popped : (node : ℕ) → (was_last : Bool) → Event
  popped_null : Event
  popped_all : (top : ℕ) → Event
  would_block : Event  -- a nonblocking call that gives up: the stack is left as it is

abbrev pub same : Bool → Bool → Bool
same true b = b
same false b = not b

-- The top of a stack, where `empty` stands for none.
abbrev pub top_of : (empty : ℕ) → List ℕ → ℕ
top_of empty [] = empty
top_of empty (x ∷ xs) = x

-- The sequential stack: none where it would not return that.
unfoldable pub spec : (empty : ℕ) → Event → List ℕ → Option (List ℕ)
spec empty (pushed n b) l = if same b (not (is_empty l)) then some (n ∷ l) else none
spec empty (popped n b) [] = none
spec empty (popped n b) (x ∷ xs) =
    if x == n then (if same b (is_empty xs) then some xs else none) else none
spec empty popped_null [] = some []
spec empty popped_null (x ∷ xs) = none
spec empty (popped_all t) l = if t == top_of 0 l then some [] else none
spec empty would_block l = some l

-- The contents after the events, the newest first.
unfoldable pub replay : (empty : ℕ) → List Event → Option (List ℕ)
replay empty [] = some []
replay empty (e ∷ es) = elim (replay empty es) [ none ↦ none | some l ↦ spec empty e l ]

-- Whether the node is in the stack.
abbrev pub holds : (empty : ℕ) → ℕ → List Event → Bool
holds empty n es = elim (replay empty es) [ none ↦ false | some l ↦ has n l ]

pub replay-cons :
    (empty : ℕ) (e : Event) (es : List Event) (l m : List ℕ)
    → replay empty es ≡ some l
    → spec empty e l ≡ some m
    → replay empty (e ∷ es) ≡ some m
unfolding replay
replay-cons empty e es l m h k = rw (h, k)
