-- ===== src/Hash/Walk.antt =====
-- src/rculfhash.c: the reads of the hash table's one list: lookup, next_duplicate, next, first.
-- Nodes are addresses, 0 is END_VALUE. The store is as one thread sees it while nobody writes.
pub mod Chain
pub mod Visits
mod Tests
use liburcu.Prelude.{
  ℕ, zero, suc, ◌+◌, Bool, true, false, not, ◌&&◌, Option, none, some, List, [], ◌∷◌, ◌==◌, ltb,
  if◌then◌else◌,
}

-- A `next` pointer: the address, and the flags in its lowest bits.
pub record Link : Type 0 where
  pub to : ℕ
  pub removed : Bool
  pub bucket : Bool
  pub removal_owner : Bool

abbrev pub end_link : Link
end_link = record { to = 0; removed = false; bucket = false; removal_owner = false }

pub record Nodes : Type 0 where
  pub next : ℕ → Link
  pub reverse_hash : ℕ → ℕ

pub record Iter : Type 0 where
  pub node : ℕ
  pub next : Link

-- `node = next = NULL`
abbrev pub at_end : Iter
at_end = record { node = 0; next = end_link }

-- The loop that the reads share: over the nodes from `node` on, up to the first that it takes. It
-- gives up where `stop` holds. On fuel: `none` is a loop that has not ended.
unfoldable pub walk : ℕ → Nodes → (stop : ℕ → Bool) → (take : ℕ → Bool) → ℕ → Option Iter
walk zero t stop take node = none
walk (suc k) t stop take node =
    let next = t.next node in
    let rest = walk k t stop take next.to in
    if node == 0
    then some at_end
    else if stop node
    then some at_end
    else if take node
    then some (record { node = node; next = next })
    else rest

-- Neither logically removed nor a bucket node.
abbrev pub visible : Nodes → ℕ → Bool
visible t n = not (t.next n).removed && not (t.next n).bucket

-- `bucket` is what lookup_bucket gives, `match` the caller's match function at its key.
unfoldable pub cds_lfht_lookup :
    ℕ → Nodes → (bucket : ℕ) → (reverse_hash : ℕ) → (match : ℕ → Bool) → Option Iter
cds_lfht_lookup fuel t bucket rh match =
    walk fuel t (λ n. ltb rh (t.reverse_hash n))
      (λ n. visible t n && ((t.reverse_hash n == rh) && match n)) (t.next bucket).to

unfoldable pub cds_lfht_next_duplicate : ℕ → Nodes → (match : ℕ → Bool) → Iter → Option Iter
cds_lfht_next_duplicate fuel t match iter =
    walk fuel t (λ n. ltb (t.reverse_hash iter.node) (t.reverse_hash n))
      (λ n. visible t n && match n) iter.next.to

unfoldable pub cds_lfht_next : ℕ → Nodes → Iter → Option Iter
cds_lfht_next fuel t iter = walk fuel t (λ n. false) (visible t) iter.next.to

-- `bucket` is bucket_at(ht, 0).
unfoldable pub cds_lfht_first : ℕ → Nodes → (bucket : ℕ) → Option Iter
cds_lfht_first fuel t bucket = cds_lfht_next fuel t (record { node = bucket; next = t.next bucket })

-- The nodes that a for loop meets from an iterator on, its step being `advance`.
unfoldable pub for_each : ℕ → (advance : Iter → Option Iter) → Iter → Option (List ℕ)
for_each zero advance it = none
for_each (suc k) advance it = if it.node == 0 then some [] else elim (advance it) [
  | none ↦ none
  | some it' ↦ elim (for_each k advance it') [ none ↦ none | some l ↦ some (it.node ∷ l) ]
]

-- cds_lfht_for_each_duplicate
unfoldable pub cds_lfht_for_each_duplicate :
    ℕ → Nodes → (bucket : ℕ) → (reverse_hash : ℕ) → (match : ℕ → Bool) → Option (List ℕ)
cds_lfht_for_each_duplicate fuel t bucket rh match = elim (cds_lfht_lookup fuel t bucket rh match) [
  | none ↦ none
  | some it ↦ for_each fuel (cds_lfht_next_duplicate fuel t match) it
]

-- cds_lfht_for_each
unfoldable pub cds_lfht_for_each : ℕ → Nodes → (bucket : ℕ) → Option (List ℕ)
cds_lfht_for_each fuel t bucket = elim (cds_lfht_first fuel t bucket) [
  | none ↦ none
  | some it ↦ for_each fuel (cds_lfht_next fuel t) it
]
