-- ===== src/Hash/Update.antt =====
-- src/rculfhash.c: the changes of the hash table's one list, `_cds_lfht_gc_bucket`,
-- `_cds_lfht_add` and `_cds_lfht_del`, as one thread makes them while no other writes: each
-- cmpxchg then finds what the thread has read.
pub mod Gc
pub mod Del
pub mod Add
mod Tests
use liburcu.Prelude.{
  ℕ, zero, suc, ◌+◌, Bool, true, false, not, ◌&&◌, Option, none, some, List, [], ◌∷◌, ◌==◌, ltb,
  leb, if◌then◌else◌, update,
}
use liburcu.Hash.Walk.{Link, Nodes, Iter, end_link}

-- `iter_prev`, and what was read in it and in the node that it leads to.
pub record Place : Type 0 where
  pub prev : ℕ
  pub iter : Link
  pub next : Link

-- flag_bucket(clear_flag(to)) where `iter` has the flag, else clear_flag(to).
abbrev pub with_bucket_of : Link → ℕ → Link
with_bucket_of iter n = record {
  to = n;
  removed = false;
  bucket = iter.bucket;
  removal_owner = false;
}

-- uatomic_cmpxchg(&node->next, _, link)
abbrev pub set_next : ℕ → Link → Nodes → Nodes
set_next n l t = record t { next = update t.next n l }

-- The cmpxchg of both gc paths.
abbrev pub unlink : Place → Nodes → Nodes
unlink p t = set_next p.prev (with_bucket_of p.iter p.next.to) t

-- The inner loop of _cds_lfht_gc_bucket: the first removed node, not behind the hash.
unfoldable pub gc_scan : ℕ → Nodes → (reverse_hash : ℕ) → (prev : ℕ) → Link → Option (Option Place)
gc_scan zero t rh prev iter = none
gc_scan (suc k) t rh prev iter =
    let next = t.next iter.to in
    let rest = gc_scan k t rh iter.to next in
    if iter.to == 0
    then some none
    else if ltb rh (t.reverse_hash iter.to)
    then some none
    else if next.removed
    then some (some (record { prev = prev; iter = iter; next = next }))
    else rest

-- assert(!is_removed(iter)); assert(!is_removal_owner(iter))
abbrev pub is_live : Link → Bool
is_live iter = not iter.removed && not iter.removal_owner

-- What is asserted at the start of each turn of the outer loop of _cds_lfht_gc_bucket.
abbrev pub gc_asserts : Nodes → (bucket node : ℕ) → Bool
gc_asserts t bucket node =
    is_live (t.next bucket)
    && (leb (t.reverse_hash bucket) (t.reverse_hash node) && not (bucket == node))

-- The fuel bounds the inner loop; the outer one unlinks a node a turn, and has its own. No result
-- means that the fuel has run out or that an assertion fails. Those on the flags of an address
-- that is passed always hold: an address has none here.
unfoldable pub _cds_lfht_gc_bucket : (turns fuel : ℕ) → Nodes → (bucket node : ℕ) → Option Nodes
_cds_lfht_gc_bucket zero fuel t bucket node = none
_cds_lfht_gc_bucket (suc k) fuel t bucket node =
    let turn : Option Nodes = elim (gc_scan fuel t (t.reverse_hash node) bucket (t.next bucket)) [
      | none ↦ none
      | some found ↦ elim found [
        | none ↦ some t
        | some p ↦
            let rest = _cds_lfht_gc_bucket k fuel (unlink p t) bucket node in
            if is_live p.iter then rest else none
      ]
    ] in
    if gc_asserts t bucket node then turn else none

-- What an operation returns: 0 or -ENOENT.
pub data Status : Type 0 where
  ok enoent : Status

abbrev pub flag_removed : Link → Link
flag_removed l = record l { removed = true }

abbrev pub flag_removal_owner : Link → Link
flag_removal_owner l = record l { removal_owner = true }

-- `bucket` is what lookup_bucket gives for the node's hash; the node 0 is NULL. No result means
-- that the fuel has run out or that an assertion fails.
unfoldable pub _cds_lfht_del : (fuel : ℕ) → Nodes → (bucket node : ℕ) → Option (Nodes × Status)
_cds_lfht_del fuel t bucket node =
    let marked = set_next node (flag_removed (t.next node)) t in
    let gc = _cds_lfht_gc_bucket fuel fuel marked bucket node in
    if node == 0
    then some (t, enoent)
    else if (t.next node).removed
    then some (t, enoent)
    else if (t.next node).bucket
    then none
    else elim gc [
      | none ↦ none
      | some t' ↦
          let next = t'.next node in
          let owned = set_next node (flag_removal_owner next) t' in
          if not next.removed then none else some (owned, if next.removal_owner then enoent else ok)
    ]
