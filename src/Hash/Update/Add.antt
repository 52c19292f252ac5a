-- ===== src/Hash/Update/Add.antt =====
-- src/rculfhash.c, `_cds_lfht_add`, as one thread runs it while no other writes.
pub mod Insert
pub mod Sorted
use liburcu.Prelude.{
  ℕ, zero, suc, ◌+◌, Bool, true, false, not, ◌&&◌, Option, none, some, ◌==◌, ltb, if◌then◌else◌,
}
use liburcu.Hash.Walk.{Link, Nodes, Iter, cds_lfht_next_duplicate}
use liburcu.Hash.Update.{Place, set_next, unlink, with_bucket_of}

-- How the inner loop ends: goto insert, goto gc_node, or a duplicate to return.
pub data Decision : Type 0 where
  insert : (prev : ℕ) → (iter : Link) → Decision
  gc_node : Place → Decision
  duplicate : Iter → Decision

-- Behind the duplicate search: `d_iter.node` tells whether there is one.
abbrev pub after_search : ℕ → Link → Iter → Decision
after_search prev iter d = if d.node == 0 then insert prev iter else duplicate d

-- The argument of check_resize where it is called; else the length stays.
abbrev pub chain_step : Nodes → (prev : ℕ) → (iter next : Link) → ℕ → ℕ
chain_step t prev iter next len =
    if not (t.reverse_hash prev == t.reverse_hash iter.to) && not next.bucket then len + 1 else len

-- The inner loop. `unique` is whether unique_ret is given. Beside the decision it returns
-- chain_len: check_resize has been called with each length from 1 to it.
unfoldable pub add_scan :
    ℕ
    → Nodes
    → (unique bucket_flag : Bool) → (match : ℕ → Bool) → (node prev : ℕ) → Link
    → (chain_len : ℕ) → Option (Decision × ℕ)
add_scan zero t unique flag match node prev iter len = none
add_scan (suc k) t unique flag match node prev iter len =
    let rh = t.reverse_hash node in
    let next = t.next iter.to in
    let rest = add_scan k t unique flag match node iter.to next (chain_step t prev iter next len) in
    let search = cds_lfht_next_duplicate k t match (record { node = node; next = iter }) in
    if iter.to == 0
    then some (insert prev iter, len)
    else if ltb rh (t.reverse_hash iter.to)
    then some (insert prev iter, len)
    else if flag && (t.reverse_hash iter.to == rh)
    then some (insert prev iter, len)
    else if next.removed
    then some (gc_node (record { prev = prev; iter = iter; next = next }), len)
    else if unique && (not next.bucket && (t.reverse_hash iter.to == rh))
    then elim search [ none ↦ none | some d ↦ some (after_search prev iter d, len) ]
    else rest

-- The stores of the label insert.
abbrev pub link_node : (bucket_flag : Bool) → (node prev : ℕ) → (iter : Link) → Nodes → Nodes
link_node flag node prev iter t = set_next prev (with_bucket_of iter node) (
    set_next node (record { to = iter.to; removed = false; bucket = flag; removal_owner = false })
      t)

-- What the call leaves: the nodes, the duplicate if it found one, and the last chain_len.
pub record Added : Type 0 where
  pub nodes : Nodes
  pub found : Option Iter
  pub chain_len : ℕ

-- `bucket` is what lookup_bucket gives for the node's hash. The assertions are left out.
unfoldable pub _cds_lfht_add :
    (turns fuel : ℕ)
    → Nodes
    → (unique bucket_flag : Bool) → (match : ℕ → Bool) → (bucket node : ℕ) → Option Added
_cds_lfht_add zero fuel t unique flag match bucket node = none
_cds_lfht_add (suc k) fuel t unique flag match bucket node =
    elim (add_scan fuel t unique flag match node bucket (t.next bucket) 0) [
      | none ↦ none
      | some d ↦ elim d.0 [
        | insert prev iter ↦
            some (record { nodes = link_node flag node prev iter t; found = none; chain_len = d.1 })
        | gc_node p ↦ _cds_lfht_add k fuel (unlink p t) unique flag match bucket node
        | duplicate it ↦ some (record { nodes = t; found = some it; chain_len = d.1 })
      ]
    ]
