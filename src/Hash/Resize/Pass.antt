-- ===== src/Hash/Resize/Pass.antt =====
-- src/rculfhash.c: the resize itself, as it moves the size of the table. What it does to the bucket
-- nodes of an order, `cds_lfht_alloc_bucket_table`, `init_table_populate`, `remove_table` and
-- `cds_lfht_free_bucket_table`, changes no field of `Table`.
use liburcu.Prelude.{
  Option, none, some, ℕ, zero, suc, ◌+◌, ◌-◌, ◌^◌, ◌≡◌, ◌⊎◌, ◌==◌, refl, Bool, true, false, if_elim,
  inl, inr, ltb, if◌then◌else◌,
}
use liburcu.Hash.Resize.{Table, max, min_table_size, resize_target_update_count}
use liburcu.Hash.Order.{cds_lfht_get_count_order_ulong}

-- The loop of init_table, `left` orders from `i` on.
unfoldable pub init_table : (left i : ℕ) → Table → Table
init_table zero i ht = ht
init_table (suc left) i ht =
    let grown = record ht { size = 2 ^ i } in
    let rest = init_table left (i + 1) grown in
    if ltb ht.resize_target (2 ^ i) then ht else if ht.in_progress_destroy then grown else rest

-- The loop of fini_table, `left` orders from `i` on downwards.
unfoldable pub fini_table : (left i : ℕ) → Table → Table
fini_table zero i ht = ht
fini_table (suc left) i ht =
    let shrunk = record ht { size = 2 ^ (i - 1) } in
    let rest = fini_table left (i - 1) shrunk in
    if ltb (2 ^ (i - 1)) ht.resize_target
    then ht
    else if ht.in_progress_destroy
    then shrunk
    else rest

-- The calls have orders from one above the old one to the new one.
unfoldable pub _do_cds_lfht_grow : (old_size new_size : ℕ) → Table → Table
_do_cds_lfht_grow old_size new_size ht =
    let old_order = cds_lfht_get_count_order_ulong old_size in
    let new_order = cds_lfht_get_count_order_ulong new_size in
    init_table (new_order - old_order) (old_order + 1) ht

unfoldable pub _do_cds_lfht_shrink : (old_size new_size : ℕ) → Table → Table
_do_cds_lfht_shrink old_size new_size ht =
    let old_order = cds_lfht_get_count_order_ulong old_size in
    let new_order = cds_lfht_get_count_order_ulong (max new_size min_table_size) in
    fini_table (old_order - new_order) old_order ht

-- One turn of the loop of _do_cds_lfht_resize, and whether the loop ends.
unfoldable pub resize_turn : Table → Table × Bool
resize_turn ht =
    let begun = record ht { resize_initiated = true } in
    let moved =
      if ltb ht.size ht.resize_target
      then _do_cds_lfht_grow ht.size ht.resize_target begun
      else if ltb ht.resize_target ht.size
      then _do_cds_lfht_shrink ht.size ht.resize_target begun
      else begun in
    let cleared = record moved { resize_initiated = false; works = 0 } in
    if ht.in_progress_destroy then (ht, true) else (cleared, cleared.size == cleared.resize_target)

-- The loop of _do_cds_lfht_resize; none where the fuel ends before it.
unfoldable pub _do_cds_lfht_resize : (fuel : ℕ) → Table → Option Table
_do_cds_lfht_resize zero ht = none
_do_cds_lfht_resize (suc k) ht =
    let (turned, ends) = resize_turn ht in
    let rest = _do_cds_lfht_resize k turned in if ends then some turned else rest

-- As one thread runs it while no other changes the table.
unfoldable pub cds_lfht_resize : (fuel new_size : ℕ) → Table → Option Table
cds_lfht_resize fuel new_size ht =
    _do_cds_lfht_resize fuel
      (record (resize_target_update_count new_size ht) { resize_initiated = true })

-- The fields that a resize reads and leaves.
abbrev pub SameTarget : Table → Table → Type 0
SameTarget ht ht' =
    (ht'.resize_target ≡ ht.resize_target)
    × ((ht'.max_nr_buckets ≡ ht.max_nr_buckets)
        × (ht'.in_progress_destroy ≡ ht.in_progress_destroy))

init_table-SameTarget : (left i : ℕ) (ht : Table) → SameTarget ht (init_table left i ht)
unfolding init_table
init_table-SameTarget zero i ht = (refl, (refl, refl))
init_table-SameTarget (suc left) i ht =
    let same = init_table-SameTarget left (i + 1) (record ht { size = 2 ^ i }) in
    if_elim (SameTarget ht) (ltb ht.resize_target (2 ^ i)) (λ a. (refl, (refl, refl)))
      (λ a. if_elim (SameTarget ht) ht.in_progress_destroy (λ b. (refl, (refl, refl))) (λ b. same))

fini_table-SameTarget : (left i : ℕ) (ht : Table) → SameTarget ht (fini_table left i ht)
unfolding fini_table
fini_table-SameTarget zero i ht = (refl, (refl, refl))
fini_table-SameTarget (suc left) i ht =
    let same = fini_table-SameTarget left (i - 1) (record ht { size = 2 ^ (i - 1) }) in
    if_elim (SameTarget ht) (ltb (2 ^ (i - 1)) ht.resize_target) (λ a. (refl, (refl, refl)))
      (λ a. if_elim (SameTarget ht) ht.in_progress_destroy (λ b. (refl, (refl, refl))) (λ b. same))

pub moved-SameTarget :
    (ht : Table)
    → (let begun = record ht { resize_initiated = true } in
        SameTarget ht (
          if ltb ht.size ht.resize_target
          then _do_cds_lfht_grow ht.size ht.resize_target begun
          else if ltb ht.resize_target ht.size
          then _do_cds_lfht_shrink ht.size ht.resize_target begun
          else begun))
unfolding _do_cds_lfht_grow _do_cds_lfht_shrink
moved-SameTarget ht =
    let begun : Table = record ht { resize_initiated = true } in
    if_elim (SameTarget begun) (ltb ht.size ht.resize_target) (λ a. init_table-SameTarget _ _ begun)
      (λ a.
        if_elim (SameTarget begun) (ltb ht.resize_target ht.size)
          (λ b. fini_table-SameTarget _ _ begun) (λ b. (refl, (refl, refl))))

-- A turn leaves the target, and no work unless the table is being destroyed.
abbrev pub Turned : Table → Table → Type 0
Turned ht ht' = SameTarget ht ht' × ((ht' ≡ ht) ⊎ (ht'.works ≡ 0))

pub resize_turn-Turned : (ht : Table) → Turned ht (resize_turn ht).0
unfolding resize_turn _do_cds_lfht_grow _do_cds_lfht_shrink
resize_turn-Turned ht =
    if_elim (λ (r : Table × Bool). Turned ht r.0) ht.in_progress_destroy
      (λ d. ((refl, (refl, refl)), inl refl)) (λ d. (moved-SameTarget ht, inr refl))
