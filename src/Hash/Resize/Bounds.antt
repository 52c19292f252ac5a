-- ===== src/Hash/Resize/Bounds.antt =====
-- src/rculfhash.c: the bounds of `resize_target`, over any calls.

use liburcu.Prelude.{
  ℕ, ◌+◌, ◌*◌, ◌%◌, ◌^◌, ◌≤◌, ◌≡◌, refl, Bool, true, false, not, Option, List, [], ◌∷◌, ◌==◌, ltb,
  leb, if◌then◌else◌, word_mod, word_add, word_sub, update, inl, inr, arith,
}
use liburcu.Hash.Resize.{
  Table, min, max, resize_target_update_count, cds_lfht_resize_lazy_grow,
  cds_lfht_resize_lazy_count, ht_count_add, ht_count_del, check_resize, growth_of,
  ht_get_split_count_index, is_power_or_zero, shift_right, count_commit_order,
  chain_len_resize_threshold,
}
use liburcu.Hash.Resize.Pass.{resize_turn, resize_turn-Turned}
use mathlib.Core.Path.{sym, subst}
use liburcu.Hash.Resize.Target.{
  Keeps, target_for, cds_lfht_resize_lazy_grow-Keeps, cds_lfht_resize_lazy_count-Keeps,
}

-- The calls that set the target, and the turns of the resizes that serve it.
pub data Call : Type 0 where
  added : (memory : Bool) (cpu : Option ℕ) (size hash : ℕ) → Call  -- ht_count_add
  deleted : (memory : Bool) (cpu : Option ℕ) (size hash : ℕ) → Call  -- ht_count_del
  chain : (memory : Bool) (size chain_len : ℕ) → Call  -- check_resize
  asked : (new_size : ℕ) → Call  -- cds_lfht_resize, up to its lock
  turn : Call  -- a turn of _do_cds_lfht_resize, in cds_lfht_resize or in do_resize_cb

unfoldable pub apply : Call → Table → Table
apply (added memory cpu size hash) ht = ht_count_add memory cpu size hash ht
apply (deleted memory cpu size hash) ht = ht_count_del memory cpu size hash ht
apply (chain memory size chain_len) ht = check_resize memory size chain_len ht
apply (asked new_size) ht = record (resize_target_update_count new_size ht) {
  resize_initiated = true;
}
apply turn ht = (resize_turn ht).0

unfoldable pub apply_all : List Call → Table → Table
apply_all [] ht = ht
apply_all (c ∷ cs) ht = apply_all cs (apply c ht)

-- The target is a size that the table may have, and no work follows another before
-- resize_initiated is cleared.
pub record InBounds (ht : Table) : Type 0 where
  pub above : 1 ≤ ht.resize_target
  pub below : ht.resize_target ≤ ht.max_nr_buckets
  pub alone : ht.works ≤ (if ht.resize_initiated then 1 else 0)

Keeps-InBounds :
    (memory : Bool) (target : ℕ) (ht ht' : Table)
    → Keeps memory target ht ht'
    → InBounds ht
    → 1 ≤ target
    → target ≤ ht.max_nr_buckets
    → InBounds ht'
Keeps-InBounds memory target ht ht' k b lo hi = record {
  above = ground (arith, k.target_is);
  below = ground (arith, k.target_is, k.max_is);
  alone = ground (arith, k.works_is, k.initiated_is, b.alone);
}

InBounds-either : {u v : Table} (b : Bool) → InBounds u → InBounds v → InBounds (if b then u else v)
InBounds-either true p q = p
InBounds-either false p q = q

-- Fields that InBounds does not read may change.
counted :
    (ht ht' : Table)
    → InBounds ht
    → ht'.resize_target ≡ ht.resize_target
    → ht'.max_nr_buckets ≡ ht.max_nr_buckets
    → ht'.works ≡ ht.works
    → ht'.resize_initiated ≡ ht.resize_initiated
    → InBounds ht'
counted ht ht' b e f g h = record {
  above = ground (arith, b.above);
  below = ground (arith, b.below);
  alone = rw (g, h) b.alone;
}

lazy_count-InBounds :
    (memory : Bool) (size count : ℕ) (ht : Table)
    → InBounds ht
    → InBounds (cds_lfht_resize_lazy_count memory size count ht)
lazy_count-InBounds memory size count ht b =
    Keeps-InBounds memory (target_for size count ht) ht
      (cds_lfht_resize_lazy_count memory size count ht)
      (cds_lfht_resize_lazy_count-Keeps memory size count ht) b (ground (arith, b.above, b.below))
      (ground (arith, b.above, b.below))

lazy_grow-InBounds :
    (memory : Bool) (size growth : ℕ) (ht : Table)
    → InBounds ht
    → InBounds (cds_lfht_resize_lazy_grow memory size growth ht)
lazy_grow-InBounds memory size growth ht b =
    let v = size * 2 ^ growth % word_mod in
    Keeps-InBounds memory (max ht.resize_target (min v ht.max_nr_buckets)) ht
      (cds_lfht_resize_lazy_grow memory size growth ht)
      (cds_lfht_resize_lazy_grow-Keeps memory size growth ht) b
      (grown_above v ht.resize_target ht.max_nr_buckets b.above)
      (grown_below v ht.resize_target ht.max_nr_buckets b.below)
  where
    grown_above : (v t m : ℕ) → 1 ≤ t → 1 ≤ max t (min v m)
    grown_above v t m h = ground arith

    grown_below : (v t m : ℕ) → t ≤ m → max t (min v m) ≤ m
    grown_below v t m h = ground arith

ht_count_add-InBounds :
    (memory : Bool) (cpu : Option ℕ) (size hash : ℕ) (ht : Table)
    → InBounds ht
    → InBounds (ht_count_add memory cpu size hash ht)
unfolding ht_count_add
ht_count_add-InBounds memory cpu size hash ht b =
    let index = ht_get_split_count_index cpu hash ht in
    let split = word_add (ht.split_add index) 1 in
    let one : Table = record ht { split_add = update ht.split_add index split } in
    let count = word_add ht.count (2 ^ count_commit_order) in
    let all : Table = record one { count = count } in
    let one_b : InBounds one = counted ht one b refl refl refl refl in
    let all_b : InBounds all = counted ht all b refl refl refl refl in
    InBounds-either (not ht.accounting) b (
      InBounds-either (not (split % 2 ^ count_commit_order == 0)) one_b (
        InBounds-either (not (is_power_or_zero count)) all_b (
          InBounds-either (ltb (shift_right count chain_len_resize_threshold) size) all_b
            (lazy_count-InBounds memory size count all all_b))))

ht_count_del-InBounds :
    (memory : Bool) (cpu : Option ℕ) (size hash : ℕ) (ht : Table)
    → InBounds ht
    → InBounds (ht_count_del memory cpu size hash ht)
unfolding ht_count_del
ht_count_del-InBounds memory cpu size hash ht b =
    let index = ht_get_split_count_index cpu hash ht in
    let split = word_add (ht.split_del index) 1 in
    let one : Table = record ht { split_del = update ht.split_del index split } in
    let count = word_sub ht.count (2 ^ count_commit_order) in
    let all : Table = record one { count = count } in
    let one_b : InBounds one = counted ht one b refl refl refl refl in
    let all_b : InBounds all = counted ht all b refl refl refl refl in
    InBounds-either (not ht.accounting) b (
      InBounds-either (not (split % 2 ^ count_commit_order == 0)) one_b (
        InBounds-either (not (is_power_or_zero count)) all_b (
          InBounds-either (leb size (shift_right count chain_len_resize_threshold)) all_b (
            InBounds-either (ltb count (2 ^ count_commit_order * (ht.split_count_mask + 1))) all_b
              (lazy_count-InBounds memory size count all all_b)))))

check_resize-InBounds :
    (memory : Bool) (size chain_len : ℕ) (ht : Table)
    → InBounds ht
    → InBounds (check_resize memory size chain_len ht)
unfolding check_resize
check_resize-InBounds memory size chain_len ht b =
    let growth = growth_of size chain_len ht in
    InBounds-either (not ht.auto_resize) b (
      InBounds-either (leb (2 ^ (count_commit_order + ht.split_count_order)) ht.count) b (
        InBounds-either (ltb chain_len chain_len_resize_threshold) b
          (InBounds-either (growth == 0) b (lazy_grow-InBounds memory size growth ht b))))

apply-InBounds : (c : Call) (ht : Table) → InBounds ht → InBounds (apply c ht)
unfolding apply resize_target_update_count
apply-InBounds (added memory cpu size hash) ht b = ht_count_add-InBounds memory cpu size hash ht b
apply-InBounds (deleted memory cpu size hash) ht b = ht_count_del-InBounds memory cpu size hash ht b
apply-InBounds (chain memory size chain_len) ht b = check_resize-InBounds memory size chain_len ht b
apply-InBounds (asked new_size) ht b = record {
  above = ground (arith, b.above, b.below);
  below = ground (arith, b.above, b.below);
  alone = ground (arith, b.alone);
}
apply-InBounds turn ht b =
    let ((target, (most, destroy)), either) = resize_turn-Turned ht in
    elim either [
      | inl same ↦ subst InBounds (sym same) b
      | inr none_queued ↦ record {
        above = rw target b.above;
        below = rw (target, most) b.below;
        alone = rw none_queued (omega arith);
      }
    ]

-- From a table whose target lies between one and its maximum, with no work queued unless a resize
-- has been initiated: after any sequence of counts of added and deleted nodes, chain lengths,
-- resizes asked for, and turns of the resizes that serve them, with any sizes, hashes, processors
-- and failures of malloc, the target lies between one and the maximum, and at most one work has
-- been queued since a resize last cleared resize_initiated, none if that is clear.
pub apply_all-InBounds : (cs : List Call) (ht : Table) → InBounds ht → InBounds (apply_all cs ht)
unfolding apply_all
apply_all-InBounds [] ht b = b
apply_all-InBounds (c ∷ cs) ht b = apply_all-InBounds cs (apply c ht) (apply-InBounds c ht b)
