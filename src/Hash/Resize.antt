-- ===== src/Hash/Resize.antt =====
-- src/rculfhash.c: the counts of nodes, and when they ask for a resize. One thread runs at a time.
pub mod Target
pub mod Pass
pub mod Ends
pub mod Bounds
mod Tests
use Prim.Native.Nat.{bit_and}
use liburcu.Prelude.{
  ℕ, zero, suc, ◌+◌, ◌-◌, ◌*◌, ◌/◌, ◌%◌, ◌^◌, Bool, true, false, not, ◌&&◌, ◌||◌, Option, none,
  some, List, [], ◌∷◌, ◌==◌, ltb, leb, if◌then◌else◌, update, word_mod, word_add, word_sub,
}
use liburcu.Hash.Order.{cds_lfht_get_count_order_u32, cds_lfht_get_count_order_ulong}

abbrev pub count_commit_order : ℕ
count_commit_order = 10

abbrev pub chain_len_resize_threshold : ℕ
chain_len_resize_threshold = 3

abbrev pub min_table_size : ℕ
min_table_size = 1

-- The fields of `struct cds_lfht` that the resize reads, with the two static split counts.
pub record Table : Type 0 where
  pub size : ℕ
  pub max_nr_buckets : ℕ
  pub auto_resize : Bool  -- flags & CDS_LFHT_AUTO_RESIZE
  pub accounting : Bool  -- flags & CDS_LFHT_ACCOUNTING; then split_count is allocated
  pub in_progress_destroy : Bool
  pub resize_initiated : Bool
  pub resize_target : ℕ
  pub count : ℕ  -- a `long` as its bit pattern
  pub split_add : ℕ → ℕ
  pub split_del : ℕ → ℕ
  pub split_count_mask : ℕ
  pub split_count_order : ℕ
  -- The calls of urcu_workqueue_queue_work since resize_initiated was last cleared, which no code
  -- reads.
  pub works : ℕ

abbrev pub min : ℕ → ℕ → ℕ
min a b = if ltb a b then a else b

abbrev pub max : ℕ → ℕ → ℕ
max a b = if ltb b a then a else b

-- What a field holds after the call, and what the call returns.
unfoldable pub _uatomic_xchg_monotonic_increase : ℕ → ℕ → ℕ × ℕ
_uatomic_xchg_monotonic_increase old v = if leb v old then (old, old) else (v, old)

unfoldable pub resize_target_grow : ℕ → Table → Table × ℕ
resize_target_grow new_size ht =
    let (target, old) = _uatomic_xchg_monotonic_increase ht.resize_target new_size in
    (record ht { resize_target = target }, old)

unfoldable pub resize_target_update_count : ℕ → Table → Table
resize_target_update_count count ht = record ht {
  resize_target = min (max count min_table_size) ht.max_nr_buckets;
}

-- `memory` is whether malloc gives some.
unfoldable pub __cds_lfht_resize_lazy_launch : (memory : Bool) → Table → Table
__cds_lfht_resize_lazy_launch memory ht =
    if ht.resize_initiated || (ht.in_progress_destroy || not memory)
    then ht
    else record ht { works = ht.works + 1; resize_initiated = true }

unfoldable pub cds_lfht_resize_lazy_grow : (memory : Bool) → (size growth : ℕ) → Table → Table
cds_lfht_resize_lazy_grow memory size growth ht =
    let target_size = min (size * 2 ^ growth % word_mod) ht.max_nr_buckets in
    let (grown, old) = resize_target_grow target_size ht in
    if leb target_size old then grown else __cds_lfht_resize_lazy_launch memory grown

-- The loop of the lazy shrink: whether it goes on to the launch. Its cmpxchg returns the target;
-- after a failure it tries once more with what it read.
unfoldable pub shrink_loop : ℕ → (size count : ℕ) → Table → Option (Table × Bool)
shrink_loop zero size count ht = none
shrink_loop (suc k) size count ht =
    let s = ht.resize_target in
    let rest = shrink_loop k s count ht in
    if s == size
    then some (record ht { resize_target = count }, true)
    else if ltb size s
    then some (ht, false)
    else if leb s count
    then some (ht, false)
    else rest

unfoldable pub cds_lfht_resize_lazy_count : (memory : Bool) → (size count : ℕ) → Table → Table
cds_lfht_resize_lazy_count memory size count ht =
    let wanted = min (max count min_table_size) ht.max_nr_buckets in
    let (grown, old) = resize_target_grow wanted ht in
    if not ht.auto_resize
    then ht
    else if wanted == size
    then ht
    else if ltb size wanted
    then (if leb wanted old then grown else __cds_lfht_resize_lazy_launch memory grown)
    else elim (shrink_loop 2 size wanted ht) [
      | none ↦ ht
      | some r ↦ if r.1 then __cds_lfht_resize_lazy_launch memory r.0 else r.0
    ]

-- `cpu` is what urcu_sched_getcpu gives: none where it fails.
unfoldable pub ht_get_split_count_index : Option ℕ → (hash : ℕ) → Table → ℕ
ht_get_split_count_index none hash ht = bit_and hash ht.split_count_mask
ht_get_split_count_index (some cpu) hash ht = bit_and cpu ht.split_count_mask

-- `>>` of a long.
abbrev pub shift_right : ℕ → ℕ → ℕ
shift_right c k = if ltb c (2 ^ 63) then c / 2 ^ k else c / 2 ^ k + (word_mod - 2 ^ (64 - k))

-- `!(count & (count - 1))`
abbrev pub is_power_or_zero : ℕ → Bool
is_power_or_zero c = bit_and c (word_sub c 1) == 0

unfoldable pub ht_count_add : (memory : Bool) → Option ℕ → (size hash : ℕ) → Table → Table
ht_count_add memory cpu size hash ht =
    let index = ht_get_split_count_index cpu hash ht in
    let split = word_add (ht.split_add index) 1 in
    let one = record ht { split_add = update ht.split_add index split } in
    let count = word_add ht.count (2 ^ count_commit_order) in
    let all = record one { count = count } in
    let resized = cds_lfht_resize_lazy_count memory size count all in
    if not ht.accounting
    then ht
    else if not (split % 2 ^ count_commit_order == 0)
    then one
    else if not (is_power_or_zero count)
    then all
    else if ltb (shift_right count chain_len_resize_threshold) size
    then all
    else resized

unfoldable pub ht_count_del : (memory : Bool) → Option ℕ → (size hash : ℕ) → Table → Table
ht_count_del memory cpu size hash ht =
    let index = ht_get_split_count_index cpu hash ht in
    let split = word_add (ht.split_del index) 1 in
    let one = record ht { split_del = update ht.split_del index split } in
    let count = word_sub ht.count (2 ^ count_commit_order) in
    let all = record one { count = count } in
    let resized = cds_lfht_resize_lazy_count memory size count all in
    if not ht.accounting
    then ht
    else if not (split % 2 ^ count_commit_order == 0)
    then one
    else if not (is_power_or_zero count)
    then all
    else if leb size (shift_right count chain_len_resize_threshold)
    then all
    else if ltb count (2 ^ count_commit_order * (ht.split_count_mask + 1))
    then all
    else resized

-- The growth for a chain: CHAIN_LEN_TARGET is 1. Zero stands for what is not positive.
unfoldable pub growth_of : (size chain_len : ℕ) → Table → ℕ
growth_of size chain_len ht =
    let growth = cds_lfht_get_count_order_u32 chain_len in
    if ht.accounting
      && leb (2 ^ (count_commit_order + ht.split_count_order)) (size * 2 ^ growth % word_mod)
    then count_commit_order + ht.split_count_order - cds_lfht_get_count_order_ulong size
    else growth

unfoldable pub check_resize : (memory : Bool) → (size chain_len : ℕ) → Table → Table
check_resize memory size chain_len ht =
    let growth = growth_of size chain_len ht in
    let resized = cds_lfht_resize_lazy_grow memory size growth ht in
    if not ht.auto_resize
    then ht
    else if leb (2 ^ (count_commit_order + ht.split_count_order)) ht.count
    then ht
    else if ltb chain_len chain_len_resize_threshold
    then ht
    else if growth == 0
    then ht
    else resized
