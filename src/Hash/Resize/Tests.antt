-- ===== src/Hash/Resize/Tests.antt =====
-- Counts and resizes of one table.
use liburcu.Prelude.{ℕ, suc, ◌≤◌, ◌≢◌, ◌^◌, ◌≡◌, refl, true, false, none, some, [], ◌∷◌, arith}
use liburcu.Hash.Resize.Pass.{cds_lfht_resize}
use liburcu.Hash.Resize.Ends.{resized, cds_lfht_resize_ends}
use liburcu.Hash.Resize.{
  min, max, min_table_size, Table, cds_lfht_resize_lazy_count, cds_lfht_resize_lazy_grow,
  check_resize, growth_of, resize_target_grow, _uatomic_xchg_monotonic_increase,
  __cds_lfht_resize_lazy_launch,
}
use liburcu.Hash.Order.{cds_lfht_get_count_order_u32, fls_u32}
use liburcu.Hash.Resize.Target.{Keeps, cds_lfht_resize_lazy_count-Keeps}
use liburcu.Hash.Resize.Bounds.{
  added, deleted, chain, asked, turn, apply_all, InBounds, apply_all-InBounds,
}

-- One bucket, with a count of 2 ^ 10 for each of 16 processors to come.
abbrev pub table : Table
table = record {
  size = 1;
  max_nr_buckets = 1024;
  auto_resize = true;
  accounting = true;
  in_progress_destroy = false;
  resize_initiated = false;
  resize_target = 1;
  count = 0;
  split_add = λ i. 1023;
  split_del = λ i. 0;
  split_count_mask = 15;
  split_count_order = 4;
  works = 0;
}

-- A chain of five nodes asks for eight buckets.
grown : (check_resize true 1 5 table).resize_target ≡ 8
unfolding check_resize growth_of cds_lfht_resize_lazy_grow resize_target_grow
    _uatomic_xchg_monotonic_increase __cds_lfht_resize_lazy_launch cds_lfht_get_count_order_u32
    fls_u32
grown = refl

cds_lfht_resize_lazy_count-Keeps_example :
    Keeps true 512 table (cds_lfht_resize_lazy_count true 1 512 table)
cds_lfht_resize_lazy_count-Keeps_example = cds_lfht_resize_lazy_count-Keeps true 1 512 table

table-InBounds : InBounds table
table-InBounds = record { above = omega arith; below = omega arith; alone = omega arith }

apply_all-InBounds_example : InBounds (
    apply_all
      (added true (some 3) 1 77 ∷ chain true 1 5 ∷ deleted false none 8 5 ∷ asked 4096 ∷ turn ∷ [])
      table)
apply_all-InBounds_example =
    apply_all-InBounds
      (added true (some 3) 1 77 ∷ chain true 1 5 ∷ deleted false none 8 5 ∷ asked 4096 ∷ turn ∷ [])
      table table-InBounds

cds_lfht_resize_ends_example : record {
  ends :
      (k : ℕ)
      → k ≤ 63
      → min (max 512 min_table_size) 1024 ≡ 2 ^ k
      → cds_lfht_resize (suc 0) 512 table ≡ some (resized k table);
  never :
      ((k : ℕ) → min (max 512 min_table_size) 1024 ≢ 2 ^ k) → cds_lfht_resize 0 512 table ≡ none;
}
cds_lfht_resize_ends_example = cds_lfht_resize_ends table 0 512 0 (omega arith) refl refl

-- A resize to 512 buckets.
to_512 : cds_lfht_resize 1 512 table ≡ some (resized 9 table)
to_512 = (cds_lfht_resize_ends table 0 512 0 (omega arith) refl refl).ends 9 (omega arith) refl
