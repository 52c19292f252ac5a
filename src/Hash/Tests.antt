-- ===== src/Hash/Tests.antt =====
-- The arithmetic of the hash table at concrete words.
use liburcu.Prelude.{◌-◌, ◌*◌, ◌/◌, ◌%◌, ◌^◌, ◌≤◌, ◌<◌, ◌≡◌, ◌↔◌, arith, refl, word_mod, minus_one}
use liburcu.Hash.Reverse.{bit_reverse_ulong, bit_reverse_u64, bit_reverse_u8}
use liburcu.Hash.Reverse.Spec.{reverse_bits, bit_reverse_ulong_lem}
use liburcu.Hash.Reverse.Involution.{bit_reverse_ulong_twice}
use liburcu.Hash.Reverse.Buckets.{bucket_range}
use liburcu.Hash.Order.{fls_u64, cds_lfht_get_count_order_ulong, cds_lfht_get_count_order_u32}
use liburcu.Hash.Order.Laws.{count_order_least}

reversed_five : bit_reverse_ulong 5 ≡ 5 * 2 ^ 61
unfolding bit_reverse_ulong bit_reverse_u64 bit_reverse_u8
reversed_five = refl

order_of_zero : cds_lfht_get_count_order_ulong 0 ≡ minus_one
unfolding cds_lfht_get_count_order_ulong
order_of_zero = refl

order_of_five : cds_lfht_get_count_order_ulong 5 ≡ 3
unfolding cds_lfht_get_count_order_ulong fls_u64
order_of_five = refl

bit_reverse_ulong_lem_example : bit_reverse_ulong 6 ≡ reverse_bits 64 6
bit_reverse_ulong_lem_example = bit_reverse_ulong_lem 6

bit_reverse_ulong_twice_example :
    (bit_reverse_ulong (bit_reverse_ulong 12345) ≡ 12345) × (bit_reverse_ulong 12345 < word_mod)
bit_reverse_ulong_twice_example = bit_reverse_ulong_twice 12345 (omega arith)

bucket_range_example :
    (13 % 2 ^ 3 ≡ 5 % 2 ^ 3)
    ↔ (bit_reverse_ulong 13 / 2 ^ (64 - 3) ≡ bit_reverse_ulong 5 / 2 ^ (64 - 3))
bucket_range_example = bucket_range 3 13 5 (omega arith)

count_order_least_example : record {
  ulong :
      1000 ≤ 2 ^ 64
      → (1000 ≤ 2 ^ cds_lfht_get_count_order_ulong 1000)
        × (1000 ≤ 2 ^ 11 → cds_lfht_get_count_order_ulong 1000 ≤ 11);
  u32 :
      1000 ≤ 2 ^ 32
      → (1000 ≤ 2 ^ cds_lfht_get_count_order_u32 1000)
        × (1000 ≤ 2 ^ 11 → cds_lfht_get_count_order_u32 1000 ≤ 11);
}
count_order_least_example = count_order_least 1000 11 (omega arith)
