-- ===== src/Hash/Tables/Tests.antt =====
-- Places of a bucket.
use liburcu.Prelude.{ℕ, ◌+◌, ◌*◌, ◌^◌, ◌<◌, ◌≤◌, ◌≡◌, refl, arith}
use liburcu.Hash.Order.{fls_u64}
use liburcu.Hash.Tables.{order_alloc, order_bucket_at, chunk_alloc, chunk_bucket_at}
use liburcu.Hash.Tables.Places.{base_of, order_bucket_at_place, chunk_bucket_at_place}

twenty : order_bucket_at 3 20 ≡ (5, 4)
unfolding order_bucket_at fls_u64
twenty = refl

order_bucket_at_place_example :
    (((order_bucket_at 3 20).0 ≤ 6)
      × ((order_bucket_at 3 20).1 < order_alloc 3 (order_bucket_at 3 20).0))
    × (base_of (order_bucket_at 3 20).0 + (order_bucket_at 3 20).1 ≡ 20)
order_bucket_at_place_example =
    order_bucket_at_place 3 6 20 (omega arith) (omega arith) (omega arith)

chunk_bucket_at_place_example :
    ((order : ℕ) × ((order ≤ 6)
        × (((chunk_alloc 3 order).0 ≤ (chunk_bucket_at 3 20).0)
            × ((chunk_bucket_at 3 20).0 < (chunk_alloc 3 order).1))))
    × (((chunk_bucket_at 3 20).1 < 2 ^ 3)
        × (2 ^ 3 * (chunk_bucket_at 3 20).0 + (chunk_bucket_at 3 20).1 ≡ 20))
chunk_bucket_at_place_example =
    chunk_bucket_at_place 3 6 20 (omega arith) (omega arith) (omega arith)
