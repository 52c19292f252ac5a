-- ===== src/Hash/Tables.antt =====
-- src/rculfhash-mm-order.c and src/rculfhash-mm-chunk.c: where each bucket node stands, and how
-- long the arrays are that the allocation of each order makes. Sizes are powers of two, and
-- `& (size - 1)` is written `% size`.
pub mod Places
mod Tests
use liburcu.Prelude.{ℕ, ◌+◌, ◌-◌, ◌*◌, ◌/◌, ◌%◌, ◌^◌, ◌==◌, ltb, if◌then◌else◌}
use liburcu.Hash.Order.{fls_u64}

-- `m` is min_alloc_buckets_order, and 2 ^ m is min_nr_alloc_buckets.
-- How many nodes the allocation of an order gives tbl_order[order]: none where it makes no array.
unfoldable pub order_alloc : (m order : ℕ) → ℕ
order_alloc m order = if order == 0 then 2 ^ m else if ltb m order then 2 ^ (order - 1) else 0

-- The index into tbl_order, and the index into that array.
unfoldable pub order_bucket_at : (m index : ℕ) → ℕ × ℕ
order_bucket_at m index =
    let order = fls_u64 index in
    if ltb index (2 ^ m) then (0, index) else (order, index % 2 ^ (order - 1))

-- The chunks that the allocation of an order makes, each of 2 ^ m nodes: from the first one on,
-- up to the one behind.
unfoldable pub chunk_alloc : (m order : ℕ) → ℕ × ℕ
chunk_alloc m order =
    let len = 2 ^ (order - 1 - m) in
    if order == 0 then (0, 1) else if ltb m order then (len, 2 * len) else (0, 0)

-- The index into tbl_chunk, and the index into that chunk.
unfoldable pub chunk_bucket_at : (m index : ℕ) → ℕ × ℕ
chunk_bucket_at m index = (index / 2 ^ m, index % 2 ^ m)
