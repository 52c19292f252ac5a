-- ===== src/Hash/Walk/Tests.antt =====
-- The loops over a small table.
use liburcu.Prelude.{◌+◌, ◌≡◌, refl, true, false, some, [], ◌∷◌, ◌==◌, if◌then◌else◌, arith}
use liburcu.Hash.Walk.{
  Nodes, walk, for_each, cds_lfht_lookup, cds_lfht_next_duplicate, cds_lfht_for_each_duplicate,
  cds_lfht_for_each,
}
use liburcu.Hash.Walk.Chain.{keep}
use liburcu.Hash.Walk.Visits.{for_each_duplicate_visits, for_each_visits, matching}

-- The bucket node 1, then the nodes 2 to 5, of which 3 is removed.
abbrev pub small : Nodes
small = record {
  next = λ n. record {
    to = if n == 5 then 0 else n + 1;
    removed = n == 3;
    bucket = n == 1;
    removal_owner = false;
  };
  reverse_hash = λ n. if n == 1 then 0 else if n == 5 then 6 else 4;
}

visited : cds_lfht_for_each_duplicate 5 small 1 4 (λ n. true) ≡ some (2 ∷ 4 ∷ [])
unfolding cds_lfht_for_each_duplicate cds_lfht_lookup cds_lfht_next_duplicate walk for_each
visited = refl

for_each_duplicate_visits_example :
    cds_lfht_for_each_duplicate 5 small 1 4 (λ n. true)
    ≡ some (keep (matching small 4 (λ n. true)) (2 ∷ 3 ∷ 4 ∷ 5 ∷ []))
for_each_duplicate_visits_example =
    for_each_duplicate_visits 5 small 1 4 0 (λ n. true) (2 ∷ 3 ∷ 4 ∷ 5 ∷ [])
      (
        refl,
        (
          λ e. ground arith,
          (
            refl,
            (λ e. ground arith, (refl, (λ e. ground arith, (refl, (λ e. ground arith, refl))))),
          ),
        ),
      )
      (omega arith, (omega arith, (omega arith, (omega arith, tt)))) (omega arith)

for_each_visits_example : cds_lfht_for_each 5 small 1 ≡ some (2 ∷ 4 ∷ 5 ∷ [])
for_each_visits_example =
    for_each_visits 5 small 1 (2 ∷ 3 ∷ 4 ∷ 5 ∷ [])
      (
        refl,
        (
          λ e. ground arith,
          (
            refl,
            (λ e. ground arith, (refl, (λ e. ground arith, (refl, (λ e. ground arith, refl))))),
          ),
        ),
      )
      (omega arith)
