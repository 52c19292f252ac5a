-- ===== src/Hash/Update/Tests.antt =====
-- A deletion and an insertion in a sample table.
use liburcu.Prelude.{
  Distinct, ℕ, ◌+◌, ◌≡◌, ◌≢◌, refl, true, false, some, List, [], ◌∷◌, ◌==◌, if◌then◌else◌, has,
  arith,
}
use liburcu.Hash.Walk.{Nodes}
use liburcu.Hash.Walk.Chain.{Linked, Ascending}
use liburcu.Hash.Update.{_cds_lfht_del, ok, enoent}
use liburcu.Hash.Update.Gc.{removed}
use liburcu.Hash.Update.Del.{del_unlinks}
use liburcu.Hash.Update.Add.{Added, _cds_lfht_add}
use liburcu.Hash.Update.Add.Sorted.{add_sorts}

-- The bucket node 1, then the nodes 2 to 5, of which 3 is removed. Node 6 is not in the list.
abbrev pub sample : Nodes
sample = record {
  next = λ n. record {
    to = if n == 5 then 0 else n + 1;
    removed = n == 3;
    bucket = n == 1;
    removal_owner = false;
  };
  reverse_hash = λ n. if n == 1 then 0 else if n == 5 then 6 else 4;
}

abbrev pub nodes : List ℕ
nodes = 2 ∷ 3 ∷ 4 ∷ 5 ∷ []

nodes-Linked : Linked sample 2 nodes
nodes-Linked = (
  refl,
  (
    λ e. ground arith,
    (refl, (λ e. ground arith, (refl, (λ e. ground arith, (refl, (λ e. ground arith, refl)))))),
  ),
)

nodes-Distinct : Distinct (1 ∷ nodes)
nodes-Distinct = (refl, (refl, (refl, (refl, (refl, tt)))))

nodes-Ascending : Ascending sample 0 nodes
nodes-Ascending = (omega arith, (omega arith, (omega arith, (omega arith, tt))))

del_unlinks_example :
    (u : Nodes) × ((_cds_lfht_del 5 sample 1 4 ≡ some (u, ok))
      × ((_cds_lfht_del 5 u 1 4 ≡ some (u, enoent))
          × ((ys : List ℕ) × (Linked u (u.next 1).to ys
                × ((has 4 ys ≡ false)
                    × ((y : ℕ) → y ≢ 4 → removed sample y ≡ false → has y ys ≡ has y nodes))))))
del_unlinks_example =
    del_unlinks 5 sample 1 4 0 nodes nodes-Linked nodes-Distinct nodes-Ascending refl refl
      (λ e. ground arith) refl refl (λ y k. refl) (omega arith) (omega arith)

add_sorts_example :
    (r : Added) × ((_cds_lfht_add 5 5 sample false false (λ n. false) 1 6 ≡ some r)
      × ((ys : List ℕ) × (Linked r.nodes (r.nodes.next 1).to ys
            × (Ascending r.nodes 0 ys
                × ((has 6 ys ≡ true)
                    × (((y : ℕ) → y ≢ 6 → removed sample y ≡ false → has y ys ≡ has y nodes)
                        × (((r.nodes.next 6).removed ≡ false)
                            × ((y : ℕ)
                                → y ≢ 6
                                → (r.nodes.next y).removed ≡ (sample.next y).removed))))))))
add_sorts_example =
    add_sorts 5 5 sample (λ n. false) 1 6 0 nodes nodes-Linked nodes-Distinct nodes-Ascending
      (omega arith) refl (λ e. ground arith) refl (omega arith) (omega arith)
