-- ===== src/Hash/Resize/Ends.antt =====
-- src/rculfhash.c, `cds_lfht_resize`: when it ends, and at which size.
use mathlib.Core.Path.{sym, ◌∙◌}
use liburcu.Prelude.{
  ℕ, zero, suc, ◌+◌, ◌-◌, ◌^◌, ◌≡◌, ◌≢◌, ◌<◌, ◌≤◌, refl, ap, Bool, Bool-cases, true, false, none,
  pow_pos, pow_mono, some, if_elim, inl, inr, ltb, ◌==◌, if◌then◌else◌, arith,
}
use liburcu.Hash.Order.{cds_lfht_get_count_order_ulong}
use native.Mathlib.Nat.{pow-suc}
use native.Mathlib.Decide.{dec_lt}
use liburcu.Hash.Order.Laws.{count_order_least}
use liburcu.Hash.Resize.{Table, min, max, min_table_size, resize_target_update_count}
use liburcu.Hash.Resize.Pass.{
  init_table, fini_table, _do_cds_lfht_grow, _do_cds_lfht_shrink, resize_turn, _do_cds_lfht_resize,
  resize_turn-Turned, moved-SameTarget, cds_lfht_resize,
}

abbrev IsPower : ℕ → Type 0
IsPower x = (j : ℕ) × (x ≡ 2 ^ j)

init_table-IsPower :
    (left i : ℕ) (ht : Table) → IsPower ht.size → IsPower (init_table left i ht).size
unfolding init_table
init_table-IsPower zero i ht p = p
init_table-IsPower (suc left) i ht p =
    let rest = init_table-IsPower left (i + 1) (record ht { size = 2 ^ i }) (i, refl) in
    if_elim (λ (t : Table). IsPower t.size) (ltb ht.resize_target (2 ^ i)) (λ a. p)
      (λ a.
        if_elim (λ (t : Table). IsPower t.size) ht.in_progress_destroy (λ b. (i, refl)) (λ b. rest))

fini_table-IsPower :
    (left i : ℕ) (ht : Table) → IsPower ht.size → IsPower (fini_table left i ht).size
unfolding fini_table
fini_table-IsPower zero i ht p = p
fini_table-IsPower (suc left) i ht p =
    let rest = fini_table-IsPower left (i - 1) (record ht { size = 2 ^ (i - 1) }) (i - 1, refl) in
    if_elim (λ (t : Table). IsPower t.size) (ltb (2 ^ (i - 1)) ht.resize_target) (λ a. p)
      (λ a.
        if_elim (λ (t : Table). IsPower t.size) ht.in_progress_destroy (λ b. (i - 1, refl))
          (λ b. rest))

-- A turn for a target that is no power of two.
turn_stays :
    (ht : Table)
    → IsPower ht.size
    → ht.in_progress_destroy ≡ false
    → ((k : ℕ) → ht.resize_target ≢ 2 ^ k)
    → ((resize_turn ht).1 ≡ false) × IsPower (resize_turn ht).0.size
unfolding resize_turn _do_cds_lfht_grow _do_cds_lfht_shrink
turn_stays ht p d odd =
    let begun : Table = record ht { resize_initiated = true } in
    let moved : Table =
      if ltb ht.size ht.resize_target
      then _do_cds_lfht_grow ht.size ht.resize_target begun
      else if ltb ht.resize_target ht.size
      then _do_cds_lfht_shrink ht.size ht.resize_target begun
      else begun in
    let power : IsPower moved.size =
      if_elim (λ (t : Table). IsPower t.size) (ltb ht.size ht.resize_target)
        (λ a. init_table-IsPower _ _ begun p)
        (λ a.
          if_elim (λ (t : Table). IsPower t.size) (ltb ht.resize_target ht.size)
            (λ b. fini_table-IsPower _ _ begun p) (λ b. p)) in
    let (target, rest) = moved-SameTarget ht in
    if_elim (λ (r : Table × Bool). (r.1 ≡ false) × IsPower r.0.size) ht.in_progress_destroy
      (λ e. absurd (ground arith)) (λ e. (apart moved.size moved.resize_target power target, power))
  where
    apart : (x y : ℕ) → IsPower x → y ≡ ht.resize_target → (x == y) ≡ false
    apart x y (j, f) g = elim (Bool-cases (x == y)) [
      | inl k ↦ let same : x ≡ y = ground arith in absurd (odd j (sym g ∙ sym same ∙ f))
      | inr k ↦ k
    ]

never_ends :
    (fuel : ℕ) (ht : Table)
    → IsPower ht.size
    → ht.in_progress_destroy ≡ false
    → ((k : ℕ) → ht.resize_target ≢ 2 ^ k)
    → _do_cds_lfht_resize fuel ht ≡ none
unfolding _do_cds_lfht_resize
never_ends zero ht p d odd = refl
never_ends (suc k) ht p d odd =
    let (on, p') = turn_stays ht p d odd in
    let ((target, (most, destroy)), either) = resize_turn-Turned ht in
    let rest = never_ends k (resize_turn ht).0 p' (destroy ∙ d) (λ m e. odd m (sym target ∙ e)) in
    rw on rest

order_of_power : (k : ℕ) → k ≤ 63 → cds_lfht_get_count_order_ulong (2 ^ k) ≡ k
order_of_power k h =
    let (above, least) =
      (count_order_least (2 ^ k) k (pow_pos k)).ulong (pow_mono k 64 (omega arith)) in
    elim (dec_lt (cds_lfht_get_count_order_ulong (2 ^ k)) k) [
      | yes lt ↦
          let o = cds_lfht_get_count_order_ulong (2 ^ k) in
          let twice : 2 ^ suc o ≤ 2 ^ k = pow_mono (suc o) k (omega arith) in
          absurd (omega (arith, above, pow_pos o, simp pow-suc at twice))
      | no ge ↦ let below = least (omega arith) in omega arith
    ]

-- The loops reach the size of the target.
grows_to :
    (left i k : ℕ) (ht : Table)
    → i + left ≡ k
    → ht.in_progress_destroy ≡ false
    → ht.resize_target ≡ 2 ^ k
    → init_table left (i + 1) (record ht { size = 2 ^ i }) ≡ record ht { size = 2 ^ k }
unfolding init_table
grows_to zero i k ht e d t = ap (λ (n : ℕ). record ht { size = 2 ^ n }) (omega arith)
grows_to (suc left) i k ht e d t =
    let higher = pow_mono (i + 1) k (omega arith) in
    let reached : Table = record ht { size = 2 ^ k } in
    if_elim (λ (r : Table). r ≡ reached) (ltb ht.resize_target (2 ^ (i + 1)))
      (λ a. absurd (ground arith))
      (λ a.
        if_elim (λ (r : Table). r ≡ reached) ht.in_progress_destroy (λ b. absurd (ground arith))
          (λ b. grows_to left (i + 1) k ht (omega arith) d t))

shrinks_to :
    (left i k : ℕ) (ht : Table)
    → k + left ≡ i
    → ht.in_progress_destroy ≡ false
    → ht.resize_target ≡ 2 ^ k
    → fini_table left i (record ht { size = 2 ^ i }) ≡ record ht { size = 2 ^ k }
unfolding fini_table
shrinks_to zero i k ht e d t = ap (λ (n : ℕ). record ht { size = 2 ^ n }) (omega arith)
shrinks_to (suc left) i k ht e d t =
    let higher = pow_mono k (i - 1) (omega arith) in
    let reached : Table = record ht { size = 2 ^ k } in
    if_elim (λ (r : Table). r ≡ reached) (ltb (2 ^ (i - 1)) ht.resize_target)
      (λ a. absurd (ground arith))
      (λ a.
        if_elim (λ (r : Table). r ≡ reached) ht.in_progress_destroy (λ b. absurd (ground arith))
          (λ b. shrinks_to left (i - 1) k ht (omega arith) d t))

-- The table behind a resize to a power of two.
abbrev pub resized : ℕ → Table → Table
resized k ht = record ht {
  size = 2 ^ k;
  resize_target = 2 ^ k;
  resize_initiated = false;
  works = 0;
}

exponent_lt : (j k : ℕ) → 2 ^ j < 2 ^ k → j < k
exponent_lt j k h = elim (dec_lt j k) [
  | yes lt ↦ lt
  | no ge ↦ absurd (omega (arith, pow_mono k j (omega arith)))
]

module _ (ht : Table) (j k : ℕ) (j_fits : j ≤ 63) (k_fits : k ≤ 63) (size_is : ht.size ≡ 2 ^ j)
    (target_is : ht.resize_target ≡ 2 ^ k) (alive : ht.in_progress_destroy ≡ false) where
  grow_lands : j < k → _do_cds_lfht_grow ht.size ht.resize_target ht ≡ record ht { size = 2 ^ k }
  unfolding _do_cds_lfht_grow
  grow_lands h =
      let o : cds_lfht_get_count_order_ulong ht.size ≡ j =
        ap cds_lfht_get_count_order_ulong size_is ∙ order_of_power j j_fits in
      let p : cds_lfht_get_count_order_ulong ht.resize_target ≡ k =
        ap cds_lfht_get_count_order_ulong target_is ∙ order_of_power k k_fits in
      ap
        (λ (n : ℕ).
          init_table (n - cds_lfht_get_count_order_ulong ht.size)
            (cds_lfht_get_count_order_ulong ht.size + 1) ht)
        p
      ∙ ap (λ (n : ℕ). init_table (k - n) (n + 1) ht) o
      ∙ ap (λ (n : ℕ). init_table (k - j) (j + 1) (record ht { size = n })) size_is
      ∙ grows_to (k - j) j k ht (omega arith) alive target_is

  shrink_lands :
      k < j → _do_cds_lfht_shrink ht.size ht.resize_target ht ≡ record ht { size = 2 ^ k }
  unfolding _do_cds_lfht_shrink
  shrink_lands h =
      let o : cds_lfht_get_count_order_ulong ht.size ≡ j =
        ap cds_lfht_get_count_order_ulong size_is ∙ order_of_power j j_fits in
      let least : max ht.resize_target min_table_size ≡ 2 ^ k =
        ground (arith, target_is, pow_pos k) in
      let p : cds_lfht_get_count_order_ulong (max ht.resize_target min_table_size) ≡ k =
        ap cds_lfht_get_count_order_ulong least ∙ order_of_power k k_fits in
      ap
        (λ (n : ℕ).
          fini_table (cds_lfht_get_count_order_ulong ht.size - n)
            (cds_lfht_get_count_order_ulong ht.size) ht)
        p
      ∙ ap (λ (n : ℕ). fini_table (n - k) n ht) o
      ∙ ap (λ (n : ℕ). fini_table (j - k) j (record ht { size = n })) size_is
      ∙ shrinks_to (j - k) j k ht (omega arith) alive target_is

  moved_lands :
      (if ltb ht.size ht.resize_target
        then _do_cds_lfht_grow ht.size ht.resize_target ht
        else if ltb ht.resize_target ht.size
        then _do_cds_lfht_shrink ht.size ht.resize_target ht
        else ht)
      ≡ record ht { size = 2 ^ k }
  moved_lands =
      let reached : Table = record ht { size = 2 ^ k } in
      if_elim (λ (r : Table). r ≡ reached) (ltb ht.size ht.resize_target)
        (λ a. grow_lands (exponent_lt j k (ground (arith, size_is, target_is))))
        (λ a.
          if_elim (λ (r : Table). r ≡ reached) (ltb ht.resize_target ht.size)
            (λ b. shrink_lands (exponent_lt k j (ground (arith, size_is, target_is))))
            (λ b. ap (λ (n : ℕ). record ht { size = n }) (ground (arith, size_is, target_is))))

turn_settles :
    (ht : Table) (j k : ℕ)
    → j ≤ 63
    → k ≤ 63
    → ht.size ≡ 2 ^ j
    → ht.resize_target ≡ 2 ^ k
    → ht.in_progress_destroy ≡ false
    → resize_turn ht ≡ (resized k ht, true)
unfolding resize_turn
turn_settles ht j k jf kf s t d =
    let begun : Table = record ht { resize_initiated = true } in
    let self : (2 ^ k == 2 ^ k) ≡ true = ground arith in
    if_elim (λ (r : Table × Bool). r ≡ (resized k ht, true)) ht.in_progress_destroy
      (λ e. absurd (ground arith))
      (λ e.
        ap
          (λ (m : Table).
            (record m { resize_initiated = false; works = 0 }, m.size == m.resize_target))
          (moved_lands begun j k jf kf s t d)
        ∙ ap
            (λ (n : ℕ). (
              record ht { size = 2 ^ k; resize_target = n; resize_initiated = false; works = 0 },
              2 ^ k == n,
            ))
            t
        ∙ ap (λ (b : Bool). (resized k ht, b)) self)

-- cds_lfht_resize of a table that is not being destroyed and whose size is a power of two up to
-- 2 ^ 63, run by one thread while no other changes the table. With the new size, brought between
-- one and the maximum, a power of two up to 2 ^ 63, it ends with its first turn, and the table then
-- has that size and target, with no resize initiated. With any other new size it never ends.
pub cds_lfht_resize_ends :
    (ht : Table) (j new_size fuel : ℕ)
    → j ≤ 63
    → ht.size ≡ 2 ^ j
    → ht.in_progress_destroy ≡ false
    → record {
      ends :
          (k : ℕ)
          → k ≤ 63
          → min (max new_size min_table_size) ht.max_nr_buckets ≡ 2 ^ k
          → cds_lfht_resize (suc fuel) new_size ht ≡ some (resized k ht);
      never :
          ((k : ℕ) → min (max new_size min_table_size) ht.max_nr_buckets ≢ 2 ^ k)
          → cds_lfht_resize fuel new_size ht ≡ none;
    }
unfolding cds_lfht_resize resize_target_update_count _do_cds_lfht_resize
cds_lfht_resize_ends ht j new_size fuel jf s d =
    let asked : Table = record (resize_target_update_count new_size ht) {
      resize_initiated = true;
    } in
    record {
      ends = λ k kf t. rw (turn_settles asked j k jf kf s t d) refl;
      never = λ odd. never_ends fuel asked (j, s) d odd;
    }
