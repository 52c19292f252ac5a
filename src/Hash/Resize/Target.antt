-- ===== src/Hash/Resize/Target.antt =====
-- src/rculfhash.c: what becomes of `resize_target` and of the one resize under way.
use mathlib.Core.Path.{subst}
use liburcu.Prelude.{
  ℕ, ◌+◌, ◌*◌, ◌%◌, ◌^◌, ◌<◌, ◌≡◌, refl, Bool, Bool-cases, true, false, not, ◌||◌, ◌&&◌, ◌≢◌,
  if_elim, none, some, ◌==◌, ltb, leb, if◌then◌else◌, word_mod, inl, inr, arith,
}
use liburcu.Hash.Resize.{
  Table, min, max, min_table_size, _uatomic_xchg_monotonic_increase, resize_target_grow,
  __cds_lfht_resize_lazy_launch, cds_lfht_resize_lazy_grow, cds_lfht_resize_lazy_count, shrink_loop,
}

-- Whether a work is queued: the target changes, no resize has been initiated, the table is not
-- being destroyed, and malloc gives some memory.
abbrev pub launches : (memory : Bool) (target : ℕ) → Table → Bool
launches memory target ht =
    not (target == ht.resize_target)
    && not (ht.resize_initiated || (ht.in_progress_destroy || not memory))

-- What a call leaves: the target, and a work queued with `resize_initiated` set.
pub record Keeps (memory : Bool) (target : ℕ) (ht ht' : Table) : Type 0 where
  pub target_is : ht'.resize_target ≡ target
  pub max_is : ht'.max_nr_buckets ≡ ht.max_nr_buckets
  pub works_is : ht'.works ≡ (if launches memory target ht then ht.works + 1 else ht.works)
  pub initiated_is : ht'.resize_initiated ≡ (ht.resize_initiated || launches memory target ht)

pub unchanged-Keeps : (memory : Bool) (ht : Table) → Keeps memory ht.resize_target ht ht
unchanged-Keeps memory ht = record {
  target_is = refl;
  max_is = refl;
  works_is = ground arith;
  initiated_is = ground arith;
}

set_and_launch-Keeps :
    (memory : Bool) (w : ℕ) (ht : Table)
    → w ≢ ht.resize_target
    → Keeps memory w ht (__cds_lfht_resize_lazy_launch memory (record ht { resize_target = w }))
unfolding __cds_lfht_resize_lazy_launch
set_and_launch-Keeps memory w ht ne =
    if_elim (Keeps memory w ht) (ht.resize_initiated || (ht.in_progress_destroy || not memory))
      (λ b. record {
        target_is = refl;
        max_is = refl;
        works_is = ground arith;
        initiated_is = ground arith;
      })
      (λ b. record {
        target_is = refl;
        max_is = refl;
        works_is = ground arith;
        initiated_is = ground arith;
      })

pub either-Keeps :
    {memory : Bool} {s t : ℕ} {ht u v : Table} (b : Bool)
    → (b ≡ true → Keeps memory s ht u)
    → (b ≡ false → Keeps memory t ht v)
    → Keeps memory (if b then s else t) ht (if b then u else v)
either-Keeps true f g = f refl
either-Keeps false f g = g refl

-- The end that a lazy grow has, whichever way the wanted size was found.
abbrev grow_and_launch : Bool → ℕ → Table → Table
grow_and_launch memory w ht =
    let (grown, old) = resize_target_grow w ht in
    if leb w old then grown else __cds_lfht_resize_lazy_launch memory grown

grow_and_launch-Keeps :
    (memory : Bool) (w : ℕ) (ht : Table)
    → Keeps memory (max ht.resize_target w) ht (grow_and_launch memory w ht)
unfolding resize_target_grow _uatomic_xchg_monotonic_increase
grow_and_launch-Keeps memory w ht = elim (Bool-cases (leb w ht.resize_target)) [
  | inl b ↦
      let same : ht ≡ grow_and_launch memory w ht = rw (b, b) refl in
      let kept : ht.resize_target ≡ max ht.resize_target w = ground arith in
      subst (λ (k : ℕ). Keeps memory k ht (grow_and_launch memory w ht)) kept
        (subst (λ (u : Table). Keeps memory ht.resize_target ht u) same (unchanged-Keeps memory ht))
  | inr b ↦
      let same : __cds_lfht_resize_lazy_launch memory (record ht { resize_target = w })
          ≡ grow_and_launch memory w ht =
        rw (b, b) refl in
      let kept : w ≡ max ht.resize_target w = ground arith in
      subst (λ (k : ℕ). Keeps memory k ht (grow_and_launch memory w ht)) kept
        (subst (λ (u : Table). Keeps memory w ht u) same
          (set_and_launch-Keeps memory w ht (ground arith)))
]

-- A lazy grow raises the target to the wanted size, capped, and never lowers it.
pub cds_lfht_resize_lazy_grow-Keeps :
    (memory : Bool) (size growth : ℕ) (ht : Table)
    → Keeps memory
        (max ht.resize_target (min (size * 2 ^ growth % word_mod) ht.max_nr_buckets))
        ht
        (cds_lfht_resize_lazy_grow memory size growth ht)
unfolding cds_lfht_resize_lazy_grow
cds_lfht_resize_lazy_grow-Keeps memory size growth ht =
    grow_and_launch-Keeps memory (min (size * 2 ^ growth % word_mod) ht.max_nr_buckets) ht

-- The target that a count asks for: a grow raises it, a shrink lowers it unless a grow is queued.
abbrev pub target_for : (size count : ℕ) → Table → ℕ
target_for size count ht =
    let w = min (max count min_table_size) ht.max_nr_buckets in
    if not ht.auto_resize
    then ht.resize_target
    else if w == size
    then ht.resize_target
    else if ltb size w
    then max ht.resize_target w
    else if ltb size ht.resize_target
    then ht.resize_target
    else min ht.resize_target w

shrink_target :
    (size w : ℕ) (ht : Table)
    → w < size
    → (if ltb size ht.resize_target then ht.resize_target else min ht.resize_target w) ≡ (
        if ht.resize_target == size
        then w
        else if ltb size ht.resize_target
        then ht.resize_target
        else if leb ht.resize_target w
        then ht.resize_target
        else w)
shrink_target size w ht h = ground arith

-- The shrink on the wanted count: what it stores, and whether it goes on to the launch.
shrink-Keeps :
    (memory : Bool) (size w : ℕ) (ht : Table)
    → w < size
    → Keeps memory
        (if ltb size ht.resize_target then ht.resize_target else min ht.resize_target w)
        ht
        (elim (shrink_loop 2 size w ht) [
          | none ↦ ht
          | some r ↦ if r.1 then __cds_lfht_resize_lazy_launch memory r.0 else r.0
        ])
unfolding shrink_loop
shrink-Keeps memory size w ht h =
    let self : (ht.resize_target == ht.resize_target) ≡ true = ground arith in
    elim (Bool-cases (ht.resize_target == size)) [
      | inl a ↦ rw (shrink_target size w ht h, a) (set_and_launch-Keeps memory w ht (ground arith))
      | inr a ↦ elim (Bool-cases (ltb size ht.resize_target)) [
        | inl b ↦ rw (shrink_target size w ht h, a, b) (unchanged-Keeps memory ht)
        | inr b ↦ elim (Bool-cases (leb ht.resize_target w)) [
          | inl c ↦ rw (shrink_target size w ht h, a, b, c) (unchanged-Keeps memory ht)
          | inr c ↦
              rw (shrink_target size w ht h, a, b, c, self)
                (set_and_launch-Keeps memory w ht (ground arith))
        ]
      ]
    ]

-- A count that asks for a resize of a table of `size` buckets, with the count capped to what a table
-- may have. Without CDS_LFHT_AUTO_RESIZE, or with the capped count at `size`, the target stays. A
-- capped count above `size` raises the target to it unless it is higher already. One below lowers
-- the target to it, but not while the target is above `size`, as it is while a grow is queued: then
-- the target stays. One work is queued, and resize_initiated set with it, exactly if the target
-- changes, no resize has been initiated, the table is not being destroyed and malloc gives memory;
-- else both stay. The maximum stays.
pub cds_lfht_resize_lazy_count-Keeps :
    (memory : Bool) (size count : ℕ) (ht : Table)
    → Keeps memory (target_for size count ht) ht (cds_lfht_resize_lazy_count memory size count ht)
unfolding cds_lfht_resize_lazy_count
cds_lfht_resize_lazy_count-Keeps memory size count ht =
    let w = min (max count min_table_size) ht.max_nr_buckets in
    let same = unchanged-Keeps memory ht in
    either-Keeps (not ht.auto_resize) (λ a. same)
      (λ a.
        either-Keeps (w == size) (λ b. same)
          (λ b.
            either-Keeps (ltb size w) (λ c. grow_and_launch-Keeps memory w ht)
              (λ c. shrink-Keeps memory size w ht (ground arith))))
