-- ===== src/CallRcu/Cpus/Outcomes.antt =====
-- What the operations on the table of processors return and leave.
use mathlib.Core.Path.{subst}
use liburcu.Prelude.{
  ap, ℕ, suc, zero, ◌+◌, ◌≡◌, ◌≢◌, ◌<◌, refl, sym, ◌∙◌, Bool-cases, true, false, not, ◌||◌, ◌&&◌,
  inl, inr, ◌⊎◌, ◌≤◌, Option, none, some, ◌==◌, leb, ltb, if◌then◌else◌, if_elim, update, arith, [],
}
use liburcu.CallRcu.Cpus.{
  index, alloc_cpu_call_rcu_data, out_of_range, get_cpu_call_rcu_data, set_slot,
  set_cpu_call_rcu_data, create_from, create_all, create_all_cpu_call_rcu_data, ℤ, pos, negsuc,
  is_negative, leb_ℤ, Created, CpuTable, Status, ok, einval, enomem, eexist, Machine,
}

-- The processor has a place in a table for that many.
abbrev pub InTable : ℤ → ℤ → Type 0
InTable (pos i) (pos n) = i < n
InTable (pos i) (negsuc n) = ⊥
InTable (negsuc i) n = ⊥

out_of_range-InTable :
    (cpu : ℤ) (t : CpuTable)
    → (out_of_range cpu t ≡ true → ¬ InTable cpu t.maxcpus)
      × (out_of_range cpu t ≡ false → InTable cpu t.maxcpus)
out_of_range-InTable cpu t = by_sign cpu t.maxcpus
  where
    by_sign :
        (c n : ℤ)
        → ((is_negative c || leb_ℤ n c) ≡ true → ¬ InTable c n)
          × ((is_negative c || leb_ℤ n c) ≡ false → InTable c n)
    by_sign (pos i) (pos n) = (λ e k. absurd (ground arith), λ e. ground arith)
    by_sign (pos i) (negsuc n) = (λ e k. k, λ e. absurd (ground arith))
    by_sign (negsuc i) n = (λ e k. k, λ e. absurd (ground arith))

-- What set_cpu_call_rcu_data returns, and the table that it leaves, from the one that is allocated.
pub data SetOutcome (cpu : ℤ) (crdp : ℕ) (t : CpuTable) : Status → CpuTable → Type 0 where
  outside : ¬ InTable cpu t.maxcpus → SetOutcome cpu crdp t einval t
  no_table : InTable cpu t.maxcpus → t.per_cpu_call_rcu_data ≡ none → SetOutcome cpu crdp t enomem t
  taken :
      InTable cpu t.maxcpus
      → get_cpu_call_rcu_data cpu t ≢ 0
      → crdp ≢ 0
      → SetOutcome cpu crdp t eexist t
  stored :
      {t' : CpuTable}
      → InTable cpu t.maxcpus
      → t.per_cpu_call_rcu_data ≢ none
      → ((get_cpu_call_rcu_data cpu t == 0) || (crdp == 0)) ≡ true
      → t'.maxcpus ≡ t.maxcpus
      → get_cpu_call_rcu_data cpu t' ≡ crdp
      → ((c : ℤ) → index c ≢ index cpu → get_cpu_call_rcu_data c t' ≡ get_cpu_call_rcu_data c t)
      → SetOutcome cpu crdp t ok t'

set_slot-SetOutcome :
    (cpu : ℤ) (crdp : ℕ) (x : ℤ) (o : Option (ℕ → ℕ))
    → (let t : CpuTable = record { maxcpus = x; per_cpu_call_rcu_data = o } in
        SetOutcome cpu crdp t (set_slot cpu crdp t).0 (set_slot cpu crdp t).1)
unfolding set_slot get_cpu_call_rcu_data
set_slot-SetOutcome cpu crdp x none =
    let t : CpuTable = record { maxcpus = x; per_cpu_call_rcu_data = none } in
    if_elim (λ (r : Status × CpuTable). SetOutcome cpu crdp t r.0 r.1) (out_of_range cpu t)
      (λ k. outside ((out_of_range-InTable cpu t).0 k))
      (λ k. no_table ((out_of_range-InTable cpu t).1 k) refl)
set_slot-SetOutcome cpu crdp x (some p) =
    let t : CpuTable = record { maxcpus = x; per_cpu_call_rcu_data = some p } in
    if_elim (λ (r : Status × CpuTable). SetOutcome cpu crdp t r.0 r.1) (out_of_range cpu t)
      (λ k. outside ((out_of_range-InTable cpu t).0 k))
      (λ k.
        if_elim (λ (r : Status × CpuTable). SetOutcome cpu crdp t r.0 r.1)
          (not (p (index cpu) == 0) && not (crdp == 0))
          (λ l. taken ((out_of_range-InTable cpu t).1 k) (ground arith) (ground arith))
          (λ l.
            stored ((out_of_range-InTable cpu t).1 k) (λ e. cc) (ground arith) refl (ground arith)
              (λ c ne. ground arith)))

-- set_cpu_call_rcu_data, whatever the machine: it returns -EINVAL for a processor out of range,
-- -ENOMEM without a table, -EEXIST where a processor that has a worker would get another one, and
-- then leaves the table as the allocation has; else it returns 0, and get_cpu_call_rcu_data then
-- gives the new worker for this processor and the old ones for all others.
pub set_cpu_call_rcu_data-SetOutcome :
    (m : Machine) (cpu : ℤ) (crdp : ℕ) (t : CpuTable)
    → (let (ret, t') = set_cpu_call_rcu_data m cpu crdp t in
        SetOutcome cpu crdp (alloc_cpu_call_rcu_data m t) ret t')
set_cpu_call_rcu_data-SetOutcome m cpu crdp t =
    let a = alloc_cpu_call_rcu_data m t in
    set_slot-SetOutcome cpu crdp a.maxcpus a.per_cpu_call_rcu_data

abbrev pub full : ℕ → (ℕ → ℕ) → CpuTable
full n p = record { maxcpus = pos n; per_cpu_call_rcu_data = some p }

get_full : (n i : ℕ) (p : ℕ → ℕ) → i < n → get_cpu_call_rcu_data (pos i) (full n p) ≡ p i
unfolding get_cpu_call_rcu_data
get_full n i p lt = let here : leb n i ≡ false = ground arith in rw here refl

alloc_full :
    (m : Machine) (n : ℕ) (p : ℕ → ℕ) → n ≢ 0 → alloc_cpu_call_rcu_data m (full n p) ≡ full n p
unfolding alloc_cpu_call_rcu_data
alloc_full m n p nz = let some_cpus : (n == 0) ≡ false = ground arith in rw some_cpus refl

slot_full :
    (n i c : ℕ) (p : ℕ → ℕ)
    → i < n
    → (p i == 0) ≡ true
    → set_slot (pos i) c (full n p) ≡ (ok, full n (update p i c))
unfolding set_slot
slot_full n i c p lt z = let here : leb n i ≡ false = ground arith in rw (here, z) refl

set_full :
    (m : Machine) (n i c : ℕ) (p : ℕ → ℕ)
    → i < n
    → (p i == 0) ≡ true
    → set_cpu_call_rcu_data m (pos i) c (full n p) ≡ (ok, full n (update p i c))
set_full m n i c p lt z =
    ap (set_slot (pos i) c) (alloc_full m n p (ground arith)) ∙ slot_full n i c p lt z

-- The processors from `i` on, up to `stop`, that have no worker get one.
abbrev fill : (create p : ℕ → ℕ) (i stop j : ℕ) → ℕ
fill create p i stop j = if leb i j && (ltb j stop && (p j == 0)) then create j else p j

fill_next :
    (create p q : ℕ → ℕ) (i stop j : ℕ)
    → i < stop
    → (j ≢ i → q j ≡ p j)
    → q i ≡ fill create p i stop i
    → fill create q (i + 1) stop j ≡ fill create p i stop j
fill_next create p q i stop j lt other here = elim (Bool-cases (j == i)) [
  | inl k ↦ let e : j ≡ i = ground arith in ground arith
  | inr k ↦ ground arith
]

-- Where the loop stops: behind the last processor, or at one for which nothing can be made.
abbrev pub Stops : (create p : ℕ → ℕ) (n : ℕ) → Status → (stop : ℕ) → Type 0
Stops create p n ret stop =
    ((stop ≡ n) × (ret ≡ ok)) ⊎ ((stop < n) × ((p stop ≡ 0) × ((create stop ≡ 0) × (ret ≡ enomem))))

-- What the loop has done from `i` on.
record Ran (m : Machine) (create : ℕ → ℕ) (n left i : ℕ) (p : ℕ → ℕ) : Type 0 where
  stop : ℕ
  ret : Status
  slots : ℕ → ℕ
  runs :
      create_from m create left i (full n p) []
      ≡ record { ret = ret; table = full n slots; freed = [] }
  within : (i ≤ stop) × (stop ≤ n)
  stops : Stops create p n ret stop
  made : (j : ℕ) → i ≤ j → j < stop → p j ≡ 0 → create j ≢ 0
  filled : (j : ℕ) → slots j ≡ fill create p i stop j

create_from-Ran :
    (m : Machine) (create : ℕ → ℕ) (n left i : ℕ) (p : ℕ → ℕ)
    → i + left ≡ n
    → Ran m create n left i p
unfolding create_from
create_from-Ran m create n zero i p e = record {
  stop = n;
  ret = ok;
  slots = p;
  runs = refl;
  within = (omega arith, omega arith);
  stops = inl (refl, refl);
  made = λ j l h z. absurd (omega arith);
  filled = λ j. ground arith;
}
create_from-Ran m create n (suc left) i p e =
    let lt : i < n = omega arith in
    elim (Bool-cases (p i == 0)) [
      | inl z ↦ elim (Bool-cases (create i == 0)) [
        | inl c ↦ record {
          stop = i;
          ret = enomem;
          slots = p;
          runs = rw (get_full n i p lt, z, c) refl;
          within = (omega arith, omega arith);
          stops = inr (lt, (ground arith, (ground arith, refl)));
          made = λ j l h w. absurd (omega arith);
          filled = λ j. ground arith;
        }
        | inr c ↦
            let r = create_from-Ran m create n left (i + 1) (update p i (create i)) (omega arith) in
            let set = set_full m n i (create i) p lt z in
            record {
              stop = r.stop;
              ret = r.ret;
              slots = r.slots;
              runs = rw (get_full n i p lt, z, c, set, set) r.runs;
              within = (ground (arith, r.within), (r.within).1);
              stops = ground (arith, r.stops, r.within);
              made = λ j l h w. ground (arith, r.made j);
              filled = λ j.
                  r.filled j
                  ∙ fill_next create p (update p i (create i)) i r.stop j (ground (arith, r.within))
                      (λ ne. ground arith) (ground (arith, r.within));
            }
      ]
      | inr z ↦
          let r = create_from-Ran m create n left (i + 1) p (omega arith) in
          record {
            stop = r.stop;
            ret = r.ret;
            slots = r.slots;
            runs = rw (get_full n i p lt, z) r.runs;
            within = (ground (arith, r.within), (r.within).1);
            stops = r.stops;
            made = λ j l h w. ground (arith, r.made j);
            filled = λ j.
                r.filled j
                ∙ fill_next create p p i r.stop j (ground (arith, r.within)) (λ ne. refl)
                    (ground (arith, r.within));
          }
    ]

-- What the call leaves in a table for n processors, which had the workers `p`.
pub record Fills (create : ℕ → ℕ) (n : ℕ) (p : ℕ → ℕ) (after : Created) : Type 0 where
  pub stop : ℕ
  pub stops : Stops create p n after.ret stop
  pub made : (j : ℕ) → j < stop → p j ≡ 0 → create j ≢ 0
  pub none_freed : after.freed ≡ []
  pub filled :
      (j : ℕ)
      → j < n
      → get_cpu_call_rcu_data (pos j) after.table
        ≡ (if ltb j stop && (p j == 0) then create j else p j)

full-Fills :
    (m : Machine) (create : ℕ → ℕ) (n : ℕ) (p : ℕ → ℕ)
    → n ≢ 0
    → Fills create n p (create_all m create (full n p))
full-Fills m create n p nz =
    let r = create_from-Ran m create n n 0 p (omega arith) in
    let some_cpus : leb n 0 ≡ false = ground arith in
    rw (some_cpus, r.runs)
      (record {
        stop = r.stop;
        stops = r.stops;
        made = λ j lt z. r.made j (omega arith) lt z;
        none_freed = refl;
        filled = λ j lt. get_full n j r.slots lt ∙ (r.filled j ∙ ground arith);
      })

-- create_all_cpu_call_rcu_data with a table for n processors, n not 0, run by one thread while no
-- other changes the table: it goes through the processors in their order up to the first that has
-- no worker and for which __create_call_rcu_data gives NULL. If there is one it returns -ENOMEM,
-- else 0. Each processor before it that had no worker has the new one that was made for it, which
-- is not NULL, each other one keeps what it had, and no worker that was made is freed.
pub create_all-Fills :
    (m : Machine) (create : ℕ → ℕ) (t : CpuTable) (n : ℕ) (p : ℕ → ℕ)
    → n ≢ 0
    → alloc_cpu_call_rcu_data m t ≡ full n p
    → Fills create n p (create_all_cpu_call_rcu_data m create t)
create_all-Fills m create t n p nz e =
    subst (λ (a : CpuTable). Fills create n p (create_all m create a)) (sym e)
      (full-Fills m create n p nz)
