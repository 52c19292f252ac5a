-- ===== src/CallRcu/Cpus.antt =====
-- The call_rcu threads of the processors: the table of src/urcu-call-rcu-impl.h, and the choice of
-- a caller's call_rcu_data, as one thread runs them while no other holds call_rcu_mutex. Pointers
-- are addresses; 0 is NULL.
mod Outcomes
mod Tests
use mathlib.Core.Path.{subst}
use liburcu.Prelude.{
  ap, ℕ, suc, zero, ◌+◌, ◌≡◌, ◌≢◌, ◌<◌, refl, sym, ◌∙◌, Bool, Bool-cases, true, false, not, ◌||◌,
  ◌&&◌, inl, inr, Option, none, some, ◌==◌, leb, ltb, if◌then◌else◌, if_elim, update, update_elim,
  arith, List, [], ◌∷◌,
}

-- The numbers of a `long`.
pub data ℤ : Type 0 where
  pos : ℕ → ℤ
  negsuc : ℕ → ℤ

abbrev pub is_negative : ℤ → Bool
is_negative (pos n) = false
is_negative (negsuc n) = true

abbrev pub leb_ℤ : ℤ → ℤ → Bool
leb_ℤ (pos a) (pos b) = leb a b
leb_ℤ (pos a) (negsuc b) = false
leb_ℤ (negsuc a) (pos b) = true
leb_ℤ (negsuc a) (negsuc b) = leb b a

abbrev pub is_zero : ℤ → Bool
is_zero (pos n) = n == 0
is_zero (negsuc n) = false

-- The index of a processor in the array, where it is one.
abbrev pub index : ℤ → ℕ
index (pos n) = n
index (negsuc n) = 0

pub record CpuTable : Type 0 where
  pub maxcpus : ℤ
  pub per_cpu_call_rcu_data : Option (ℕ → ℕ)

pub data Status : Type 0 where
  ok einval enomem eexist : Status

-- What sysconf(_SC_NPROCESSORS_CONF) gives, and whether malloc has the memory.
pub record Machine : Type 0 where
  pub nprocessors : ℤ
  pub has_memory : Bool

unfoldable pub alloc_cpu_call_rcu_data : Machine → CpuTable → CpuTable
alloc_cpu_call_rcu_data m t =
    if not (is_zero t.maxcpus)
    then t
    else (if leb_ℤ m.nprocessors (pos 0) then record t { maxcpus = m.nprocessors } else record {
      maxcpus = m.nprocessors;
      per_cpu_call_rcu_data = if m.has_memory then some (λ _. 0) else t.per_cpu_call_rcu_data;
    })

abbrev pub out_of_range : ℤ → CpuTable → Bool
out_of_range cpu t = is_negative cpu || leb_ℤ t.maxcpus cpu

unfoldable pub get_cpu_call_rcu_data : ℤ → CpuTable → ℕ
get_cpu_call_rcu_data cpu t = elim t.per_cpu_call_rcu_data [
  | none ↦ 0
  | some p ↦ if out_of_range cpu t then 0 else p (index cpu)
]

-- set_cpu_call_rcu_data behind the allocation.
unfoldable pub set_slot : ℤ → ℕ → CpuTable → Status × CpuTable
set_slot cpu crdp t = if out_of_range cpu t then (einval, t) else elim t.per_cpu_call_rcu_data [
  | none ↦ (enomem, t)
  | some p ↦
      if not (p (index cpu) == 0) && not (crdp == 0)
      then (eexist, t)
      else (ok, record t { per_cpu_call_rcu_data = some (update p (index cpu) crdp) })
]

abbrev pub set_cpu_call_rcu_data : Machine → ℤ → ℕ → CpuTable → Status × CpuTable
set_cpu_call_rcu_data m cpu crdp t = set_slot cpu crdp (alloc_cpu_call_rcu_data m t)

-- What create_all_cpu_call_rcu_data returns and leaves, with the workers that it has handed to
-- call_rcu_data_free, the last one first.
pub record Created : Type 0 where
  pub ret : Status
  pub table : CpuTable
  pub freed : List ℕ

abbrev created : Status → CpuTable → List ℕ → Created
created ret t freed = record { ret = ret; table = t; freed = freed }

-- The loop of create_all_cpu_call_rcu_data: `left` processors from `i` on. `create` is what
-- __create_call_rcu_data gives for a processor, the address of a new call_rcu_data or NULL.
unfoldable pub create_from :
    Machine → (create : ℕ → ℕ) → (left i : ℕ) → CpuTable → (freed : List ℕ) → Created
create_from m create zero i t freed = created ok t freed
create_from m create (suc left) i t freed =
    let next = create_from m create left (i + 1) in
    let (ret, t') = set_cpu_call_rcu_data m (pos i) (create i) t in
    if not (get_cpu_call_rcu_data (pos i) t == 0)
    then next t freed
    else if create i == 0
    then created enomem t freed
    else elim ret [
      | ok ↦ next t' freed
      | eexist ↦ next t' (create i ∷ freed)
      | einval ↦ created einval t' (create i ∷ freed)
      | enomem ↦ created enomem t' (create i ∷ freed)
    ]

-- create_all_cpu_call_rcu_data behind the allocation.
abbrev pub create_all : Machine → (create : ℕ → ℕ) → CpuTable → Created
create_all m create t =
    if leb_ℤ t.maxcpus (pos 0) then created einval t [] else elim t.per_cpu_call_rcu_data [
      | none ↦ created enomem t []
      | some p ↦ create_from m create (index t.maxcpus) 0 t []
    ]

abbrev pub create_all_cpu_call_rcu_data : Machine → (create : ℕ → ℕ) → CpuTable → Created
create_all_cpu_call_rcu_data m create t = create_all m create (alloc_cpu_call_rcu_data m t)
