-- ===== src/CallRcu/Cpus/Tests.antt =====
-- Runs on the table of processors.
use liburcu.Prelude.{◌+◌, ◌≡◌, refl, none, true, arith, ◌==◌, if◌then◌else◌}
use liburcu.CallRcu.Cpus.{
  CpuTable, Machine, eexist, pos, alloc_cpu_call_rcu_data, set_cpu_call_rcu_data, set_slot,
  create_all_cpu_call_rcu_data,
}
use liburcu.CallRcu.Cpus.Outcomes.{
  SetOutcome, set_cpu_call_rcu_data-SetOutcome, Fills, create_all-Fills,
}

abbrev four_cpus : Machine
four_cpus = record { nprocessors = pos 4; has_memory = true }

abbrev unused : CpuTable
unused = record { maxcpus = pos 0; per_cpu_call_rcu_data = none }

abbrev one_set : CpuTable
one_set = (set_cpu_call_rcu_data four_cpus (pos 2) 64 unused).1

set_twice : (set_cpu_call_rcu_data four_cpus (pos 2) 96 one_set).0 ≡ eexist
unfolding set_slot alloc_cpu_call_rcu_data
set_twice = refl

set_cpu_call_rcu_data-SetOutcome_example :
    SetOutcome
      (pos 2)
      96
      (alloc_cpu_call_rcu_data four_cpus one_set)
      (set_cpu_call_rcu_data four_cpus (pos 2) 96 one_set).0
      (set_cpu_call_rcu_data four_cpus (pos 2) 96 one_set).1
set_cpu_call_rcu_data-SetOutcome_example =
    set_cpu_call_rcu_data-SetOutcome four_cpus (pos 2) 96 one_set

create_all-Fills_example :
    Fills
      (λ i. if i == 2 then 0 else 128 + i)
      4
      (λ j. 0)
      (create_all_cpu_call_rcu_data four_cpus (λ i. if i == 2 then 0 else 128 + i) unused)
unfolding alloc_cpu_call_rcu_data
create_all-Fills_example =
    create_all-Fills four_cpus (λ i. if i == 2 then 0 else 128 + i) unused 4 (λ j. 0)
      (λ e. ground arith) refl
