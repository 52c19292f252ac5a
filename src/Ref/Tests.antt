-- ===== src/Ref/Tests.antt =====
-- Runs of include/urcu/ref.h.
use liburcu.Prelude.{◌≡◌, ◌≤◌, refl, length, ◌==◌, if◌then◌else◌}
use liburcu.Ref.{
  Counter, Step, Reachable, fresh, then_step, get_at, try_safe, try_unless_zero, urcu_ref_put,
  long_max,
}
use liburcu.Ref.Count.{Outcome, releases, released_when_unheld, get-Outcome}

abbrev Trace : Type 0
Trace = (c : Counter) × Reachable c

infixl 5 ◌▸◌
abbrev ◌▸◌ : (r : Trace) {d : Counter} → Step r.0 d → Trace
r ▸ st = (_, then_step r.1 st)

-- Two threads try to take a reference, of which one fails its first cmpxchg.
raced : Trace
unfolding get_at try_safe try_unless_zero urcu_ref_put
raced =
    (_, fresh 3)
    ▸ Step.get 3 refl refl
    ▸ Step.get_unless_zero 5 refl
    ▸ Step.on 3
    ▸ Step.on 5
    ▸ Step.on 3

-- Both are given back, and so is the first one.
all_put : Trace
unfolding raced get_at try_safe try_unless_zero urcu_ref_put
all_put =
    raced
    ▸ Step.on 5
    ▸ Step.on 5
    ▸ Step.put 5 refl refl
    ▸ Step.put 3 refl refl
    ▸ Step.put 3 refl refl

released_when_unheld_example :
    ((all_put.0).refcount ≡ length (all_put.0).holders)
    × (((all_put.0).refcount ≤ long_max)
        × (releases (all_put.0).events ≡ (if length (all_put.0).holders == 0 then 1 else 0)))
released_when_unheld_example = released_when_unheld all_put.1

get-Outcome_example : Outcome raced.0 (get_at 5 ((raced.0).pc 5) raced.0)
get-Outcome_example = get-Outcome 5 raced.1
