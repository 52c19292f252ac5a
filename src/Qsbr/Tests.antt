-- ===== src/Qsbr/Tests.antt =====
-- A grace period of the qsbr model, and the theorem at it.
use liburcu.Prelude.{refl, [], arith}
use liburcu.Qsbr.System
use liburcu.Qsbr.System.{
  System, Step, Run, here, then_step, init, enter, rcu_reader_state, rcu_read_ongoing, take_locks,
  count_attempt, leave_or_wait, put_back, visit,
}
use liburcu.Qsbr.GracePeriod.{Quiesces, qsbr_synchronize_waits}

abbrev Trace : System → Type 0
Trace s = (t : System) × Run s t

infixl 5 ◌▸◌
abbrev ◌▸◌ : {s t : System} (r : Trace s) → Step r.0 t → Trace s
r ▸ st = (_, then_step r.1 st)

-- Reader 0 is online.
reader_online : Trace init
reader_online =
    (init, here)
    ▸ System.register 0 refl refl refl refl
    ▸ System.load_online 0 refl refl refl
    ▸ System.store_online 0 1 refl

-- Its quiescent state comes after one vain pass over the registry.
grace_period : Trace (enter reader_online.0)
unfolding reader_online take_locks count_attempt leave_or_wait put_back visit rcu_reader_state
grace_period =
    (enter reader_online.0, here)
    ▸ System.lock refl (omega arith)
    ▸ System.attempt refl
    ▸ System.examine 0 [] refl
    ▸ System.examined refl
    ▸ System.load_quiescent 0 refl refl
    ▸ System.store_quiescent 0 3 refl
    ▸ System.relock refl
    ▸ System.attempt refl
    ▸ System.examine 0 [] refl
    ▸ System.examined refl
    ▸ System.finish refl

qsbr_synchronize_waits_example : Quiesces 0 grace_period.1
unfolding reader_online grace_period rcu_read_ongoing put_back
qsbr_synchronize_waits_example =
    qsbr_synchronize_waits reader_online.1 refl grace_period.1 refl 0 refl
