-- ===== src/Batch/Tests.antt =====
-- Three threads in synchronize_rcu, of which the first one leads, and the theorems at them.
use mathlib.Core.Path.{subst}
use liburcu.Prelude.{
  ℕ, zero, suc, ltb, ◌+◌, [], ◌∷◌, ◌≡◌, ◌≢◌, ◌<◌, ◌⊎◌, refl, true, false, has, arith,
}
use liburcu.Batch.System.{
  System, Step, Reachable, fresh, then_step, weaken, waker_at, waiter_at, leader_at, add_at,
  wake_sleeper, spin, lead, asleep, futex_wait, urcu_wait_waiting, urcu_wait_attempts,
}
use liburcu.Batch.Places.{waits, leads_queue}
use liburcu.Batch.Sleep.{first_in, to_wake}
use liburcu.Batch.Calls.{shared_grace_period}
use liburcu.Batch.Wakeup.{waker_touches_waiting, no_waiter_lost}

abbrev Trace : Type 0
Trace = (s : System) × Reachable s

infixl 5 ◌▸◌
abbrev ◌▸◌ : (r : Trace) {t : System} → Step r.0 t → Trace
r ▸ st = (_, then_step r.1 st)

-- Thread 1 is first, thread 2 waits for it, up to the check of its node.
led : Trace
unfolding waker_at waiter_at leader_at add_at
led =
    (_, fresh)
    ▸ Step.call 1 refl
    ▸ Step.enqueue 1 refl
    ▸ Step.call 2 refl
    ▸ Step.enqueue 2 refl
    ▸ Step.leader_step 1
    ▸ Step.leader_step 1
    ▸ Step.leader_step 1
    ▸ Step.leader_step 1
    ▸ Step.leader_step 1
    ▸ Step.waker_step 1

-- Thread 2 is woken up, and both are about to return.
returned : Trace
unfolding led waker_at waiter_at leader_at add_at wake_sleeper
returned =
    led
    ▸ Step.waker_step 1
    ▸ Step.waker_step 1
    ▸ Step.waiter_step 2
    ▸ Step.waiter_step 2
    ▸ Step.waker_step 1
    ▸ Step.waker_step 1
    ▸ Step.waiter_step 2
    ▸ Step.waker_step 1
    ▸ Step.waker_step 1

shared_grace_period_example : (returned.0).called 2 < (returned.0).ended
unfolding returned led waker_at waiter_at leader_at add_at wake_sleeper
shared_grace_period_example = shared_grace_period 2 (weaken returned.1) refl

abbrev two : ℕ
two = 2

waker_touches_waiting_example :
    (two ≢ 1) × ((waits ((led.0).pc two) ≡ true) × (((led.0).state two).teardown ≡ false))
unfolding led waker_at waiter_at leader_at add_at
waker_touches_waiting_example = waker_touches_waiting 1 two (weaken led.1) refl

abbrev Spins : ℕ → System → Type 0
Spins k s =
    (s.pc 2 ≡ spin k)
    × ((s.state 2 ≡ urcu_wait_waiting) × ((s.pc 1 ≡ lead) × (s.queue ≡ 2 ∷ 1 ∷ [])))

spin_once :
    (k : ℕ) (s : System)
    → Spins k s
    → k + 1 < urcu_wait_attempts
    → Spins (k + 1) (waiter_at 2 (s.pc 2) s)
unfolding waiter_at
spin_once k s (e, (w, (l, q))) lt =
    let low : ltb (k + 1) 1000 ≡ true = ground arith in
    rw (e, w, low) (refl, (w, (ground arith, q)))

-- Thread 2 goes round its first loop m times more.
spin_on :
    (m k : ℕ) {s : System}
    → Reachable s
    → Spins k s
    → k + m < urcu_wait_attempts
    → (t : System) × (Reachable t × Spins (k + m) t)
spin_on zero k {s} r spins lt = (s, (r, subst (λ (j : ℕ). Spins j s) (omega arith) spins))
spin_on (suc m) k {s} r spins lt =
    let (t, (reached, on)) =
      spin_on m (k + 1) (then_step r (Step.waiter_step 2)) (spin_once k s spins (omega arith))
        (omega arith) in
    (t, (reached, subst (λ (j : ℕ). Spins j t) (omega arith) on))

-- Thread 1 leads, thread 2 has called and spins.
two_called : Trace
unfolding leader_at add_at
two_called =
    (_, fresh) ▸ Step.call 1 refl ▸ Step.enqueue 1 refl ▸ Step.call 2 refl ▸ Step.enqueue 2 refl

long_wait : (t : System) × (Reachable t × Spins 999 t)
unfolding two_called leader_at add_at
long_wait = spin_on 999 0 two_called.1 (refl, (refl, (refl, refl))) (omega arith)

gives_up :
    (s : System)
    → Spins 999 s
    → ((waiter_at 2 (s.pc 2) s).pc 2 ≡ futex_wait)
      × ((waiter_at 2 (s.pc 2) s).state 2 ≡ urcu_wait_waiting)
unfolding waiter_at
gives_up s (e, (w, rest)) = rw (e, w) (refl, w)

falls_asleep :
    (s : System)
    → s.pc 2 ≡ futex_wait
    → s.state 2 ≡ urcu_wait_waiting
    → (waiter_at 2 (s.pc 2) s).pc 2 ≡ asleep
unfolding waiter_at
falls_asleep s e w = rw (e, w) refl

sleeper : (t : System) × (Reachable t × (t.pc 2 ≡ asleep))
sleeper =
    let (s, (r, spins)) = long_wait in
    let (e, w) = gives_up s spins in
    (_, (then_step (then_step r (Step.waiter_step 2)) (Step.waiter_step 2), falls_asleep _ e w))

no_waiter_lost_example :
    ((has 2 (sleeper.0).queue ≡ true)
      × (leads_queue ((sleeper.0).pc (first_in (sleeper.0).queue)) ≡ true))
    ⊎ (has 2 (to_wake ((sleeper.0).pc ((sleeper.0).leader 2))) ≡ true)
no_waiter_lost_example = no_waiter_lost 2 ((sleeper.1).0) ((sleeper.1).1)
