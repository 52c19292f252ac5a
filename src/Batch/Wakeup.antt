-- ===== src/Batch/Wakeup.antt =====
-- src/urcu-wait.h: what a thread that sleeps can count on, and what a leader touches.

use liburcu.Prelude.{
  ℕ, ◌≡◌, ◌≢◌, refl, sym, Bool-cases, inl, inr, ◌⊎◌, true, false, List, [], ◌∷◌, has, update,
  is_empty, arith,
}
use liburcu.Batch.System.{
  System, idle, add, lead, spin, futex_wait, asleep, done, urcu_wait_waiting, add_at, Step,
  Reachable, fresh, then_step, WeakReachable,
}
use liburcu.Batch.Places.{waits, wakes, leads_queue, wakes_member}
use liburcu.Batch.Steps.{AllPlaces, Reachable-Places, WeakReachable-Places}
use liburcu.Batch.Sleep.{to_wake, first_in}
use liburcu.Batch.Sleep.Turns.{AllSleep, lead_on, stay-Sleep}
use liburcu.Batch.Sleep.Waker.{waker-Sleep}
use liburcu.Batch.Sleep.Leader.{waiter-Sleep, own-Sleep, leader-Sleep, join-Sleep}

Step-Sleep : {s t : System} → AllPlaces s → AllSleep s → Step s t → AllSleep t
unfolding add_at
Step-Sleep {s} places inv (Step.call i e) =
    lead_on (record s { state = update s.state i urcu_wait_waiting })
      (own-Sleep s places inv i urcu_wait_waiting (rw e refl)) i idle add e refl refl refl
      (λ n k. absurd (ground arith)) (λ n ne k. absurd (ground arith))
      (λ n k. absurd (ground arith))
Step-Sleep {s} places inv (Step.enqueue i e) = elim (Bool-cases (is_empty s.queue)) [
  | inl k ↦
      rw k (
        join-Sleep s places inv i lead e refl (λ w. absurd (ground arith)) (λ n. refl) refl (sym k))
  | inr k ↦ rw k (join-Sleep s places inv i (spin 0) e refl (λ w. refl) (λ n. refl) refl (sym k))
]
Step-Sleep {s} places inv (Step.leader_step i) = leader-Sleep s places inv i (s.pc i) refl
Step-Sleep {s} places inv (Step.waker_step i) = waker-Sleep s places inv i (s.pc i) refl
Step-Sleep {s} places inv (Step.waiter_step i) = waiter-Sleep s places inv i (s.pc i) refl
Step-Sleep {s} places inv (Step.interrupted i e) =
    stay-Sleep s inv i asleep futex_wait e refl refl (λ m. absurd (ground arith))
      (λ m. absurd (ground arith)) (λ m. absurd (ground (arith, inv.ran i)))
Step-Sleep {s} places inv (Step.return i e) =
    lead_on s inv i done idle e refl refl refl (λ n k. absurd (ground arith))
      (λ n ne k. absurd (ground arith)) (λ n k. absurd (ground arith))

Reachable-Sleep : {s : System} → Reachable s → AllSleep s
Reachable-Sleep fresh = record {
  queue_waiting = λ n k. absurd (ground arith);
  unset_waiting = λ n i k. absurd (ground arith);
  resumed = λ n k. absurd (ground arith);
  asleep_listed = λ n k. absurd (ground arith);
  waiting_listed = λ n k. absurd (ground arith);
  ran = λ n k. absurd (ground arith);
  woke = λ n i k. absurd (ground arith);
  unfailed = λ i. refl;
  led_by = λ k. absurd (ground arith);
}
Reachable-Sleep (then_step r st) = Step-Sleep (Reachable-Places r) (Reachable-Sleep r) st

-- A thread that is about to read or write another one's wait node in urcu_adaptative_wake_up, or to
-- call FUTEX_WAKE on it, finds that thread still inside its call and in urcu_adaptative_busy_wait,
-- and has not told it yet that it may return. This holds also where FUTEX_WAIT returns 0 without
-- being woken.
pub waker_touches_waiting :
    {s : System} (i n : ℕ)
    → WeakReachable s
    → wakes (s.pc i) n ≡ true
    → (n ≢ i) × ((waits (s.pc n) ≡ true) × ((s.state n).teardown ≡ false))
waker_touches_waiting {s} i n r k =
    let places = WeakReachable-Places r in
    let ne = places.not_own i n k in
    let here = wakes_member (s.pc i) n k in
    (ne, (places.batched n i here ne, places.batch_untorn n i here))

-- Where FUTEX_WAIT returns 0 only if it is woken: while a thread sleeps in it, either its node is in the queue, and the thread whose node
-- was the first there is on its way to move the whole queue to its own list; or its node is on the
-- list of the thread that has moved it, which has not called FUTEX_WAKE on it yet.
pub no_waiter_lost :
    {s : System} (i : ℕ)
    → Reachable s
    → s.pc i ≡ asleep
    → ((has i s.queue ≡ true) × (leads_queue (s.pc (first_in s.queue)) ≡ true))
      ⊎ (has i (to_wake (s.pc (s.leader i))) ≡ true)
no_waiter_lost {s} i r e =
    let inv = Reachable-Sleep r in
    let listed = inv.asleep_listed i (rw e refl) in
    elim (Bool-cases (has i s.queue)) [
      | inl k ↦ inl (k, inv.led_by (occupied s.queue k))
      | inr k ↦ inr (ground arith)
    ]
  where
    occupied : (q : List ℕ) → has i q ≡ true → is_empty q ≡ false
    occupied [] k = absurd (ground arith)
    occupied (x ∷ xs) k = refl
