-- ===== src/Batch/Calls.antt =====
-- Each step keeps the timing; and what a call of synchronize_rcu has then waited for.
use liburcu.Prelude.{
  ℕ, ◌+◌, ◌≡◌, ◌≤◌, ◌<◌, refl, Bool, true, false, ◌||◌, [], ◌∷◌, has, update, update_elim, if_elim,
  ltb, is_empty, arith,
}
use liburcu.Batch.System.{
  System, WaitState, Pc, idle, add, lead, lock, move, start, grace, check, wake_up, set_wakeup,
  read_running, futex_wake, set_teardown, spin, futex_wait, asleep, set_running, await_teardown,
  done, failed, urcu_wait_waiting, urcu_wait_attempts, is_waiting, is_asleep, goto, waker_at,
  waiter_at, leader_at, add_at, wake_sleeper, Step, WeakStep, WeakReachable, begins, then_weak,
}
use liburcu.Batch.Places.{waits, batch}
use liburcu.Batch.Steps.{AllPlaces, WeakReachable-Places}
use liburcu.Batch.Timing.{
  Timing, holds, in_grace, wakes_all, returns, goto-Timing, set_state-Timing, lock-Timing,
  begin-Timing, end-Timing,
}

abbrev pub AllTiming : System → Type 0
AllTiming s = Timing s.state s.pc s.locked s.begun s.ended s.called

woke_apart :
    (p : Pc)
    → (wakes_all p || returns p) ≡ true
    → (holds p ≡ false) × ((in_grace p ≡ false) × (waits p ≡ false))
woke_apart p w = ground arith

waits_apart :
    (p : Pc)
    → waits p ≡ true
    → (holds p ≡ false) × ((in_grace p ≡ false) × ((wakes_all p || returns p) ≡ false))
waits_apart p w = ground arith

wakes_both : (p : Pc) → wakes_all p ≡ true → (wakes_all p || returns p) ≡ true
wakes_both p w = ground arith

module _ (s : System) (inv : AllTiming s) where
  open inv use {served, served_batch, torn}

  -- A leader goes on waking up.
  wake-Timing :
      (i : ℕ) (p p' : Pc)
      → s.pc i ≡ p
      → wakes_all p ≡ true
      → (wakes_all p' || returns p') ≡ true
      → ((n : ℕ) → has n (batch p') ≡ true → has n (batch p) ≡ true)
      → AllTiming (goto i p' s)
  wake-Timing i p p' e w w' less =
      let (h, (g, off)) = woke_apart p (wakes_both p w) in
      let (h', (g', off')) = woke_apart p' w' in
      goto-Timing inv i p' (rw (e, h) h') g' (rw e g) (λ k. served i (rw e (wakes_both p w)))
        (λ n k m. served_batch i n (rw e w) (rw e (less n m))) (λ k. absurd (ground arith))

  -- A thread goes on waiting.
  stay-Timing :
      (i : ℕ) (p p' : Pc) → s.pc i ≡ p → waits p ≡ true → waits p' ≡ true → AllTiming (goto i p' s)
  stay-Timing i p p' e w w' =
      let (h, (g, off)) = waits_apart p w in
      let (h', (g', off')) = waits_apart p' w' in
      goto-Timing inv i p' (rw (e, h) h') g' (rw e g) (λ k. absurd (ground arith))
        (λ n k m. absurd (ground arith)) (λ k t. torn i (rw e w) t)

  -- A thread goes on outside the parts that the timing is about.
  pass-Timing :
      (i : ℕ) (p p' : Pc)
      → s.pc i ≡ p
      → holds p' ≡ holds p
      → in_grace p ≡ false
      → in_grace p' ≡ false
      → (wakes_all p' || returns p') ≡ false
      → waits p' ≡ false
      → AllTiming (goto i p' s)
  pass-Timing i p p' e h g g' w n =
      goto-Timing inv i p' (rw e h) g' (rw e g) (λ k. absurd (ground arith))
        (λ m k l. absurd (ground arith)) (λ k. absurd (ground arith))

module _ (s : System) (inv : AllTiming s) where
  open inv use {served_batch, torn}

  waker-Timing : (i : ℕ) (p : Pc) → s.pc i ≡ p → AllTiming (waker_at i p s)
  unfolding waker_at wake_sleeper
  waker-Timing i (check []) e =
      wake-Timing s inv i (check []) done e refl refl (λ n k. absurd (ground arith))
  waker-Timing i (check (n ∷ rest)) e =
      if_elim AllTiming ((s.state n).running)
        (λ r. wake-Timing s inv i (check (n ∷ rest)) (check rest) e refl refl (λ m k. ground arith))
        (λ r. wake-Timing s inv i (check (n ∷ rest)) (wake_up n rest) e refl refl (λ m k. k))
  waker-Timing i (wake_up n rest) e =
      if_elim AllTiming (is_waiting (s.state n))
        (λ r. wake-Timing s inv i (wake_up n rest) (set_wakeup n rest) e refl refl (λ m k. k))
        (λ r. pass-Timing s inv i (wake_up n rest) failed e refl refl refl refl refl)
  waker-Timing i (set_wakeup n rest) e =
      set_state-Timing
        (wake-Timing s inv i (set_wakeup n rest) (read_running n rest) e refl refl (λ m k. k)) n
        (record urcu_wait_waiting { wakeup = true }) (λ k l. absurd (ground arith))
  waker-Timing i (read_running n rest) e =
      if_elim AllTiming ((s.state n).running)
        (λ r.
          wake-Timing s inv i (read_running n rest) (set_teardown n rest) e refl refl (λ m k. k))
        (λ r. wake-Timing s inv i (read_running n rest) (futex_wake n rest) e refl refl (λ m k. k))
  waker-Timing i (futex_wake n rest) e =
      if_elim (λ s'. AllTiming (goto i (set_teardown n rest) s')) (is_asleep (s.pc n))
        (λ k.
          wake-Timing (goto n set_running s)
            (stay-Timing s inv n (s.pc n) set_running refl (ground arith) refl) i
            (futex_wake n rest) (set_teardown n rest) (ground arith) refl refl (λ m l. l))
        (λ k. wake-Timing s inv i (futex_wake n rest) (set_teardown n rest) e refl refl (λ m l. l))
  waker-Timing i (set_teardown n rest) e =
      set_state-Timing
        (wake-Timing s inv i (set_teardown n rest) (check rest) e refl refl (λ m k. ground arith)) n
        (record (s.state n) { teardown = true })
        (λ k l. served_batch i n (rw e refl) (rw e (ground arith)))
  waker-Timing i _ e = inv

  waiter-Timing : (i : ℕ) (p : Pc) → s.pc i ≡ p → AllTiming (waiter_at i p s)
  unfolding waiter_at
  waiter-Timing i (spin k) e =
      if_elim AllTiming (is_waiting (s.state i))
        (λ w.
          if_elim AllTiming (ltb (k + 1) urcu_wait_attempts)
            (λ l. stay-Timing s inv i (spin k) (spin (k + 1)) e refl refl)
            (λ l. stay-Timing s inv i (spin k) futex_wait e refl refl))
        (λ w. stay-Timing s inv i (spin k) set_running e refl refl)
  waiter-Timing i futex_wait e =
      if_elim AllTiming (is_waiting (s.state i))
        (λ w. stay-Timing s inv i futex_wait asleep e refl refl)
        (λ w. stay-Timing s inv i futex_wait set_running e refl refl)
  waiter-Timing i set_running e =
      set_state-Timing (stay-Timing s inv i set_running await_teardown e refl refl) i
        (record (s.state i) { running = true }) (λ k t. torn i (rw e refl) t)
  waiter-Timing i await_teardown e =
      if_elim AllTiming ((s.state i).teardown)
        (λ t.
          goto-Timing inv i done (rw e refl) refl (rw e refl) (λ k. torn i (rw e refl) t)
            (λ n k. absurd (ground arith)) (λ k. absurd (ground arith)))
        (λ t. inv)
  waiter-Timing i _ e = inv

  leader-Timing : (i : ℕ) (p : Pc) → s.pc i ≡ p → AllTiming (leader_at i p s)
  unfolding leader_at
  leader-Timing i lead e =
      set_state-Timing (pass-Timing s inv i lead lock e refl refl refl refl refl) i
        (record urcu_wait_waiting { running = true }) (λ k. absurd (ground arith))
  leader-Timing i lock e = if_elim AllTiming s.locked (λ l. inv) (λ l. lock-Timing inv i e l)
  leader-Timing i move e = pass-Timing s inv i move (start s.queue) e refl refl refl refl refl
  leader-Timing i (start l) e = begin-Timing inv i l e
  leader-Timing i (grace l) e = end-Timing inv i l e
  leader-Timing i _ e = inv

-- DEFINE_URCU_WAIT_NODE, with the observer's note of the time.
call-Timing :
    {state : ℕ → WaitState} {pc : ℕ → Pc} {locked : Bool} {begun ended : ℕ} {called : ℕ → ℕ} (i : ℕ)
    → Timing state pc locked begun ended called
    → pc i ≡ add
    → ((j : ℕ) → has i (batch (pc j)) ≡ false)
    → Timing state pc locked begun ended (update called i begun)
call-Timing {state} {pc} {begun = b} {ended = en} {called = c} i inv e off = record {
  mutex = inv.mutex;
  exclusive = inv.exclusive;
  quiet = inv.quiet;
  before = inv.before;
  during = inv.during;
  begun_since = λ n. update_elim (λ t. t ≤ b) c i b n (λ f. omega arith) (λ f. inv.begun_since n);
  graced =
      λ j k. update_elim (λ t. t < b) c i b j (λ f. absurd (ground arith)) (λ f. inv.graced j k);
  graced_batch = λ j n k m.
      update_elim (λ t. t < b) c i b n (λ f. absurd (ground (arith, off j)))
        (λ f. inv.graced_batch j n k m);
  served =
      λ j k. update_elim (λ t. t < en) c i b j (λ f. absurd (ground arith)) (λ f. inv.served j k);
  served_batch = λ j n k m.
      update_elim (λ t. t < en) c i b n (λ f. absurd (ground (arith, off j)))
        (λ f. inv.served_batch j n k m);
  torn =
      λ j k m. update_elim (λ t. t < en) c i b j (λ f. absurd (ground arith)) (λ f. inv.torn j k m);
}

Step-Timing : {s t : System} → AllPlaces s → AllTiming s → Step s t → AllTiming t
unfolding add_at
Step-Timing {s} places inv (Step.call i e) =
    call-Timing i
      (pass-Timing (record s { state = update s.state i urcu_wait_waiting })
        (set_state-Timing inv i urcu_wait_waiting (λ k l. absurd (ground arith))) i idle add e refl
        refl refl refl refl)
      (ground arith)
      (λ j.
        update_elim (λ q. has i (batch q) ≡ false) s.pc i add j (λ f. refl)
          (λ f. ground (arith, places.batched i j)))
Step-Timing {s} places inv (Step.enqueue i e) =
    if_elim (λ p. AllTiming (goto i p s)) (is_empty s.queue)
      (λ k. pass-Timing s inv i add lead e refl refl refl refl refl)
      (λ k.
        goto-Timing inv i (spin 0) (rw e refl) refl (rw e refl) (λ l. absurd (ground arith))
          (λ n l. absurd (ground arith)) (λ w t. absurd (ground (arith, places.added i))))
Step-Timing {s} places inv (Step.leader_step i) = leader-Timing s inv i (s.pc i) refl
Step-Timing {s} places inv (Step.waker_step i) = waker-Timing s inv i (s.pc i) refl
Step-Timing {s} places inv (Step.waiter_step i) = waiter-Timing s inv i (s.pc i) refl
Step-Timing {s} places inv (Step.interrupted i e) =
    stay-Timing s inv i asleep futex_wait e refl refl
Step-Timing {s} places inv (Step.return i e) =
    goto-Timing inv i idle (rw e refl) refl (rw e refl) (λ k. absurd (ground arith))
      (λ n k. absurd (ground arith)) (λ k. absurd (ground arith))

WeakReachable-Timing : {s : System} → WeakReachable s → AllTiming s
WeakReachable-Timing begins = record {
  mutex = λ i k. absurd (ground arith);
  exclusive = λ i j k. absurd (ground arith);
  quiet = λ k. refl;
  before = λ i k. absurd (ground arith);
  during = λ i k. absurd (ground arith);
  begun_since = λ n. omega arith;
  graced = λ i k. absurd (ground arith);
  graced_batch = λ i n k. absurd (ground arith);
  served = λ i k. absurd (ground arith);
  served_batch = λ i n k. absurd (ground arith);
  torn = λ i k. absurd (ground arith);
}
WeakReachable-Timing (then_weak r (WeakStep.exact st)) =
    Step-Timing (WeakReachable-Places r) (WeakReachable-Timing r) st
WeakReachable-Timing (then_weak {s = s} r (WeakStep.spurious i e)) =
    stay-Timing s (WeakReachable-Timing r) i asleep set_running e refl refl

-- However many threads call synchronize_rcu, however they share grace periods, and also where
-- FUTEX_WAIT returns 0 without being woken: when one is about to return, a grace period has ended
-- that began after its call, since more have ended than had begun when it called.
pub shared_grace_period :
    {s : System} (i : ℕ) → WeakReachable s → s.pc i ≡ done → s.called i < s.ended
shared_grace_period i r e = (WeakReachable-Timing r).served i (rw e refl)
