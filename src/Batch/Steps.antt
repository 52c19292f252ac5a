-- ===== src/Batch/Steps.antt =====
-- Each step keeps the places of the wait nodes.
use mathlib.Core.Path.{subst}
use liburcu.Prelude.{
  if_elim, update_elim, ℕ, ◌+◌, ◌≡◌, ◌≢◌, refl, sym, true, false, [], ◌∷◌, has, Distinct, ltb,
  arith,
}
use liburcu.Batch.System.{
  System, Pc, idle, add, lead, lock, move, start, grace, check, wake_up, set_wakeup, read_running,
  futex_wake, set_teardown, spin, futex_wait, asleep, set_running, await_teardown, done, failed,
  urcu_wait_waiting, urcu_wait_attempts, is_waiting, is_asleep, goto, waker_at, waiter_at,
  leader_at, add_at, wake_sleeper, Step, Reachable, weaken, WeakStep, WeakReachable, begins,
  then_weak,
}
use liburcu.Batch.Places.Queue.{add-Places, move-Places}
use liburcu.Batch.Places.{
  Places, waits, leads_queue, batch, has_led, wakes, adds, goto-Places, set_state-Places,
  wakes_member,
}

abbrev pub AllPlaces : System → Type 0
AllPlaces s = Places s.queue s.state s.pc s.leader

is_asleep-waits :
    (p : Pc) → is_asleep p ≡ true → (waits p ≡ true) × ((batch p ≡ []) × (leads_queue p ≡ false))
is_asleep-waits p k = ground arith

waits_apart :
    (p : Pc)
    → waits p ≡ true
    → ((n : ℕ) → wakes p n ≡ false)
      × ((leads_queue p ≡ false) × ((batch p ≡ []) × ((adds p ≡ false) × (has_led p ≡ false))))
waits_apart p w = (λ n. ground arith, ground arith)

module _ (s : System) (inv : AllPlaces s) where
  open inv use {batch_distinct, batched, own_running, not_own}

  -- A leader goes on with the nodes that it has.
  turn :
      (i : ℕ) (p p' : Pc)
      → s.pc i ≡ p
      → has_led p ≡ true
      → batch p' ≡ batch p
      → leads_queue p' ≡ leads_queue p
      → waits p ≡ false
      → adds p' ≡ false
      → ((n : ℕ) → wakes p' n ≡ wakes p n)
      → AllPlaces (goto i p' s)
  turn i p p' e h b l w a wk =
      goto-Places inv i p' (rw b (subst (λ (q : Pc). Distinct (batch q)) e (batch_distinct i)))
        (λ n k. rw (e, sym b) k) (rw e l) (λ k l. absurd (ground arith))
        (λ k. absurd (ground arith)) (λ k. ground (arith, own_running i))
        (λ n k. ground (arith, not_own i n, wk n))

  -- A thread goes on waiting.
  stay :
      (i : ℕ) (p p' : Pc) → s.pc i ≡ p → waits p ≡ true → waits p' ≡ true → AllPlaces (goto i p' s)
  stay i p p' e w w' =
      let (d, (q, (b, (a, h)))) = waits_apart p' w' in
      let (_, (q', _)) = waits_apart p w in
      goto-Places inv i p' (rw b tt) (λ n k. absurd (ground arith)) (rw (e, q, q') refl)
        (λ k l. absurd (ground arith)) (λ k. absurd (ground arith)) (λ k. absurd (ground arith))
        (λ n k. absurd (ground (arith, d n)))

  -- The thread that is woken up waits, and has no other part.
  woken : (i n : ℕ) → wakes (s.pc i) n ≡ true → (n ≢ i) × (waits (s.pc n) ≡ true)
  woken i n k = let ne = not_own i n k in (ne, batched n i (wakes_member (s.pc i) n k) ne)

module _ (s : System) (inv : AllPlaces s) where
  open inv use {batch_distinct, apart, led, queue_untorn, batch_untorn, own_running}

  waker-Places : (i : ℕ) (p : Pc) → s.pc i ≡ p → AllPlaces (waker_at i p s)
  unfolding waker_at wake_sleeper
  waker-Places i (check []) e =
      goto-Places inv i done tt (λ n k. absurd (ground arith)) (ground arith) (λ k l. ground arith)
        (λ k. ground arith) (λ k. ground arith) (λ n k. absurd (ground arith))
  waker-Places i (check (n ∷ rest)) e =
      let dist : Distinct (n ∷ rest) =
        subst (λ (p : Pc). Distinct (batch p)) e (batch_distinct i) in
      let mine : (s.state i).running ≡ true = ground (arith, own_running i) in
      if_elim AllPlaces ((s.state n).running)
        (λ r.
          goto-Places inv i (check rest) (dist.1) (λ m k. ground arith) (ground arith)
            (λ k l. ground arith) (λ k. ground arith) (λ k. mine) (λ m k. absurd (ground arith)))
        (λ r.
          goto-Places inv i (wake_up n rest) dist (λ m k. ground arith) (ground arith)
            (λ k l. ground arith) (λ k. ground arith) (λ k. mine) (λ m k l. ground arith))
  waker-Places i (wake_up n rest) e =
      if_elim AllPlaces (is_waiting (s.state n))
        (λ k.
          turn s inv i (wake_up n rest) (set_wakeup n rest) e refl refl refl refl refl (λ m. refl))
        (λ k.
          goto-Places inv i failed tt (λ m l. absurd (ground arith)) (ground arith)
            (λ l m. ground arith) (λ l. ground arith) (λ l. ground arith)
            (λ m l. absurd (ground arith)))
  waker-Places i (set_wakeup n rest) e =
      let (ne, w) = woken s inv i n (rw e (ground arith)) in
      set_state-Places
        (turn s inv i (set_wakeup n rest) (read_running n rest) e refl refl refl refl refl
          (λ m. refl))
        n (record urcu_wait_waiting { wakeup = true }) (λ k. refl) (λ j k. refl)
        (λ k. absurd (ground arith)) (λ k. absurd (ground arith))
  waker-Places i (read_running n rest) e =
      if_elim AllPlaces ((s.state n).running)
        (λ k.
          turn s inv i (read_running n rest) (set_teardown n rest) e refl refl refl refl refl
            (λ m. refl))
        (λ k.
          turn s inv i (read_running n rest) (futex_wake n rest) e refl refl refl refl refl
            (λ m. refl))
  waker-Places i (futex_wake n rest) e =
      let (ne, w) = woken s inv i n (rw e (ground arith)) in
      let on : (s' : System)
          → AllPlaces s'
          → s'.pc i ≡ futex_wake n rest
          → AllPlaces (goto i (set_teardown n rest) s') =
        λ s' inv' e'.
          turn s' inv' i (futex_wake n rest) (set_teardown n rest) e' refl refl refl refl refl
            (λ m. refl) in
      if_elim (λ s'. AllPlaces (goto i (set_teardown n rest) s')) (is_asleep (s.pc n))
        (λ k.
          let (wn, (bn, ln)) = is_asleep-waits (s.pc n) k in
          on (goto n set_running s)
            (goto-Places inv n set_running tt (λ m l. absurd (ground arith)) (sym ln)
              (λ l m. ground arith) (λ l. ground arith) (λ l. ground arith)
              (λ m l. absurd (ground arith)))
            (ground arith))
        (λ k. on s inv e)
  waker-Places i (set_teardown n rest) e =
      let (ne, w) = woken s inv i n (rw e (ground arith)) in
      let here : has n (batch (s.pc i)) ≡ true = rw e (ground arith) in
      let dist : Distinct (n ∷ rest) =
        subst (λ (p : Pc). Distinct (batch p)) e (batch_distinct i) in
      set_state-Places
        (goto-Places inv i (check rest) (dist.1) (λ m k. ground arith) (ground arith)
          (λ k l. ground arith) (λ k. ground arith) (λ k. ground (arith, own_running i))
          (λ m k. absurd (ground arith)))
        n (record (s.state n) { teardown = true }) (λ k. absurd (ground (arith, apart n i)))
        (λ j.
          update_elim (λ q. has n (batch q) ≡ true → true ≡ false) s.pc i (check rest) j
            (λ f k. ground arith) (λ f k. ground (arith, led n i, led n j)))
        (λ k. absurd (ground arith)) (λ k. absurd (ground arith))
  waker-Places i _ e = inv

  waiter-Places : (i : ℕ) (p : Pc) → s.pc i ≡ p → AllPlaces (waiter_at i p s)
  unfolding waiter_at
  waiter-Places i (spin k) e =
      if_elim AllPlaces (is_waiting (s.state i))
        (λ w.
          if_elim AllPlaces (ltb (k + 1) urcu_wait_attempts)
            (λ l. stay s inv i (spin k) (spin (k + 1)) e refl refl)
            (λ l. stay s inv i (spin k) futex_wait e refl refl))
        (λ w. stay s inv i (spin k) set_running e refl refl)
  waiter-Places i futex_wait e =
      if_elim AllPlaces (is_waiting (s.state i)) (λ w. stay s inv i futex_wait asleep e refl refl)
        (λ w. stay s inv i futex_wait set_running e refl refl)
  waiter-Places i set_running e =
      set_state-Places (stay s inv i set_running await_teardown e refl refl) i
        (record (s.state i) { running = true }) (λ k. queue_untorn i k)
        (λ j.
          update_elim (λ q. has i (batch q) ≡ true → (s.state i).teardown ≡ false) s.pc i
            await_teardown j (λ f k. ground arith) (λ f k. batch_untorn i j k))
        (λ k. absurd (ground arith)) (λ k. absurd (ground arith))
  waiter-Places i await_teardown e =
      if_elim AllPlaces ((s.state i).teardown)
        (λ t.
          goto-Places inv i done tt (λ m l. absurd (ground arith)) (rw e refl) (λ l m. t)
            (λ l. absurd (ground arith)) (λ l. absurd (ground arith))
            (λ m l. absurd (ground arith)))
        (λ t. inv)
  waiter-Places i _ e = inv

  leader-Places : (i : ℕ) (p : Pc) → s.pc i ≡ p → AllPlaces (leader_at i p s)
  unfolding leader_at
  leader-Places i lead e =
      let told =
        set_state-Places inv i (record urcu_wait_waiting { running = true }) (λ k. refl)
          (λ j k. refl) (λ k. absurd (ground arith)) (λ k. refl) in
      goto-Places told i lock tt (λ m k. absurd (ground arith)) (rw e refl)
        (λ k l. absurd (ground arith)) (λ k. absurd (ground arith)) (λ k. ground arith)
        (λ m k. absurd (ground arith))
  leader-Places i lock e =
      if_elim AllPlaces s.locked (λ l. inv)
        (λ l. turn s inv i lock move e refl refl refl refl refl (λ m. refl))
  leader-Places i move e = move-Places inv i e
  leader-Places i (start l) e =
      turn s inv i (start l) (grace l) e refl refl refl refl refl (λ m. refl)
  leader-Places i (grace l) e =
      turn s inv i (grace l) (check l) e refl refl refl refl refl (λ m. refl)
  leader-Places i _ e = inv

pub Step-Places : {s t : System} → AllPlaces s → Step s t → AllPlaces t
unfolding add_at
Step-Places {s} inv (Step.call i e) =
    let new =
      set_state-Places inv i urcu_wait_waiting (λ k. refl) (λ j k. refl) (λ k. refl)
        (λ k. absurd (ground arith)) in
    goto-Places new i add tt (λ m k. absurd (ground arith)) (rw e refl)
      (λ k l. absurd (ground arith)) (λ k. ground arith) (λ k. absurd (ground arith))
      (λ m k. absurd (ground arith))
Step-Places {s} inv (Step.enqueue i e) = add-Places inv i e
Step-Places {s} inv (Step.leader_step i) = leader-Places s inv i (s.pc i) refl
Step-Places {s} inv (Step.waker_step i) = waker-Places s inv i (s.pc i) refl
Step-Places {s} inv (Step.waiter_step i) = waiter-Places s inv i (s.pc i) refl
Step-Places {s} inv (Step.interrupted i e) = stay s inv i asleep futex_wait e refl refl
Step-Places {s} inv (Step.return i e) =
    goto-Places inv i idle tt (λ m k. absurd (ground arith)) (rw e refl)
      (λ k l. absurd (ground arith)) (λ k. absurd (ground arith)) (λ k. absurd (ground arith))
      (λ m k. absurd (ground arith))

pub WeakReachable-Places : {s : System} → WeakReachable s → AllPlaces s
WeakReachable-Places begins = record {
  queue_distinct = tt;
  batch_distinct = λ i. tt;
  queued = λ n k. absurd (ground arith);
  apart = λ n i k. refl;
  leads_it = λ i k. absurd (ground arith);
  one = λ i j k l. absurd (ground arith);
  batched = λ n i k l. absurd (ground arith);
  led = λ n i k. absurd (ground arith);
  queue_untorn = λ n k. refl;
  batch_untorn = λ n i k. refl;
  added = λ i k. refl;
  own_running = λ i k. absurd (ground arith);
  not_own = λ i n k. absurd (ground arith);
}
WeakReachable-Places (then_weak r (WeakStep.exact st)) = Step-Places (WeakReachable-Places r) st
WeakReachable-Places (then_weak {s = s} r (WeakStep.spurious i e)) =
    stay s (WeakReachable-Places r) i asleep set_running e refl refl

pub Reachable-Places : {s : System} → Reachable s → AllPlaces s
Reachable-Places r = WeakReachable-Places (weaken r)
