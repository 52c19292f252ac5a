-- ===== src/Batch/Sleep/Leader.antt =====
-- The steps of a waiter and of a leader.

use liburcu.Prelude.{
  ℕ, ◌+◌, ◌≡◌, ◌≢◌, refl, Bool-cases, inl, inr, true, false, ◌||◌, [], ◌∷◌, has, update,
  update_elim, if_elim, ltb, is_empty, arith, if◌then◌else◌,
}
use liburcu.Batch.System.{
  System, WaitState, Pc, add, lead, lock, move, start, grace, check, spin, futex_wait, asleep,
  set_running, await_teardown, done, urcu_wait_waiting, urcu_wait_attempts, is_waiting, is_asleep,
  waiter_at, leader_at,
}
use liburcu.Batch.Places.{waits, leads_queue, wakes_member}
use liburcu.Batch.Steps.{AllPlaces}
use liburcu.Batch.Sleep.{
  Sleep, unwoken, tells, fails, unset, to_wake, has_set, first_in, set_state-Sleep,
}
use liburcu.Batch.Sleep.Turns.{
  batch-unset, has_set_wakes, running_not_waiting, AllSleep, lead_on, stay-Sleep,
}

module _ (s : System) (places : AllPlaces s) (inv : AllSleep s) where
  open inv use {queue_waiting, unset_waiting, resumed, ran, woke}
  open places use {batch_distinct, apart, batched, led, queued, own_running, not_own, added}

  pub waiter-Sleep : (i : ℕ) (p : Pc) → s.pc i ≡ p → AllSleep (waiter_at i p s)
  unfolding waiter_at
  waiter-Sleep i (spin k) e =
      if_elim AllSleep (is_waiting (s.state i))
        (λ w.
          if_elim AllSleep (ltb (k + 1) urcu_wait_attempts)
            (λ l.
              stay-Sleep s inv i (spin k) (spin (k + 1)) e refl refl (λ m. absurd (ground arith))
                (λ m. absurd (ground arith))
                (λ m. absurd (ground (arith, running_not_waiting (s.state i)))))
            (λ l.
              stay-Sleep s inv i (spin k) futex_wait e refl refl (λ m. absurd (ground arith))
                (λ m. absurd (ground arith))
                (λ m. absurd (ground (arith, running_not_waiting (s.state i))))))
        (λ w.
          stay-Sleep s inv i (spin k) set_running e refl refl (λ m. w) (λ m. absurd (ground arith))
            (λ m. absurd (ground (arith, ran i))))
  waiter-Sleep i futex_wait e =
      if_elim AllSleep (is_waiting (s.state i))
        (λ w.
          stay-Sleep s inv i futex_wait asleep e refl refl (λ m. absurd (ground arith)) (λ m. w)
            (λ m. absurd (ground (arith, running_not_waiting (s.state i)))))
        (λ w.
          stay-Sleep s inv i futex_wait set_running e refl refl (λ m. w)
            (λ m. absurd (ground arith)) (λ m. absurd (ground (arith, ran i))))
  waiter-Sleep i set_running e =
      let told : is_waiting (s.state i) ≡ false = resumed i (rw e refl) (rw e refl) in
      let on =
        stay-Sleep s inv i set_running await_teardown e refl refl (λ m. told)
          (λ m. absurd (ground arith)) (λ m. refl) in
      set_state-Sleep on i (record (s.state i) { running = true })
        (λ k w. absurd (ground (arith, queue_waiting i)))
        (λ j.
          update_elim
            (λ q.
              has i (unset q) ≡ true
              → i ≢ j
              → is_waiting (record (s.state i) { running = true }) ≡ true)
            s.pc i await_teardown j (λ f k. absurd (ground arith))
            (λ f k g. absurd (ground (arith, unset_waiting i j k g))))
        (λ k l. ground arith) (λ k l. absurd (ground arith)) (λ k l. ground arith)
        (λ j k. on.woke i j k)
  waiter-Sleep i await_teardown e =
      if_elim AllSleep ((s.state i).teardown)
        (λ t.
          lead_on s inv i await_teardown done e refl refl refl (λ n k. absurd (ground arith))
            (λ n ne k. absurd (ground arith)) (λ n k. absurd (ground arith)))
        (λ t. inv)
  waiter-Sleep i _ e = inv

  -- A thread that neither waits nor is on a list has a word that none of this is about.
  pub own-Sleep :
      (i : ℕ) (w : WaitState)
      → waits (s.pc i) ≡ false
      → Sleep s.queue (update s.state i w) s.pc s.leader
  own-Sleep i w no_wait =
      set_state-Sleep inv i w (λ k l. absurd (ground arith))
        (λ j k ne. absurd (ground (arith, batched i j (batch-unset (s.pc j) i k) ne)))
        (λ k. absurd (ground arith)) (λ k. absurd (ground arith)) (λ k. absurd (ground arith))
        (λ j k. absurd (
          let wk = has_set_wakes (s.pc j) i k in
          ground (arith, batched i j (wakes_member (s.pc j) i wk) (not_own j i wk))))

  pub move-Sleep :
      (i : ℕ)
      → s.pc i ≡ move
      → Sleep [] s.state
          (update s.pc i (start s.queue))
          (λ n. if has n s.queue then i else s.leader n)
  move-Sleep i e = record {
    queue_waiting = λ n k. absurd (ground arith);
    unset_waiting = λ n j.
        update_elim (λ q. has n (unset q) ≡ true → n ≢ j → is_waiting (s.state n) ≡ true) s.pc i
          (start s.queue) j
          (λ f k ne. queue_waiting n k (ground (arith, queued n k, places.one n i)))
          (λ f. unset_waiting n j);
    resumed = λ n.
        update_elim (λ q. waits q ≡ true → unwoken q ≡ false → is_waiting (s.state n) ≡ false) s.pc
          i (start s.queue) n (λ f k. absurd (ground arith)) (λ f. resumed n);
    asleep_listed = λ n.
        update_elim
          (λ q.
            is_asleep q ≡ true
            → has n
                (to_wake (update s.pc i (start s.queue) (if has n s.queue then i else s.leader n)))
              ≡ true)
          s.pc i (start s.queue) n (λ f k. absurd (ground arith))
          (λ f k. moved n (inv.asleep_listed n k));
    waiting_listed = λ n.
        update_elim
          (λ q.
            waits q ≡ true
            → is_waiting (s.state n) ≡ true
            → has n
                (to_wake (update s.pc i (start s.queue) (if has n s.queue then i else s.leader n)))
              ≡ true)
          s.pc i (start s.queue) n (λ f k. absurd (ground arith))
          (λ f k l. moved n (inv.waiting_listed n k l));
    ran = λ n.
        update_elim (λ q. waits q ≡ true → (s.state n).running ≡ true → tells q ≡ true) s.pc i
          (start s.queue) n (λ f k. absurd (ground arith)) (λ f. ran n);
    woke = λ n j.
        update_elim (λ q. has_set q n ≡ true → (s.state n).wakeup ≡ true) s.pc i (start s.queue) j
          (λ f k. absurd (ground arith)) (λ f. woke n j);
    unfailed = λ j.
        update_elim (λ q. fails q ≡ false) s.pc i (start s.queue) j (λ f. refl)
          (λ f. inv.unfailed j);
    led_by = λ k. absurd (ground arith);
  }
    where
      moved :
          (n : ℕ)
          → (has n s.queue || has n (to_wake (s.pc (s.leader n)))) ≡ true
          → has n
              (to_wake (update s.pc i (start s.queue) (if has n s.queue then i else s.leader n)))
            ≡ true
      moved n k = elim (Bool-cases (has n s.queue)) [
        | inl m ↦ rw m (
            update_elim (λ q. has n (to_wake q) ≡ true) s.pc i (start s.queue) i (λ f. m)
              (λ f. absurd (f refl)))
        | inr m ↦ rw m (
            update_elim (λ q. has n (to_wake q) ≡ true) s.pc i (start s.queue) (s.leader n)
              (λ f. absurd (ground arith)) (λ f. ground arith))
      ]

  pub leader-Sleep : (i : ℕ) (p : Pc) → s.pc i ≡ p → AllSleep (leader_at i p s)
  unfolding leader_at
  leader-Sleep i lead e =
      let w : WaitState = record urcu_wait_waiting { running = true } in
      lead_on (record s { state = update s.state i w }) (own-Sleep i w (rw e refl)) i lead lock e
        refl refl refl (λ n k. absurd (ground arith)) (λ n ne k. absurd (ground arith))
        (λ n k. absurd (ground arith))
  leader-Sleep i lock e =
      if_elim AllSleep s.locked (λ l. inv)
        (λ l.
          lead_on s inv i lock move e refl refl refl (λ n k. absurd (ground arith))
            (λ n ne k. absurd (ground arith)) (λ n k. absurd (ground arith)))
  leader-Sleep i move e = move-Sleep i e
  leader-Sleep i (start l) e =
      lead_on s inv i (start l) (grace l) e refl refl refl (λ n k. k)
        (λ n ne k w m. absurd (ground arith)) (λ n k. absurd (ground arith))
  leader-Sleep i (grace l) e =
      lead_on s inv i (grace l) (check l) e refl refl refl (λ n k. k)
        (λ n ne k w m. absurd (ground arith)) (λ n k. absurd (ground arith))
  leader-Sleep i _ e = inv

  -- urcu_wait_add, where the node finds the queue.
  pub join-Sleep :
      (i : ℕ) (p : Pc)
      → s.pc i ≡ add
      → unset p ≡ []
      → (waits p ≡ true → unwoken p ≡ true)
      → ((n : ℕ) → has_set p n ≡ false)
      → fails p ≡ false
      → leads_queue p ≡ is_empty s.queue
      → Sleep (i ∷ s.queue) s.state (update s.pc i p) s.leader
  join-Sleep i p e u un st fa lq =
      let fresh_word : s.state i ≡ urcu_wait_waiting = added i (rw e refl) in
      let listed : (n : ℕ)
          → (has n s.queue || has n (to_wake (s.pc (s.leader n)))) ≡ true
          → (has n (i ∷ s.queue) || has n (to_wake (update s.pc i p (s.leader n)))) ≡ true =
        λ n k.
          update_elim (λ q. (has n (i ∷ s.queue) || has n (to_wake q)) ≡ true) s.pc i p (s.leader n)
            (λ f. ground arith) (λ f. ground arith) in
      record {
        queue_waiting = λ n k.
            update_elim (λ q. waits q ≡ true → is_waiting (s.state n) ≡ true) s.pc i p n
              (λ f l. rw (f, fresh_word) refl) (λ f. queue_waiting n (ground arith));
        unset_waiting = λ n j.
            update_elim (λ q. has n (unset q) ≡ true → n ≢ j → is_waiting (s.state n) ≡ true) s.pc i
              p j (λ f k. absurd (ground arith)) (λ f. unset_waiting n j);
        resumed = λ n.
            update_elim (λ q. waits q ≡ true → unwoken q ≡ false → is_waiting (s.state n) ≡ false)
              s.pc i p n (λ f k l. absurd (ground arith)) (λ f. resumed n);
        asleep_listed = λ n.
            update_elim
              (λ q.
                is_asleep q ≡ true
                → (has n (i ∷ s.queue) || has n (to_wake (update s.pc i p (s.leader n)))) ≡ true)
              s.pc i p n (λ f k. ground arith) (λ f k. listed n (inv.asleep_listed n k));
        waiting_listed = λ n.
            update_elim
              (λ q.
                waits q ≡ true
                → is_waiting (s.state n) ≡ true
                → (has n (i ∷ s.queue) || has n (to_wake (update s.pc i p (s.leader n)))) ≡ true)
              s.pc i p n (λ f k l. ground arith) (λ f k l. listed n (inv.waiting_listed n k l));
        ran = λ n.
            update_elim (λ q. waits q ≡ true → (s.state n).running ≡ true → tells q ≡ true) s.pc i p
              n (λ f k l. absurd (ground arith)) (λ f. ran n);
        woke = λ n j.
            update_elim (λ q. has_set q n ≡ true → (s.state n).wakeup ≡ true) s.pc i p j
              (λ f k. absurd (ground (arith, st n))) (λ f. woke n j);
        unfailed =
            λ j. update_elim (λ q. fails q ≡ false) s.pc i p j (λ f. fa) (λ f. inv.unfailed j);
        led_by = λ k.
            update_elim (λ q. leads_queue q ≡ true) s.pc i p (first_in (i ∷ s.queue))
              (λ f. ground (arith, inv.led_by)) (λ f. ground (arith, inv.led_by));
      }
