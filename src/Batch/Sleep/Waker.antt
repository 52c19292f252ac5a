-- ===== src/Batch/Sleep/Waker.antt =====
-- The steps of urcu_wake_all_waiters.
use mathlib.Core.Path.{subst}
use liburcu.Prelude.{
  Distinct, ℕ, ◌≡◌, ◌≢◌, refl, sym, ◌∙◌, Bool-cases, inl, inr, true, false, List, [], ◌∷◌, has,
  update, update_elim, if_elim, arith,
}
use liburcu.Batch.System.{
  System, WaitState, Pc, check, wake_up, set_wakeup, read_running, futex_wake, set_teardown,
  set_running, done, urcu_wait_waiting, is_waiting, is_asleep, goto, waker_at, wake_sleeper,
}
use liburcu.Batch.Places.{waits, batch, wakes, wakes_member}
use liburcu.Batch.Steps.{AllPlaces}
use liburcu.Batch.Sleep.{unset, set_state-Sleep}
use liburcu.Batch.Sleep.Turns.{
  asleep_waits, unwoken_tells, batch-unset, running_not_waiting, wakeup_not_waiting, AllSleep,
  lead_on, stay-Sleep,
}

module _ (s : System) (places : AllPlaces s) (inv : AllSleep s) where
  open inv use {queue_waiting, unset_waiting, resumed, ran, woke}
  open places use {batch_distinct, apart, batched, led, queued, own_running, not_own, added}

  pub runs :
      (m n : ℕ)
      → waits (s.pc m) ≡ true
      → m ≡ n
      → (s.state n).running ≡ true
      → (is_asleep (s.pc m) ≡ false) × (is_waiting (s.state m) ≡ false)
  runs m n w e r =
      let here : (s.state m).running ≡ true = rw e r in
      (unwoken_tells (s.pc m) (ran m w here), running_not_waiting (s.state m) here)

  -- A node that a leader wakes up is on no other list.
  pub elsewhere :
      (i n j : ℕ)
      → wakes (s.pc i) n ≡ true
      → {rest : List ℕ} → has n rest ≡ false
      → unset (s.pc i) ≡ rest
      → has n (unset (s.pc j)) ≡ false
  elsewhere i n j k {rest} off e = elim (Bool-cases (has n (unset (s.pc j)))) [
    | inl m ↦
        let here = led n i (wakes_member (s.pc i) n k) in
        let there = led n j (batch-unset (s.pc j) n m) in
        let same : j ≡ i = sym there ∙ here in rw (same, e) off
    | inr m ↦ m
  ]

  pub waker-Sleep : (i : ℕ) (p : Pc) → s.pc i ≡ p → AllSleep (waker_at i p s)
  unfolding waker_at wake_sleeper
  waker-Sleep i (check []) e =
      lead_on s inv i (check []) done e refl refl refl (λ n k. absurd (ground arith))
        (λ n ne k. absurd (ground arith)) (λ n k. absurd (ground arith))
  waker-Sleep i (check (n ∷ rest)) e =
      if_elim AllSleep ((s.state n).running)
        (λ r.
          lead_on s inv i (check (n ∷ rest)) (check rest) e refl refl refl (λ m k. ground arith)
            (λ m ne k w l. runs m n w (ground arith) r) (λ m k. absurd (ground arith)))
        (λ r.
          lead_on s inv i (check (n ∷ rest)) (wake_up n rest) e refl refl refl (λ m k. k)
            (λ m ne k w l. absurd (ground arith)) (λ m k. absurd (ground arith)))
  waker-Sleep i (wake_up n rest) e =
      if_elim AllSleep (is_waiting (s.state n))
        (λ r.
          lead_on s inv i (wake_up n rest) (set_wakeup n rest) e refl refl refl
            (λ m k. ground arith) (λ m ne k w l. absurd (ground arith))
            (λ m k. absurd (ground arith)))
        (λ r. absurd (
          ground
            (arith, unset_waiting n i (rw e (ground arith)) (not_own i n (rw e (ground arith))))))
  waker-Sleep i (set_wakeup n rest) e =
      let here : wakes (s.pc i) n ≡ true = rw e (ground arith) in
      let ne = not_own i n here in
      let off : has n rest ≡ false =
        (subst (λ (p : Pc). Distinct (batch p)) e (batch_distinct i)).0 in
      let w : WaitState = record urcu_wait_waiting { wakeup = true } in
      let told =
        set_state-Sleep inv n w
          (λ k. absurd (ground (arith, apart n i k, wakes_member (s.pc i) n here)))
          (λ j k f. absurd (ground (arith, elsewhere i n j here off (rw e refl)))) (λ k l. refl)
          (λ k l. absurd (ground arith)) (λ k l. absurd (ground arith)) (λ j k. refl) in
      lead_on (record s { state = update s.state n w }) told i (set_wakeup n rest)
        (read_running n rest) e refl refl refl (λ m k. k) (λ m ne k w l. absurd (ground arith))
        (λ m k. ground arith)
  waker-Sleep i (read_running n rest) e =
      if_elim AllSleep ((s.state n).running)
        (λ r.
          lead_on s inv i (read_running n rest) (set_teardown n rest) e refl refl refl (λ m k. k)
            (λ m ne k w l. runs m n w (ground arith) r) (λ m k. woke m i (rw e k)))
        (λ r.
          lead_on s inv i (read_running n rest) (futex_wake n rest) e refl refl refl (λ m k. k)
            (λ m ne k w l. absurd (ground arith)) (λ m k. woke m i (rw e k)))
  waker-Sleep i (futex_wake n rest) e =
      let here : wakes (s.pc i) n ≡ true = rw e (ground arith) in
      let ne = not_own i n here in
      let set : (s.state n).wakeup ≡ true = woke n i (rw e (ground arith)) in
      if_elim (λ s'. AllSleep (goto i (set_teardown n rest) s')) (is_asleep (s.pc n))
        (λ k.
          lead_on (goto n set_running s)
            (stay-Sleep s inv n (s.pc n) set_running refl (asleep_waits (s.pc n) k) refl
              (λ l. wakeup_not_waiting (s.state n) set) (λ l. absurd (ground arith))
              (λ l.
                absurd (ground (arith, unwoken_tells (s.pc n), ran n (asleep_waits (s.pc n) k)))))
            i (futex_wake n rest) (set_teardown n rest) (ground arith) refl refl refl (λ m l. l)
            (λ m mi l w off.
              let m_is : m ≡ n = ground arith in
              (rw m_is (ground arith), rw m_is (wakeup_not_waiting (s.state n) set)))
            (λ m l. woke m i (rw e l)))
        (λ k.
          lead_on s inv i (futex_wake n rest) (set_teardown n rest) e refl refl refl (λ m l. l)
            (λ m mi l w off.
              let m_is : m ≡ n = ground arith in
              (rw m_is k, rw m_is (wakeup_not_waiting (s.state n) set)))
            (λ m l. woke m i (rw e l)))
  waker-Sleep i (set_teardown n rest) e =
      let here : wakes (s.pc i) n ≡ true = rw e (ground arith) in
      let ne = not_own i n here in
      let off : has n rest ≡ false =
        (subst (λ (p : Pc). Distinct (batch p)) e (batch_distinct i)).0 in
      let on =
        lead_on s inv i (set_teardown n rest) (check rest) e refl refl refl (λ m k. k)
          (λ m mi k w l. absurd (ground arith)) (λ m k. absurd (ground arith)) in
      set_state-Sleep on n (record (s.state n) { teardown = true })
        (λ k. absurd (ground (arith, apart n i k, wakes_member (s.pc i) n here)))
        (λ j.
          update_elim
            (λ q.
              has n (unset q) ≡ true
              → n ≢ j
              → is_waiting (record (s.state n) { teardown = true }) ≡ true)
            s.pc i (check rest) j (λ f k g. absurd (ground arith))
            (λ f k g. absurd (ground (arith, elsewhere i n j here off (rw e refl)))))
        (λ k l. ground arith) (λ k l. absurd (ground arith)) (λ k l. on.ran n k l)
        (λ j k. on.woke n j k)
  waker-Sleep i _ e = inv
