-- ===== src/Batch/Sleep.antt =====
-- What a waiting thread finds in its wait node, and who will wake it up.
pub mod Turns
pub mod Waker
pub mod Leader
use liburcu.Prelude.{
  ℕ, ◌≡◌, ◌≢◌, sym, ◌∙◌, Bool, true, false, ◌||◌, List, [], ◌∷◌, ◌==◌, has, update, update_elim,
  is_empty, arith, if◌then◌else◌,
}
use liburcu.Batch.System.{
  WaitState, Pc, start, grace, check, wake_up, set_wakeup, read_running, futex_wake, set_teardown,
  spin, futex_wait, asleep, await_teardown, failed, is_waiting, is_asleep,
}
use liburcu.Batch.Places.{waits, leads_queue}

-- In urcu_adaptative_busy_wait before skip_futex_wait.
abbrev pub unwoken : Pc → Bool
unwoken (spin k) = true
unwoken futex_wait = true
unwoken asleep = true
unwoken _ = false

abbrev pub tells : Pc → Bool
tells await_teardown = true
tells _ = false

abbrev pub fails : Pc → Bool
fails failed = true
fails _ = false

-- The nodes of which a leader has not asserted yet that they wait.
abbrev pub unset : Pc → List ℕ
unset (start l) = l
unset (grace l) = l
unset (check l) = l
unset (wake_up n l) = n ∷ l
unset (set_wakeup n l) = l
unset (read_running n l) = l
unset (futex_wake n l) = l
unset (set_teardown n l) = l
unset _ = []

-- The nodes on which a leader may still call FUTEX_WAKE.
abbrev pub to_wake : Pc → List ℕ
to_wake (start l) = l
to_wake (grace l) = l
to_wake (check l) = l
to_wake (wake_up n l) = n ∷ l
to_wake (set_wakeup n l) = n ∷ l
to_wake (read_running n l) = n ∷ l
to_wake (futex_wake n l) = n ∷ l
to_wake (set_teardown n l) = l
to_wake _ = []

-- The node that a leader has set to URCU_WAIT_WAKEUP.
abbrev pub has_set : Pc → ℕ → Bool
has_set (read_running n l) m = n == m
has_set (futex_wake n l) m = n == m
has_set (set_teardown n l) m = n == m
has_set _ m = false

-- The first node that was pushed on the queue.
abbrev pub first_in : List ℕ → ℕ
first_in [] = 0
first_in (x ∷ xs) = if is_empty xs then x else first_in xs

pub record Sleep (queue : List ℕ) (state : ℕ → WaitState) (pc : ℕ → Pc) (leader : ℕ → ℕ)
    : Type 0 where
  pub queue_waiting :
      (n : ℕ) → has n queue ≡ true → waits (pc n) ≡ true → is_waiting (state n) ≡ true
  pub unset_waiting : (n i : ℕ) → has n (unset (pc i)) ≡ true → n ≢ i → is_waiting (state n) ≡ true
  pub resumed :
      (n : ℕ) → waits (pc n) ≡ true → unwoken (pc n) ≡ false → is_waiting (state n) ≡ false
  pub asleep_listed :
      (n : ℕ) → is_asleep (pc n) ≡ true → (has n queue || has n (to_wake (pc (leader n)))) ≡ true
  pub waiting_listed :
      (n : ℕ)
      → waits (pc n) ≡ true
      → is_waiting (state n) ≡ true
      → (has n queue || has n (to_wake (pc (leader n)))) ≡ true
  pub ran : (n : ℕ) → waits (pc n) ≡ true → (state n).running ≡ true → tells (pc n) ≡ true
  pub woke : (n i : ℕ) → has_set (pc i) n ≡ true → (state n).wakeup ≡ true
  pub unfailed : (i : ℕ) → fails (pc i) ≡ false
  pub led_by : is_empty queue ≡ false → leads_queue (pc (first_in queue)) ≡ true

asleep_waits : (p : Pc) → is_asleep p ≡ true → waits p ≡ true
asleep_waits p k = ground arith

module _ {queue : List ℕ} {state : ℕ → WaitState} {pc : ℕ → Pc} {leader : ℕ → ℕ}
    (inv : Sleep queue state pc leader) where
  open inv use {
    queue_waiting, unset_waiting, resumed, asleep_listed, waiting_listed, ran, woke, unfailed,
    led_by,
  }

  pub goto-Sleep :
      (i : ℕ) (p : Pc)
      → (waits p ≡ true → waits (pc i) ≡ true)
      → (waits p ≡ true → unwoken p ≡ false → is_waiting (state i) ≡ false)
      → ((n : ℕ) → has n (unset p) ≡ true → has n (unset (pc i)) ≡ true)
      → ((n : ℕ)
          → n ≢ i
          → has n (to_wake (pc i)) ≡ true
          → is_asleep (pc n) ≡ true
          → has n (to_wake p) ≡ true)
      → ((n : ℕ)
          → n ≢ i
          → has n (to_wake (pc i)) ≡ true
          → waits (pc n) ≡ true
          → is_waiting (state n) ≡ true
          → has n (to_wake p) ≡ true)
      → (waits p ≡ true → has i (to_wake (pc i)) ≡ false)
      → (is_asleep p ≡ true → (waits (pc i) ≡ true) × (is_waiting (state i) ≡ true))
      → (waits p ≡ true → (state i).running ≡ true → tells p ≡ true)
      → ((n : ℕ) → has_set p n ≡ true → (state n).wakeup ≡ true)
      → fails p ≡ false
      → leads_queue p ≡ leads_queue (pc i)
      → Sleep queue state (update pc i p) leader
  goto-Sleep i p w rs us aw ww ne sl rn wo fa lq =
      let listed : (n : ℕ)
          → (n ≢ i → has n (to_wake (pc i)) ≡ true → has n (to_wake p) ≡ true)
          → (n ≡ i → has n (to_wake (pc i)) ≡ false)
          → (has n queue || has n (to_wake (pc (leader n)))) ≡ true
          → (has n queue || has n (to_wake (update pc i p (leader n)))) ≡ true =
        λ n f g.
          update_elim
            (λ q.
              (has n queue || has n (to_wake (pc (leader n)))) ≡ true
              → (has n queue || has n (to_wake q)) ≡ true)
            pc i p (leader n) (λ e k. ground (arith, f, g)) (λ e k. k) in
      record {
        queue_waiting = λ n k.
            update_elim (λ q. waits q ≡ true → is_waiting (state n) ≡ true) pc i p n
              (λ e l. queue_waiting n k (rw e (w l))) (λ e. queue_waiting n k);
        unset_waiting = λ n j.
            update_elim (λ q. has n (unset q) ≡ true → n ≢ j → is_waiting (state n) ≡ true) pc i p j
              (λ e k f. unset_waiting n i (us n k) (λ g. f (ground arith)))
              (λ e. unset_waiting n j);
        resumed = λ n.
            update_elim (λ q. waits q ≡ true → unwoken q ≡ false → is_waiting (state n) ≡ false) pc
              i p n (λ e k l. rw e (rs k l)) (λ e. resumed n);
        asleep_listed = λ n.
            update_elim
              (λ q.
                is_asleep q ≡ true
                → (has n queue || has n (to_wake (update pc i p (leader n)))) ≡ true)
              pc i p n
              (λ e k.
                let wp = asleep_waits p k in
                listed n (λ f. absurd (f e)) (λ f. rw e (ne wp))
                  (waiting_listed n (rw e ((sl k).0)) (rw e ((sl k).1))))
              (λ e k. listed n (λ f l. aw n f l k) (λ f. absurd (e f)) (asleep_listed n k));
        waiting_listed = λ n.
            update_elim
              (λ q.
                waits q ≡ true
                → is_waiting (state n) ≡ true
                → (has n queue || has n (to_wake (update pc i p (leader n)))) ≡ true)
              pc i p n
              (λ e k l.
                listed n (λ f. absurd (f e)) (λ f. rw e (ne k)) (waiting_listed n (rw e (w k)) l))
              (λ e k l. listed n (λ f m. ww n f m k l) (λ f. absurd (e f)) (waiting_listed n k l));
        ran = λ n.
            update_elim (λ q. waits q ≡ true → (state n).running ≡ true → tells q ≡ true) pc i p n
              (λ e k l. rn k (rw (sym e) l)) (λ e. ran n);
        woke = λ n j.
            update_elim (λ q. has_set q n ≡ true → (state n).wakeup ≡ true) pc i p j (λ e. wo n)
              (λ e. woke n j);
        unfailed = λ j. update_elim (λ q. fails q ≡ false) pc i p j (λ e. fa) (λ e. unfailed j);
        led_by = λ k.
            update_elim (λ q. leads_queue q ≡ true) pc i p (first_in queue)
              (λ e. ground (arith, led_by k)) (λ e. led_by k);
      }

  pub set_state-Sleep :
      (n : ℕ) (w : WaitState)
      → (has n queue ≡ true → waits (pc n) ≡ true → is_waiting w ≡ true)
      → ((i : ℕ) → has n (unset (pc i)) ≡ true → n ≢ i → is_waiting w ≡ true)
      → (waits (pc n) ≡ true → unwoken (pc n) ≡ false → is_waiting w ≡ false)
      → (waits (pc n) ≡ true → is_waiting w ≡ true → is_waiting (state n) ≡ true)
      → (waits (pc n) ≡ true → w.running ≡ true → tells (pc n) ≡ true)
      → ((i : ℕ) → has_set (pc i) n ≡ true → w.wakeup ≡ true)
      → Sleep queue (update state n w) pc leader
  set_state-Sleep n w q u r b t h = record {
    queue_waiting = λ m k.
        update_elim (λ v. waits (pc m) ≡ true → is_waiting v ≡ true) state n w m
          (λ e l. q (rw (sym e) k) (rw (sym e) l)) (λ e. queue_waiting m k);
    unset_waiting = λ m i k f.
        update_elim (λ v. is_waiting v ≡ true) state n w m
          (λ e. u i (rw (sym e) k) (λ g. f (e ∙ g))) (λ e. unset_waiting m i k f);
    resumed = λ m k l.
        update_elim (λ v. is_waiting v ≡ false) state n w m (λ e. r (rw (sym e) k) (rw (sym e) l))
          (λ e. resumed m k l);
    asleep_listed = asleep_listed;
    waiting_listed = λ m k.
        update_elim
          (λ v. is_waiting v ≡ true → (has m queue || has m (to_wake (pc (leader m)))) ≡ true) state
          n w m (λ e l. waiting_listed m k (rw e (b (rw (sym e) k) l))) (λ e. waiting_listed m k);
    ran = λ m k.
        update_elim (λ v. v.running ≡ true → tells (pc m) ≡ true) state n w m
          (λ e l. rw e (t (rw (sym e) k) l)) (λ e. ran m k);
    woke = λ m i k.
        update_elim (λ v. v.wakeup ≡ true) state n w m (λ e. h i (rw (sym e) k)) (λ e. woke m i k);
    unfailed = unfailed;
    led_by = led_by;
  }
