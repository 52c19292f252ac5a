-- ===== src/Batch/Sleep/Turns.antt =====
-- A thread goes on, with the lists as they are.

use liburcu.Prelude.{ℕ, ◌≡◌, ◌≢◌, refl, sym, true, false, ◌||◌, has, arith}
use liburcu.Batch.System.{System, WaitState, Pc, is_waiting, is_asleep, goto}
use liburcu.Batch.Places.{waits, batch, wakes, leads_queue}
use liburcu.Batch.Sleep.{Sleep, unwoken, tells, fails, unset, to_wake, has_set, goto-Sleep}

abbrev pub AllSleep : System → Type 0
AllSleep s = Sleep s.queue s.state s.pc s.leader

pub waits_no_part :
    (p : Pc)
    → waits p ≡ true
    → (fails p ≡ false)
      × ((leads_queue p ≡ false)
          × (((n : ℕ) → has n (unset p) ≡ false)
              × (((n : ℕ) → has n (to_wake p) ≡ false) × ((n : ℕ) → has_set p n ≡ false))))
waits_no_part p w =
    (ground arith, (ground arith, (λ n. ground arith, (λ n. ground arith, λ n. ground arith))))

pub asleep_waits : (p : Pc) → is_asleep p ≡ true → waits p ≡ true
asleep_waits p k = ground arith

pub unwoken_tells : (p : Pc) → tells p ≡ true → is_asleep p ≡ false
unwoken_tells p k = ground arith

pub batch-to_wake : (p : Pc) (n : ℕ) → has n (to_wake p) ≡ true → has n (batch p) ≡ true
batch-to_wake p n k = ground arith

pub batch-unset : (p : Pc) (n : ℕ) → has n (unset p) ≡ true → has n (batch p) ≡ true
batch-unset p n k = ground arith

pub has_set_wakes : (p : Pc) (n : ℕ) → has_set p n ≡ true → wakes p n ≡ true
has_set_wakes p n k = ground arith

pub running_not_waiting : (w : WaitState) → w.running ≡ true → is_waiting w ≡ false
running_not_waiting w k = ground arith

pub wakeup_not_waiting : (w : WaitState) → w.wakeup ≡ true → is_waiting w ≡ false
wakeup_not_waiting w k = ground arith

module _ (s : System) (inv : AllSleep s) where
  open inv use {queue_waiting, unset_waiting, resumed, ran, woke}

  -- A thread that does not wait goes on.
  pub lead_on :
      (i : ℕ) (p p' : Pc)
      → s.pc i ≡ p
      → waits p' ≡ false
      → fails p' ≡ false
      → leads_queue p' ≡ leads_queue p
      → ((n : ℕ) → has n (unset p') ≡ true → has n (unset p) ≡ true)
      → ((n : ℕ)
          → n ≢ i
          → has n (to_wake p) ≡ true
          → waits (s.pc n) ≡ true
          → has n (to_wake p') ≡ false
          → (is_asleep (s.pc n) ≡ false) × (is_waiting (s.state n) ≡ false))
      → ((n : ℕ) → has_set p' n ≡ true → (s.state n).wakeup ≡ true)
      → AllSleep (goto i p' s)
  lead_on i p p' e w f l us dr st =
      let drop : (n : ℕ)
          → n ≢ i
          → has n (to_wake (s.pc i)) ≡ true
          → waits (s.pc n) ≡ true
          → (is_asleep (s.pc n) || is_waiting (s.state n)) ≡ true
          → has n (to_wake p') ≡ true =
        λ n ne k wn c. ground (arith, dr n ne (rw (sym e) k) wn) in
      goto-Sleep inv i p' (λ k. absurd (ground arith)) (λ k. absurd (ground arith))
        (λ n k. rw e (us n k)) (λ n ne k a. drop n ne k (asleep_waits (s.pc n) a) (rw a refl))
        (λ n ne k wn c. drop n ne k wn (ground arith)) (λ k. absurd (ground arith))
        (λ k. absurd (ground (arith, asleep_waits p' k))) (λ k. absurd (ground arith)) st f (rw e l)

  -- A thread goes on waiting.
  pub stay-Sleep :
      (i : ℕ) (p p' : Pc)
      → s.pc i ≡ p
      → waits p ≡ true
      → waits p' ≡ true
      → (unwoken p' ≡ false → is_waiting (s.state i) ≡ false)
      → (is_asleep p' ≡ true → is_waiting (s.state i) ≡ true)
      → ((s.state i).running ≡ true → tells p' ≡ true)
      → AllSleep (goto i p' s)
  stay-Sleep i p p' e w w' un sl rn =
      let (f', (l', (us', (tw', st')))) = waits_no_part p' w' in
      let (f, (l, (us, (tw, st)))) = waits_no_part p w in
      goto-Sleep inv i p' (λ k. rw e w) (λ k. un) (λ n k. absurd (ground (arith, us' n)))
        (λ n ne k a. absurd (ground (arith, tw n))) (λ n ne k wn c. absurd (ground (arith, tw n)))
        (λ k. rw e (tw i)) (λ k. (rw e w, sl k)) (λ k. rn) (λ n k. absurd (ground (arith, st' n)))
        f' (rw (e, l) l')
