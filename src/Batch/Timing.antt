-- ===== src/Batch/Timing.antt =====
-- Which grace periods have begun and ended by the time that a thread is woken up, or goes on alone.
use liburcu.Prelude.{
  ℕ, ◌+◌, ◌≡◌, ◌≢◌, ◌≤◌, ◌<◌, refl, sym, Bool, true, false, ◌||◌, List, has, update, update_elim,
  arith,
}
use liburcu.Batch.System.{
  WaitState, Pc, lock, move, start, grace, check, wake_up, set_wakeup, read_running, futex_wake,
  set_teardown, done,
}
use liburcu.Batch.Places.{waits, batch}

-- Holding the mutex of grace periods.
abbrev pub holds : Pc → Bool
holds move = true
holds (start l) = true
holds (grace l) = true
holds _ = false

abbrev pub in_grace : Pc → Bool
in_grace (grace l) = true
in_grace _ = false

-- In urcu_wake_all_waiters.
abbrev pub wakes_all : Pc → Bool
wakes_all (check l) = true
wakes_all (wake_up n l) = true
wakes_all (set_wakeup n l) = true
wakes_all (read_running n l) = true
wakes_all (futex_wake n l) = true
wakes_all (set_teardown n l) = true
wakes_all _ = false

abbrev pub returns : Pc → Bool
returns done = true
returns _ = false

pub record Timing (state : ℕ → WaitState) (pc : ℕ → Pc) (locked : Bool) (begun ended : ℕ)
    (called : ℕ → ℕ) : Type 0 where
  pub mutex : (i : ℕ) → holds (pc i) ≡ true → locked ≡ true
  pub exclusive : (i j : ℕ) → holds (pc i) ≡ true → holds (pc j) ≡ true → i ≡ j
  pub quiet : locked ≡ false → begun ≡ ended
  pub before : (i : ℕ) → holds (pc i) ≡ true → in_grace (pc i) ≡ false → begun ≡ ended
  pub during : (i : ℕ) → in_grace (pc i) ≡ true → begun ≡ ended + 1
  pub begun_since : (n : ℕ) → called n ≤ begun
  pub graced : (i : ℕ) → in_grace (pc i) ≡ true → called i < begun
  pub graced_batch :
      (i n : ℕ) → in_grace (pc i) ≡ true → has n (batch (pc i)) ≡ true → called n < begun
  pub served : (i : ℕ) → (wakes_all (pc i) || returns (pc i)) ≡ true → called i < ended
  pub served_batch :
      (i n : ℕ) → wakes_all (pc i) ≡ true → has n (batch (pc i)) ≡ true → called n < ended
  pub torn : (i : ℕ) → waits (pc i) ≡ true → (state i).teardown ≡ true → called i < ended

module _ {state : ℕ → WaitState} {pc : ℕ → Pc} {locked : Bool} {begun ended : ℕ} {called : ℕ → ℕ}
    (inv : Timing state pc locked begun ended called) where
  open inv use {
    mutex, exclusive, quiet, before, during, begun_since, graced, graced_batch, served,
    served_batch, torn,
  }

  -- A thread goes on within the same part of the call.
  pub goto-Timing :
      (i : ℕ) (p : Pc)
      → holds p ≡ holds (pc i)
      → in_grace p ≡ false
      → in_grace (pc i) ≡ false
      → ((wakes_all p || returns p) ≡ true → called i < ended)
      → ((n : ℕ) → wakes_all p ≡ true → has n (batch p) ≡ true → called n < ended)
      → (waits p ≡ true → (state i).teardown ≡ true → called i < ended)
      → Timing state (update pc i p) locked begun ended called
  goto-Timing i p h g g' se sb to = record {
    mutex = λ j.
        update_elim (λ q. holds q ≡ true → locked ≡ true) pc i p j (λ e k. mutex i (ground arith))
          (λ e. mutex j);
    exclusive = λ j k.
        update_elim (λ q. holds q ≡ true → holds (update pc i p k) ≡ true → j ≡ k) pc i p j
          (λ e.
            update_elim (λ q. holds p ≡ true → holds q ≡ true → j ≡ k) pc i p k (λ f. ground arith)
              (λ f. ground (arith, exclusive i k)))
          (λ e.
            update_elim (λ q. holds (pc j) ≡ true → holds q ≡ true → j ≡ k) pc i p k
              (λ f. ground (arith, exclusive j i)) (λ f. exclusive j k));
    quiet = quiet;
    before = λ j.
        update_elim (λ q. holds q ≡ true → in_grace q ≡ false → begun ≡ ended) pc i p j
          (λ e k l. before i (ground arith) g') (λ e. before j);
    during = λ j.
        update_elim (λ q. in_grace q ≡ true → begun ≡ ended + 1) pc i p j
          (λ e k. absurd (ground arith)) (λ e. during j);
    begun_since = begun_since;
    graced = λ j.
        update_elim (λ q. in_grace q ≡ true → called j < begun) pc i p j
          (λ e k. absurd (ground arith)) (λ e. graced j);
    graced_batch = λ j n.
        update_elim (λ q. in_grace q ≡ true → has n (batch q) ≡ true → called n < begun) pc i p j
          (λ e k. absurd (ground arith)) (λ e. graced_batch j n);
    served = λ j.
        update_elim (λ q. (wakes_all q || returns q) ≡ true → called j < ended) pc i p j
          (λ e k. rw (sym e) at (se k)) (λ e. served j);
    served_batch = λ j n.
        update_elim (λ q. wakes_all q ≡ true → has n (batch q) ≡ true → called n < ended) pc i p j
          (λ e. sb n) (λ e. served_batch j n);
    torn = λ j.
        update_elim (λ q. waits q ≡ true → (state j).teardown ≡ true → called j < ended) pc i p j
          (λ e. ground (arith, to)) (λ e. torn j);
  }

  pub set_state-Timing :
      (n : ℕ) (w : WaitState)
      → (waits (pc n) ≡ true → w.teardown ≡ true → called n < ended)
      → Timing (update state n w) pc locked begun ended called
  set_state-Timing n w t = record {
    mutex = mutex;
    exclusive = exclusive;
    quiet = quiet;
    before = before;
    during = during;
    begun_since = begun_since;
    graced = graced;
    graced_batch = graced_batch;
    served = served;
    served_batch = served_batch;
    torn = λ j.
        update_elim (λ v. waits (pc j) ≡ true → v.teardown ≡ true → called j < ended) state n w j
          (λ e. ground (arith, t)) (λ e. torn j);
  }

  -- The mutex is taken.
  pub lock-Timing :
      (i : ℕ)
      → pc i ≡ lock
      → locked ≡ false
      → Timing state (update pc i move) true begun ended called
  lock-Timing i e l = record {
    mutex = λ j k. refl;
    exclusive = λ j k.
        update_elim (λ q. holds q ≡ true → holds (update pc i move k) ≡ true → j ≡ k) pc i move j
          (λ e.
            update_elim (λ q. holds move ≡ true → holds q ≡ true → j ≡ k) pc i move k
              (λ f. ground arith) (λ f. ground (arith, mutex k)))
          (λ e. ground (arith, mutex j));
    quiet = λ k. absurd (ground arith);
    before = λ j. ground (arith, quiet l);
    during = λ j.
        update_elim (λ q. in_grace q ≡ true → begun ≡ ended + 1) pc i move j
          (λ e k. absurd (ground arith)) (λ e. during j);
    begun_since = begun_since;
    graced = λ j.
        update_elim (λ q. in_grace q ≡ true → called j < begun) pc i move j
          (λ e k. absurd (ground arith)) (λ e. graced j);
    graced_batch = λ j n.
        update_elim (λ q. in_grace q ≡ true → has n (batch q) ≡ true → called n < begun) pc i move j
          (λ e k. absurd (ground arith)) (λ e. graced_batch j n);
    served = λ j.
        update_elim (λ q. (wakes_all q || returns q) ≡ true → called j < ended) pc i move j
          (λ e k. absurd (ground arith)) (λ e. served j);
    served_batch = λ j n.
        update_elim (λ q. wakes_all q ≡ true → has n (batch q) ≡ true → called n < ended) pc i move
          j (λ e k. absurd (ground arith)) (λ e. served_batch j n);
    torn = λ j.
        update_elim (λ q. waits q ≡ true → (state j).teardown ≡ true → called j < ended) pc i move j
          (λ e k. absurd (ground arith)) (λ e. torn j);
  }

  -- A grace period begins.
  pub begin-Timing :
      (i : ℕ) (l : List ℕ)
      → pc i ≡ start l
      → Timing state (update pc i (grace l)) locked (begun + 1) ended called
  begin-Timing i l e = record {
    mutex = λ j.
        update_elim (λ q. holds q ≡ true → locked ≡ true) pc i (grace l) j
          (λ f k. mutex i (ground arith)) (λ f. mutex j);
    exclusive = λ j k.
        update_elim (λ q. holds q ≡ true → holds (update pc i (grace l) k) ≡ true → j ≡ k) pc i
          (grace l) j
          (λ f.
            update_elim (λ q. true ≡ true → holds q ≡ true → j ≡ k) pc i (grace l) k
              (λ g. ground arith) (λ g. ground (arith, exclusive i k)))
          (λ f.
            update_elim (λ q. holds (pc j) ≡ true → holds q ≡ true → j ≡ k) pc i (grace l) k
              (λ g. ground (arith, exclusive j i)) (λ g. exclusive j k));
    quiet = λ k. absurd (ground (arith, mutex i));
    before = λ j.
        update_elim (λ q. holds q ≡ true → in_grace q ≡ false → begun + 1 ≡ ended) pc i (grace l) j
          (λ f k m. absurd (ground arith)) (λ f k m. absurd (f (exclusive j i k (ground arith))));
    during = λ j k. ground (arith, before i);
    begun_since = λ n. ground (arith, begun_since n);
    graced = λ j k. ground (arith, begun_since j);
    graced_batch = λ j n k m. ground (arith, begun_since n);
    served = λ j.
        update_elim (λ q. (wakes_all q || returns q) ≡ true → called j < ended) pc i (grace l) j
          (λ f k. absurd (ground arith)) (λ f. served j);
    served_batch = λ j n.
        update_elim (λ q. wakes_all q ≡ true → has n (batch q) ≡ true → called n < ended) pc i
          (grace l) j (λ f k. absurd (ground arith)) (λ f. served_batch j n);
    torn = λ j.
        update_elim (λ q. waits q ≡ true → (state j).teardown ≡ true → called j < ended) pc i
          (grace l) j (λ f k. absurd (ground arith)) (λ f. torn j);
  }

  -- A grace period ends, and the mutex is given back.
  pub end-Timing :
      (i : ℕ) (l : List ℕ)
      → pc i ≡ grace l
      → Timing state (update pc i (check l)) false begun (ended + 1) called
  end-Timing i l e =
      let now : begun ≡ ended + 1 = during i (ground arith) in
      let alone : (j : ℕ) → j ≢ i → holds (pc j) ≡ false = λ j f. ground (arith, exclusive j i) in
      let free : (j : ℕ) → holds (update pc i (check l) j) ≡ false =
        λ j. update_elim (λ q. holds q ≡ false) pc i (check l) j (λ f. refl) (alone j) in
      record {
        mutex = λ j k. absurd (ground (arith, free j));
        exclusive = λ j m k. absurd (ground (arith, free j));
        quiet = λ k. now;
        before = λ j k. absurd (ground (arith, free j));
        during = λ j.
            update_elim (λ q. in_grace q ≡ true → begun ≡ (ended + 1) + 1) pc i (check l) j
              (λ f k. absurd (ground arith)) (λ f k. absurd (ground (arith, alone j f)));
        begun_since = begun_since;
        graced = λ j.
            update_elim (λ q. in_grace q ≡ true → called j < begun) pc i (check l) j
              (λ f k. absurd (ground arith)) (λ f. graced j);
        graced_batch = λ j n.
            update_elim (λ q. in_grace q ≡ true → has n (batch q) ≡ true → called n < begun) pc i
              (check l) j (λ f k. absurd (ground arith)) (λ f. graced_batch j n);
        served = λ j.
            update_elim (λ q. (wakes_all q || returns q) ≡ true → called j < ended + 1) pc i
              (check l) j (λ f k. ground (arith, graced i)) (λ f k. ground (arith, served j));
        served_batch = λ j n.
            update_elim (λ q. wakes_all q ≡ true → has n (batch q) ≡ true → called n < ended + 1) pc
              i (check l) j (λ f k m. ground (arith, graced_batch i n))
              (λ f k m. ground (arith, served_batch j n));
        torn = λ j.
            update_elim (λ q. waits q ≡ true → (state j).teardown ≡ true → called j < ended + 1) pc
              i (check l) j (λ f k. absurd (ground arith)) (λ f k m. ground (arith, torn j));
      }
