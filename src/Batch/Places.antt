-- ===== src/Batch/Places.antt =====
-- src/urcu-wait.h: where the wait nodes of the threads in synchronize_rcu are.
pub mod Queue
use liburcu.Prelude.{
  ℕ, ◌≡◌, ◌≢◌, refl, Bool, true, false, ◌||◌, List, [], ◌∷◌, ◌==◌, is_empty, has, Distinct, update,
  if◌then◌else◌, update_elim, arith,
}
use liburcu.Batch.System.{
  WaitState, Pc, add, lead, lock, move, start, grace, check, wake_up, set_wakeup, read_running,
  futex_wake, set_teardown, spin, futex_wait, asleep, set_running, await_teardown,
  urcu_wait_waiting,
}

-- In urcu_adaptative_busy_wait.
abbrev pub waits : Pc → Bool
waits (spin k) = true
waits futex_wait = true
waits asleep = true
waits set_running = true
waits await_teardown = true
waits _ = false

-- The first in the queue, before it moves the waiters.
abbrev pub leads_queue : Pc → Bool
leads_queue lead = true
leads_queue lock = true
leads_queue move = true
leads_queue _ = false

-- The nodes that a leader may still touch.
abbrev pub batch : Pc → List ℕ
batch (start l) = l
batch (grace l) = l
batch (check l) = l
batch (wake_up n l) = n ∷ l
batch (set_wakeup n l) = n ∷ l
batch (read_running n l) = n ∷ l
batch (futex_wake n l) = n ∷ l
batch (set_teardown n l) = n ∷ l
batch _ = []

-- Behind its own urcu_wait_set_state.
abbrev pub has_led : Pc → Bool
has_led lock = true
has_led move = true
has_led (start l) = true
has_led (grace l) = true
has_led (check l) = true
has_led (wake_up n l) = true
has_led (set_wakeup n l) = true
has_led (read_running n l) = true
has_led (futex_wake n l) = true
has_led (set_teardown n l) = true
has_led _ = false

-- The node that a leader wakes up.
abbrev pub wakes : Pc → ℕ → Bool
wakes (wake_up n l) m = n == m
wakes (set_wakeup n l) m = n == m
wakes (read_running n l) m = n == m
wakes (futex_wake n l) m = n == m
wakes (set_teardown n l) m = n == m
wakes _ m = false

pub wakes_member : (p : Pc) (n : ℕ) → wakes p n ≡ true → has n (batch p) ≡ true
wakes_member p n k = ground arith

abbrev pub adds : Pc → Bool
adds add = true
adds _ = false

-- What an arrival finds: a queue that is empty makes it the leader.
abbrev pub arrival : Bool → Pc
arrival empty = if empty then lead else spin 0

pub arrival_facts :
    (b : Bool)
    → (batch (arrival b) ≡ [])
      × (((waits (arrival b) || leads_queue (arrival b)) ≡ true)
          × ((adds (arrival b) ≡ false)
              × ((has_led (arrival b) ≡ false)
                  × ((leads_queue (arrival b) ≡ b) × ((n : ℕ) → wakes (arrival b) n ≡ false)))))
arrival_facts true = (refl, (refl, (refl, (refl, (refl, λ n. refl)))))
arrival_facts false = (refl, (refl, (refl, (refl, (refl, λ n. refl)))))

pub no_members : (q : List ℕ) (n : ℕ) → is_empty q ≡ true → has n q ≡ false
no_members [] n e = refl
no_members (x ∷ xs) n e = absurd (ground arith)

pub record Places (queue : List ℕ) (state : ℕ → WaitState) (pc : ℕ → Pc) (leader : ℕ → ℕ)
    : Type 0 where
  pub queue_distinct : Distinct queue
  pub batch_distinct : (i : ℕ) → Distinct (batch (pc i))
  pub queued : (n : ℕ) → has n queue ≡ true → (waits (pc n) || leads_queue (pc n)) ≡ true
  pub apart : (n i : ℕ) → has n queue ≡ true → has n (batch (pc i)) ≡ false
  pub leads_it : (i : ℕ) → leads_queue (pc i) ≡ true → has i queue ≡ true
  pub one : (i j : ℕ) → leads_queue (pc i) ≡ true → leads_queue (pc j) ≡ true → i ≡ j
  pub batched : (n i : ℕ) → has n (batch (pc i)) ≡ true → n ≢ i → waits (pc n) ≡ true
  pub led : (n i : ℕ) → has n (batch (pc i)) ≡ true → leader n ≡ i
  pub queue_untorn : (n : ℕ) → has n queue ≡ true → (state n).teardown ≡ false
  pub batch_untorn : (n i : ℕ) → has n (batch (pc i)) ≡ true → (state n).teardown ≡ false
  pub added : (i : ℕ) → adds (pc i) ≡ true → state i ≡ urcu_wait_waiting
  pub own_running : (i : ℕ) → has_led (pc i) ≡ true → (state i).running ≡ true
  pub not_own : (i n : ℕ) → wakes (pc i) n ≡ true → n ≢ i

module _ {queue : List ℕ} {state : ℕ → WaitState} {pc : ℕ → Pc} {leader : ℕ → ℕ}
    (inv : Places queue state pc leader) where
  open inv use {
    queue_distinct, batch_distinct, queued, apart, leads_it, one, batched, led, queue_untorn,
    batch_untorn, added, own_running, not_own,
  }

  -- A thread goes on, with no more nodes in hand.
  pub goto-Places :
      (i : ℕ) (p : Pc)
      → Distinct (batch p)
      → ((n : ℕ) → has n (batch p) ≡ true → has n (batch (pc i)) ≡ true)
      → leads_queue p ≡ leads_queue (pc i)
      → (waits (pc i) ≡ true → waits p ≡ false → (state i).teardown ≡ true)
      → (adds p ≡ true → state i ≡ urcu_wait_waiting)
      → (has_led p ≡ true → (state i).running ≡ true)
      → ((n : ℕ) → wakes p n ≡ true → n ≢ i)
      → Places queue state (update pc i p) leader
  goto-Places i p dist less lq w ad run own = record {
    queue_distinct = queue_distinct;
    batch_distinct =
        λ j. update_elim (λ q. Distinct (batch q)) pc i p j (λ e. dist) (λ e. batch_distinct j);
    queued = λ n k.
        update_elim (λ q. (waits q || leads_queue q) ≡ true) pc i p n
          (λ e. ground (arith, queued i, queue_untorn i)) (λ e. queued n k);
    apart = λ n j k.
        update_elim (λ q. has n (batch q) ≡ false) pc i p j
          (λ e. ground (arith, apart n i k, less n)) (λ e. apart n j k);
    leads_it = λ j.
        update_elim (λ q. leads_queue q ≡ true → has j queue ≡ true) pc i p j
          (λ e k. ground (arith, leads_it i)) (λ e. leads_it j);
    one = λ j k.
        update_elim (λ q. leads_queue q ≡ true → leads_queue (update pc i p k) ≡ true → j ≡ k) pc i
          p j
          (λ e.
            update_elim (λ q. leads_queue p ≡ true → leads_queue q ≡ true → j ≡ k) pc i p k
              (λ f. ground arith) (λ f. ground (arith, one i k)))
          (λ e.
            update_elim (λ q. leads_queue (pc j) ≡ true → leads_queue q ≡ true → j ≡ k) pc i p k
              (λ f. ground (arith, one j i)) (λ f. one j k));
    batched = λ n j.
        update_elim (λ q. has n (batch q) ≡ true → n ≢ j → waits (update pc i p n) ≡ true) pc i p j
          (λ e. λ k ne.
            update_elim (λ q. waits q ≡ true) pc i p n (λ f. ground arith)
              (λ f. batched n i (less n k) f))
          (λ e k ne.
            update_elim (λ q. waits q ≡ true) pc i p n
              (λ f. ground (arith, batched i j, batch_untorn i j)) (λ f. batched n j k ne));
    led = λ n j.
        update_elim (λ q. has n (batch q) ≡ true → leader n ≡ j) pc i p j
          (λ e. ground (arith, led n i, less n)) (λ e. led n j);
    queue_untorn = queue_untorn;
    batch_untorn = λ n j.
        update_elim (λ q. has n (batch q) ≡ true → (state n).teardown ≡ false) pc i p j
          (λ e k. batch_untorn n i (less n k)) (λ e. batch_untorn n j);
    added = λ j.
        update_elim (λ q. adds q ≡ true → state j ≡ urcu_wait_waiting) pc i p j (λ e. ground arith)
          (λ e. added j);
    own_running = λ j.
        update_elim (λ q. has_led q ≡ true → (state j).running ≡ true) pc i p j (λ e. ground arith)
          (λ e. own_running j);
    not_own = λ j n.
        update_elim (λ q. wakes q n ≡ true → n ≢ j) pc i p j (λ e k f. own n k (ground arith))
          (λ e. not_own j n);
  }

  -- A node's word changes.
  pub set_state-Places :
      (n : ℕ) (w : WaitState)
      → (has n queue ≡ true → w.teardown ≡ false)
      → ((i : ℕ) → has n (batch (pc i)) ≡ true → w.teardown ≡ false)
      → (adds (pc n) ≡ true → w ≡ urcu_wait_waiting)
      → (has_led (pc n) ≡ true → w.running ≡ true)
      → Places queue (update state n w) pc leader
  set_state-Places n w inq inb ad run = record {
    queue_distinct = queue_distinct;
    batch_distinct = batch_distinct;
    queued = queued;
    apart = apart;
    leads_it = leads_it;
    one = one;
    batched = batched;
    led = led;
    queue_untorn = λ m.
        update_elim (λ v. has m queue ≡ true → v.teardown ≡ false) state n w m
          (λ e. ground (arith, inq)) (λ e. queue_untorn m);
    batch_untorn = λ m i.
        update_elim (λ v. has m (batch (pc i)) ≡ true → v.teardown ≡ false) state n w m
          (λ e. ground (arith, inb i)) (λ e. batch_untorn m i);
    added = λ i.
        update_elim (λ v. adds (pc i) ≡ true → v ≡ urcu_wait_waiting) state n w i
          (λ e. ground (arith, ad)) (λ e. added i);
    own_running = λ i.
        update_elim (λ v. has_led (pc i) ≡ true → v.running ≡ true) state n w i
          (λ e. ground (arith, run)) (λ e. own_running i);
    not_own = not_own;
  }
