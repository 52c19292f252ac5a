-- ===== src/Batch/System.antt =====
-- Any number of threads in synchronize_rcu, a shared access at a time. A thread's wait node is
-- named by the thread. The queue of waiters, a wait-free stack, is a list here, on which its push
-- and its pop_all are one step each. In a Step, FUTEX_WAIT returns 0 only when it is woken.
use liburcu.Prelude.{
  ℕ, ◌+◌, ◌≡◌, Bool, true, false, not, ◌||◌, List, [], ◌∷◌, ltb, if◌then◌else◌, is_empty, has,
  update,
}

-- node->state, as its three masks; URCU_WAIT_WAITING is the word with none of them.
pub record WaitState : Type 0 where
  pub wakeup : Bool
  pub running : Bool
  pub teardown : Bool

abbrev pub urcu_wait_waiting : WaitState
urcu_wait_waiting = record { wakeup = false; running = false; teardown = false }

abbrev pub is_waiting : WaitState → Bool
is_waiting w = not (w.wakeup || (w.running || w.teardown))

abbrev pub urcu_wait_attempts : ℕ
urcu_wait_attempts = 1000

-- Where a thread stands.
pub data Pc : Type 0 where
  idle : Pc
  add : Pc  -- before urcu_wait_add
  -- the first in the queue
  lead : Pc  -- before urcu_wait_set_state
  lock : Pc  -- before the mutex of grace periods is held
  move : Pc  -- before urcu_move_waiters
  start : (waiters : List ℕ) → Pc  -- before its grace period
  grace : (waiters : List ℕ) → Pc  -- in its grace period
  -- urcu_wake_all_waiters, with the list that is left
  check : (waiters : List ℕ) → Pc  -- head of the loop
  wake_up : (wait : ℕ) (waiters : List ℕ) → Pc  -- before the read that is asserted
  set_wakeup : (wait : ℕ) (waiters : List ℕ) → Pc
  read_running : (wait : ℕ) (waiters : List ℕ) → Pc
  futex_wake : (wait : ℕ) (waiters : List ℕ) → Pc
  set_teardown : (wait : ℕ) (waiters : List ℕ) → Pc
  -- urcu_adaptative_busy_wait
  spin : (attempts : ℕ) → Pc  -- in its first loop
  futex_wait : Pc
  asleep : Pc  -- in FUTEX_WAIT
  set_running : Pc  -- at skip_futex_wait
  await_teardown : Pc  -- in its last loops
  done : Pc  -- about to return from synchronize_rcu
  failed : Pc  -- an assertion has failed

pub record System : Type 0 where
  pub queue : List ℕ
  pub state : ℕ → WaitState
  pub pc : ℕ → Pc
  pub locked : Bool
  -- An observer's notes, which no code reads: how many grace periods have begun, and ended; how
  -- many had begun when a thread called; and who has moved a thread's node off the queue.
  pub begun : ℕ
  pub ended : ℕ
  pub called : ℕ → ℕ
  pub leader : ℕ → ℕ

abbrev pub goto : ℕ → Pc → System → System
goto i p s = record s { pc = update s.pc i p }

abbrev pub set_state : ℕ → WaitState → System → System
set_state n w s = record s { state = update s.state n w }

abbrev pub is_asleep : Pc → Bool
is_asleep asleep = true
is_asleep _ = false

-- FUTEX_WAKE on a thread's own wait node, in which no other thread sleeps.
unfoldable pub wake_sleeper : ℕ → System → System
wake_sleeper n s = if is_asleep (s.pc n) then goto n set_running s else s

-- urcu_wake_all_waiters, at the head of its loop.
abbrev pub urcu_wake_all_waiters : ℕ → List ℕ → System → System
urcu_wake_all_waiters i [] s = goto i done s
urcu_wake_all_waiters i (n ∷ rest) s =
    if (s.state n).running then goto i (check rest) s else goto i (wake_up n rest) s

-- urcu_wake_all_waiters and urcu_adaptative_wake_up, from one access to the next.
unfoldable pub waker_at : ℕ → Pc → System → System
waker_at i (check waiters) s = urcu_wake_all_waiters i waiters s
waker_at i (wake_up n rest) s =
    if is_waiting (s.state n) then goto i (set_wakeup n rest) s else goto i failed s
waker_at i (set_wakeup n rest) s =
    goto i (read_running n rest) (set_state n (record urcu_wait_waiting { wakeup = true }) s)
waker_at i (read_running n rest) s =
    if (s.state n).running then goto i (set_teardown n rest) s else goto i (futex_wake n rest) s
waker_at i (futex_wake n rest) s = goto i (set_teardown n rest) (wake_sleeper n s)
waker_at i (set_teardown n rest) s =
    goto i (check rest) (set_state n (record (s.state n) { teardown = true }) s)
waker_at i _ s = s

-- urcu_adaptative_busy_wait, from one access to the next.
unfoldable pub waiter_at : ℕ → Pc → System → System
waiter_at i (spin attempts) s =
    if is_waiting (s.state i)
    then (if ltb (attempts + 1) urcu_wait_attempts
        then goto i (spin (attempts + 1)) s
        else goto i futex_wait s)
    else goto i set_running s
waiter_at i futex_wait s = if is_waiting (s.state i) then goto i asleep s else goto i set_running s
waiter_at i set_running s =
    goto i await_teardown (set_state i (record (s.state i) { running = true }) s)
waiter_at i await_teardown s = if (s.state i).teardown then goto i done s else s
waiter_at i _ s = s

-- synchronize_rcu of the first in the queue, up to its wake-ups. The grace period is a step that
-- begins it and one that ends it and gives the mutex back.
unfoldable pub leader_at : ℕ → Pc → System → System
leader_at i lead s = goto i lock (set_state i (record urcu_wait_waiting { running = true }) s)
leader_at i lock s = if s.locked then s else record (goto i move s) { locked = true }
leader_at i move s = record (goto i (start s.queue) s) {
  queue = [];
  leader = λ n. if has n s.queue then i else s.leader n;
}
leader_at i (start waiters) s = record (goto i (grace waiters) s) { begun = s.begun + 1 }
leader_at i (grace waiters) s = record (goto i (check waiters) s) {
  ended = s.ended + 1;
  locked = false;
}
leader_at i _ s = s

-- urcu_wait_add, and the branch on what it returns.
unfoldable pub add_at : ℕ → System → System
add_at i s = record (goto i (if is_empty s.queue then lead else spin 0) s) { queue = i ∷ s.queue }

pub data Step (s : System) : System → Type 0 where
  -- DEFINE_URCU_WAIT_NODE
  call :
      (i : ℕ)
      → s.pc i ≡ idle
      → Step s (record (goto i add (set_state i urcu_wait_waiting s)) {
        called = update s.called i s.begun;
      })
  enqueue : (i : ℕ) → s.pc i ≡ add → Step s (add_at i s)
  leader_step : (i : ℕ) → Step s (leader_at i (s.pc i) s)
  waker_step : (i : ℕ) → Step s (waker_at i (s.pc i) s)
  waiter_step : (i : ℕ) → Step s (waiter_at i (s.pc i) s)
  interrupted : (i : ℕ) → s.pc i ≡ asleep → Step s (goto i futex_wait s)
  return : (i : ℕ) → s.pc i ≡ done → Step s (goto i idle s)

abbrev pub init : System
init = record {
  queue = [];
  state = λ _. urcu_wait_waiting;
  pc = λ _. idle;
  locked = false;
  begun = 0;
  ended = 0;
  called = λ _. 0;
  leader = λ n. n;
}

pub data Reachable : System → Type 0 where
  fresh : Reachable init
  then_step : {s t : System} → Reachable s → Step s t → Reachable t

-- What the kernel may do as well: FUTEX_WAIT returns 0 without a FUTEX_WAKE.
pub data WeakStep (s : System) : System → Type 0 where
  exact : {t : System} → Step s t → WeakStep s t
  spurious : (i : ℕ) → s.pc i ≡ asleep → WeakStep s (goto i set_running s)

pub data WeakReachable : System → Type 0 where
  begins : WeakReachable init
  then_weak : {s t : System} → WeakReachable s → WeakStep s t → WeakReachable t

pub weaken : {s : System} → Reachable s → WeakReachable s
weaken fresh = begins
weaken (then_step r st) = then_weak (weaken r) (WeakStep.exact st)
