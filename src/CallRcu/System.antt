-- ===== src/CallRcu/System.antt =====
-- Threads that call call_rcu and rcu_barrier, and the threads that run the callbacks
-- (call_rcu_thread), a shared access at a time. The workers are not real-time, and while the model
-- runs none is asked to pause or to stop, so that the flags that they read are 0; their processor
-- affinity and the count qlen, which is there for debugging, are left out. The queue of a worker, a
-- wait-free concurrent queue, is a list here, to which an enqueue appends and of which a splice
-- takes all in one step, and a grace period is the two steps that begin and end it.
use liburcu.Prelude.{
  ℕ, ◌+◌, ◌-◌, ◌≡◌, Bool, true, false, List, [], ◌∷◌, ◌++◌, ◌==◌, if◌then◌else◌, is_empty, has,
  length, update, minus_one, int32_dec,
}

-- struct rcu_head: a function of the caller's, or _rcu_barrier_complete with its completion.
pub data Callback : Type 0 where
  user : (head : ℕ) → Callback
  work : (completion : ℕ) → Callback

-- Where a call_rcu thread stands.
pub data WorkerPc : Type 0 where
  dec_futex : WorkerPc  -- before uatomic_dec(&crdp->futex)
  splice : WorkerPc  -- before the splice of the queue
  synchronize : (cbs : List Callback) → WorkerPc  -- before synchronize_rcu
  grace : (cbs : List Callback) → WorkerPc  -- in it
  invoke : (cbs : List Callback) → WorkerPc  -- head of the loop over the callbacks
  complete_read : (b : ℕ) (cbs : List Callback) → WorkerPc  -- in call_rcu_completion_wake_up
  complete_set : (b : ℕ) (cbs : List Callback) → WorkerPc
  complete_wake : (b : ℕ) (cbs : List Callback) → WorkerPc
  complete_put : (b : ℕ) (cbs : List Callback) → WorkerPc  -- before urcu_ref_put
  check_empty : WorkerPc  -- before cds_wfcq_empty
  read_futex : WorkerPc  -- in call_rcu_wait
  futex_wait : WorkerPc  -- before FUTEX_WAIT
  asleep : WorkerPc

-- What a thread goes on with when it has woken up a worker.
pub data Rest : Type 0 where
  return : Rest  -- of call_rcu
  barrier : (b : ℕ) (workers : List ℕ) → Rest  -- of the loop of rcu_barrier

-- Where a thread that calls stands.
pub data ThreadPc : Type 0 where
  outside : ThreadPc
  read_worker : (w : ℕ) (rest : Rest) → ThreadPc  -- in call_rcu_wake_up
  set_worker : (w : ℕ) (rest : Rest) → ThreadPc
  wake_worker : (w : ℕ) (rest : Rest) → ThreadPc
  enqueue : (b : ℕ) (workers : List ℕ) → ThreadPc  -- in the loop over the workers
  dec_completion : (b : ℕ) → ThreadPc  -- head of the loop that waits
  read_count : (b : ℕ) → ThreadPc
  read_completion : (b : ℕ) → ThreadPc  -- in call_rcu_completion_wait
  wait_completion : (b : ℕ) → ThreadPc  -- before FUTEX_WAIT
  sleep_completion : (b : ℕ) → ThreadPc
  put : (b : ℕ) → ThreadPc  -- before urcu_ref_put
  done : (b : ℕ) → ThreadPc  -- about to return from rcu_barrier

pub record Completion : Type 0 where
  pub barrier_count : ℕ
  pub futex : ℕ
  pub refcount : ℕ
  pub owner : ℕ  -- the thread that sleeps on the futex

pub record System : Type 0 where
  pub workers : List ℕ
  pub queue : ℕ → List Callback
  pub futex : ℕ → ℕ
  pub worker : ℕ → WorkerPc
  pub thread : ℕ → ThreadPc
  pub completion : ℕ → Completion
  pub allocated : ℕ
  -- An observer's notes, which no code reads: the callbacks that were queued at a worker, and
  -- those that it has run, in order; the former when its last grace period began, and when the last
  -- one that has ended began; and the former when a rcu_barrier was called.
  pub called : ℕ → List Callback
  pub invoked : ℕ → List Callback
  pub at_begin : ℕ → List Callback
  pub waited : ℕ → List Callback
  pub before : ℕ → ℕ → List Callback

abbrev pub work_on : ℕ → WorkerPc → System → System
work_on w p s = record s { worker = update s.worker w p }

abbrev pub goto : ℕ → ThreadPc → System → System
goto t p s = record s { thread = update s.thread t p }

-- cds_wfcq_enqueue on the queue of a worker
abbrev pub enqueue_on : ℕ → Callback → System → System
enqueue_on w c s = record s {
  queue = update s.queue w (s.queue w ++ c ∷ []);
  called = update s.called w (s.called w ++ c ∷ []);
}

abbrev pub ran : ℕ → Callback → System → System
ran w c s = record s { invoked = update s.invoked w (s.invoked w ++ c ∷ []) }

abbrev pub set_completion : ℕ → Completion → System → System
set_completion b c s = record s { completion = update s.completion b c }

abbrev pub asleep_on : ℕ → ThreadPc → Bool
asleep_on b (sleep_completion c) = b == c
asleep_on b _ = false

abbrev pub is_asleep : WorkerPc → Bool
is_asleep asleep = true
is_asleep _ = false

-- FUTEX_WAKE on the futex of a completion.
unfoldable pub wake_barrier : ℕ → System → System
wake_barrier b s =
    let t = (s.completion b).owner in
    if asleep_on b (s.thread t) then goto t (dec_completion b) s else s

-- FUTEX_WAKE on the futex of a worker.
unfoldable pub wake_call_rcu_thread : ℕ → System → System
wake_call_rcu_thread w s = if is_asleep (s.worker w) then work_on w dec_futex s else s

-- _rcu_barrier_complete, up to its branch on the count.
abbrev pub complete : ℕ → ℕ → List Callback → System → System
complete w b rest s =
    let c = s.completion b in
    let count = c.barrier_count - 1 in
    work_on w (if count == 0 then complete_read b rest else complete_put b rest)
      (set_completion b (record c { barrier_count = count }) (ran w (work b) s))

-- call_rcu_thread, from one access to the next.
unfoldable pub worker_at : ℕ → WorkerPc → System → System
worker_at w dec_futex s = record (work_on w splice s) {
  futex = update s.futex w (int32_dec (s.futex w));
}
worker_at w splice s =
    if is_empty (s.queue w)
    then work_on w check_empty s
    else record (work_on w (synchronize (s.queue w)) s) { queue = update s.queue w [] }
worker_at w (synchronize cbs) s = record (work_on w (grace cbs) s) {
  at_begin = update s.at_begin w (s.called w);
}
worker_at w (grace cbs) s = record (work_on w (invoke cbs) s) {
  waited = update s.waited w (s.at_begin w);
}
worker_at w (invoke []) s = work_on w check_empty s
worker_at w (invoke (user head ∷ rest)) s = work_on w (invoke rest) (ran w (user head) s)
worker_at w (invoke (work b ∷ rest)) s = complete w b rest s
worker_at w (complete_read b rest) s =
    if (s.completion b).futex == minus_one
    then work_on w (complete_set b rest) s
    else work_on w (complete_put b rest) s
worker_at w (complete_set b rest) s =
    work_on w (complete_wake b rest) (set_completion b (record (s.completion b) { futex = 0 }) s)
worker_at w (complete_wake b rest) s = work_on w (complete_put b rest) (wake_barrier b s)
worker_at w (complete_put b rest) s =
    let c = s.completion b in
    work_on w (invoke rest) (set_completion b (record c { refcount = c.refcount - 1 }) s)
worker_at w check_empty s =
    if is_empty (s.queue w) then work_on w read_futex s else work_on w splice s
worker_at w read_futex s =
    if s.futex w == minus_one then work_on w futex_wait s else work_on w dec_futex s
worker_at w futex_wait s =
    if s.futex w == minus_one then work_on w asleep s else work_on w dec_futex s
worker_at w asleep s = s

abbrev pub go_on : Rest → ThreadPc
go_on return = outside
go_on (barrier b workers) = enqueue b workers

-- call_rcu behind its enqueue, and rcu_barrier, from one access to the next.
unfoldable pub thread_at : ℕ → ThreadPc → System → System
thread_at t (read_worker w rest) s =
    if s.futex w == minus_one then goto t (set_worker w rest) s else goto t (go_on rest) s
thread_at t (set_worker w rest) s = record (goto t (wake_worker w rest) s) {
  futex = update s.futex w 0;
}
thread_at t (wake_worker w rest) s = goto t (go_on rest) (wake_call_rcu_thread w s)
thread_at t (enqueue b []) s = goto t (dec_completion b) s
thread_at t (enqueue b (w ∷ workers)) s =
    goto t (read_worker w (barrier b workers)) (enqueue_on w (work b) s)
thread_at t (dec_completion b) s =
    let c = s.completion b in
    goto t (read_count b) (set_completion b (record c { futex = int32_dec c.futex }) s)
thread_at t (read_count b) s =
    if (s.completion b).barrier_count == 0 then goto t (put b) s else goto t (read_completion b) s
thread_at t (read_completion b) s =
    if (s.completion b).futex == minus_one
    then goto t (wait_completion b) s
    else goto t (dec_completion b) s
thread_at t (wait_completion b) s =
    if (s.completion b).futex == minus_one
    then goto t (sleep_completion b) s
    else goto t (dec_completion b) s
thread_at t (put b) s =
    let c = s.completion b in
    goto t (done b) (set_completion b (record c { refcount = c.refcount - 1 }) s)
thread_at t (done b) s = goto t outside s
thread_at t _ s = s

-- rcu_barrier up to its loop over the workers.
unfoldable pub rcu_barrier : ℕ → System → System
rcu_barrier t s =
    let count = length s.workers in
    let c : Completion = record {
      barrier_count = count;
      futex = 0;
      refcount = count + 1;
      owner = t;
    } in
    record (goto t (enqueue s.allocated s.workers) (set_completion s.allocated c s)) {
      allocated = s.allocated + 1;
      before = update s.before s.allocated s.called;
    }

pub data Step (s : System) : System → Type 0 where
  -- call_rcu, at the worker that get_call_rcu_data gives
  call_rcu :
      (t w head : ℕ)
      → s.thread t ≡ outside
      → has w s.workers ≡ true
      → Step s (goto t (read_worker w return) (enqueue_on w (user head) s))
  -- rcu_barrier, outside read-side sections
  call_barrier : (t : ℕ) → s.thread t ≡ outside → Step s (rcu_barrier t s)
  thread_step : (t : ℕ) → Step s (thread_at t (s.thread t) s)
  worker_step : (w : ℕ) → Step s (worker_at w (s.worker w) s)
  worker_interrupted : (w : ℕ) → s.worker w ≡ asleep → Step s (work_on w futex_wait s)
  thread_interrupted :
      (t b : ℕ) → s.thread t ≡ sleep_completion b → Step s (goto t (wait_completion b) s)

abbrev pub init : List ℕ → System
init workers = record {
  workers = workers;
  queue = λ _. [];
  futex = λ _. 0;
  worker = λ _. dec_futex;
  thread = λ _. outside;
  completion = λ _. record { barrier_count = 0; futex = 0; refcount = 0; owner = 0 };
  allocated = 0;
  called = λ _. [];
  invoked = λ _. [];
  at_begin = λ _. [];
  waited = λ _. [];
  before = λ _ _. [];
}

pub data Reachable (workers : List ℕ) : System → Type 0 where
  fresh : Reachable workers (init workers)
  then_step : {s t : System} → Reachable workers s → Step s t → Reachable workers t
