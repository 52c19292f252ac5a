-- ===== src/Qsbr/System.antt =====
-- Readers that announce quiescent states, and one `synchronize_rcu` at a time, a shared access at
-- a time, in any order. The accesses are sequentially consistent.
use liburcu.Prelude.{
  ℕ, ◌+◌, ◌<◌, ◌≡◌, ◌≢◌, Bool, true, false, not, List, [], ◌∷◌, ◌++◌, ◌==◌, ltb, if◌then◌else◌,
  is_empty, update, remove, minus_one, word_add, word_mod,
}

abbrev pub rcu_gp_online : ℕ
rcu_gp_online = 1

abbrev pub rcu_gp_ctr : ℕ
rcu_gp_ctr = 2

abbrev pub rcu_qs_active_attempts : ℕ
rcu_qs_active_attempts = 100

pub data RcuState : Type 0 where
  active_current active_old inactive : RcuState

-- `v` is the one load of the reader's word.
unfoldable pub rcu_reader_state : (gp v : ℕ) → RcuState
rcu_reader_state gp v =
    if v == 0
    then RcuState.inactive
    else if v == gp
    then RcuState.active_current
    else RcuState.active_old

unfoldable pub rcu_read_ongoing : ℕ → Bool
rcu_read_ongoing v = not (v == 0)

-- Where a reader stands, with the local that is live there.
pub data ReaderPc : Type 0 where
  run : ReaderPc  -- outside the functions of the library
  quiescing : (gp_ctr : ℕ) → ReaderPc  -- in rcu_quiescent_state, before its store
  onlining : (gp_ctr : ℕ) → ReaderPc  -- in rcu_thread_online, before its store
  read_waiting : ReaderPc  -- in wake_up_gp, before it reads `waiting`
  clear_waiting : ReaderPc
  read_futex : ReaderPc
  set_futex : ReaderPc
  wake : ReaderPc  -- before FUTEX_WAKE

pub record Reader : Type 0 where
  pub ctr : ℕ
  pub waiting : Bool
  pub registered : Bool
  pub pc : ReaderPc

-- Where the thread in `synchronize_rcu` stands.
pub data WriterPc : Type 0 where
  idle : WriterPc
  called : WriterPc  -- behind its own rcu_thread_offline, before both mutexes are held
  loop_head : WriterPc  -- head of the loop of `wait_for_readers`
  mark : (todo : List ℕ) → WriterPc  -- in the loop that sets `waiting`
  scan : (todo : List ℕ) → WriterPc  -- in the loop over the readers
  relax : WriterPc  -- registry lock released, `caa_cpu_relax`
  wait_gp : WriterPc  -- registry lock released, before the read of the futex
  futex_wait : WriterPc  -- before FUTEX_WAIT
  asleep : WriterPc  -- in FUTEX_WAIT
  splice : WriterPc  -- behind `wait_for_readers`
  finished : WriterPc  -- both mutexes released, about to return

pub record Lists : Type 0 where
  pub registry : List ℕ
  pub qsreaders : List ℕ

pub record System : Type 0 where
  pub gp_ctr : ℕ
  pub futex : ℕ
  pub reader : ℕ → Reader
  pub lists : Lists
  pub writer : WriterPc
  pub wait_loops : ℕ
  -- An observer's mark on each reader that was online when the last `synchronize_rcu` was called
  -- and has announced no quiescent state since. No code reads it.
  pub older : ℕ → Bool

abbrev pub set_reader : ℕ → Reader → System → System
set_reader i r s = record s { reader = update s.reader i r }

abbrev pub set_pc : ℕ → ReaderPc → System → System
set_pc i p s = set_reader i (record (s.reader i) { pc = p }) s

abbrev pub set_waiting : ℕ → Bool → ReaderPc → System → System
set_waiting i b p s = set_reader i (record (s.reader i) { waiting = b; pc = p }) s

-- The registry lock is released.
abbrev pub unlocked : WriterPc → Bool
unlocked idle = true
unlocked called = true
unlocked relax = true
unlocked wait_gp = true
unlocked futex_wait = true
unlocked asleep = true
unlocked finished = true
unlocked _ = false

-- `cds_list_move(&index->node, qsreaders)`
abbrev pub move_to_qs : ℕ → Lists → Lists
move_to_qs i l = record { registry = remove i l.registry; qsreaders = i ∷ remove i l.qsreaders }

-- The switch on the state of reader `i`, where `cur_snap_readers` is NULL.
unfoldable pub visit : RcuState → ℕ → Lists → Lists
visit RcuState.active_current i l = move_to_qs i l
visit RcuState.inactive i l = move_to_qs i l
visit RcuState.active_old i l = l

-- Both locks taken: an empty registry has nothing to wait for; else the count goes up.
unfoldable pub take_locks : System → System
take_locks s =
    if is_empty s.lists.registry
    then record s { writer = finished }
    else record s { gp_ctr = word_add s.gp_ctr rcu_gp_ctr; writer = loop_head; wait_loops = 0 }

-- The head of the loop counts the attempt, and from the hundredth on announces a sleep.
unfoldable pub count_attempt : System → System
count_attempt s =
    let loops =
      if ltb s.wait_loops rcu_qs_active_attempts then s.wait_loops + 1 else s.wait_loops in
    if ltb loops rcu_qs_active_attempts
    then record s { wait_loops = loops; writer = scan s.lists.registry }
    else record s { wait_loops = loops; futex = minus_one; writer = mark s.lists.registry }

-- Behind the loop over the readers.
unfoldable pub leave_or_wait : System → System
leave_or_wait s =
    if is_empty s.lists.registry
    then (if ltb s.wait_loops rcu_qs_active_attempts
        then record s { writer = splice }
        else record s { writer = splice; futex = 0 })
    else record s { writer = if ltb s.wait_loops rcu_qs_active_attempts then relax else wait_gp }

-- `cds_list_splice(&qsreaders, &registry)`, and the release of the locks.
unfoldable pub put_back : System → System
put_back s = record s {
  writer = finished;
  lists = record { registry = s.lists.qsreaders ++ s.lists.registry; qsreaders = [] };
}

-- A call of `synchronize_rcu`: the observer marks the readers that are online.
abbrev pub enter : System → System
enter s = record s { writer = called; older = λ i. rcu_read_ongoing (s.reader i).ctr }

-- rcu_quiescent_state behind its load: it returns where the count is its own already.
abbrev pub after_load : ℕ → Reader → ReaderPc
after_load gp r = if gp == r.ctr then run else quiescing gp

pub data Step (s : System) : System → Type 0 where
  -- rcu_register_thread, under the registry lock, up to its rcu_thread_online
  register :
      (i : ℕ)
      → unlocked s.writer ≡ true
      → (s.reader i).registered ≡ false
      → (s.reader i).pc ≡ run
      → (s.reader i).ctr ≡ 0
      → Step s (record (set_reader i (record (s.reader i) { registered = true }) s) {
        lists = record s.lists { registry = i ∷ s.lists.registry };
      })
  -- rcu_unregister_thread behind its rcu_thread_offline
  unregister :
      (i : ℕ)
      → unlocked s.writer ≡ true
      → (s.reader i).registered ≡ true
      → (s.reader i).pc ≡ run
      → (s.reader i).ctr ≡ 0
      → Step s (record (set_reader i (record (s.reader i) { registered = false }) s) {
        lists = record {
          registry = remove i s.lists.registry;
          qsreaders = remove i s.lists.qsreaders;
        };
      })
  -- rcu_thread_online of a thread that is offline, in two accesses
  load_online :
      (i : ℕ)
      → (s.reader i).registered ≡ true
      → (s.reader i).pc ≡ run
      → (s.reader i).ctr ≡ 0
      → Step s (set_pc i (onlining s.gp_ctr) s)
  store_online :
      (i gp : ℕ)
      → (s.reader i).pc ≡ onlining gp
      → Step s (set_reader i (record (s.reader i) { ctr = gp; pc = run }) s)
  -- rcu_quiescent_state, which a thread calls outside its read-side sections
  load_quiescent :
      (i : ℕ)
      → (s.reader i).registered ≡ true
      → (s.reader i).pc ≡ run
      → Step s (set_pc i (after_load s.gp_ctr (s.reader i)) s)
  store_quiescent :
      (i gp : ℕ)
      → (s.reader i).pc ≡ quiescing gp
      → Step s (record (set_reader i (record (s.reader i) { ctr = gp; pc = read_waiting }) s) {
        older = update s.older i false;
      })
  -- rcu_thread_offline
  offline :
      (i : ℕ)
      → (s.reader i).registered ≡ true
      → (s.reader i).pc ≡ run
      → Step s (record (set_reader i (record (s.reader i) { ctr = 0; pc = read_waiting }) s) {
        older = update s.older i false;
      })
  -- wake_up_gp
  not_waiting :
      (i : ℕ)
      → (s.reader i).pc ≡ read_waiting
      → (s.reader i).waiting ≡ false
      → Step s (set_pc i run s)
  waited_for :
      (i : ℕ)
      → (s.reader i).pc ≡ read_waiting
      → (s.reader i).waiting ≡ true
      → Step s (set_pc i clear_waiting s)
  unmark : (i : ℕ) → (s.reader i).pc ≡ clear_waiting → Step s (set_waiting i false read_futex s)
  no_waiter : (i : ℕ) → (s.reader i).pc ≡ read_futex → s.futex ≢ minus_one → Step s (set_pc i run s)
  waiter :
      (i : ℕ) → (s.reader i).pc ≡ read_futex → s.futex ≡ minus_one → Step s (set_pc i set_futex s)
  clear_futex :
      (i : ℕ) → (s.reader i).pc ≡ set_futex → Step s (record (set_pc i wake s) { futex = 0 })
  wake_none : (i : ℕ) → (s.reader i).pc ≡ wake → s.writer ≢ asleep → Step s (set_pc i run s)
  wake_writer :
      (i : ℕ)
      → (s.reader i).pc ≡ wake
      → s.writer ≡ asleep
      → Step s (record (set_pc i run s) { writer = loop_head })
  -- synchronize_rcu. The count does not overflow: it has room for 2 ^ 63 grace periods.
  call : s.writer ≡ idle → Step s (enter s)
  lock : s.writer ≡ called → s.gp_ctr + rcu_gp_ctr < word_mod → Step s (take_locks s)
  attempt : s.writer ≡ loop_head → Step s (count_attempt s)
  mark_one :
      (i : ℕ) (todo : List ℕ)
      → s.writer ≡ mark (i ∷ todo)
      → Step s
          (record (set_reader i (record (s.reader i) { waiting = true }) s) { writer = mark todo })
  marked : s.writer ≡ mark [] → Step s (record s { writer = scan s.lists.registry })
  examine :
      (i : ℕ) (todo : List ℕ)
      → s.writer ≡ scan (i ∷ todo)
      → Step s (record s {
        writer = scan todo;
        lists = visit (rcu_reader_state s.gp_ctr (s.reader i).ctr) i s.lists;
      })
  examined : s.writer ≡ scan [] → Step s (leave_or_wait s)
  relock : s.writer ≡ relax → Step s (record s { writer = loop_head })
  -- wait_gp, and the kernel's own comparison in FUTEX_WAIT
  changed : s.writer ≡ wait_gp → s.futex ≢ minus_one → Step s (record s { writer = loop_head })
  unchanged : s.writer ≡ wait_gp → s.futex ≡ minus_one → Step s (record s { writer = futex_wait })
  would_block :
      s.writer ≡ futex_wait → s.futex ≢ minus_one → Step s (record s { writer = loop_head })
  sleep : s.writer ≡ futex_wait → s.futex ≡ minus_one → Step s (record s { writer = asleep })
  interrupted : s.writer ≡ asleep → Step s (record s { writer = futex_wait })
  finish : s.writer ≡ splice → Step s (put_back s)
  return : s.writer ≡ finished → Step s (record s { writer = idle })

abbrev pub init : System
init = record {
  gp_ctr = rcu_gp_online;
  futex = 0;
  reader = λ _. record { ctr = 0; waiting = false; registered = false; pc = run };
  lists = record { registry = []; qsreaders = [] };
  writer = idle;
  wait_loops = 0;
  older = λ _. false;
}

pub data Run (s : System) : System → Type 0 where
  here : Run s s
  then_step : {t u : System} → Run s t → Step t u → Run s u
