-- ===== src/Rcu/System.antt =====
-- Readers and one `synchronize_rcu` at a time, a shared access at a time, in any order.
-- The accesses are sequentially consistent: this is what the memory barriers of the source
-- (`smp_mb_slave`, `smp_mb_master`) are there to give.
use liburcu.Prelude.{
  ℕ, ◌+◌, ◌≡◌, ◌≢◌, Bool, true, false, List, [], ◌∷◌, ◌++◌, ltb, if◌then◌else◌, is_empty, update,
  minus_one, int32_dec,
}
use liburcu.Rcu.Reader.{
  nest_of, is_outermost, rcu_gp_ctr_nest_mask, rcu_reader_state, rcu_read_lock_update,
  rcu_read_unlock_update, rcu_read_ongoing, switch_parity,
}
use liburcu.Rcu.Scan.{Lists, Phase, first, second, input, list_del, visit}

-- Where a reader stands, with the local that is live there.
pub data ReaderPc : Type 0 where
  run : ReaderPc  -- outside the functions of the library, in a read-side section or not
  loaded : (gp : ℕ) → ReaderPc  -- in read_lock, `rcu_gp.ctr` loaded and not yet stored
  read_futex : ReaderPc  -- in read_unlock, before `wake_up_gp` reads the futex
  set_futex : ReaderPc  -- before `uatomic_set(&rcu_gp.futex, 0)`
  wake : ReaderPc  -- before FUTEX_WAKE

pub record Reader : Type 0 where
  pub ctr : ℕ
  pub registered : Bool
  pub pc : ReaderPc

-- Where the thread in `synchronize_rcu` stands.
pub data WriterPc : Type 0 where
  idle : WriterPc  -- no call is under way
  called : WriterPc  -- entered, before both mutexes are held
  loop_head : Phase → WriterPc  -- head of the loop of `wait_for_readers`
  scan : Phase → (todo : List ℕ) → WriterPc  -- in its loop over the readers
  relax : Phase → WriterPc  -- registry lock released, `caa_cpu_relax`
  wait_gp : Phase → WriterPc  -- registry lock released, before the read of the futex
  futex_wait : Phase → WriterPc  -- before FUTEX_WAIT
  asleep : Phase → WriterPc  -- in FUTEX_WAIT
  parity : WriterPc  -- between the two calls of `wait_for_readers`
  splice : WriterPc  -- behind the second
  finished : WriterPc  -- both mutexes released, about to return

abbrev pub rcu_qs_active_attempts : ℕ
rcu_qs_active_attempts = 100

pub record System : Type 0 where
  pub gp_ctr : ℕ
  pub futex : ℕ
  pub reader : ℕ → Reader
  pub lists : Lists
  pub writer : WriterPc
  pub wait_loops : ℕ
  -- An observer's mark on each reader whose read-side section was under way when the last
  -- `synchronize_rcu` was called and has not ended since. No code reads it.
  pub older : ℕ → Bool

abbrev pub set_reader : ℕ → Reader → System → System
set_reader i r s = record s { reader = update s.reader i r }

-- The registry lock is released.
abbrev pub unlocked : WriterPc → Bool
unlocked idle = true
unlocked called = true
unlocked (relax p) = true
unlocked (wait_gp p) = true
unlocked (futex_wait p) = true
unlocked (asleep p) = true
unlocked finished = true
unlocked _ = false

-- The head of the loop: counts the attempt, and from the hundredth on announces a sleep.
unfoldable pub count_attempt : System → System
count_attempt s =
    let loops =
      if ltb s.wait_loops rcu_qs_active_attempts then s.wait_loops + 1 else s.wait_loops in
    if ltb loops rcu_qs_active_attempts
    then record s { wait_loops = loops }
    else record s { wait_loops = loops; futex = int32_dec s.futex }

abbrev pub after_wait : Phase → WriterPc
after_wait first = parity
after_wait second = splice

-- Behind the loop over the readers.
unfoldable pub leave_or_wait : Phase → System → System
leave_or_wait p s =
    if is_empty (input p s.lists)
    then (if ltb s.wait_loops rcu_qs_active_attempts
        then record s { writer = after_wait p }
        else record s { writer = after_wait p; futex = 0 })
    else record s {
      writer = if ltb s.wait_loops rcu_qs_active_attempts then relax p else wait_gp p;
    }

-- The switch of parity, and the start of the second `wait_for_readers`.
unfoldable pub switch_and_wait : System → System
switch_and_wait s = record s {
  gp_ctr = switch_parity s.gp_ctr;
  writer = loop_head second;
  wait_loops = 0;
}

-- Both locks taken: an empty registry has nothing to wait for.
unfoldable pub take_locks : System → System
take_locks s =
    if is_empty s.lists.registry
    then record s { writer = finished }
    else record s { writer = loop_head first; wait_loops = 0 }

-- `cds_list_splice(&qsreaders, &registry)`, and the release of the locks.
unfoldable pub put_back : System → System
put_back s = record s {
  writer = finished;
  lists = record {
    registry = s.lists.qsreaders ++ s.lists.registry;
    cur_snap = s.lists.cur_snap;
    qsreaders = [];
  };
}

-- A call of `synchronize_rcu`: the observer marks the readers in a section.
abbrev pub enter : System → System
enter s = record s { writer = called; older = λ i. rcu_read_ongoing (s.reader i).ctr }

pub data Step (s : System) : System → Type 0 where
  -- rcu_register_thread, under the registry lock
  register :
      (i : ℕ)
      → unlocked s.writer ≡ true
      → (s.reader i).registered ≡ false
      → (s.reader i).pc ≡ run
      → nest_of (s.reader i).ctr ≡ 0
      → Step s (record (set_reader i (record (s.reader i) { registered = true }) s) {
        lists = record s.lists { registry = i ∷ s.lists.registry };
      })
  -- rcu_unregister_thread, which a thread calls outside its read-side sections
  unregister :
      (i : ℕ)
      → unlocked s.writer ≡ true
      → (s.reader i).registered ≡ true
      → (s.reader i).pc ≡ run
      → nest_of (s.reader i).ctr ≡ 0
      → Step s (record (set_reader i (record (s.reader i) { registered = false }) s) {
        lists = list_del i s.lists;
      })
  -- the outermost read_lock, in two accesses
  load_gp :
      (i : ℕ)
      → (s.reader i).registered ≡ true
      → (s.reader i).pc ≡ run
      → nest_of (s.reader i).ctr ≡ 0
      → Step s (set_reader i (record (s.reader i) { pc = loaded s.gp_ctr }) s)
  store_ctr :
      (i gp : ℕ)
      → (s.reader i).pc ≡ loaded gp
      → Step s (
          set_reader i
            (record (s.reader i) { ctr = rcu_read_lock_update gp (s.reader i).ctr; pc = run })
            s)
  -- a nested read_lock; the source asserts that the count does not overflow
  lock_nested :
      (i : ℕ)
      → (s.reader i).registered ≡ true
      → (s.reader i).pc ≡ run
      → nest_of (s.reader i).ctr ≢ 0
      → nest_of (s.reader i).ctr ≢ rcu_gp_ctr_nest_mask
      → Step s (
          set_reader i
            (record (s.reader i) { ctr = rcu_read_lock_update s.gp_ctr (s.reader i).ctr })
            s)
  -- read_unlock of the outermost section
  unlock_outer :
      (i : ℕ)
      → (s.reader i).pc ≡ run
      → is_outermost (s.reader i).ctr ≡ true
      → Step s
          (record (set_reader i
            (record (s.reader i) { ctr = rcu_read_unlock_update (s.reader i).ctr; pc = read_futex })
            s) { older = update s.older i false })
  unlock_nested :
      (i : ℕ)
      → (s.reader i).pc ≡ run
      → nest_of (s.reader i).ctr ≢ 0
      → is_outermost (s.reader i).ctr ≡ false
      → Step s
          (set_reader i (record (s.reader i) { ctr = rcu_read_unlock_update (s.reader i).ctr }) s)
  -- wake_up_gp
  no_waiter :
      (i : ℕ)
      → (s.reader i).pc ≡ read_futex
      → s.futex ≢ minus_one
      → Step s (set_reader i (record (s.reader i) { pc = run }) s)
  waiter :
      (i : ℕ)
      → (s.reader i).pc ≡ read_futex
      → s.futex ≡ minus_one
      → Step s (set_reader i (record (s.reader i) { pc = set_futex }) s)
  clear_futex :
      (i : ℕ)
      → (s.reader i).pc ≡ set_futex
      → Step s (record (set_reader i (record (s.reader i) { pc = wake }) s) { futex = 0 })
  wake_none :
      (i : ℕ)
      → (s.reader i).pc ≡ wake
      → ((p : Phase) → s.writer ≢ asleep p)
      → Step s (set_reader i (record (s.reader i) { pc = run }) s)
  wake_writer :
      (i : ℕ) (p : Phase)
      → (s.reader i).pc ≡ wake
      → s.writer ≡ asleep p
      → Step s (record (set_reader i (record (s.reader i) { pc = run }) s) { writer = loop_head p })
  -- synchronize_rcu
  call : s.writer ≡ idle → Step s (enter s)
  lock : s.writer ≡ called → Step s (take_locks s)
  attempt :
      (p : Phase)
      → s.writer ≡ loop_head p
      → Step s (record (count_attempt s) { writer = scan p (input p s.lists) })
  examine :
      (p : Phase) (i : ℕ) (todo : List ℕ)
      → s.writer ≡ scan p (i ∷ todo)
      → Step s (record s {
        writer = scan p todo;
        lists = visit p (rcu_reader_state s.gp_ctr (s.reader i).ctr) i s.lists;
      })
  examined : (p : Phase) → s.writer ≡ scan p [] → Step s (leave_or_wait p s)
  relock : (p : Phase) → s.writer ≡ relax p → Step s (record s { writer = loop_head p })
  -- wait_gp, and the kernel's own comparison in FUTEX_WAIT
  changed :
      (p : Phase)
      → s.writer ≡ wait_gp p
      → s.futex ≢ minus_one
      → Step s (record s { writer = loop_head p })
  unchanged :
      (p : Phase)
      → s.writer ≡ wait_gp p
      → s.futex ≡ minus_one
      → Step s (record s { writer = futex_wait p })
  would_block :
      (p : Phase)
      → s.writer ≡ futex_wait p
      → s.futex ≢ minus_one
      → Step s (record s { writer = loop_head p })
  sleep :
      (p : Phase)
      → s.writer ≡ futex_wait p
      → s.futex ≡ minus_one
      → Step s (record s { writer = asleep p })
  interrupted : (p : Phase) → s.writer ≡ asleep p → Step s (record s { writer = futex_wait p })
  switch : s.writer ≡ parity → Step s (switch_and_wait s)
  finish : s.writer ≡ splice → Step s (put_back s)
  return : s.writer ≡ finished → Step s (record s { writer = idle })

abbrev pub init : System
init = record {
  gp_ctr = 1;
  futex = 0;
  reader = λ _. record { ctr = 0; registered = false; pc = run };
  lists = record { registry = []; cur_snap = []; qsreaders = [] };
  writer = idle;
  wait_loops = 0;
  older = λ _. false;
}

pub data Run (s : System) : System → Type 0 where
  here : Run s s
  then_step : {t u : System} → Run s t → Step t u → Run s u
