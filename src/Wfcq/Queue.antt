-- ===== src/Wfcq/Queue.antt =====
-- include/urcu/static/wfcqueue.h: a queue, its operations, and how they interleave a shared
-- access at a time. Nodes are addresses; 0 is NULL. The head node is the argument `h`.
use liburcu.Prelude.{
  ℕ, ◌≡◌, ◌≢◌, Bool, true, false, List, [], ◌∷◌, ◌++◌, ◌==◌, if◌then◌else◌, update,
}

-- What a dequeue returned.
pub data Result : Type 0 where
  null : Result
  would_block : Result
  node : (n : ℕ) → (state_last : Bool) → Result

-- Where the one dequeuer stands, with its locals.
pub data Pc : Type 0 where
  idle : (last_result : Result) → Pc
  check_head : Pc  -- in _cds_wfcq_empty, before the load of head->node.next
  check_tail : Pc  -- before the load of tail->p
  sync_head : Pc  -- in ___cds_wfcq_node_sync_next(&head->node, blocking)
  read_next : (node : ℕ) → Pc  -- before the load of node->next
  clear_head : (node : ℕ) → Pc  -- before _cds_wfcq_node_init(&head->node)
  swap_tail : (node : ℕ) → Pc  -- before the cmpxchg of tail->p
  sync_node : (node : ℕ) → Pc  -- in ___cds_wfcq_node_sync_next(node, blocking)
  restore_head : (node : ℕ) → Pc  -- before head->node.next = node
  move_head : (node next : ℕ) → Pc  -- before head->node.next = next

pub record Queue : Type 0 where
  pub next : ℕ → ℕ
  pub tail : ℕ
  -- The local `old_tail` of the thread that appends the node, from its exchange to its store.
  pub old_tail : ℕ → ℕ
  pub pc : Pc
  pub blocking : Bool
  -- An observer's notes, which no code reads: whether the caller has the node, the nodes in
  -- the order of the exchanges of enqueue, and the nodes that dequeue returned, in order.
  pub owned : ℕ → Bool
  pub enqueued : List ℕ
  pub dequeued : List ℕ

-- _cds_wfcq_init
abbrev pub init : ℕ → Queue
init h = record {
  next = λ _. 0;
  tail = h;
  old_tail = λ _. 0;
  pc = idle null;
  blocking = false;
  owned = λ _. true;
  enqueued = [];
  dequeued = [];
}

-- ___cds_wfcq_append of one node, up to its exchange.
abbrev pub exchange_tail : ℕ → Queue → Queue
exchange_tail n s = record s {
  tail = n;
  old_tail = update s.old_tail n s.tail;
  owned = update s.owned n false;
  enqueued = s.enqueued ++ n ∷ [];
}

-- Its store to old_tail->next.
abbrev pub store_next : ℕ → Queue → Queue
store_next n s = record s {
  next = update s.next (s.old_tail n) n;
  old_tail = update s.old_tail n 0;
}

abbrev pub _cds_wfcq_node_init : ℕ → Queue → Queue
_cds_wfcq_node_init n s = record s { next = update s.next n 0 }

-- Whether ___cds_wfcq_append returns true.
abbrev pub was_non_empty : (h : ℕ) → (old : ℕ) → Bool
was_non_empty h old = if old == h then false else true

-- A node is handed to the caller.
abbrev pub give : ℕ → Bool → Queue → Queue
give n last s = record s {
  pc = idle (node n last);
  owned = update s.owned n true;
  dequeued = s.dequeued ++ n ∷ [];
}

abbrev pub start_dequeue : Bool → Queue → Queue
start_dequeue b s = record s { pc = check_head; blocking = b }

-- ___cds_wfcq_node_sync_next where it read NULL: one more turn, or no blocking.
abbrev pub busy_wait : Pc → Queue → Queue
busy_wait p s = if s.blocking then s else record s { pc = p }

-- ___cds_wfcq_dequeue_with_state, from one shared access to the next.
unfoldable pub dequeue_at : ℕ → Pc → Queue → Queue
dequeue_at h (idle r) s = s
dequeue_at h check_head s =
    if s.next h == 0 then record s { pc = check_tail } else record s { pc = sync_head }
dequeue_at h check_tail s =
    if s.tail == h then record s { pc = idle null } else record s { pc = sync_head }
dequeue_at h sync_head s =
    if s.next h == 0 then busy_wait (idle would_block) s else record s { pc = read_next (s.next h) }
dequeue_at h (read_next n) s =
    if s.next n == 0
    then record s { pc = clear_head n }
    else record s { pc = move_head n (s.next n) }
dequeue_at h (clear_head n) s = record (_cds_wfcq_node_init h s) { pc = swap_tail n }
dequeue_at h (swap_tail n) s =
    if s.tail == n then give n true (record s { tail = h }) else record s { pc = sync_node n }
dequeue_at h (sync_node n) s =
    if s.next n == 0 then busy_wait (restore_head n) s else record s { pc = move_head n (s.next n) }
dequeue_at h (restore_head n) s = record s { next = update s.next h n; pc = idle would_block }
dequeue_at h (move_head n nx) s = give n false (record s { next = update s.next h nx })

unfoldable pub dequeue_step : ℕ → Queue → Queue
dequeue_step h s = dequeue_at h s.pc s

-- The steps: any number of threads that append, one at a time that dequeues.
pub data Step (h : ℕ) (s : Queue) : Queue → Type 0 where
  init_node : (n : ℕ) → n ≢ h → s.owned n ≡ true → Step h s (_cds_wfcq_node_init n s)
  -- The caller enqueues a node that it has and has initialised.
  exchange :
      (n : ℕ) → n ≢ h → n ≢ 0 → s.owned n ≡ true → s.next n ≡ 0 → Step h s (exchange_tail n s)
  store : (n : ℕ) → s.old_tail n ≢ 0 → Step h s (store_next n s)
  start : (r : Result) (b : Bool) → s.pc ≡ idle r → Step h s (start_dequeue b s)
  advance : Step h s (dequeue_step h s)

-- The states that a fresh queue can reach.
pub data Reachable (h : ℕ) : Queue → Type 0 where
  fresh : Reachable h (init h)
  then_step : {s t : Queue} → Reachable h s → Step h s t → Reachable h t
