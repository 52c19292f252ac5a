-- ===== src/Stacks/WaitFree.antt =====
-- include/urcu/static/wfstack.h: push, pop and pop_all, a shared access at a time, by any number of
-- threads. Nodes are addresses; 0 is NULL and 1 is CDS_WFS_END.
mod Invariant
mod Tests
use liburcu.Prelude.{
  ℕ, ◌≡◌, ◌≢◌, Bool, true, false, not, List, [], ◌∷◌, ◌==◌, if◌then◌else◌, update,
}
use liburcu.Stacks.Spec.{Event, pushed, popped, popped_null, popped_all, would_block, holds}

-- Where the push of a node stands.
pub data PushPc : Type 0 where
  outside : PushPc  -- the node is not being pushed
  linking : (old_head : ℕ) → PushPc  -- before CMM_STORE_SHARED(node->next, ...)

-- Where a thread that pops stands.
pub data PopPc : Type 0 where
  ready : PopPc
  load_head : (blocking : Bool) → PopPc  -- head of the loop
  sync_next : (blocking : Bool) (head : ℕ) → PopPc  -- in ___cds_wfs_node_sync_next
  swap_head : (blocking : Bool) (head next : ℕ) → PopPc  -- before the cmpxchg

pub record Stack : Type 0 where
  pub head : ℕ
  pub next : ℕ → ℕ
  pub push : ℕ → PushPc
  pub pop : ℕ → PopPc
  -- An observer's notes, which no code reads: the calls that have taken effect, the newest first.
  pub events : List Event

abbrev pub cds_wfs_end : ℕ
cds_wfs_end = 1

abbrev pub note : Event → Stack → Stack
note e s = record s { events = e ∷ s.events }

abbrev pub ___cds_wfs_init : Stack
___cds_wfs_init = record {
  head = cds_wfs_end;
  next = λ _. 0;
  push = λ _. outside;
  pop = λ _. ready;
  events = [];
}

abbrev pub ___cds_wfs_end : ℕ → Bool
___cds_wfs_end node = node == cds_wfs_end

abbrev pub _cds_wfs_node_init : ℕ → Stack → Stack
_cds_wfs_node_init n s = record s { next = update s.next n 0 }

-- _cds_wfs_push up to the exchange: the call has taken effect there.
unfoldable pub exchange : ℕ → Stack → Stack
exchange n s =
    note (pushed n (not (___cds_wfs_end s.head)))
      (record s { head = n; push = update s.push n (linking s.head) })

-- The rest of _cds_wfs_push.
unfoldable pub push_at : ℕ → PushPc → Stack → Stack
push_at n outside s = s
push_at n (linking old_head) s = record s {
  next = update s.next n old_head;
  push = update s.push n outside;
}

-- ___cds_wfs_pop from one access to the next. It returns NULL, the node at the head, or
-- CDS_WFS_WOULDBLOCK.
unfoldable pub pop_at : (thread : ℕ) → PopPc → Stack → Stack
pop_at i ready s = s
pop_at i (load_head blocking) s =
    if ___cds_wfs_end s.head
    then note popped_null (record s { pop = update s.pop i ready })
    else record s { pop = update s.pop i (sync_next blocking s.head) }
pop_at i (sync_next blocking head) s =
    if s.next head == 0
    then (if blocking then s else note would_block (record s { pop = update s.pop i ready }))
    else record s { pop = update s.pop i (swap_head blocking head (s.next head)) }
pop_at i (swap_head blocking head next) s =
    if s.head == head
    then note (popped head (___cds_wfs_end next))
        (record s { head = next; pop = update s.pop i ready })
    else (if blocking
        then record s { pop = update s.pop i (load_head blocking) }
        else note would_block (record s { pop = update s.pop i ready }))

-- ___cds_wfs_pop_all: it returns NULL for CDS_WFS_END.
unfoldable pub pop_all : Stack → Stack
pop_all s =
    note (popped_all (if ___cds_wfs_end s.head then 0 else s.head))
      (record s { head = cds_wfs_end })

-- A thread that pops has read the address of the node.
abbrev pub holding : PopPc → ℕ → Bool
holding (sync_next b h) n = h == n
holding (swap_head b h nx) n = h == n
holding _ n = false

pub data Step (s : Stack) : Stack → Type 0 where
  -- A node is initialised or pushed that is not in the stack, by one thread, and at no time when
  -- a thread that pops has its address: this is what each of the three techniques of the header,
  -- a grace period, mutual exclusion or a single consumer, is there to give.
  node_init :
      (n : ℕ)
      → s.push n ≡ outside
      → holds cds_wfs_end n s.events ≡ false
      → ((i : ℕ) → holding (s.pop i) n ≡ false)
      → Step s (_cds_wfs_node_init n s)
  start_push :
      (n : ℕ)
      → n ≢ 0
      → n ≢ cds_wfs_end
      → s.next n ≡ 0  -- asserted
      → s.push n ≡ outside
      → holds cds_wfs_end n s.events ≡ false
      → ((i : ℕ) → holding (s.pop i) n ≡ false)
      → Step s (exchange n s)
  push_step : (n : ℕ) → Step s (push_at n (s.push n) s)
  start_pop :
      (i : ℕ) (blocking : Bool)
      → s.pop i ≡ ready
      → Step s (record s { pop = update s.pop i (load_head blocking) })
  pop_step : (i : ℕ) → Step s (pop_at i (s.pop i) s)
  take_all : Step s (pop_all s)

pub data Reachable : Stack → Type 0 where
  fresh : Reachable ___cds_wfs_init
  then_step : {s t : Stack} → Reachable s → Step s t → Reachable t
