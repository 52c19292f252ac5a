-- ===== src/Stacks/LockFree.antt =====
-- include/urcu/static/lfstack.h: push, pop and pop_all, a shared access at a time, by any number of
-- threads. Nodes are addresses; 0 is NULL.
mod Invariant
mod Tests
use liburcu.Prelude.{
  ℕ, ◌≡◌, ◌≢◌, Bool, true, false, not, List, [], ◌∷◌, ◌==◌, if◌then◌else◌, update,
}
use liburcu.Stacks.Spec.{Event, pushed, popped, popped_null, popped_all, holds}

-- Where the push of a node stands.
pub data PushPc : Type 0 where
  outside : PushPc  -- the node is not being pushed
  storing : (head : ℕ) → PushPc  -- before node->next = &head->node
  swapping : (old_head : ℕ) → PushPc  -- before the cmpxchg

-- Where a thread that pops stands.
pub data PopPc : Type 0 where
  ready : PopPc
  load_head : PopPc  -- head of the loop
  load_next : (head : ℕ) → PopPc  -- before the load of head->node.next
  swap_head : (head next : ℕ) → PopPc  -- before the cmpxchg

pub record Stack : Type 0 where
  pub head : ℕ
  pub next : ℕ → ℕ
  pub push : ℕ → PushPc
  pub pop : ℕ → PopPc
  -- An observer's notes, which no code reads: the calls that have taken effect, the newest first.
  pub events : List Event

abbrev pub note : Event → Stack → Stack
note e s = record s { events = e ∷ s.events }

abbrev pub ___cds_lfs_init : Stack
___cds_lfs_init = record {
  head = 0;
  next = λ _. 0;
  push = λ _. outside;
  pop = λ _. ready;
  events = [];
}

abbrev pub ___cds_lfs_empty_head : ℕ → Bool
___cds_lfs_empty_head head = head == 0

-- _cds_lfs_push from one access to the next.
unfoldable pub push_at : ℕ → PushPc → Stack → Stack
push_at n outside s = s
push_at n (storing head) s = record s {
  next = update s.next n head;
  push = update s.push n (swapping head);
}
push_at n (swapping old_head) s =
    if s.head == old_head
    then note (pushed n (not (___cds_lfs_empty_head s.head)))
        (record s { head = n; push = update s.push n outside })
    else record s { push = update s.push n (storing s.head) }

-- ___cds_lfs_pop from one access to the next. It returns head->node, or NULL.
unfoldable pub pop_at : (thread : ℕ) → PopPc → Stack → Stack
pop_at i ready s = s
pop_at i load_head s =
    if ___cds_lfs_empty_head s.head
    then note popped_null (record s { pop = update s.pop i ready })
    else record s { pop = update s.pop i (load_next s.head) }
pop_at i (load_next head) s = record s { pop = update s.pop i (swap_head head (s.next head)) }
pop_at i (swap_head head next) s =
    if s.head == head
    then note (popped head (___cds_lfs_empty_head next))
        (record s { head = next; pop = update s.pop i ready })
    else record s { pop = update s.pop i load_head }

-- ___cds_lfs_pop_all
abbrev pub pop_all : Stack → Stack
pop_all s = note (popped_all s.head) (record s { head = 0 })

-- A thread that pops has read the address of the node.
abbrev pub holding : PopPc → ℕ → Bool
holding (load_next h) n = h == n
holding (swap_head h nx) n = h == n
holding _ n = false

pub data Step (s : Stack) : Stack → Type 0 where
  -- A node is pushed that is not in the stack, by one thread, and at no time when a thread
  -- that pops has its address: this is what each of the three techniques of the header, a
  -- grace period, mutual exclusion or a single consumer, is there to give.
  start_push :
      (n : ℕ)
      → n ≢ 0
      → s.push n ≡ outside
      → holds 0 n s.events ≡ false
      → ((i : ℕ) → holding (s.pop i) n ≡ false)
      → Step s (record s { push = update s.push n (storing 0) })
  -- The content of a node that has left the stack may be overwritten at once, even while a thread
  -- that pops has its address.
  overwrite :
      (n value : ℕ)
      → s.push n ≡ outside
      → holds 0 n s.events ≡ false
      → Step s (record s { next = update s.next n value })
  push_step : (n : ℕ) → Step s (push_at n (s.push n) s)
  start_pop : (i : ℕ) → s.pop i ≡ ready → Step s (record s { pop = update s.pop i load_head })
  pop_step : (i : ℕ) → Step s (pop_at i (s.pop i) s)
  take_all : Step s (pop_all s)

pub data Reachable : Stack → Type 0 where
  fresh : Reachable ___cds_lfs_init
  then_step : {s t : Stack} → Reachable s → Step s t → Reachable t
