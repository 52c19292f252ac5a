-- ===== src/Ref.antt =====
-- include/urcu/ref.h: the reference counter, with any number of threads, an atomic access at a time.
mod Count
mod Tests
use liburcu.Prelude.{
  ℕ, ◌+◌, ◌-◌, ◌≡◌, Bool, true, false, ◌||◌, List, [], ◌∷◌, length, has, ◌==◌, if◌then◌else◌,
  update,
}

abbrev pub long_max : ℕ
long_max = 9223372036854775807

-- Where a thread stands.
pub data Pc : Type 0 where
  outside : Pc
  read_safe : Pc  -- in urcu_ref_get_safe, before the read
  swap_safe : (old : ℕ) → Pc  -- in its loop
  read_unless_zero : Pc  -- in urcu_ref_get_unless_zero, before the read
  swap_unless_zero : (old : ℕ) → Pc  -- in its loop

-- What a call of either has returned.
pub data Event : Type 0 where
  got : Event  -- true
  overflow : Event  -- false at LONG_MAX
  was_zero : Event  -- false at 0
  dropped : Event  -- urcu_ref_put that has not released
  released : Event  -- urcu_ref_put that has called `release`

pub record Counter : Type 0 where
  pub refcount : ℕ
  pub pc : ℕ → Pc
  -- An observer's notes, which no code reads: who holds the references, and what has happened.
  pub holders : List ℕ
  pub events : List Event

abbrev pub goto : ℕ → Pc → Counter → Counter
goto i p c = record c { pc = update c.pc i p }

abbrev pub note : Event → Counter → Counter
note e c = record c { events = e ∷ c.events }

-- The thread has its new reference.
abbrev pub take : ℕ → Counter → Counter
take i c =
    note got (record (goto i outside c) { refcount = c.refcount + 1; holders = i ∷ c.holders })

-- The holders without one reference of the thread.
abbrev pub drop_one : ℕ → List ℕ → List ℕ
drop_one i [] = []
drop_one i (j ∷ rest) = let less = drop_one i rest in if i == j then rest else j ∷ less

-- The head of the loop of urcu_ref_get_safe, with the value that was read.
unfoldable pub try_safe : ℕ → ℕ → Counter → Counter
try_safe i old c =
    if old == long_max then note overflow (goto i outside c) else goto i (swap_safe old) c

-- The head of the loop of urcu_ref_get_unless_zero.
unfoldable pub try_unless_zero : ℕ → ℕ → Counter → Counter
try_unless_zero i old c =
    if (old == 0) || (old == long_max)
    then note (if old == 0 then was_zero else overflow) (goto i outside c)
    else goto i (swap_unless_zero old) c

-- urcu_ref_get_safe and urcu_ref_get_unless_zero, from one access to the next.
unfoldable pub get_at : ℕ → Pc → Counter → Counter
get_at i outside c = c
get_at i read_safe c = try_safe i c.refcount c
get_at i (swap_safe old) c = if c.refcount == old then take i c else try_safe i c.refcount c
get_at i read_unless_zero c = try_unless_zero i c.refcount c
get_at i (swap_unless_zero old) c =
    if c.refcount == old then take i c else try_unless_zero i c.refcount c

-- urcu_ref_put; `res` of the source is c.refcount - 1.
unfoldable pub urcu_ref_put : ℕ → Counter → Counter
urcu_ref_put i c =
    note (if (c.refcount - 1) == 0 then released else dropped)
      (record c { refcount = c.refcount - 1; holders = drop_one i c.holders })

abbrev pub urcu_ref_init : ℕ → Counter
urcu_ref_init i = record { refcount = 1; pc = λ _. outside; holders = i ∷ []; events = [] }

pub data Step (c : Counter) : Counter → Type 0 where
  -- A thread takes a further reference from one that it has.
  get : (i : ℕ) → c.pc i ≡ outside → has i c.holders ≡ true → Step c (goto i read_safe c)
  -- A thread that has none, under RCU or a mutex.
  get_unless_zero : (i : ℕ) → c.pc i ≡ outside → Step c (goto i read_unless_zero c)
  on : (i : ℕ) → Step c (get_at i (c.pc i) c)
  put : (i : ℕ) → c.pc i ≡ outside → has i c.holders ≡ true → Step c (urcu_ref_put i c)

pub data Reachable : Counter → Type 0 where
  fresh : (i : ℕ) → Reachable (urcu_ref_init i)
  then_step : {c d : Counter} → Reachable c → Step c d → Reachable d
