-- ===== src/Defer/Queue.antt =====
-- src/urcu-defer-impl.h: the queue of one thread, its encoder `_defer_rcu` and its decoder
-- `rcu_defer_barrier_queue`. Functions and data are pointers, words below 2 ^ 64. A call that
-- the decoder makes is an entry of the list that it returns.
use liburcu.Prelude.{
  ℕ, zero, suc, ◌+◌, ◌-◌, ◌*◌, ◌/◌, ◌%◌, ◌^◌, Bool, true, false, ◌||◌, not, List, [], ◌∷◌, Option,
  none, some, ◌==◌, ltb, if◌then◌else◌, word_mod, word_add, word_sub, update, minus_one,
}

abbrev pub defer_queue_size : ℕ
defer_queue_size = 2 ^ 12

abbrev pub dq_is_fct_bit : ℕ → Bool
dq_is_fct_bit x = x % 2 == 1

abbrev pub dq_set_fct_bit : ℕ → ℕ
dq_set_fct_bit x = x / 2 * 2 + 1

abbrev pub dq_clear_fct_bit : ℕ → ℕ
dq_clear_fct_bit x = x / 2 * 2

-- (void *)(~DQ_FCT_BIT), the pattern of -2
abbrev pub dq_fct_mark : ℕ
dq_fct_mark = word_mod - 2

-- A deferred call: the function, and its argument.
abbrev pub Call : Type 0
Call = ℕ × ℕ

pub record DeferQueue : Type 0 where
  pub head : ℕ
  pub last_fct_in : ℕ
  pub tail : ℕ
  pub last_fct_out : ℕ
  pub q : ℕ → ℕ
  pub last_head : ℕ

-- q[i & DEFER_QUEUE_MASK]
abbrev pub cell : (ℕ → ℕ) → ℕ → ℕ
cell buf i = buf (i % defer_queue_size)

-- q[i & DEFER_QUEUE_MASK] = v
abbrev pub store : (ℕ → ℕ) → ℕ → ℕ → ℕ → ℕ
store buf i v = update buf (i % defer_queue_size) v

pub record Decoded : Type 0 where
  pub at : ℕ
  pub fct : ℕ
  pub calls : List Call

abbrev pub call_first : Call → Option Decoded → Option Decoded
call_first c none = none
call_first c (some d) = some (record d { calls = c ∷ d.calls })

-- The loop of the decoder from `i` up to `head`, on fuel; `fct` is `last_fct_out`.
unfoldable pub decode : ℕ → (ℕ → ℕ) → (head i fct : ℕ) → Option Decoded
decode zero buf head i fct = none
decode (suc fuel) buf head i fct =
    let p = cell buf i in
    let i1 = word_add i 1 in
    let i2 = word_add i1 1 in
    let aligned =
      call_first (dq_clear_fct_bit p, cell buf i1) (decode fuel buf head i2 (dq_clear_fct_bit p)) in
    let marked =
      call_first (cell buf i1, cell buf i2) (decode fuel buf head (word_add i2 1) (cell buf i1)) in
    let plain = call_first (fct, p) (decode fuel buf head i1 fct) in
    if i == head
    then some (record { at = i; fct = fct; calls = [] })
    else if dq_is_fct_bit p
    then aligned
    else if p == dq_fct_mark
    then marked
    else plain

-- The queue holds at most `defer_queue_size` entries, so the loop ends on this fuel.
unfoldable pub rcu_defer_barrier_queue : DeferQueue → ℕ → Option (DeferQueue × List Call)
rcu_defer_barrier_queue dq head =
    elim (decode (defer_queue_size + 1) dq.q head dq.tail dq.last_fct_out) [
      | none ↦ none
      | some d ↦ some (record dq { tail = d.at; last_fct_out = d.fct }, d.calls)
    ]

-- `synchronize_rcu`, which comes first, changes nothing here.
unfoldable pub rcu_defer_barrier_thread : DeferQueue → Option (DeferQueue × List Call)
rcu_defer_barrier_thread dq =
    if word_sub dq.head dq.tail == 0 then some (dq, []) else rcu_defer_barrier_queue dq dq.head

-- The stores of `_defer_rcu` behind its check for room.
unfoldable pub enqueue : ℕ → ℕ → DeferQueue → DeferQueue
enqueue fct p dq =
    let h1 = word_add dq.head 1 in
    let h2 = word_add h1 1 in
    let plain = record dq { q = store dq.q dq.head p; head = h1 } in
    let marked = record dq {
      last_fct_in = fct;
      q = store (store (store dq.q dq.head dq_fct_mark) h1 fct) h2 p;
      head = word_add h2 1;
    } in
    let aligned = record dq {
      last_fct_in = fct;
      q = store (store dq.q dq.head (dq_set_fct_bit fct)) h1 p;
      head = h2;
    } in
    if not (dq.last_fct_in == fct) || dq_is_fct_bit p || p == dq_fct_mark
    then if dq_is_fct_bit fct || fct == dq_fct_mark then marked else aligned
    else plain

-- The futex of the defer thread, and whether FUTEX_WAKE is called.
unfoldable pub wake_up_defer : ℕ → ℕ × Bool
wake_up_defer futex = if futex == minus_one then (0, true) else (futex, false)

pub record Deferred : Type 0 where
  pub queue : DeferQueue
  pub futex : ℕ
  pub wakes : Bool
  pub ran : List Call

-- `none` where the assertion behind the flush fails, or the decoder does not end.
unfoldable pub defer_rcu : ℕ → ℕ → DeferQueue → ℕ → Option Deferred
defer_rcu fct p dq futex =
    let (futex', wakes) = wake_up_defer futex in
    if ltb (word_sub dq.head dq.tail) (defer_queue_size - 2)
    then some (record { queue = enqueue fct p dq; futex = futex'; wakes = wakes; ran = [] })
    else elim (rcu_defer_barrier_thread dq) [
      | none ↦ none
      | some (dq', ran) ↦
          if word_sub dq'.head dq'.tail == 0
          then some (record { queue = enqueue fct p dq'; futex = futex'; wakes = wakes; ran = ran })
          else none
    ]
