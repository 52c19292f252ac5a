-- ===== src/Wfcq/Invariant/Defs.antt =====
-- The invariant of a queue: what is in it, and what the dequeuer holds.
use liburcu.Prelude.{Distinct, ℕ, ◌≡◌, ◌≢◌, true, false, List, ◌∷◌, ◌++◌, has, update}
use liburcu.Wfcq.Queue.{
  Queue, Pc, read_next, clear_head, swap_tail, sync_node, restore_head, move_head,
}
use liburcu.Wfcq.Chain.{Chain, last}

-- The links, with the one of the head node that the dequeuer has taken out.
abbrev pub view : ℕ → Pc → (ℕ → ℕ) → ℕ → ℕ
view h (swap_tail n) next = update next h n
view h (sync_node n) next = update next h n
view h (restore_head n) next = update next h n
view h (move_head n nx) next = update next h n
view h _ next = next

-- What the dequeuer knows of its locals.
abbrev pub Local : ℕ → Pc → (ℕ → ℕ) → Type 0
Local h (read_next n) next = (next h ≡ n) × (n ≢ 0)
Local h (clear_head n) next = (next h ≡ n) × (n ≢ 0)
Local h (swap_tail n) next = (next h ≡ 0) × (n ≢ 0)
Local h (sync_node n) next = n ≢ 0
Local h (restore_head n) next = n ≢ 0
Local h (move_head n nx) next = (n ≢ 0) × ((next n ≡ nx) × (nx ≢ 0))
Local h _ next = Unit

-- The queue holds `items`.
pub record Holds (h : ℕ) (s : Queue) (items : List ℕ) : Type 0 where
  pub chain : Chain s.old_tail (view h s.pc s.next) h items
  pub distinct : Distinct (h ∷ items)
  pub no_null : has 0 (h ∷ items) ≡ false
  pub at_tail : s.tail ≡ last h items
  pub taken : (n : ℕ) → has n items ≡ true → s.owned n ≡ false
  pub pending : (n : ℕ) → s.old_tail n ≢ 0 → has n items ≡ true
  pub order : s.enqueued ≡ s.dequeued ++ items
  pub local : Local h s.pc s.next
