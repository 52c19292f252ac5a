-- ===== src/Rcu/Completion.antt =====
-- src/urcu.c, `synchronize_rcu`: with no reader in a section it returns by its own steps.
use liburcu.Prelude.{
  Bool, ℕ, ◌≡◌, ◌∙◌, arith, true, false, List, [], ◌∷◌, has, refl, is_empty, Bool-cases, ltb, inl,
  inr,
}
use mathlib.Core.Path.{subst}
use liburcu.Rcu.Reader.{nest_of, rcu_reader_state}
use liburcu.Rcu.Scan.{Phase, first, second, input, scan_pass}
use liburcu.Rcu.System
use liburcu.Rcu.System.{
  System, Step, after_wait, called, finished, count_attempt, leave_or_wait, switch_and_wait,
  take_locks, put_back,
}
use liburcu.Rcu.Progress.{scan_pass_sorts}

-- The steps that the thread in synchronize_rcu takes from its call up to its return.
abbrev pub in_call : {s t : System} → Step s t → Bool
in_call (System.register i u r p n) = false
in_call (System.unregister i u r p n) = false
in_call (System.load_gp i r p n) = false
in_call (System.store_ctr i gp p) = false
in_call (System.lock_nested i r p n m) = false
in_call (System.unlock_outer i p o) = false
in_call (System.unlock_nested i p n o) = false
in_call (System.no_waiter i p f) = false
in_call (System.waiter i p f) = false
in_call (System.clear_futex i p) = false
in_call (System.wake_none i p w) = false
in_call (System.wake_writer i p q w) = false
in_call (System.call e) = false
in_call (System.lock e) = true
in_call (System.attempt p e) = true
in_call (System.examine p i todo e) = true
in_call (System.examined p e) = true
in_call (System.relock p e) = true
in_call (System.changed p e f) = true
in_call (System.unchanged p e f) = true
in_call (System.would_block p e f) = true
in_call (System.sleep p e f) = true
in_call (System.interrupted p e) = true
in_call (System.switch e) = true
in_call (System.finish e) = true
in_call (System.return e) = false

-- A run of these steps alone.
pub data OwnRun (s : System) : System → Type 0 where
  here : OwnRun s s
  then_own : {t u : System} → OwnRun s t → (st : Step t u) → in_call st ≡ true → OwnRun s u

prepend : {s t u : System} (st : Step s t) → in_call st ≡ true → OwnRun t u → OwnRun s u
prepend st own here = then_own here st own
prepend st own (then_own r q o) = then_own (prepend st own r) q o

join : {s t u : System} → OwnRun s t → OwnRun t u → OwnRun s u
join r here = r
join r (then_own q st o) = then_own (join r q) st o

empty_of : (l : List ℕ) → ((j : ℕ) → has j l ≡ false) → is_empty l ≡ true
empty_of [] h = refl
empty_of (x ∷ xs) h = ground (arith, h x)

abbrev pub Silent : System → Type 0
Silent s = (j : ℕ) → nest_of (s.reader j).ctr ≡ 0

-- Where a run of the writer alone has come.
abbrev pub Reaches : System → System.WriterPc → Type 0
Reaches s w = (t : System) × OwnRun s t × (t.writer ≡ w) × (t.reader ≡ s.reader)

scan_all :
    (p : Phase) (todo : List ℕ) (s : System)
    → s.writer ≡ System.scan p todo
    → OwnRun s (record s {
      writer = System.scan p [];
      lists = scan_pass p s.gp_ctr (λ i. (s.reader i).ctr) todo s.lists;
    })
unfolding scan_pass
scan_all p [] s e = subst (λ w. OwnRun s (record s { writer = w })) e here
scan_all p (i ∷ todo) s e = prepend (System.examine p i todo e) refl (scan_all p todo _ refl)

count-keeps :
    (s : System) → ((count_attempt s).lists ≡ s.lists) × ((count_attempt s).reader ≡ s.reader)
unfolding count_attempt
count-keeps s = ground arith

module _ (p : Phase) where
  scan_ends :
      (s : System)
      → s.writer ≡ System.scan p (input p s.lists)
      → Silent s
      → Reaches s (after_wait p)
  unfolding leave_or_wait rcu_reader_state
  scan_ends s e silent = (
    _,
    then_own (scan_all p (input p s.lists) s e) (System.examined p refl) refl,
    elim (Bool-cases (ltb s.wait_loops 100)) [ inl l ↦ rw (empty, l) | inr l ↦ rw (empty, l) ],
    elim (Bool-cases (ltb s.wait_loops 100)) [ inl l ↦ rw (empty, l) | inr l ↦ rw (empty, l) ],
  )
    where
      empty :
          is_empty
            (input p (scan_pass p s.gp_ctr (λ i. (s.reader i).ctr) (input p s.lists) s.lists))
          ≡ true
      empty = empty_of _ λ j.
          ground (arith, silent j, (scan_pass_sorts p s.gp_ctr (λ i. (s.reader i).ctr) s.lists j).0)

  wait_ends : (s : System) → s.writer ≡ System.loop_head p → Silent s → Reaches s (after_wait p)
  wait_ends s e silent =
      let (lists, reader) = count-keeps s in
      let (t, r, w, same) =
        scan_ends (record (count_attempt s) { writer = System.scan p (input p s.lists) }) (rw lists)
          (rw reader silent) in
      (t, prepend (System.attempt p e) refl r, w, same ∙ reader)

-- Once called, and while no thread is in a read-side section, `synchronize_rcu` returns: the steps
-- of its thread alone, with none of a reader between them, lead to its return, and change no reader.
pub synchronize_rcu_returns :
    (s : System)
    → s.writer ≡ called
    → ((j : ℕ) → nest_of (s.reader j).ctr ≡ 0)
    → (t : System) × OwnRun s t × (t.writer ≡ finished) × (t.reader ≡ s.reader)
unfolding switch_and_wait put_back take_locks
synchronize_rcu_returns s e silent = elim (Bool-cases (is_empty s.lists.registry)) [
  | inl x ↦ (take_locks s, then_own here (System.lock e) refl, rw x refl, rw x refl)
  | inr x ↦
      let locked : (take_locks s).reader ≡ s.reader = rw x refl in
      let (t, r, w, same) = wait_ends first (take_locks s) (rw x refl) (rw locked silent) in
      let kept : t.reader ≡ s.reader = same ∙ locked in
      let (u, q, v, still) = wait_ends second (switch_and_wait t) refl (rw kept silent) in
      (
        put_back u,
        then_own (join (then_own (prepend (System.lock e) refl r) (System.switch w) refl) q)
            (System.finish v) refl,
        refl,
        still ∙ kept,
      )
]
