-- ===== src/Rcu/Wakeup.antt =====
-- The futex of a grace period: `wait_gp` of src/urcu.c against `wake_up_gp` of
-- include/urcu/static/urcu.h.
use liburcu.Prelude.{
  ℕ, ◌≡◌, ◌≢◌, ◌⊎◌, inl, inr, true, false, refl, arith, ◌==◌, [], ◌∷◌, List, has, has-remove,
  minus_one, is_empty, Bool-cases, ltb, ap, sym, ◌∙◌,
}
use liburcu.Rcu.Reader.{
  nest_of, rcu_reader_state, rcu_read_lock_update, rcu_read_unlock_update, RcuState,
}
use liburcu.Rcu.Scan.{Phase, first, second, input, visit, list_del}
use liburcu.Rcu.System
use liburcu.Rcu.System.{
  System, Step, Run, here, then_step, WriterPc, unlocked, init, take_locks, count_attempt,
  leave_or_wait, switch_and_wait, put_back,
}
use liburcu.Rcu.Invariant.{Inv, Run-Inv, Inv-init}

-- Reader `j` is in a section, or on its way to FUTEX_WAKE with the futex still at -1.
abbrev pub Awake : System → ℕ → Type 0
Awake s j =
    (nest_of (s.reader j).ctr ≢ 0)
    ⊎ ((s.reader j).pc ≡ System.read_futex)
    ⊎ ((s.reader j).pc ≡ System.set_futex)

-- A reader that the writer waits for, and that will look at the futex.
abbrev pub Waker : Phase → System → Type 0
Waker p s = (j : ℕ) × (has j (input p s.lists) ≡ true) × Awake s j

abbrev pub Wakeable : WriterPc → System → Type 0
Wakeable (System.scan p todo) s =
    s.futex ≡ minus_one → (j : ℕ) → has j (input p s.lists) ≡ true → (has j todo ≡ true) ⊎ Awake s j
Wakeable (System.wait_gp p) s = s.futex ≡ minus_one → Waker p s
Wakeable (System.futex_wait p) s = s.futex ≡ minus_one → Waker p s
Wakeable (System.asleep p) s =
    (s.futex ≡ minus_one → Waker p s)
    × (s.futex ≢ minus_one → (i : ℕ) × ((s.reader i).pc ≡ System.wake))
Wakeable _ s = Unit

some_reader : (l : List ℕ) → is_empty l ≡ false → (j : ℕ) × (has j l ≡ true)
some_reader [] h = cc
some_reader (x ∷ xs) h = (x, ground arith)

module _ {s : System} (inv : Inv s) where
  -- While the futex is at -1, no reader that is awake falls asleep.
  Awake-keep : {t : System} (j : ℕ) → Step s t → t.futex ≡ minus_one → Awake s j → Awake t j
  unfolding take_locks count_attempt leave_or_wait switch_and_wait put_back rcu_read_lock_update
      rcu_read_unlock_update
  Awake-keep j (System.store_ctr i gp a) f w = ground (arith, inv.reading i gp)
  Awake-keep j (System.register i a b c d) f w = ground arith
  Awake-keep j (System.unregister i a b c d) f w = ground arith
  Awake-keep j (System.load_gp i a b c) f w = ground arith
  Awake-keep j (System.lock_nested i a b c d) f w = ground arith
  Awake-keep j (System.unlock_outer i a b) f w = ground arith
  Awake-keep j (System.unlock_nested i a b c) f w = ground arith
  Awake-keep j (System.no_waiter i a b) f w = ground arith
  Awake-keep j (System.waiter i a b) f w = ground arith
  Awake-keep j (System.clear_futex i a) f w = ground arith
  Awake-keep j (System.wake_none i a b) f w = ground arith
  Awake-keep j (System.wake_writer i p a b) f w = ground arith
  Awake-keep j st f w = ground arith

  Waker-keep :
      {t : System} (p : Phase)
      → Step s t
      → t.futex ≡ s.futex
      → ((j : ℕ) → Awake s j → has j (input p s.lists) ≡ true → has j (input p t.lists) ≡ true)
      → (s.futex ≡ minus_one → Waker p s)
      → t.futex ≡ minus_one
      → Waker p t
  Waker-keep p st same stays w f =
      let (j, listed, awake) = w (sym same ∙ f) in
      (j, stays j awake listed, Awake-keep j st f awake)

  -- A step of a reader that leaves the writer, the futex and its list alone.
  Wakeable-keep :
      {t : System} (w : WriterPc)
      → Step s t
      → t.futex ≡ s.futex
      → ((p : Phase) (j : ℕ)
          → Awake s j
          → has j (input p s.lists) ≡ true
          → has j (input p t.lists) ≡ true)
      → ((p : Phase) (todo : List ℕ) → w ≡ System.scan p todo → t.lists ≡ s.lists)
      → ((p : Phase)
          → w ≡ System.asleep p
          → (i : ℕ) → (s.reader i).pc ≡ System.wake
          → (t.reader i).pc ≡ System.wake)
      → Wakeable w s
      → Wakeable w t
  Wakeable-keep (System.scan p todo) st same stays fixed wakes h = λ f j listed.
      elim (h (sym same ∙ f) j (rw (← fixed p todo refl) listed)) [
        | inl later ↦ inl later
        | inr awake ↦ inr (Awake-keep j st f awake)
      ]
  Wakeable-keep (System.wait_gp p) st same stays fixed wakes h = Waker-keep p st same (stays p) h
  Wakeable-keep (System.futex_wait p) st same stays fixed wakes h = Waker-keep p st same (stays p) h
  Wakeable-keep (System.asleep p) st same stays fixed wakes h = (
    Waker-keep p st same (stays p) h.0,
    λ f. let (i, e) = h.1 (λ g. f (same ∙ g)) in (i, wakes p refl i e),
  )
  Wakeable-keep _ st same stays fixed wakes h = tt

  visit-Awake :
      (p : Phase) (i j : ℕ) (todo : List ℕ)
      → (has j (i ∷ todo) ≡ true) ⊎ Awake s j
      → has j (input p (visit p (rcu_reader_state s.gp_ctr (s.reader i).ctr) i s.lists)) ≡ true
      → (has j todo ≡ true) ⊎ Awake s j
  unfolding visit rcu_reader_state
  visit-Awake first i j todo h = ground (arith, has-remove i j s.lists.registry)
  visit-Awake second i j todo h = ground (arith, has-remove i j s.lists.cur_snap)

  leave-Wakeable :
      (p : Phase)
      → (s.futex ≡ minus_one → (j : ℕ) → has j (input p s.lists) ≡ true → Awake s j)
      → Wakeable (leave_or_wait p s).writer (leave_or_wait p s)
  unfolding leave_or_wait
  leave-Wakeable first h = elim (Bool-cases (is_empty s.lists.registry)) [
    | inl e ↦ elim (Bool-cases (ltb s.wait_loops 100)) [
      | inl l ↦ rw (e, l) tt
      | inr l ↦ rw (e, l) tt
    ]
    | inr e ↦ elim (Bool-cases (ltb s.wait_loops 100)) [
      | inl l ↦ rw (e, l) tt
      | inr l ↦ rw (e, l) (λ f. let (j, listed) = some_reader _ e in (j, listed, h f j listed))
    ]
  ]
  leave-Wakeable second h = elim (Bool-cases (is_empty s.lists.cur_snap)) [
    | inl e ↦ elim (Bool-cases (ltb s.wait_loops 100)) [
      | inl l ↦ rw (e, l) tt
      | inr l ↦ rw (e, l) tt
    ]
    | inr e ↦ elim (Bool-cases (ltb s.wait_loops 100)) [
      | inl l ↦ rw (e, l) tt
      | inr l ↦ rw (e, l) (λ f. let (j, listed) = some_reader _ e in (j, listed, h f j listed))
    ]
  ]

  visit-input :
      (p : Phase) (r : RcuState) (i j : ℕ)
      → has j (input p (visit p r i s.lists)) ≡ true
      → has j (input p s.lists) ≡ true
  unfolding visit
  visit-input first RcuState.active_current i j = ground (arith, has-remove i j s.lists.registry)
  visit-input second RcuState.active_current i j = ground (arith, has-remove i j s.lists.cur_snap)
  visit-input p RcuState.active_old i j = λ h. h
  visit-input first RcuState.inactive i j = ground (arith, has-remove i j s.lists.registry)
  visit-input second RcuState.inactive i j = ground (arith, has-remove i j s.lists.cur_snap)

  -- The reader that clears the futex goes on to FUTEX_WAKE.
  clear-Wakeable :
      (t : System) (w : WriterPc) (i : ℕ)
      → t.futex ≡ 0
      → (t.reader i).pc ≡ System.wake
      → Wakeable w t
  clear-Wakeable t (System.scan p todo) i f e = λ g. absurd (omega arith)
  clear-Wakeable t (System.wait_gp p) i f e = λ g. absurd (omega arith)
  clear-Wakeable t (System.futex_wait p) i f e = λ g. absurd (omega arith)
  clear-Wakeable t (System.asleep p) i f e = (λ g. absurd (omega arith), λ g. (i, e))
  clear-Wakeable t _ i f e = tt

  register-input :
      (i : ℕ) (p : Phase) (j : ℕ)
      → has j (input p s.lists) ≡ true
      → has j (input p (record s.lists { registry = i ∷ s.lists.registry })) ≡ true
  register-input i first j h = ground arith
  register-input i second j h = h

  unregister-input :
      (i : ℕ) (p : Phase) (j : ℕ)
      → (j == i) ≡ false
      → has j (input p s.lists) ≡ true
      → has j (input p (list_del i s.lists)) ≡ true
  unregister-input i first j e h = ground (arith, has-remove i j s.lists.registry)
  unregister-input i second j e h = ground (arith, has-remove i j s.lists.cur_snap)

  scan-locked :
      (w : WriterPc) (p : Phase) (todo : List ℕ) → unlocked w ≡ true → w ≢ System.scan p todo
  scan-locked w p todo u e = cc (ap unlocked e)

  Step-Wakeable : {t : System} → Step s t → Wakeable s.writer s → Wakeable t.writer t
  unfolding take_locks count_attempt switch_and_wait put_back
  Step-Wakeable (System.register i a b c d) w =
      Wakeable-keep s.writer (System.register i a b c d) refl (λ p j k. register-input i p j)
        (λ p l e. absurd (scan-locked s.writer p l a e)) (λ p e j f. ground arith) w
  Step-Wakeable (System.unregister i a b c d) w =
      Wakeable-keep s.writer (System.unregister i a b c d) refl
        (λ p j k. unregister-input i p j (ground arith))
        (λ p l e. absurd (scan-locked s.writer p l a e)) (λ p e j f. ground arith) w
  Step-Wakeable (System.load_gp i a b c) w =
      Wakeable-keep s.writer (System.load_gp i a b c) refl (λ p j k h. h) (λ p l e. refl)
        (λ p e j f. ground arith) w
  Step-Wakeable (System.store_ctr i gp a) w =
      Wakeable-keep s.writer (System.store_ctr i gp a) refl (λ p j k h. h) (λ p l e. refl)
        (λ p e j f. ground arith) w
  Step-Wakeable (System.lock_nested i a b c d) w =
      Wakeable-keep s.writer (System.lock_nested i a b c d) refl (λ p j k h. h) (λ p l e. refl)
        (λ p e j f. ground arith) w
  Step-Wakeable (System.unlock_outer i a b) w =
      Wakeable-keep s.writer (System.unlock_outer i a b) refl (λ p j k h. h) (λ p l e. refl)
        (λ p e j f. ground arith) w
  Step-Wakeable (System.unlock_nested i a b c) w =
      Wakeable-keep s.writer (System.unlock_nested i a b c) refl (λ p j k h. h) (λ p l e. refl)
        (λ p e j f. ground arith) w
  Step-Wakeable (System.no_waiter i a b) w =
      Wakeable-keep s.writer (System.no_waiter i a b) refl (λ p j k h. h) (λ p l e. refl)
        (λ p e j f. ground arith) w
  Step-Wakeable (System.waiter i a b) w =
      Wakeable-keep s.writer (System.waiter i a b) refl (λ p j k h. h) (λ p l e. refl)
        (λ p e j f. ground arith) w
  Step-Wakeable (System.clear_futex i a) w = clear-Wakeable _ s.writer i refl (ground arith)
  Step-Wakeable (System.wake_none i a b) w =
      Wakeable-keep s.writer (System.wake_none i a b) refl (λ p j k h. h) (λ p l e. refl)
        (λ p e j f. absurd (b p e)) w
  Step-Wakeable (System.wake_writer i p a b) w = tt
  Step-Wakeable (System.call e) w = tt
  Step-Wakeable (System.lock e) w = elim (Bool-cases (is_empty s.lists.registry)) [
    | inl x ↦ rw x tt
    | inr x ↦ rw x tt
  ]
  Step-Wakeable (System.attempt p e) w =
      let same : (count_attempt s).lists ≡ s.lists = ground arith in
      λ f j listed. inl (rw same at listed)
  Step-Wakeable (System.examine p i todo e) w =
      λ f j listed. visit-Awake p i j todo ((rw e at w) f j (visit-input p _ i j listed)) listed
  Step-Wakeable (System.examined p e) w =
      leave-Wakeable p
        λ f j listed. elim ((rw e at w) f j listed) [ inl h ↦ cc | inr awake ↦ awake ]
  Step-Wakeable (System.relock p e) w = tt
  Step-Wakeable (System.changed p e f) w = tt
  Step-Wakeable (System.unchanged p e f) w = rw e at w
  Step-Wakeable (System.would_block p e f) w = tt
  Step-Wakeable (System.sleep p e f) w = (rw e at w, λ g. absurd (g f))
  Step-Wakeable (System.interrupted p e) w = (rw e at w).0
  Step-Wakeable (System.switch e) w = tt
  Step-Wakeable (System.finish e) w = tt
  Step-Wakeable (System.return e) w = tt

Run-Wakeable : {s : System} → Run init s → Wakeable s.writer s
Run-Wakeable here = tt
Run-Wakeable (then_step r st) = Step-Wakeable (Run-Inv Inv-init r) st (Run-Wakeable r)

-- No wake-up is lost: in every reachable state where the writer sleeps in FUTEX_WAIT, either the
-- futex is at -1 and a reader on the list that it waits for is still in a section, or is in its
-- `rcu_read_unlock` and has yet to clear the futex; or a reader is about to call FUTEX_WAKE.
pub no_lost_wakeup :
    {s : System}
    → Run init s
    → (p : Phase) → s.writer ≡ System.asleep p
    → ((s.futex ≡ minus_one) × Waker p s) ⊎ ((i : ℕ) × ((s.reader i).pc ≡ System.wake))
no_lost_wakeup {s} r p e = elim (Bool-cases (s.futex == minus_one)) [
  | inl f ↦ let g : s.futex ≡ minus_one = ground arith in inl (g, (rw e at (Run-Wakeable r)).0 g)
  | inr f ↦ inr ((rw e at (Run-Wakeable r)).1 (ground arith))
]
