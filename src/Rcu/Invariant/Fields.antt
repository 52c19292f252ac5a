-- ===== src/Rcu/Invariant/Fields.antt =====
-- Every step keeps the invariant.
use liburcu.Prelude.{
  ℕ, ◌+◌, ◌^◌, ◌≡◌, ◌≢◌, ◌⊎◌, true, false, ◌==◌, ap, has, arith, has-remove, has-append,
}
use liburcu.Rcu.Reader.{
  nest_of, phase_of, rcu_reader_state, rcu_read_lock_update, rcu_read_unlock_update, switch_parity,
  rcu_read_ongoing, RcuState,
}
use liburcu.Rcu.Scan.{Phase, first, second, Lists, visit}
use liburcu.Rcu.System
use liburcu.Rcu.System.{
  System, Reader, WriterPc, loaded, Step, count_attempt, leave_or_wait, switch_and_wait, take_locks,
  put_back,
}
use liburcu.Rcu.Invariant.Defs.{Inv, Stage, stage, Settled, Waited, OnSome}

-- A reader stays waited for while its lists grow and its phase stays.
Waited-keep :
    (st : Stage) (l l' : Lists) (gp j c c' : ℕ)
    → (has j l.registry ≡ true → has j l'.registry ≡ true)
    → (has j l.cur_snap ≡ true → has j l'.cur_snap ≡ true)
    → phase_of c' ≡ phase_of c
    → Waited st l gp j c
    → Waited st l' gp j c'
Waited-keep Stage.quiet l l' gp j c c' r u e w = w
Waited-keep Stage.entering l l' gp j c c' r u e w = tt
Waited-keep (Stage.waiting first) l l' gp j c c' r u e w = ground arith
Waited-keep (Stage.waiting second) l l' gp j c c' r u e w = ground arith
Waited-keep Stage.turning l l' gp j c c' r u e w = ground arith
Waited-keep Stage.ending l l' gp j c c' r u e w = w

module _ {s : System} (inv : Inv s) where
  open inv use {parity, reading, active, listed, settled, older_active, waited}

  Step-parity : {t : System} → Step s t → (t.gp_ctr ≡ 1) ⊎ (t.gp_ctr ≡ 2 ^ 32 + 1)
  unfolding count_attempt leave_or_wait switch_and_wait take_locks put_back switch_parity
  Step-parity (System.switch e) = ground arith
  Step-parity _ = ground arith

  Step-reading :
      {t : System}
      → Step s t
      → (j g : ℕ) → (t.reader j).pc ≡ loaded g
      → (nest_of g ≡ 1) × (nest_of (t.reader j).ctr ≡ 0) × ((t.reader j).registered ≡ true)
  unfolding count_attempt leave_or_wait switch_and_wait take_locks put_back
  Step-reading (System.load_gp i a b c) j g = ground (arith, reading j g)
  Step-reading (System.register i a b c d) j g = ground (arith, reading j g)
  Step-reading (System.unregister i a b c d) j g = ground (arith, reading j g)
  Step-reading (System.store_ctr i h a) j g = ground (arith, reading j g)
  Step-reading (System.lock_nested i a b c d) j g = ground (arith, reading j g)
  Step-reading (System.unlock_outer i a b) j g = ground (arith, reading j g)
  Step-reading (System.unlock_nested i a b c) j g = ground (arith, reading j g)
  Step-reading _ j g = ground (arith, reading j g)

  Step-active :
      {t : System}
      → Step s t
      → (j : ℕ) → nest_of (t.reader j).ctr ≢ 0
      → (t.reader j).registered ≡ true
  unfolding count_attempt leave_or_wait switch_and_wait take_locks put_back rcu_read_lock_update
      rcu_read_unlock_update
  Step-active (System.store_ctr i g e) j = ground (arith, active j, reading i g)
  Step-active (System.lock_nested i a b c d) j = ground (arith, active i, active j)
  Step-active (System.unlock_outer i a b) j = ground (arith, active i, active j)
  Step-active (System.unlock_nested i a b c) j = ground (arith, active i, active j)
  Step-active (System.unregister i a b c d) j = ground (arith, active j)
  Step-active _ j = ground (arith, active j)

  -- `i` may be any reader: its node only changes lists.
  visit-listed :
      (p : Phase) (r : RcuState) (i j : ℕ) → OnSome j s.lists → OnSome j (visit p r i s.lists)
  unfolding visit
  visit-listed first RcuState.active_current i j h = ground (
    arith,
    has-remove i j s.lists.registry,
    has-remove i j s.lists.cur_snap,
    has-remove i j s.lists.qsreaders,
  )
  visit-listed second RcuState.active_current i j h = ground (
    arith,
    has-remove i j s.lists.registry,
    has-remove i j s.lists.cur_snap,
    has-remove i j s.lists.qsreaders,
  )
  visit-listed p RcuState.active_old i j h = h
  visit-listed p RcuState.inactive i j h = ground (
    arith,
    has-remove i j s.lists.registry,
    has-remove i j s.lists.cur_snap,
    has-remove i j s.lists.qsreaders,
  )

  Step-listed :
      {t : System} → Step s t → (j : ℕ) → (t.reader j).registered ≡ true → OnSome j t.lists
  unfolding count_attempt leave_or_wait switch_and_wait take_locks put_back
  Step-listed (System.register i a b c d) j = ground (arith, listed j)
  Step-listed (System.unregister i a b c d) j = ground (
    arith,
    listed j,
    has-remove i j s.lists.registry,
    has-remove i j s.lists.cur_snap,
    has-remove i j s.lists.qsreaders,
  )
  Step-listed (System.examine p i todo e) j = λ h. visit-listed p _ i j (listed j h)
  Step-listed (System.finish e) j =
      ground (arith, listed j, has-append j s.lists.qsreaders s.lists.registry)
  Step-listed _ j = ground (arith, listed j)

  Step-older_active :
      {t : System} → Step s t → (j : ℕ) → t.older j ≡ true → nest_of (t.reader j).ctr ≢ 0
  unfolding count_attempt leave_or_wait switch_and_wait take_locks put_back rcu_read_lock_update
      rcu_read_unlock_update rcu_read_ongoing
  Step-older_active (System.store_ctr i g e) j = ground (arith, older_active j, reading i g)
  Step-older_active (System.lock_nested i a b c d) j = ground (arith, older_active j)
  Step-older_active (System.unlock_nested i a b c) j = ground (arith, older_active j)
  Step-older_active _ j = ground (arith, older_active j)

  Step-Settled : {t : System} → Step s t → Settled (stage t.writer) t.lists
  unfolding count_attempt leave_or_wait switch_and_wait take_locks put_back
  Step-Settled (System.register i a b c d) = ground arith
  Step-Settled (System.unregister i a b c d) = ground arith
  Step-Settled (System.wake_writer i p a b) = tt
  Step-Settled (System.call e) = ground arith
  Step-Settled (System.lock e) = ground arith
  Step-Settled (System.attempt p e) = ground arith
  Step-Settled (System.examine p i todo e) = tt
  Step-Settled (System.examined first e) = ground arith
  Step-Settled (System.examined second e) = ground arith
  Step-Settled (System.relock p e) = tt
  Step-Settled (System.changed p e f) = tt
  Step-Settled (System.unchanged p e f) = tt
  Step-Settled (System.would_block p e f) = tt
  Step-Settled (System.sleep p e f) = tt
  Step-Settled (System.interrupted p e) = tt
  Step-Settled (System.switch e) = tt
  Step-Settled (System.finish e) = ground arith
  Step-Settled (System.return e) = ground arith
  Step-Settled _ = settled

  -- The scan takes off its input no reader that has to be waited for.
  visit-Waited :
      (p : Phase) (i j : ℕ)
      → s.older j ≡ true
      → Waited (Stage.waiting p) s.lists s.gp_ctr j (s.reader j).ctr
      → Waited
          (Stage.waiting p)
          (visit p (rcu_reader_state s.gp_ctr (s.reader i).ctr) i s.lists)
          s.gp_ctr
          j
          (s.reader j).ctr
  unfolding visit rcu_reader_state
  visit-Waited first i j h w =
      ground
        (arith, older_active j, has-remove i j s.lists.registry, has-remove i j s.lists.cur_snap)
  visit-Waited second i j h w = ground (arith, older_active j, has-remove i j s.lists.cur_snap)

  Step-Waited :
      {t : System}
      → Step s t
      → (j : ℕ) → t.older j ≡ true
      → Waited (stage t.writer) t.lists t.gp_ctr j (t.reader j).ctr
  unfolding count_attempt leave_or_wait switch_and_wait take_locks put_back rcu_read_lock_update
      rcu_read_unlock_update switch_parity rcu_reader_state
  Step-Waited (System.register i a b c d) j h =
      Waited-keep (stage s.writer) s.lists _ s.gp_ctr j (s.reader j).ctr _ (ground arith) (λ u. u)
        (ground arith) (waited j h)
  Step-Waited (System.unregister i a b c d) j h =
      let other : (j == i) ≡ false = ground (arith, older_active j) in
      Waited-keep (stage s.writer) s.lists _ s.gp_ctr j (s.reader j).ctr _
        (ground (arith, has-remove i j s.lists.registry))
        (ground (arith, has-remove i j s.lists.cur_snap)) (ground arith) (waited j h)
  Step-Waited (System.store_ctr i g e) j h = ground (arith, waited j, older_active j, reading i g)
  Step-Waited (System.lock_nested i a b c d) j h =
      Waited-keep (stage s.writer) s.lists _ s.gp_ctr j (s.reader j).ctr _ (λ u. u) (λ u. u)
        (ground arith) (waited j h)
  Step-Waited (System.unlock_outer i a b) j h =
      Waited-keep (stage s.writer) s.lists _ s.gp_ctr j (s.reader j).ctr _ (λ u. u) (λ u. u)
        (ground arith) (waited j (ground arith))
  Step-Waited (System.unlock_nested i a b c) j h =
      Waited-keep (stage s.writer) s.lists _ s.gp_ctr j (s.reader j).ctr _ (λ u. u) (λ u. u)
        (ground arith) (waited j h)
  Step-Waited (System.wake_writer i p a b) j h = ground (arith, waited j)
  Step-Waited (System.call e) j h = tt
  Step-Waited (System.lock e) j h = ground (arith, waited j, listed j, active j, older_active j)
  Step-Waited (System.attempt p e) j h = ground (arith, waited j)
  Step-Waited (System.examine p i todo e) j h =
      visit-Waited p i j h (rw (ap stage e) at (waited j h))
  Step-Waited (System.examined first e) j h = ground (arith, waited j)
  Step-Waited (System.examined second e) j h = ground (arith, waited j)
  Step-Waited (System.relock p e) j h = ground (arith, waited j)
  Step-Waited (System.changed p e f) j h = ground (arith, waited j)
  Step-Waited (System.unchanged p e f) j h = ground (arith, waited j)
  Step-Waited (System.would_block p e f) j h = ground (arith, waited j)
  Step-Waited (System.sleep p e f) j h = ground (arith, waited j)
  Step-Waited (System.interrupted p e) j h = ground (arith, waited j)
  Step-Waited (System.switch e) j h = ground (arith, waited j, parity)
  Step-Waited (System.finish e) j h = ground (arith, waited j)
  Step-Waited (System.return e) j h = ground (arith, waited j)
  Step-Waited (System.load_gp i a b c) j h = ground (arith, waited j)
  Step-Waited (System.no_waiter i a b) j h = ground (arith, waited j)
  Step-Waited (System.waiter i a b) j h = ground (arith, waited j)
  Step-Waited (System.clear_futex i a) j h = ground (arith, waited j)
  Step-Waited (System.wake_none i a b) j h = ground (arith, waited j)

  pub Step-Inv : {t : System} → Step s t → Inv t
  Step-Inv st = record {
    parity = Step-parity st;
    reading = Step-reading st;
    active = Step-active st;
    listed = Step-listed st;
    settled = Step-Settled st;
    older_active = Step-older_active st;
    waited = Step-Waited st;
  }
