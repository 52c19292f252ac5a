-- ===== src/Qsbr/Invariant.antt =====
-- src/urcu-qsbr.c: where each reader's node is, and why `synchronize_rcu` waits for it.
use liburcu.Prelude.{
  ℕ, ◌<◌, ◌≤◌, ◌≡◌, ◌≢◌, ◌||◌, refl, true, false, [], has, has-remove, has-append, ap, arith, ◌==◌,
}
use liburcu.Qsbr.System
use liburcu.Qsbr.System.{
  System, Step, Run, here, then_step, WriterPc, ReaderPc, Lists, RcuState, idle, called, loop_head,
  mark, scan, relax, wait_gp, futex_wait, asleep, splice, finished, quiescing, onlining, init,
  count_attempt, leave_or_wait, take_locks, put_back, visit, rcu_reader_state, rcu_read_ongoing,
}

-- How far the grace period is.
pub data Stage : Type 0 where
  quiet : Stage  -- none is under way
  entering : Stage  -- called, the count not yet up
  waiting : Stage  -- in `wait_for_readers`
  ending : Stage  -- behind it

abbrev pub stage : WriterPc → Stage
stage idle = Stage.quiet
stage called = Stage.entering
stage loop_head = Stage.waiting
stage (mark todo) = Stage.waiting
stage (scan todo) = Stage.waiting
stage relax = Stage.waiting
stage wait_gp = Stage.waiting
stage futex_wait = Stage.waiting
stage asleep = Stage.waiting
stage splice = Stage.ending
stage finished = Stage.quiet

-- Why a reader that was online at the call is still waited for.
abbrev pub Waited : Stage → Lists → (gp i ctr : ℕ) → Type 0
Waited Stage.quiet l gp i ctr = ⊥
Waited Stage.entering l gp i ctr = Unit
Waited Stage.ending l gp i ctr = ⊥
Waited Stage.waiting l gp i ctr = (has i l.registry ≡ true) × (ctr < gp)

abbrev pub OnSome : ℕ → Lists → Type 0
OnSome j l = (has j l.registry || has j l.qsreaders) ≡ true

abbrev pub Settled : Stage → Lists → Type 0
Settled Stage.quiet l = l.qsreaders ≡ []
Settled Stage.entering l = l.qsreaders ≡ []
Settled Stage.waiting l = Unit
Settled Stage.ending l = Unit

pub record Inv (s : System) : Type 0 where
  pub counted : 1 ≤ s.gp_ctr
  pub quiesces :
      (i g : ℕ)
      → (s.reader i).pc ≡ quiescing g
      → (1 ≤ g) × ((g ≤ s.gp_ctr) × ((s.reader i).registered ≡ true))
  pub goes_online :
      (i g : ℕ)
      → (s.reader i).pc ≡ onlining g
      → (1 ≤ g) × ((g ≤ s.gp_ctr) × (((s.reader i).registered ≡ true) × ((s.reader i).ctr ≡ 0)))
  pub bounded : (i : ℕ) → (s.reader i).ctr ≤ s.gp_ctr
  pub online : (i : ℕ) → (s.reader i).ctr ≢ 0 → (s.reader i).registered ≡ true
  pub listed : (i : ℕ) → (s.reader i).registered ≡ true → OnSome i s.lists
  pub settled : Settled (stage s.writer) s.lists
  pub older_online : (i : ℕ) → s.older i ≡ true → (s.reader i).ctr ≢ 0
  pub waited :
      (i : ℕ) → s.older i ≡ true → Waited (stage s.writer) s.lists s.gp_ctr i (s.reader i).ctr

module _ {s : System} (inv : Inv s) where
  open inv use {
    counted, quiesces, goes_online, bounded, online, listed, settled, older_online, waited,
  }

  Step-counted : {t : System} → Step s t → 1 ≤ t.gp_ctr
  unfolding count_attempt leave_or_wait take_locks put_back
  Step-counted (System.lock e f) = ground arith
  Step-counted _ = ground arith

  -- The count only goes up.
  gp_up : {t : System} → Step s t → s.gp_ctr ≤ t.gp_ctr
  unfolding count_attempt leave_or_wait take_locks put_back
  gp_up (System.lock e f) = ground arith
  gp_up _ = ground arith

  Step-quiesces :
      {t : System}
      → Step s t
      → (j g : ℕ) → (t.reader j).pc ≡ quiescing g
      → (1 ≤ g) × ((g ≤ t.gp_ctr) × ((t.reader j).registered ≡ true))
  unfolding count_attempt leave_or_wait take_locks put_back
  Step-quiesces (System.load_quiescent i a b) j g = ground (arith, quiesces j g, counted)
  Step-quiesces (System.unregister i a b c d) j g = ground (arith, quiesces j g)
  Step-quiesces (System.lock e f) j g = ground (arith, quiesces j g)
  Step-quiesces _ j g = ground (arith, quiesces j g)

  Step-goes_online :
      {t : System}
      → Step s t
      → (j g : ℕ) → (t.reader j).pc ≡ onlining g
      → (1 ≤ g) × ((g ≤ t.gp_ctr) × (((t.reader j).registered ≡ true) × ((t.reader j).ctr ≡ 0)))
  unfolding count_attempt leave_or_wait take_locks put_back
  Step-goes_online (System.load_online i a b c) j g = ground (arith, goes_online j g, counted)
  Step-goes_online (System.load_quiescent i a b) j g = ground (arith, goes_online j g, counted)
  Step-goes_online (System.unregister i a b c d) j g = ground (arith, goes_online j g)
  Step-goes_online (System.store_quiescent i g' a) j g = ground (arith, goes_online j g)
  Step-goes_online (System.lock e f) j g = ground (arith, goes_online j g)
  Step-goes_online _ j g = ground (arith, goes_online j g)

  Step-bounded : {t : System} → Step s t → (j : ℕ) → (t.reader j).ctr ≤ t.gp_ctr
  unfolding count_attempt leave_or_wait take_locks put_back
  Step-bounded (System.store_online i g a) j = ground (arith, bounded j, goes_online i g)
  Step-bounded (System.store_quiescent i g a) j = ground (arith, bounded j, quiesces i g)
  Step-bounded (System.lock e f) j = ground (arith, bounded j)
  Step-bounded _ j = ground (arith, bounded j)

  Step-online :
      {t : System} → Step s t → (j : ℕ) → (t.reader j).ctr ≢ 0 → (t.reader j).registered ≡ true
  unfolding count_attempt leave_or_wait take_locks put_back
  Step-online (System.store_online i g a) j = ground (arith, online j, goes_online i g)
  Step-online (System.store_quiescent i g a) j = ground (arith, online j, quiesces i g)
  Step-online (System.unregister i a b c d) j = ground (arith, online j)
  Step-online _ j = ground (arith, online j)

  visit-listed : (r : RcuState) (i j : ℕ) → OnSome j s.lists → OnSome j (visit r i s.lists)
  unfolding visit
  visit-listed RcuState.active_old i j h = h
  visit-listed RcuState.active_current i j h =
      ground (arith, has-remove i j s.lists.registry, has-remove i j s.lists.qsreaders)
  visit-listed RcuState.inactive i j h =
      ground (arith, has-remove i j s.lists.registry, has-remove i j s.lists.qsreaders)

  Step-listed :
      {t : System} → Step s t → (j : ℕ) → (t.reader j).registered ≡ true → OnSome j t.lists
  unfolding count_attempt leave_or_wait take_locks put_back
  Step-listed (System.register i a b c d) j = ground (arith, listed j)
  Step-listed (System.unregister i a b c d) j =
      ground (arith, listed j, has-remove i j s.lists.registry, has-remove i j s.lists.qsreaders)
  Step-listed (System.examine i todo e) j = λ h. visit-listed _ i j (listed j h)
  Step-listed (System.finish e) j =
      ground (arith, listed j, has-append j s.lists.qsreaders s.lists.registry)
  Step-listed _ j = ground (arith, listed j)

  Step-Settled : {t : System} → Step s t → Settled (stage t.writer) t.lists
  unfolding count_attempt leave_or_wait take_locks put_back
  Step-Settled (System.register i a b c d) = ground arith
  Step-Settled (System.unregister i a b c d) = ground arith
  Step-Settled (System.wake_writer i a b) = tt
  Step-Settled (System.call e) = ground arith
  Step-Settled (System.lock e f) = ground arith
  Step-Settled (System.attempt e) = ground arith
  Step-Settled (System.mark_one i todo e) = tt
  Step-Settled (System.marked e) = tt
  Step-Settled (System.examine i todo e) = tt
  Step-Settled (System.examined e) = ground arith
  Step-Settled (System.relock e) = tt
  Step-Settled (System.changed e f) = tt
  Step-Settled (System.unchanged e f) = tt
  Step-Settled (System.would_block e f) = tt
  Step-Settled (System.sleep e f) = tt
  Step-Settled (System.interrupted e) = tt
  Step-Settled (System.finish e) = ground arith
  Step-Settled (System.return e) = ground arith
  Step-Settled _ = settled

  Step-older_online : {t : System} → Step s t → (j : ℕ) → t.older j ≡ true → (t.reader j).ctr ≢ 0
  unfolding count_attempt leave_or_wait take_locks put_back rcu_read_ongoing
  Step-older_online (System.store_online i g a) j = ground (arith, older_online j, goes_online i g)
  Step-older_online _ j = ground (arith, older_online j)

  -- The scan takes no reader off the registry that has to be waited for.
  visit-Waited :
      (i j : ℕ)
      → s.older j ≡ true
      → Waited Stage.waiting s.lists s.gp_ctr j (s.reader j).ctr
      → Waited Stage.waiting
          (visit (rcu_reader_state s.gp_ctr (s.reader i).ctr) i s.lists)
          s.gp_ctr
          j
          (s.reader j).ctr
  unfolding visit rcu_reader_state
  visit-Waited i j h w = ground (arith, older_online j, has-remove i j s.lists.registry)

  Waited-keep :
      (st : Stage) (l l' : Lists) (gp j c : ℕ)
      → (has j l.registry ≡ true → has j l'.registry ≡ true)
      → Waited st l gp j c
      → Waited st l' gp j c
  Waited-keep Stage.quiet l l' gp j c r w = w
  Waited-keep Stage.entering l l' gp j c r w = tt
  Waited-keep Stage.waiting l l' gp j c r (h, k) = (r h, k)
  Waited-keep Stage.ending l l' gp j c r w = w

  Step-Waited :
      {t : System}
      → Step s t
      → (j : ℕ) → t.older j ≡ true
      → Waited (stage t.writer) t.lists t.gp_ctr j (t.reader j).ctr
  unfolding count_attempt leave_or_wait take_locks put_back
  Step-Waited (System.register i a b c d) j h =
      let other : (j == i) ≡ false = ground (arith, older_online j) in
      rw other (
        Waited-keep (stage s.writer) s.lists _ s.gp_ctr j (s.reader j).ctr (ground arith)
          (waited j h))
  Step-Waited (System.unregister i a b c d) j h =
      let other : (j == i) ≡ false = ground (arith, older_online j) in
      rw other (
        Waited-keep (stage s.writer) s.lists _ s.gp_ctr j (s.reader j).ctr
          (ground (arith, has-remove i j s.lists.registry)) (waited j h))
  Step-Waited (System.call e) j h = tt
  Step-Waited (System.lock e f) j h =
      ground (arith, waited j, listed j, online j, older_online j, bounded j)
  Step-Waited (System.examine i todo e) j h = visit-Waited i j h (rw (ap stage e) at (waited j h))
  Step-Waited (System.examined e) j h = ground (arith, waited j)
  Step-Waited (System.finish e) j h = ground (arith, waited j)
  Step-Waited (System.attempt e) j h = ground (arith, waited j)
  Step-Waited (System.store_online i g a) j h =
      ground (arith, waited j, older_online j, goes_online i g)
  Step-Waited (System.wake_writer i a b) j h = ground (arith, waited j)
  Step-Waited (System.mark_one i todo e) j h = ground (arith, waited j)
  Step-Waited (System.marked e) j h = ground (arith, waited j)
  Step-Waited (System.relock e) j h = ground (arith, waited j)
  Step-Waited (System.changed e f) j h = ground (arith, waited j)
  Step-Waited (System.unchanged e f) j h = ground (arith, waited j)
  Step-Waited (System.would_block e f) j h = ground (arith, waited j)
  Step-Waited (System.sleep e f) j h = ground (arith, waited j)
  Step-Waited (System.interrupted e) j h = ground (arith, waited j)
  Step-Waited (System.return e) j h = ground (arith, waited j)
  Step-Waited (System.load_online i a b c) j h = ground (arith, waited j)
  Step-Waited (System.load_quiescent i a b) j h = ground (arith, waited j)
  Step-Waited (System.store_quiescent i g a) j h = ground (arith, waited j)
  Step-Waited (System.offline i a b) j h = ground (arith, waited j)
  Step-Waited (System.not_waiting i a b) j h = ground (arith, waited j)
  Step-Waited (System.waited_for i a b) j h = ground (arith, waited j)
  Step-Waited (System.unmark i a) j h = ground (arith, waited j)
  Step-Waited (System.no_waiter i a b) j h = ground (arith, waited j)
  Step-Waited (System.waiter i a b) j h = ground (arith, waited j)
  Step-Waited (System.clear_futex i a) j h = ground (arith, waited j)
  Step-Waited (System.wake_none i a b) j h = ground (arith, waited j)

  pub Step-Inv : {t : System} → Step s t → Inv t
  Step-Inv st = record {
    counted = Step-counted st;
    quiesces = Step-quiesces st;
    goes_online = Step-goes_online st;
    bounded = Step-bounded st;
    online = Step-online st;
    listed = Step-listed st;
    settled = Step-Settled st;
    older_online = Step-older_online st;
    waited = Step-Waited st;
  }

pub Inv-init : Inv init
Inv-init = record {
  counted = omega arith;
  quiesces = λ i g e. cc;
  goes_online = λ i g e. cc;
  bounded = λ i. omega arith;
  online = λ i h. absurd (h refl);
  listed = λ i h. cc;
  settled = refl;
  older_online = λ i h. cc;
  waited = λ i h. cc;
}

pub Run-Inv : {s t : System} → Inv s → Run s t → Inv t
Run-Inv inv here = inv
Run-Inv inv (then_step r st) = Step-Inv (Run-Inv inv r) st
