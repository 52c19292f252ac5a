-- ===== src/Rcu/Invariant/Defs.antt =====
-- The invariant of readers and writer.
use liburcu.Prelude.{ℕ, ◌+◌, ◌^◌, ◌≡◌, ◌≢◌, ◌⊎◌, ◌||◌, true, [], has}
use liburcu.Rcu.Reader.{nest_of, phase_of}
use liburcu.Rcu.Scan.{Phase, first, second, Lists}
use liburcu.Rcu.System.{
  System, WriterPc, loaded, idle, called, loop_head, scan, relax, wait_gp, futex_wait, asleep,
  parity, splice, finished,
}

-- How far the grace period is.
pub data Stage : Type 0 where
  quiet : Stage  -- none is under way
  entering : Stage  -- called, the locks not yet held
  waiting : Phase → Stage  -- in a call of `wait_for_readers`
  turning : Stage  -- between the two
  ending : Stage  -- behind the second

abbrev pub stage : WriterPc → Stage
stage idle = quiet
stage called = entering
stage (loop_head p) = waiting p
stage (scan p todo) = waiting p
stage (relax p) = waiting p
stage (wait_gp p) = waiting p
stage (futex_wait p) = waiting p
stage (asleep p) = waiting p
stage parity = turning
stage splice = ending
stage finished = quiet

-- Which of the lists are empty.
abbrev pub Settled : Stage → Lists → Type 0
Settled quiet l = (l.cur_snap ≡ []) × (l.qsreaders ≡ [])
Settled entering l = (l.cur_snap ≡ []) × (l.qsreaders ≡ [])
Settled (waiting p) l = Unit
Settled turning l = l.registry ≡ []
Settled ending l = l.cur_snap ≡ []

-- Why a reader that is older than the grace period is still waited for.
abbrev pub Waited : Stage → Lists → (gp : ℕ) → (i : ℕ) → (ctr : ℕ) → Type 0
Waited quiet l gp i ctr = ⊥
Waited entering l gp i ctr = Unit
Waited (waiting first) l gp i ctr =
    (has i l.registry ≡ true) ⊎ ((has i l.cur_snap ≡ true) × (phase_of ctr ≡ phase_of gp))
Waited (waiting second) l gp i ctr = (has i l.cur_snap ≡ true) × (phase_of ctr ≢ phase_of gp)
Waited turning l gp i ctr = (has i l.cur_snap ≡ true) × (phase_of ctr ≡ phase_of gp)
Waited ending l gp i ctr = ⊥

abbrev pub OnSome : ℕ → Lists → Type 0
OnSome j l = (has j l.registry || (has j l.cur_snap || has j l.qsreaders)) ≡ true

pub record Inv (s : System) : Type 0 where
  -- `rcu_gp.ctr` has a count of one and either parity.
  pub parity : (s.gp_ctr ≡ 1) ⊎ (s.gp_ctr ≡ 2 ^ 32 + 1)
  -- A word on its way from `rcu_gp.ctr` to a reader's own.
  pub reading :
      (i g : ℕ)
      → (s.reader i).pc ≡ loaded g
      → (nest_of g ≡ 1) × (nest_of (s.reader i).ctr ≡ 0) × ((s.reader i).registered ≡ true)
  pub active : (i : ℕ) → nest_of (s.reader i).ctr ≢ 0 → (s.reader i).registered ≡ true
  pub listed : (i : ℕ) → (s.reader i).registered ≡ true → OnSome i s.lists
  pub settled : Settled (stage s.writer) s.lists
  pub older_active : (i : ℕ) → s.older i ≡ true → nest_of (s.reader i).ctr ≢ 0
  pub waited :
      (i : ℕ) → s.older i ≡ true → Waited (stage s.writer) s.lists s.gp_ctr i (s.reader i).ctr
