-- ===== src/Rcu/Scan.antt =====
-- src/urcu.c, `wait_for_readers`: the body of its loop over the readers, as a change of the three
-- lists that a reader's node may be on.
use liburcu.Prelude.{ℕ, List, [], ◌∷◌, remove}
use liburcu.Rcu.Reader.{RcuState, active_current, active_old, inactive, rcu_reader_state}

-- `registry`, and the local lists `cur_snap_readers` and `qsreaders` of `synchronize_rcu`.
pub record Lists : Type 0 where
  pub registry : List ℕ
  pub cur_snap : List ℕ
  pub qsreaders : List ℕ

-- The two calls of `wait_for_readers`: the first scans the registry and collects current readers
-- in `cur_snap_readers`; the second scans `cur_snap_readers` and has NULL in its place.
pub data Phase : Type 0 where
  first second : Phase

abbrev pub input : Phase → Lists → List ℕ
input first l = l.registry
input second l = l.cur_snap

-- `cds_list_del` takes a node off whichever list it is on.
abbrev pub list_del : ℕ → Lists → Lists
list_del i l = record {
  registry = remove i l.registry;
  cur_snap = remove i l.cur_snap;
  qsreaders = remove i l.qsreaders;
}

-- `cds_list_move`: off its list, and to the front of the other.
abbrev pub move_to_cur_snap : ℕ → Lists → Lists
move_to_cur_snap i l = record l {
  registry = remove i l.registry;
  cur_snap = i ∷ remove i l.cur_snap;
  qsreaders = remove i l.qsreaders;
}

abbrev pub move_to_qs : ℕ → Lists → Lists
move_to_qs i l = record l {
  registry = remove i l.registry;
  cur_snap = remove i l.cur_snap;
  qsreaders = i ∷ remove i l.qsreaders;
}

-- The switch on the state of reader `i`.
unfoldable pub visit : Phase → RcuState → ℕ → Lists → Lists
visit first active_current i l = move_to_cur_snap i l
visit second active_current i l = move_to_qs i l
visit p inactive i l = move_to_qs i l
visit p active_old i l = l

-- One pass of `cds_list_for_each_entry_safe` over `todo`, while no reader moves.
unfoldable pub scan_pass : Phase → ℕ → (ℕ → ℕ) → List ℕ → Lists → Lists
unfolding visit rcu_reader_state
scan_pass p gp ctr [] l = l
scan_pass p gp ctr (i ∷ todo) l =
    scan_pass p gp ctr todo (visit p (rcu_reader_state gp (ctr i)) i l)
