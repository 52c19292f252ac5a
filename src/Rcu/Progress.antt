-- ===== src/Rcu/Progress.antt =====
-- src/urcu.c, `wait_for_readers`: what one pass over the readers leaves, and that the loop ends.
use liburcu.Prelude.{
  ℕ, ◌≡◌, ◌⊎◌, ◌&&◌, arith, true, false, Bool, List, [], ◌∷◌, ◌==◌, if◌then◌else◌, has, has-remove,
  inl, inr, Bool-cases,
}
use liburcu.Rcu.Reader.{rcu_reader_state, RcuState, active_current, active_old, inactive}
use liburcu.Rcu.Scan.{Lists, Phase, first, second, input, visit, scan_pass}

abbrev is_old : RcuState → Bool
is_old active_old = true
is_old _ = false

abbrev pub stays : ℕ → (ℕ → ℕ) → ℕ → Bool
stays gp ctr i = is_old (rcu_reader_state gp (ctr i))

-- What one reader's visit leaves of the input.
visit-input :
    (p : Phase) (r : RcuState) (i j : ℕ) (l : Lists)
    → has j (input p (visit p r i l))
      ≡ (if (j == i) && (if is_old r then false else true) then false else has j (input p l))
unfolding visit
visit-input first active_current i j l = ground (arith, has-remove i j l.registry)
visit-input second active_current i j l = ground (arith, has-remove i j l.cur_snap)
visit-input first active_old i j l = ground arith
visit-input second active_old i j l = ground arith
visit-input first inactive i j l = ground (arith, has-remove i j l.registry)
visit-input second inactive i j l = ground (arith, has-remove i j l.cur_snap)

-- Where a reader's node belongs.
abbrev pub place : Phase → RcuState → Lists → List ℕ
place first active_current l = l.cur_snap
place second active_current l = l.qsreaders
place p inactive l = l.qsreaders
place p active_old l = input p l

visit-place :
    (p : Phase) (r q : RcuState) (i j : ℕ) (l : Lists)
    → (j ≡ i → q ≡ r)
    → has j (place p q l) ≡ true ⊎ (j ≡ i) × (has j (input p l) ≡ true)
    → has j (place p q (visit p r i l)) ≡ true
unfolding visit
visit-place first r q i j l same h =
    ground (arith, has-remove i j l.registry, has-remove i j l.cur_snap, has-remove i j l.qsreaders)
visit-place second r q i j l same h =
    ground (arith, has-remove i j l.registry, has-remove i j l.cur_snap, has-remove i j l.qsreaders)

module _ (p : Phase) (gp : ℕ) (ctr : ℕ → ℕ) (j : ℕ) where
  pass-input :
      (todo : List ℕ) (l : Lists)
      → has j (input p (scan_pass p gp ctr todo l)) ≡ (
          if stays gp ctr j
          then has j (input p l)
          else (if has j todo then false else has j (input p l)))
  unfolding scan_pass
  pass-input [] l = ground arith
  pass-input (i ∷ todo) l = ground (
    arith,
    pass-input todo (visit p (rcu_reader_state gp (ctr i)) i l),
    visit-input p (rcu_reader_state gp (ctr i)) i j l,
  )

  pass-place :
      (todo : List ℕ) (l : Lists)
      → (has j (place p (rcu_reader_state gp (ctr j)) l) ≡ true)
        ⊎ ((has j todo ≡ true) × (has j (input p l) ≡ true))
      → has j (place p (rcu_reader_state gp (ctr j)) (scan_pass p gp ctr todo l)) ≡ true
  unfolding scan_pass
  pass-place [] l (inl h) = h
  pass-place [] l (inr h) = cc h.0
  pass-place (i ∷ todo) l h = pass-place todo (visit p (rcu_reader_state gp (ctr i)) i l) (next h)
    where
      q : RcuState
      q = rcu_reader_state gp (ctr j)

      next :
          (has j (place p q l) ≡ true) ⊎ ((has j (i ∷ todo) ≡ true) × (has j (input p l) ≡ true))
          → (has j (place p q (visit p (rcu_reader_state gp (ctr i)) i l)) ≡ true)
            ⊎ ((has j todo ≡ true)
                × (has j (input p (visit p (rcu_reader_state gp (ctr i)) i l)) ≡ true))
      next (inl h) = inl (visit-place p (rcu_reader_state gp (ctr i)) q i j l (λ e. rw e) (inl h))
      next (inr (m, n)) = elim (Bool-cases (j == i)) [
        | inl e ↦ inl (
            visit-place p (rcu_reader_state gp (ctr i)) q i j l (λ e. rw e) (inr (ground arith, n)))
        | inr e ↦
            inr (ground arith, ground (arith, visit-input p (rcu_reader_state gp (ctr i)) i j l))
      ]

-- While no reader moves, one pass over the input leaves on it exactly the readers that are
-- active in the old parity, and brings every other to its place: in the first call of
-- `wait_for_readers` the current ones to `cur_snap_readers` and the inactive ones to `qsreaders`,
-- in the second all of them to `qsreaders`.
pub scan_pass_sorts :
    (p : Phase) (gp : ℕ) (ctr : ℕ → ℕ) (l : Lists) (j : ℕ)
    → let after = scan_pass p gp ctr (input p l) l in
      (has j (input p after) ≡ (stays gp ctr j && has j (input p l)))
      × (has j (input p l) ≡ true → has j (place p (rcu_reader_state gp (ctr j)) after) ≡ true)
scan_pass_sorts p gp ctr l j = (
  ground (arith, pass-input p gp ctr j (input p l) l),
  λ h. pass-place p gp ctr j (input p l) l (inr (h, h)),
)
