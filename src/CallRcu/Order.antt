-- ===== src/CallRcu/Order.antt =====
-- src/urcu-call-rcu-impl.h: the order of the callbacks of a worker, and the grace periods that they
-- wait for.
use mathlib.Core.Path.{subst}
use mathlib.Core.List.{append-nil, append_assoc}
use liburcu.Prelude.{
  ℕ, ◌≡◌, refl, sym, ap, ◌∙◌, Bool, Bool-cases, true, false, inl, inr, List, [], ◌∷◌, ◌++◌, ◌==◌,
  update, arith,
}
use liburcu.CallRcu.System.{
  System, Callback, WorkerPc, splice, synchronize, grace, invoke, complete_read, complete_set,
  complete_wake, complete_put, work_on, enqueue_on, ran,
}

abbrev pub IsPrefix : List Callback → List Callback → Type 0
IsPrefix xs ys = (rest : List Callback) × (ys ≡ xs ++ rest)

-- The callbacks that a worker has taken and not run.
abbrev pub hand : WorkerPc → List Callback
hand (synchronize l) = l
hand (grace l) = l
hand (invoke l) = l
hand (complete_read b l) = l
hand (complete_set b l) = l
hand (complete_wake b l) = l
hand (complete_put b l) = l
hand _ = []

abbrev pub in_grace : WorkerPc → Bool
in_grace (grace l) = true
in_grace _ = false

-- The callbacks in hand have not waited yet.
abbrev pub unready : WorkerPc → Bool
unready (synchronize l) = true
unready (grace l) = true
unready _ = false

pub record OrderAt (p : WorkerPc) (queue called invoked at_begin waited : List Callback)
    : Type 0 where
  pub split : called ≡ (invoked ++ hand p) ++ queue
  pub begun : in_grace p ≡ true → IsPrefix (invoked ++ hand p) at_begin
  pub ended : unready p ≡ false → IsPrefix (invoked ++ hand p) waited
  pub behind : IsPrefix invoked waited

abbrev pub OrderOf : System → ℕ → Type 0
OrderOf s w =
    OrderAt (s.worker w) (s.queue w) (s.called w) (s.invoked w) (s.at_begin w) (s.waited w)

same_number : (w : ℕ) → (w == w) ≡ true
same_number w = ground arith

only : (P : ℕ → Type 0) (w : ℕ) → P w → ((j : ℕ) → (j == w) ≡ false → P j) → (j : ℕ) → P j
only P w here there j = elim (Bool-cases (j == w)) [
  | inl k ↦ subst P (sym (equal k)) here
  | inr k ↦ there j k
]
  where
    equal : (j == w) ≡ true → j ≡ w
    equal k = ground arith

module _ (s : System) (inv : (w : ℕ) → OrderOf s w) where
  -- A worker goes on with the callbacks that it has.
  pub work_on-Order :
      (w : ℕ) (p p' : WorkerPc)
      → s.worker w ≡ p
      → hand p' ≡ hand p
      → in_grace p' ≡ false
      → unready p ≡ false
      → (j : ℕ) → OrderOf (work_on w p' s) j
  work_on-Order w p p' e h g u =
      only (OrderOf (work_on w p' s)) w
        (rw (same_number w) (record {
          split = rw h (
              subst (λ (q : WorkerPc). s.called w ≡ (s.invoked w ++ hand q) ++ s.queue w) e
                ((inv w).split));
          begun = λ k. absurd (ground arith);
          ended = λ k. rw h (
              subst
                (λ (q : WorkerPc).
                  unready q ≡ false → IsPrefix (s.invoked w ++ hand q) (s.waited w))
                e ((inv w).ended) u);
          behind = (inv w).behind;
        }))
        (λ j k. rw k (inv j))

  pub enqueue_on-Order : (w : ℕ) (c : Callback) → (j : ℕ) → OrderOf (enqueue_on w c s) j
  enqueue_on-Order w c =
      only (OrderOf (enqueue_on w c s)) w
        (rw (same_number w) (record {
          split =
              rw ((inv w).split)
                (append_assoc (s.invoked w ++ hand (s.worker w)) (s.queue w) (c ∷ []));
          begun = (inv w).begun;
          ended = (inv w).ended;
          behind = (inv w).behind;
        }))
        (λ j k. rw k (inv j))

  pub ran-Order :
      (w : ℕ) (c : Callback) (rest : List Callback) (p' : WorkerPc)
      → s.worker w ≡ invoke (c ∷ rest)
      → hand p' ≡ rest
      → in_grace p' ≡ false
      → (j : ℕ) → OrderOf (work_on w p' (ran w c s)) j
  ran-Order w c rest p' e h g =
      only (OrderOf (work_on w p' (ran w c s))) w
        (rw (same_number w) (
          let moved : (s.invoked w ++ c ∷ []) ++ rest ≡ s.invoked w ++ (c ∷ rest) =
            append_assoc (s.invoked w) (c ∷ []) rest in
          let before =
            subst (λ (q : WorkerPc). s.called w ≡ (s.invoked w ++ hand q) ++ s.queue w) e
              ((inv w).split) in
          let (more, here) =
            subst
              (λ (q : WorkerPc). unready q ≡ false → IsPrefix (s.invoked w ++ hand q) (s.waited w))
              e ((inv w).ended) refl in
          record {
            split = rw (h, moved) before;
            begun = λ k. absurd (ground arith);
            ended = λ k. (more, rw (h, moved) here);
            behind = (
              rest ++ more,
              here
                  ∙ (ap (λ l. l ++ more) (sym moved)
                      ∙ append_assoc (s.invoked w ++ c ∷ []) rest more),
            );
          }))
        (λ j k. rw k (inv j))

  pub splice-Order :
      (w : ℕ)
      → s.worker w ≡ splice
      → (j : ℕ)
      → OrderOf (record (work_on w (synchronize (s.queue w)) s) { queue = update s.queue w [] }) j
  splice-Order w e =
      only
        (OrderOf (record (work_on w (synchronize (s.queue w)) s) { queue = update s.queue w [] })) w
        (rw (same_number w) (
          let before : s.called w ≡ (s.invoked w ++ []) ++ s.queue w =
            subst (λ (q : WorkerPc). s.called w ≡ (s.invoked w ++ hand q) ++ s.queue w) e
              ((inv w).split) in
          record {
            split =
                before
                ∙ (ap (λ l. l ++ s.queue w) (append-nil (s.invoked w))
                    ∙ sym (append-nil (s.invoked w ++ s.queue w)));
            begun = λ k. absurd (ground arith);
            ended = λ k. absurd (ground arith);
            behind = (inv w).behind;
          }))
        (λ j k. rw k (inv j))

  pub begin-Order :
      (w : ℕ) (l : List Callback)
      → s.worker w ≡ synchronize l
      → (j : ℕ)
      → OrderOf (record (work_on w (grace l) s) { at_begin = update s.at_begin w (s.called w) }) j
  begin-Order w l e =
      only
        (OrderOf (record (work_on w (grace l) s) { at_begin = update s.at_begin w (s.called w) })) w
        (rw (same_number w) (
          let before : s.called w ≡ (s.invoked w ++ l) ++ s.queue w =
            subst (λ (q : WorkerPc). s.called w ≡ (s.invoked w ++ hand q) ++ s.queue w) e
              ((inv w).split) in
          record {
            split = before;
            begun = λ k. (s.queue w, before);
            ended = λ k. absurd (ground arith);
            behind = (inv w).behind;
          }))
        (λ j k. rw k (inv j))

  pub end-Order :
      (w : ℕ) (l : List Callback)
      → s.worker w ≡ grace l
      → (j : ℕ)
      → OrderOf (record (work_on w (invoke l) s) { waited = update s.waited w (s.at_begin w) }) j
  end-Order w l e =
      only (OrderOf (record (work_on w (invoke l) s) { waited = update s.waited w (s.at_begin w) }))
        w
        (rw (same_number w) (
          let before =
            subst (λ (q : WorkerPc). s.called w ≡ (s.invoked w ++ hand q) ++ s.queue w) e
              ((inv w).split) in
          let (more, here) =
            subst
              (λ (q : WorkerPc).
                in_grace q ≡ true → IsPrefix (s.invoked w ++ hand q) (s.at_begin w))
              e ((inv w).begun) refl in
          record {
            split = before;
            begun = λ k. absurd (ground arith);
            ended = λ k. (more, here);
            behind = (l ++ more, here ∙ append_assoc (s.invoked w) l more);
          }))
        (λ j k. rw k (inv j))

abbrev pub AllOrder : System → Type 0
AllOrder s = (w : ℕ) → OrderOf s w
