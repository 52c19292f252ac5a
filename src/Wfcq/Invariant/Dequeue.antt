-- ===== src/Wfcq/Invariant/Dequeue.antt =====
-- The accesses of ___cds_wfcq_dequeue_with_state keep what a queue holds, and leave it, or take
-- out its first node.
use mathlib.Core.List.{append_assoc}
use mathlib.Core.Path.{sym, ◌∙◌, subst}
use liburcu.Prelude.{
  ℕ, ◌≡◌, ◌≢◌, refl, ap, Bool, Bool-cases, true, false, inl, inr, List, [], ◌∷◌, ◌==◌, has, update,
  arith, if◌then◌else◌,
}
use liburcu.Wfcq.Queue.{
  Queue, Pc, null, would_block, idle, check_head, check_tail, sync_head, read_next, clear_head,
  swap_tail, sync_node, restore_head, move_head, give, dequeue_at, dequeue_step,
}
use liburcu.Wfcq.Chain.{Chain, Chain-agree, Chain-first, last, has-last}
use liburcu.Wfcq.Invariant.Defs.{view, Local, Holds}

-- A step that moves the dequeuer only.
at_pc :
    {h : ℕ} {s : Queue} {items : List ℕ} (p : Pc)
    → Holds h s items
    → ((x : ℕ) → view h p s.next x ≡ view h s.pc s.next x)
    → Local h p s.next
    → Holds h (record s { pc = p }) items
at_pc {h} {s} {items} p inv same l = record {
  distinct = inv.distinct;
  no_null = inv.no_null;
  at_tail = inv.at_tail;
  taken = inv.taken;
  pending = inv.pending;
  order = inv.order;
  chain =
      Chain-agree s.old_tail s.old_tail (view h s.pc s.next) (view h p s.next) h items inv.chain
        (λ x m. same x) (λ x m. refl);
  local = l;
}

-- A step that moves the dequeuer and stores to the head node.
at_head :
    {h : ℕ} {s : Queue} {items : List ℕ} (p : Pc) (to : ℕ)
    → Holds h s items
    → ((x : ℕ) → view h p (update s.next h to) x ≡ view h s.pc s.next x)
    → Local h p (update s.next h to)
    → Holds h (record s { pc = p; next = update s.next h to }) items
at_head {h} {s} {items} p to inv same l = record {
  distinct = inv.distinct;
  no_null = inv.no_null;
  at_tail = inv.at_tail;
  taken = inv.taken;
  pending = inv.pending;
  order = inv.order;
  chain =
      Chain-agree s.old_tail s.old_tail (view h s.pc s.next) (view h p (update s.next h to)) h items
        inv.chain (λ x m. same x) (λ x m. refl);
  local = l;
}

-- The first node is taken out: the rest follows the head node.
taken_out :
    {h : ℕ} {s : Queue} {items : List ℕ} (n : ℕ) (b : Bool) (next' : ℕ → ℕ) (tail' : ℕ)
    → Holds h s (n ∷ items)
    → s.old_tail n ≡ 0
    → Chain s.old_tail next' h items
    → tail' ≡ last h items
    → Holds h (give n b (record s { next = next'; tail = tail' })) items
taken_out {h} {s} {items} n b next' tail' inv free c t =
    let (u, (v, d)) = inv.distinct in
    record {
      distinct = (ground arith, d);
      no_null = ground (arith, inv.no_null);
      at_tail = t;
      taken = λ x m. ground (arith, inv.taken x);
      pending = λ x k. ground (arith, inv.pending x);
      order = inv.order ∙ sym (append_assoc s.dequeued (n ∷ []) items);
      chain = c;
      local = tt;
    }

-- The node that the dequeuer holds is the first.
held-first :
    {h : ℕ} {s : Queue} {items : List ℕ} (n : ℕ)
    → view h s.pc s.next h ≡ n
    → n ≢ 0
    → Holds h s items
    → (cs : List ℕ) × ((items ≡ n ∷ cs)
        × (Holds h s (n ∷ cs) × ((s.old_tail n ≡ 0) × Chain s.old_tail (view h s.pc s.next) n cs)))
held-first {h} {s} {items} n e nz inv =
    let f = Chain-first s.old_tail (view h s.pc s.next) h n items inv.chain e nz in
    (f.0, (f.1.0, (subst (λ l. Holds h s l) f.1.0 inv, f.1.1)))

only_one : (n : ℕ) (cs : List ℕ) → last n cs ≡ n → has n cs ≡ false → cs ≡ []
only_one n [] e u = refl
only_one n (c ∷ cs) e u = absurd (ground (arith, has-last c cs))

-- The cmpxchg succeeds: the node was the only one.
pub swap_tail-Holds :
    {h : ℕ} {s : Queue} {items : List ℕ} (n : ℕ)
    → s.pc ≡ swap_tail n
    → s.tail ≡ n
    → Holds h s items
    → (items ≡ n ∷ []) × Holds h (give n true (record s { tail = h })) []
swap_tail-Holds {h} {s} {items} n p t inv =
    let known = subst (λ q. Local h q s.next) p inv.local in
    let e : view h s.pc s.next h ≡ n = rw p (ground arith) in
    let (cs, (f, (full, (free, c)))) = held-first n e (known.1) inv in
    let none = only_one n cs (sym full.at_tail ∙ t) (full.distinct.1.0) in
    let one = subst (λ l. Holds h s (n ∷ l)) none full in
    (f ∙ ap (λ l. n ∷ l) none, taken_out n true s.next h one free (known.0) refl)

-- The head moves forward.
pub move_head-Holds :
    {h : ℕ} {s : Queue} {items : List ℕ} (n nx : ℕ)
    → s.pc ≡ move_head n nx
    → Holds h s items
    → (rest : List ℕ) × ((items ≡ n ∷ nx ∷ rest)
        × Holds h (give n false (record s { next = update s.next h nx })) (nx ∷ rest))
move_head-Holds {h} {s} {items} n nx p inv =
    let (nz, (e, nxz)) = subst (λ q. Local h q s.next) p inv.local in
    let v = view h s.pc s.next in
    let (cs, (f, (full, (free, c)))) = held-first n (rw p (ground arith)) nz inv in
    let off : v n ≡ nx = rw p (ground (arith, full.distinct)) in
    let (ds, (g, (freed, d))) = Chain-first s.old_tail v n nx cs c off nxz in
    let two = subst (λ l. Holds h s (n ∷ l)) g full in
    let rest =
      Chain-agree s.old_tail s.old_tail v (update s.next h nx) nx ds d
        (λ x m. rw p (ground (arith, two.distinct))) (λ x m. refl) in
    (
      ds,
      (
        f ∙ ap (λ l. n ∷ l) g,
        taken_out n false (update s.next h nx) s.tail two free (inl (ground arith, freed), rest)
            two.at_tail,
      ),
    )

either :
    {h : ℕ} {s t : Queue} {items : List ℕ} (b : Bool)
    → Holds h s items
    → Holds h t items
    → Holds h (if b then s else t) items
either true p q = p
either false p q = q

-- One access, by where the dequeuer stands.
access-Holds :
    (h : ℕ) (s : Queue) (items : List ℕ) (p : Pc)
    → s.pc ≡ p
    → Holds h s items
    → (rest : List ℕ) × Holds h (dequeue_at h p s) rest
unfolding dequeue_at
access-Holds h s items (idle r) e inv = (items, inv)
access-Holds h s items check_head e inv = elim (Bool-cases (s.next h == 0)) [
  | inl z ↦ rw z (items, at_pc check_tail inv (λ x. rw e refl) tt)
  | inr z ↦ rw z (items, at_pc sync_head inv (λ x. rw e refl) tt)
]
access-Holds h s items check_tail e inv = elim (Bool-cases (s.tail == h)) [
  | inl z ↦ rw z (items, at_pc (idle null) inv (λ x. rw e refl) tt)
  | inr z ↦ rw z (items, at_pc sync_head inv (λ x. rw e refl) tt)
]
access-Holds h s items sync_head e inv = elim (Bool-cases (s.next h == 0)) [
  | inl z ↦ rw z (items, either s.blocking inv (at_pc (idle would_block) inv (λ x. rw e refl) tt))
  | inr z ↦ rw z (items, at_pc (read_next (s.next h)) inv (λ x. rw e refl) (refl, ground arith))
]
access-Holds h s items (read_next n) e inv =
    let l = subst (λ q. Local h q s.next) e inv.local in
    elim (Bool-cases (s.next n == 0)) [
      | inl z ↦ rw z (items, at_pc (clear_head n) inv (λ x. rw e refl) l)
      | inr z ↦ rw z (
        items,
        at_pc (move_head n (s.next n)) inv (λ x. rw e (ground (arith, l.0)))
            (l.1, (refl, ground arith)),
      )
    ]
access-Holds h s items (clear_head n) e inv =
    let l = subst (λ q. Local h q s.next) e inv.local in
    (items, at_head (swap_tail n) 0 inv (λ x. rw e (ground (arith, l.0))) (ground arith, l.1))
access-Holds h s items (swap_tail n) e inv =
    let l = subst (λ q. Local h q s.next) e inv.local in
    elim (Bool-cases (s.tail == n)) [
      | inl z ↦ rw z ([], (swap_tail-Holds n e (ground arith) inv).1)
      | inr z ↦ rw z (items, at_pc (sync_node n) inv (λ x. rw e refl) (l.1))
    ]
access-Holds h s items (sync_node n) e inv =
    let l = subst (λ q. Local h q s.next) e inv.local in
    elim (Bool-cases (s.next n == 0)) [
      | inl z ↦ rw z (items, either s.blocking inv (at_pc (restore_head n) inv (λ x. rw e refl) l))
      | inr z ↦
          rw z
            (items, at_pc (move_head n (s.next n)) inv (λ x. rw e refl) (l, (refl, ground arith)))
    ]
access-Holds h s items (restore_head n) e inv =
    (items, at_head (idle would_block) n inv (λ x. rw e (ground arith)) tt)
access-Holds h s items (move_head n nx) e inv =
    let m = move_head-Holds n nx e inv in (nx ∷ m.0, m.1.1)

pub dequeue_step-Holds :
    (h : ℕ) (s : Queue) (items : List ℕ)
    → Holds h s items
    → (rest : List ℕ) × Holds h (dequeue_step h s) rest
unfolding dequeue_step
dequeue_step-Holds h s items inv = access-Holds h s items s.pc refl inv
