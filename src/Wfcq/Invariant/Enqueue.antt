-- ===== src/Wfcq/Invariant/Enqueue.antt =====
-- The steps of ___cds_wfcq_append keep what a queue holds.
use mathlib.Core.List.{append_assoc}
use mathlib.Core.Path.{sym, ◌∙◌, subst}
use liburcu.Prelude.{
  ℕ, ◌≡◌, ◌≢◌, refl, ap, Bool, Bool-cases, true, false, inl, inr, List, [], ◌∷◌, ◌++◌, has,
  has-append, update, arith,
}
use liburcu.Wfcq.Queue.{
  Queue, Pc, Result, idle, check_head, check_tail, sync_head, read_next, clear_head, swap_tail,
  sync_node, restore_head, move_head, _cds_wfcq_node_init, exchange_tail, store_next, start_dequeue,
}
use liburcu.Wfcq.Chain.{
  Chain, Chain-agree, Chain-snoc, Chain-link, Chain-first, owner-next, Distinct-snoc, last-append,
}
use liburcu.Wfcq.Invariant.Defs.{view, Local, Holds}

-- The view changes with the links.
pub view-agree :
    (h : ℕ) (p : Pc) (next next' : ℕ → ℕ) (x : ℕ)
    → next' x ≡ next x
    → view h p next' x ≡ view h p next x
view-agree h (idle r) next next' x e = e
view-agree h check_head next next' x e = e
view-agree h check_tail next next' x e = e
view-agree h sync_head next next' x e = e
view-agree h (read_next n) next next' x e = e
view-agree h (clear_head n) next next' x e = e
view-agree h (swap_tail n) next next' x e = ground arith
view-agree h (sync_node n) next next' x e = ground arith
view-agree h (restore_head n) next next' x e = ground arith
view-agree h (move_head n nx) next next' x e = ground arith

-- Away from the head node the view is the links.
pub view-outside : (h : ℕ) (p : Pc) (next : ℕ → ℕ) (x : ℕ) → x ≢ h → view h p next x ≡ next x
view-outside h (idle r) next x e = refl
view-outside h check_head next x e = refl
view-outside h check_tail next x e = refl
view-outside h sync_head next x e = refl
view-outside h (read_next n) next x e = refl
view-outside h (clear_head n) next x e = refl
view-outside h (swap_tail n) next x e = ground arith
view-outside h (sync_node n) next x e = ground arith
view-outside h (restore_head n) next x e = ground arith
view-outside h (move_head n nx) next x e = ground arith

pub view-update :
    (h : ℕ) (p : Pc) (next : ℕ → ℕ) (o n x : ℕ)
    → Local h p next
    → (view h p next h ≢ 0 → o ≢ h)
    → view h p (update next o n) x ≡ update (view h p next) o n x
view-update h (idle r) next o n x l f = refl
view-update h check_head next o n x l f = refl
view-update h check_tail next o n x l f = refl
view-update h sync_head next o n x l f = refl
view-update h (read_next k) next o n x l f = refl
view-update h (clear_head k) next o n x l f = refl
view-update h (swap_tail k) next o n x l f = ground (arith, f, l.1)
view-update h (sync_node k) next o n x l f = ground (arith, f, l)
view-update h (restore_head k) next o n x l f = ground (arith, f, l)
view-update h (move_head k nx) next o n x l f = ground (arith, f, l.0)

-- The node that the dequeuer is about to move behind has no store owed, and stands in the queue.
moving-has :
    (h n nx : ℕ) (old next : ℕ → ℕ) (items : List ℕ)
    → Chain old (view h (move_head n nx) next) h items
    → n ≢ 0
    → has n items ≡ true
moving-has h n nx old next items c ne =
    let f = Chain-first old (view h (move_head n nx) next) h n items c (ground arith) ne in
    rw (f.1.0) (ground arith)

-- What the dequeuer knows stays true where the links it read stay.
Local-agree :
    (h : ℕ) (p : Pc) (next next' old : ℕ → ℕ) (items : List ℕ)
    → Chain old (view h p next) h items
    → (view h p next h ≢ 0 → next' h ≡ next h)
    → ((x : ℕ) → has x items ≡ true → next x ≢ 0 → next' x ≡ next x)
    → Local h p next
    → Local h p next'
Local-agree h (idle r) next next' old items c e f l = l
Local-agree h check_head next next' old items c e f l = l
Local-agree h check_tail next next' old items c e f l = l
Local-agree h sync_head next next' old items c e f l = l
Local-agree h (read_next n) next next' old items c e f l = (e (λ z. l.1 (sym l.0 ∙ z)) ∙ l.0, l.1)
Local-agree h (clear_head n) next next' old items c e f l = (e (λ z. l.1 (sym l.0 ∙ z)) ∙ l.0, l.1)
Local-agree h (swap_tail n) next next' old items c e f l = (e (ground (arith, l.1)) ∙ l.0, l.1)
Local-agree h (sync_node n) next next' old items c e f l = l
Local-agree h (restore_head n) next next' old items c e f l = l
Local-agree h (move_head n nx) next next' old items c e f (ne, (k, nz)) =
    let m = moving-has h n nx old next items c ne in (ne, (f n m (λ z. nz (sym k ∙ z)) ∙ k, nz))

pub node_init-Holds :
    {h : ℕ} {s : Queue} {items : List ℕ} (n : ℕ)
    → n ≢ h
    → s.owned n ≡ true
    → Holds h s items
    → Holds h (_cds_wfcq_node_init n s) items
node_init-Holds {h} {s} {items} n off own inv =
    let next' = update s.next n 0 in
    let outside : has n items ≡ false = elim (Bool-cases (has n items)) [
      | inl e ↦ ground (arith, inv.taken n e)
      | inr e ↦ e
    ] in
    let here : (x : ℕ) → has x (h ∷ items) ≡ true → next' x ≡ s.next x = λ x m. ground arith in
    record {
      distinct = inv.distinct;
      no_null = inv.no_null;
      at_tail = inv.at_tail;
      taken = inv.taken;
      pending = inv.pending;
      order = inv.order;
      chain =
          Chain-agree s.old_tail s.old_tail (view h s.pc s.next) (view h s.pc next') h items
            inv.chain (λ x m. view-agree h s.pc s.next next' x (here x m)) (λ x m. refl);
      local =
          Local-agree h s.pc s.next next' s.old_tail items inv.chain (λ k. here h (ground arith))
            (λ x m k. here x (ground arith)) inv.local;
    }

pub exchange_tail-Holds :
    {h : ℕ} {s : Queue} {items : List ℕ} (n : ℕ)
    → n ≢ h
    → n ≢ 0
    → s.owned n ≡ true
    → s.next n ≡ 0
    → Holds h s items
    → Holds h (exchange_tail n s) (items ++ n ∷ [])
exchange_tail-Holds {h} {s} {items} n off nz own e inv =
    let outside : has n items ≡ false = elim (Bool-cases (has n items)) [
      | inl m ↦ ground (arith, inv.taken n m)
      | inr m ↦ m
    ] in
    let empty = view-outside h s.pc s.next n off ∙ e in
    let snoc =
      Chain-snoc s.old_tail (view h s.pc s.next) n h items inv.chain (ground arith) empty in
    record {
      chain =
          subst (λ t. Chain (update s.old_tail n t) (view h s.pc s.next) h (items ++ n ∷ []))
            (sym inv.at_tail) snoc;
      distinct = Distinct-snoc n (h ∷ items) inv.distinct (ground arith);
      no_null = ground (arith, has-append 0 items (n ∷ []), inv.no_null);
      at_tail = sym (last-append h n items);
      taken = λ x m. ground (arith, inv.taken x, has-append x items (n ∷ []));
      pending = λ x m. ground (arith, inv.pending x, has-append x items (n ∷ []));
      order = ap (λ l. l ++ n ∷ []) inv.order ∙ append_assoc s.dequeued items (n ∷ []);
      local = inv.local;
    }

pub store_next-Holds :
    {h : ℕ} {s : Queue} {items : List ℕ} (n : ℕ)
    → s.old_tail n ≢ 0
    → Holds h s items
    → Holds h (store_next n s) items
store_next-Holds {h} {s} {items} n owed inv =
    let o = s.old_tail n in
    let v = view h s.pc s.next in
    let next' = update s.next o n in
    let m = inv.pending n owed in
    let none = owner-next s.old_tail v n h items inv.chain m owed in
    let linked = Chain-link s.old_tail v n h items inv.chain inv.distinct m owed in
    let held : v h ≢ 0 → next' h ≡ s.next h = λ k. ground arith in
    record {
      distinct = inv.distinct;
      no_null = inv.no_null;
      at_tail = inv.at_tail;
      taken = inv.taken;
      order = inv.order;
      chain =
          Chain-agree (update s.old_tail n 0) (update s.old_tail n 0) (update v o n)
            (view h s.pc next') h items linked
            (λ x k.
              view-update h s.pc s.next o n x inv.local (λ nz same. nz (ap v (sym same) ∙ none)))
            (λ x k. refl);
      pending = λ x k. ground (arith, inv.pending x);
      local =
          Local-agree h s.pc s.next next' s.old_tail items inv.chain held
            (λ x k nz. ground (arith, view-outside h s.pc s.next x, inv.distinct)) inv.local;
    }

pub start_dequeue-Holds :
    {h : ℕ} {s : Queue} {items : List ℕ} (r : Result) (b : Bool)
    → s.pc ≡ idle r
    → Holds h s items
    → Holds h (start_dequeue b s) items
start_dequeue-Holds {h} {s} {items} r b e inv = record {
  distinct = inv.distinct;
  no_null = inv.no_null;
  at_tail = inv.at_tail;
  taken = inv.taken;
  pending = inv.pending;
  order = inv.order;
  chain = subst (λ q. Chain s.old_tail (view h q s.next) h items) e inv.chain;
  local = tt;
}
