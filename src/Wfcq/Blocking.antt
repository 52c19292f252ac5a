-- ===== src/Wfcq/Blocking.antt =====
-- include/urcu/static/wfcqueue.h: what a dequeue waits for, and that it needs nothing else.
use mathlib.Core.Path.{sym, ◌∙◌, subst}
use liburcu.Prelude.{
  ℕ, ◌≡◌, ◌≢◌, ◌⊎◌, refl, ap, Bool, Bool-cases, true, false, List, ◌∷◌, ◌==◌, has, arith, inl, inr,
  if◌then◌else◌,
}
use liburcu.Wfcq.Queue.{
  Queue, Pc, would_block, idle, check_head, check_tail, sync_head, read_next, clear_head, swap_tail,
  sync_node, restore_head, move_head, dequeue_at, dequeue_step, Reachable, fresh, then_step, Step,
}
use liburcu.Wfcq.Chain.{Chain, last, has-last, Chain-owes, Chain-first}
use liburcu.Wfcq.Invariant.{Holds, Local, view, Reachable-Holds}

-- Where the dequeuer waits for a link, the tail is elsewhere.
Behind : ℕ → Pc → ℕ → Type 0
Behind h sync_head tail = tail ≢ h
Behind h (sync_node n) tail = tail ≢ n
Behind h _ tail = Unit

exchange-Behind :
    (h : ℕ) (p : Pc) (next old : ℕ → ℕ) (items : List ℕ) (n : ℕ)
    → Chain old (view h p next) h items
    → Local h p next
    → has n items ≡ false
    → n ≢ h
    → Behind h p n
unfolding Behind
exchange-Behind h (idle r) next old items n c l out off = tt
exchange-Behind h check_head next old items n c l out off = tt
exchange-Behind h check_tail next old items n c l out off = tt
exchange-Behind h sync_head next old items n c l out off = off
exchange-Behind h (read_next k) next old items n c l out off = tt
exchange-Behind h (clear_head k) next old items n c l out off = tt
exchange-Behind h (swap_tail k) next old items n c l out off = tt
exchange-Behind h (sync_node k) next old items n c l out off =
    let f = Chain-first old (view h (sync_node k) next) h k items c (ground arith) l in
    let m : has n (k ∷ f.0) ≡ false = subst (λ b. has n b ≡ false) (f.1.0) out in ground arith
exchange-Behind h (restore_head k) next old items n c l out off = tt
exchange-Behind h (move_head k nx) next old items n c l out off = tt

either-Behind :
    (h : ℕ) (b : Bool) (s t : Queue)
    → Behind h s.pc s.tail
    → Behind h t.pc t.tail
    → Behind h (if b then s else t).pc (if b then s else t).tail
either-Behind h true s t p q = p
either-Behind h false s t p q = q

access-Behind :
    (h : ℕ) (s : Queue) (items : List ℕ) (p : Pc)
    → s.pc ≡ p
    → Holds h s items
    → Behind h p s.tail
    → Behind h (dequeue_at h p s).pc (dequeue_at h p s).tail
unfolding Behind dequeue_at
access-Behind h s items (idle r) e inv w = rw e tt
access-Behind h s items check_head e inv w = elim (Bool-cases (s.next h == 0)) [
  | inl z ↦ rw z tt
  | inr z ↦
      let v : view h s.pc s.next h ≡ s.next h = rw e refl in
      let f =
        Chain-first s.old_tail (view h s.pc s.next) h (s.next h) items inv.chain v (ground arith) in
      let d = subst (λ l. has h l ≡ false) (f.1.0) (inv.distinct.0) in
      let t = inv.at_tail ∙ ap (λ l. last h l) (f.1.0) in
      rw z (ground (arith, has-last (s.next h) (f.0)))
]
access-Behind h s items check_tail e inv w = elim (Bool-cases (s.tail == h)) [
  | inl z ↦ rw z tt
  | inr z ↦ rw z (ground arith)
]
access-Behind h s items sync_head e inv w = elim (Bool-cases (s.next h == 0)) [
  | inl z ↦ rw z (either-Behind h s.blocking s (record s { pc = idle would_block }) (rw e w) tt)
  | inr z ↦ rw z tt
]
access-Behind h s items (read_next n) e inv w = elim (Bool-cases (s.next n == 0)) [
  | inl z ↦ rw z tt
  | inr z ↦ rw z tt
]
access-Behind h s items (clear_head n) e inv w = tt
access-Behind h s items (swap_tail n) e inv w = elim (Bool-cases (s.tail == n)) [
  | inl z ↦ rw z tt
  | inr z ↦ rw z (ground arith)
]
access-Behind h s items (sync_node n) e inv w = elim (Bool-cases (s.next n == 0)) [
  | inl z ↦ rw z (either-Behind h s.blocking s (record s { pc = restore_head n }) (rw e w) tt)
  | inr z ↦ rw z tt
]
access-Behind h s items (restore_head n) e inv w = tt
access-Behind h s items (move_head n nx) e inv w = tt

Step-Behind :
    {h : ℕ} {s t : Queue} {items : List ℕ}
    → Holds h s items
    → Step h s t
    → Behind h s.pc s.tail
    → Behind h t.pc t.tail
unfolding Behind dequeue_step
Step-Behind inv (Step.init_node n off own) w = w
Step-Behind {h} {s} {items = items} inv (Step.exchange n off nz own e) w =
    let outside : has n items ≡ false = elim (Bool-cases (has n items)) [
      | inl m ↦ ground (arith, inv.taken n m)
      | inr m ↦ m
    ] in
    exchange-Behind h s.pc s.next s.old_tail items n inv.chain inv.local outside off
Step-Behind inv (Step.store n owed) w = w
Step-Behind inv (Step.start r b e) w = tt
Step-Behind {h} {s} {items = items} inv Step.advance w = access-Behind h s items s.pc refl inv w

Reachable-Behind : {h : ℕ} {s : Queue} → h ≢ 0 → Reachable h s → Behind h s.pc s.tail
unfolding Behind
Reachable-Behind ne fresh = tt
Reachable-Behind ne (then_step r st) =
    Step-Behind (Reachable-Holds ne r).1 st (Reachable-Behind ne r)

-- The dequeuer is in ___cds_wfcq_node_sync_next of the node `a`.
abbrev pub Awaiting : ℕ → ℕ → Queue → Type 0
Awaiting h a s = ((s.pc ≡ sync_head) × (a ≡ h)) ⊎ ((s.pc ≡ sync_node a) × (a ≢ h))

-- Where ___cds_wfcq_node_sync_next reads NULL in a node, so that the dequeue waits or returns
-- CDS_WFCQ_WOULDBLOCK, an enqueue stands between its exchange and its store to that very node.
pub waits_for_enqueuer :
    {h : ℕ} {s : Queue} (a : ℕ)
    → h ≢ 0
    → Reachable h s
    → Awaiting h a s
    → s.next a ≡ 0
    → (m : ℕ) × ((s.old_tail m ≡ a) × (a ≢ 0))
unfolding Behind
waits_for_enqueuer {h} {s} a ne r (inl (at, same)) z =
    let (items, inv) = Reachable-Holds ne r in
    let w : s.tail ≢ h = subst (λ p. Behind h p s.tail) at (Reachable-Behind ne r) in
    let v : view h s.pc s.next h ≡ 0 = rw at (ground arith) in
    elim (Chain-owes s.old_tail (view h s.pc s.next) h items inv.chain v inv.no_null) [
      | inl none ↦ absurd (w (inv.at_tail ∙ ap (λ l. last h l) none))
      | inr (m, (has, owed)) ↦ (m, (owed ∙ sym same, λ k. ne (sym same ∙ k)))
    ]
waits_for_enqueuer {h} {s} a ne r (inr (at, off)) z =
    let (items, inv) = Reachable-Holds ne r in
    let w : s.tail ≢ a = subst (λ p. Behind h p s.tail) at (Reachable-Behind ne r) in
    let nz : a ≢ 0 = subst (λ p. Local h p s.next) at inv.local in
    let f =
      Chain-first s.old_tail (view h s.pc s.next) h a items inv.chain (rw at (ground arith)) nz in
    let full = subst (λ l. Holds h s l) (f.1.0) inv in
    let v : view h s.pc s.next a ≡ 0 = rw at (ground arith) in
    elim (Chain-owes s.old_tail (view h s.pc s.next) a (f.0) (f.1.1.1) v
      (ground (arith, full.no_null))) [
        | inl none ↦ absurd (w (full.at_tail ∙ ap (λ l. last a l) none))
        | inr (m, (has, owed)) ↦ (m, (owed, nz))
      ]

-- How far the dequeuer is from its return.
rank : Pc → ℕ
rank (idle r) = 0
rank check_head = 8
rank check_tail = 7
rank sync_head = 6
rank (read_next n) = 5
rank (clear_head n) = 4
rank (swap_tail n) = 3
rank (sync_node n) = 2
rank (restore_head n) = 1
rank (move_head n nx) = 1
