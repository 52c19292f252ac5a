-- ===== src/Stacks/WaitFree/Invariant.antt =====
-- include/urcu/static/wfstack.h: the chain from the head, and the abstract stack. The link of a node
-- whose push has not stored it yet is the head that its exchange has read.
use mathlib.Core.Path.{subst}
use liburcu.Prelude.{
  ℕ, ◌≡◌, ◌≢◌, refl, sym, ap, ◌∙◌, Bool, Bool-cases, true, false, not, inl, inr, some, List, [],
  ◌∷◌, ◌==◌, has, Distinct, update, arith, if◌then◌else◌,
}
use liburcu.Stacks.Spec.{
  pushed, popped, popped_null, popped_all, would_block, replay, replay-cons, holds, top_of,
}
use liburcu.Stacks.Chain.{
  Linked, Linked-agree, Linked-empty, empty_items, head_has, split_head, push_spec, null_spec,
  pop_spec, all_spec, block_spec, subst_holds,
}
use liburcu.Stacks.WaitFree.{
  Stack, note, PushPc, PopPc, outside, linking, ready, load_head, sync_next, swap_head, push_at,
  exchange, pop_at, pop_all, holding, Step, cds_wfs_end, ___cds_wfs_init, Reachable, fresh,
  then_step, _cds_wfs_node_init,
}

abbrev pub following : PushPc → ℕ → ℕ
following outside next = next
following (linking old_head) next = old_head

abbrev pub link : Stack → ℕ → ℕ
link s n = following (s.push n) (s.next n)

pub record Inv (s : Stack) (items : List ℕ) : Type 0 where
  pub replayed : replay 1 s.events ≡ some items
  pub linked : Linked 1 (link s) s.head items
  pub distinct : Distinct items
  pub head_set : s.head ≢ 0
  pub unlinked : (n old : ℕ) → s.push n ≡ linking old → (s.next n ≡ 0) × (old ≢ 0)
  pub pending : (n : ℕ) → has n items ≡ true → s.next n ≡ 0 → s.push n ≢ outside
  pub awaited : (i n : ℕ) → holding (s.pop i) n ≡ true → s.next n ≡ 0 → s.push n ≢ outside
  pub read :
      (i h nx : ℕ) (b : Bool) → s.pop i ≡ swap_head b h nx → (s.next h ≡ nx) × ((nx ≢ 0) × (h ≢ 1))
  pub loaded : (i h : ℕ) (b : Bool) → s.pop i ≡ sync_next b h → h ≢ 1

-- What pop_all returns for the head.
null_top :
    (next : ℕ → ℕ) (a : ℕ) (xs : List ℕ)
    → Linked 1 next a xs
    → top_of 0 xs ≡ (if a == 1 then 0 else a)
null_top next a [] l = ground arith
null_top next a (x ∷ xs) l = ground arith

module _ {s : Stack} {items : List ℕ} (inv : Inv s items) where
  open inv use {replayed, linked, distinct, head_set, unlinked, pending, awaited, read, loaded}

  push_step-Inv : (n : ℕ) (p : PushPc) → s.push n ≡ p → Inv (push_at n p s) items
  unfolding push_at
  push_step-Inv n outside e = inv
  push_step-Inv n (linking old) e =
      let (unset, set) = unlinked n old e in
      record {
        replayed = replayed;
        linked =
            Linked-agree 1 (link s) (link (push_at n (linking old) s)) s.head items linked
              (λ x m. ground arith);
        distinct = distinct;
        head_set = head_set;
        unlinked = λ m o k. ground (arith, unlinked m o);
        pending = λ m k z. ground (arith, pending m k);
        awaited = λ i m k z. ground (arith, awaited i m k);
        read = λ i h nx b k. ground (arith, read i h nx b);
        loaded = λ j h c k. ground (arith, loaded j h c);
      }

  exchange-Inv :
      (n : ℕ)
      → n ≢ 0
      → n ≢ cds_wfs_end
      → s.next n ≡ 0
      → s.push n ≡ outside
      → holds cds_wfs_end n s.events ≡ false
      → ((i : ℕ) → holding (s.pop i) n ≡ false)
      → Inv (exchange n s) (n ∷ items)
  unfolding exchange
  exchange-Inv n nz ne unset out off unheld =
      let gone : has n items ≡ false = subst_holds 1 n s.events items replayed off in
      let (emptiness, top) = Linked-empty 1 (link s) s.head items linked in
      let linked_is : link (exchange n s) n ≡ s.head = ground arith in
      record {
        replayed =
            replay-cons 1 (pushed n (not (s.head == 1))) s.events items (n ∷ items) replayed
              (push_spec 1 n (s.head == 1) items emptiness);
        linked = (
          refl,
          (
            ne,
            rw linked_is (
                Linked-agree 1 (link s) (link (exchange n s)) s.head items linked
                  (λ x m. ground arith)),
          ),
        );
        distinct = (gone, distinct);
        head_set = nz;
        unlinked = λ m o k. ground (arith, unlinked m o);
        pending = λ m k z. ground (arith, pending m);
        awaited = λ i m k z. ground (arith, awaited i m k);
        read = λ i h nx b k. ground (arith, read i h nx b);
        loaded = λ j h c k. ground (arith, loaded j h c);
      }

  gave_up-Inv : (i : ℕ) → Inv (note would_block (record s { pop = update s.pop i ready })) items
  gave_up-Inv i = record {
    replayed = replay-cons 1 would_block s.events items items replayed (block_spec 1 items);
    linked = linked;
    distinct = distinct;
    head_set = head_set;
    unlinked = unlinked;
    pending = pending;
    awaited = λ j m k u. ground (arith, awaited j m);
    read = λ j h nx b k. ground (arith, read j h nx b);
    loaded = λ j h c k. ground (arith, loaded j h c);
  }

  -- A node whose link has been read is no longer being pushed.
  link_read :
      (p : PushPc) (h nx : ℕ) → s.next h ≡ nx → nx ≢ 0 → s.push h ≡ p → following p (s.next h) ≡ nx
  link_read outside h nx e nz k = e
  link_read (linking old) h nx e nz k = absurd (nz (sym e ∙ (unlinked h old k).0))

  pop_step-Inv : (i : ℕ) (p : PopPc) → s.pop i ≡ p → (new : List ℕ) × Inv (pop_at i p s) new
  unfolding pop_at
  pop_step-Inv i ready e = (items, inv)
  pop_step-Inv i (load_head b) e = elim (Bool-cases (s.head == 1)) [
    | inl z ↦
        let none : items ≡ [] = empty_items 1 (link s) s.head items linked z in
        (
          [],
          rw z (record {
            replayed = replay-cons 1 popped_null s.events items [] replayed (rw none (null_spec 1));
            linked = ground arith;
            distinct = tt;
            head_set = head_set;
            unlinked = unlinked;
            pending = λ m k. absurd (ground arith);
            awaited = λ j m k. ground (arith, awaited j m);
            read = λ j h nx c k. ground (arith, read j h nx c);
            loaded = λ j h c k. ground (arith, loaded j h c);
          }),
        )
    | inr z ↦
        let here : has s.head items ≡ true = head_has 1 (link s) s.head items linked z in
        (
          items,
          rw z (record {
            replayed = replayed;
            linked = linked;
            distinct = distinct;
            head_set = head_set;
            unlinked = unlinked;
            pending = pending;
            awaited = λ j m k u. ground (arith, awaited j m, pending m);
            read = λ j h nx c k. ground (arith, read j h nx c);
            loaded = λ j h c k. ground (arith, loaded j h c);
          }),
        )
  ]
  pop_step-Inv i (sync_next b h) e = elim (Bool-cases (s.next h == 0)) [
    | inl z ↦
        (items, rw z (elim (Bool-cases b) [ inl t ↦ rw t inv | inr t ↦ rw t (gave_up-Inv i) ]))
    | inr z ↦ (
      items,
      rw z (record {
        replayed = replayed;
        linked = linked;
        distinct = distinct;
        head_set = head_set;
        unlinked = unlinked;
        pending = pending;
        awaited = λ j m k u. ground (arith, awaited j m, awaited i m);
        read = λ j h' nx c k. ground (arith, read j h' nx c, loaded i h b);
        loaded = λ j h c k. ground (arith, loaded j h c);
      }),
    )
  ]
  pop_step-Inv i (swap_head b head nx) e = elim (Bool-cases (s.head == head)) [
    | inl z ↦
        let (next_is, (set, not_end)) = read i head nx b e in
        let same : s.head ≡ head = ground arith in
        let (rest, (split, more)) =
          split_head 1 (link s) s.head items linked (λ k. not_end (sym same ∙ k)) in
        let link_is : link s s.head ≡ nx =
          ap (link s) same ∙ link_read (s.push head) head nx next_is set refl in
        let after : Linked 1 (link s) nx rest =
          subst (λ (a : ℕ). Linked 1 (link s) a rest) link_is more in
        let (emptiness, top) = Linked-empty 1 (link s) nx rest after in
        let apart = subst Distinct split distinct in
        let kept : (m : ℕ) → has m rest ≡ true → has m items ≡ true =
          λ m k. subst (λ (l : List ℕ). has m l ≡ true) (sym split) (ground arith) in
        (
          rest,
          rw z (record {
            replayed =
                replay-cons 1 (popped head (nx == 1)) s.events items rest replayed
                  (rw split (pop_spec 1 s.head head (nx == 1) rest same emptiness));
            linked = after;
            distinct = apart.1;
            head_set = set;
            unlinked = unlinked;
            pending = λ m k. pending m (kept m k);
            awaited = λ j m k. ground (arith, awaited j m);
            read = λ j h nx' c k. ground (arith, read j h nx' c);
            loaded = λ j h c k. ground (arith, loaded j h c);
          }),
        )
    | inr z ↦ (
      items,
      rw z (elim (Bool-cases b) [
        | inl t ↦ rw t (record {
          replayed = replayed;
          linked = linked;
          distinct = distinct;
          head_set = head_set;
          unlinked = unlinked;
          pending = pending;
          awaited = λ j m k u. ground (arith, awaited j m);
          read = λ j h' nx c k. ground (arith, read j h' nx c);
          loaded = λ j h c k. ground (arith, loaded j h c);
        })
        | inr t ↦ rw t (gave_up-Inv i)
      ]),
    )
  ]

  take_all-Inv : Inv (pop_all s) []
  unfolding pop_all
  take_all-Inv = record {
    replayed =
        replay-cons 1 (popped_all (if s.head == 1 then 0 else s.head)) s.events items [] replayed (
          all_spec 1 (if s.head == 1 then 0 else s.head) items
            (null_top (link s) s.head items linked));
    linked = refl;
    distinct = tt;
    head_set = ground arith;
    unlinked = unlinked;
    pending = λ m k. absurd (ground arith);
    awaited = awaited;
    read = read;
    loaded = loaded;
  }

  node_init-Inv :
      (n : ℕ)
      → s.push n ≡ outside
      → holds cds_wfs_end n s.events ≡ false
      → ((i : ℕ) → holding (s.pop i) n ≡ false)
      → Inv (_cds_wfs_node_init n s) items
  node_init-Inv n out off unheld =
      let gone : has n items ≡ false = subst_holds 1 n s.events items replayed off in
      record {
        replayed = replayed;
        linked =
            Linked-agree 1 (link s) (link (_cds_wfs_node_init n s)) s.head items linked
              (λ x m. ground arith);
        distinct = distinct;
        head_set = head_set;
        unlinked = λ m o k. ground (arith, unlinked m o k);
        pending = λ m k z. ground (arith, pending m k);
        awaited = λ i m k z. ground (arith, awaited i m k, unheld i);
        read = λ i h nx b k. ground (arith, read i h nx b, unheld i);
        loaded = λ j h c k. ground (arith, loaded j h c);
      }

pub Step-Inv : {s t : Stack} {items : List ℕ} → Inv s items → Step s t → (new : List ℕ) × Inv t new
Step-Inv {items = l} inv (Step.node_init n out off unheld) = (l, node_init-Inv inv n out off unheld)
Step-Inv {items = l} inv (Step.start_push n nz ne unset out off unheld) =
    (n ∷ l, exchange-Inv inv n nz ne unset out off unheld)
Step-Inv {s} {items = l} inv (Step.push_step n) = (l, push_step-Inv inv n (s.push n) refl)
Step-Inv {items = l} inv (Step.start_pop i b e) = (
  l,
  record {
    replayed = inv.replayed;
    linked = inv.linked;
    distinct = inv.distinct;
    head_set = inv.head_set;
    unlinked = inv.unlinked;
    pending = inv.pending;
    awaited = λ j m k. ground (arith, inv.awaited j m);
    read = λ j h nx c k. ground (arith, inv.read j h nx c);
    loaded = λ j h c k. ground (arith, inv.loaded j h c);
  },
)
Step-Inv {s} inv (Step.pop_step i) = pop_step-Inv inv i (s.pop i) refl
Step-Inv inv Step.take_all = ([], take_all-Inv inv)

Inv-init : Inv ___cds_wfs_init []
unfolding replay
Inv-init = record {
  replayed = refl;
  linked = refl;
  distinct = tt;
  head_set = ground arith;
  unlinked = λ n old k. cc;
  pending = λ n k. absurd (ground arith);
  awaited = λ i n k. absurd (ground arith);
  read = λ i h nx b k. cc;
  loaded = λ i h b k. cc;
}

pub Reachable-Inv : {s : Stack} → Reachable s → (items : List ℕ) × Inv s items
Reachable-Inv fresh = ([], Inv-init)
Reachable-Inv (then_step r st) = let (items, inv) = Reachable-Inv r in Step-Inv inv st

-- Any number of threads push, pop, blocking or not, and pop all, in any interleaving: the calls
-- that have taken effect, in the order in which they did, are calls of a sequential stack, each
-- with what that stack returns (a nonblocking call may give up); and the chain from the head, where
-- a node whose push has not stored its link yet is followed by the head that its exchange has read,
-- is that stack's contents.
pub wait_free_refines :
    {s : Stack}
    → Reachable s
    → (items : List ℕ) × ((replay 1 s.events ≡ some items) × Linked 1 (link s) s.head items)
wait_free_refines r = let (items, inv) = Reachable-Inv r in (items, (inv.replayed, inv.linked))

-- A pop that reads a NULL link, where a blocking one spins and a nonblocking one returns
-- CDS_WFS_WOULDBLOCK, is held up by a push: the node that it has read at the head is between its
-- exchange and its store.
pub sync_next_waits :
    {s : Stack} {i head : ℕ} {blocking : Bool}
    → Reachable s
    → s.pop i ≡ sync_next blocking head
    → s.next head ≡ 0
    → (old_head : ℕ) × (s.push head ≡ linking old_head)
sync_next_waits {s} {i} {head} r e z =
    let (items, inv) = Reachable-Inv r in
    pushing (s.push head) (inv.awaited i head (ground arith) z)
  where
    pushing : (p : PushPc) → p ≢ outside → (old_head : ℕ) × (p ≡ linking old_head)
    pushing outside k = absurd (k refl)
    pushing (linking old) k = (old, refl)
