-- ===== src/Stacks/LockFree/Invariant.antt =====
-- include/urcu/static/lfstack.h: the list from the head, and the abstract stack.
use mathlib.Core.Path.{subst}
use liburcu.Prelude.{
  ℕ, ◌≡◌, ◌≢◌, refl, sym, ap, ◌∙◌, Bool-cases, true, false, not, inl, inr, some, List, [], ◌∷◌,
  ◌==◌, has, Distinct, update, arith,
}
use liburcu.Stacks.Spec.{pushed, popped, popped_null, popped_all, replay, replay-cons}
use liburcu.Stacks.Chain.{
  Linked, Linked-agree, Linked-empty, empty_items, head_has, split_head, push_spec, null_spec,
  pop_spec, all_spec, subst_holds,
}
use liburcu.Stacks.LockFree.{
  Stack, PushPc, PopPc, outside, storing, swapping, ready, load_head, load_next, swap_head, push_at,
  pop_at, pop_all, holding, Step, ___cds_lfs_init, Reachable, fresh, then_step,
}

pub record Inv (s : Stack) (items : List ℕ) : Type 0 where
  pub replayed : replay 0 s.events ≡ some items
  pub linked : Linked 0 s.next s.head items
  pub distinct : Distinct items
  pub away : (n : ℕ) → s.push n ≢ outside → (n ≢ 0) × (has n items ≡ false)
  pub unread : (n i : ℕ) → s.push n ≢ outside → holding (s.pop i) n ≡ false
  pub stored : (n old : ℕ) → s.push n ≡ swapping old → s.next n ≡ old
  pub loaded : (i h : ℕ) → s.pop i ≡ load_next h → h ≢ 0
  pub kept : (i h nx : ℕ) → s.pop i ≡ swap_head h nx → h ≢ 0
  pub read : (i h nx : ℕ) → s.pop i ≡ swap_head h nx → has h items ≡ true → s.next h ≡ nx

module _ {s : Stack} {items : List ℕ} (inv : Inv s items) where
  open inv use {replayed, linked, distinct, away, unread, stored, loaded, kept, read}

  push_step-Inv : (n : ℕ) (p : PushPc) → s.push n ≡ p → (new : List ℕ) × Inv (push_at n p s) new
  unfolding push_at
  push_step-Inv n outside e = (items, inv)
  push_step-Inv n (storing head) e =
      let busy : s.push n ≢ outside = λ k. ground arith in
      let off = (away n busy).1 in
      (
        items,
        record {
          replayed = replayed;
          linked =
              Linked-agree 0 s.next (update s.next n head) s.head items linked
                (λ x m. ground arith);
          distinct = distinct;
          away = λ m k. ground (arith, away m);
          unread = λ m i k. ground (arith, unread m i);
          stored = λ m old k. ground (arith, stored m old);
          loaded = loaded;
          kept = λ j h nx k. ground (arith, kept j h nx, loaded j h);
          read = λ i h nx k. ground (arith, read i h nx, unread n i busy);
        },
      )
  push_step-Inv n (swapping old) e = elim (Bool-cases (s.head == old)) [
    | inl z ↦
        let busy : s.push n ≢ outside = λ k. ground arith in
        let (nz, off) = away n busy in
        let (emptiness, top) = Linked-empty 0 s.next s.head items linked in
        let next_is : s.next n ≡ s.head = ground (arith, stored n old) in
        (
          n ∷ items,
          rw z (record {
            replayed =
                replay-cons 0 (pushed n (not (s.head == 0))) s.events items (n ∷ items) replayed
                  (push_spec 0 n (s.head == 0) items emptiness);
            linked = (refl, (nz, rw next_is linked));
            distinct = (off, distinct);
            away = λ m k. ground (arith, away m);
            unread = λ m i k. ground (arith, unread m i);
            stored = λ m old' k. ground (arith, stored m old');
            loaded = loaded;
            kept = kept;
            read = λ i h nx k m. ground (arith, read i h nx k, unread n i busy);
          }),
        )
    | inr z ↦
        let busy : s.push n ≢ outside = λ k. ground arith in
        (
          items,
          rw z (record {
            replayed = replayed;
            linked = linked;
            distinct = distinct;
            away = λ m k. ground (arith, away m, away n busy);
            unread = λ m i k. ground (arith, unread m i, unread n i busy);
            stored = λ m old' k. ground (arith, stored m old');
            loaded = loaded;
            kept = kept;
            read = read;
          }),
        )
  ]

  pop_step-Inv : (i : ℕ) (p : PopPc) → s.pop i ≡ p → (new : List ℕ) × Inv (pop_at i p s) new
  unfolding pop_at
  pop_step-Inv i ready e = (items, inv)
  pop_step-Inv i load_head e = elim (Bool-cases (s.head == 0)) [
    | inl z ↦
        let none : items ≡ [] = empty_items 0 s.next s.head items linked z in
        (
          [],
          rw z (record {
            replayed = replay-cons 0 popped_null s.events items [] replayed (rw none (null_spec 0));
            linked = ground arith;
            distinct = tt;
            away = λ m k. ((away m k).0, refl);
            unread = λ m j k. ground (arith, unread m j k);
            stored = stored;
            loaded = λ j h k. ground (arith, loaded j h);
            kept = λ j h nx k. ground (arith, kept j h nx, loaded j h);
            read = λ j h nx k. ground (arith, read j h nx);
          }),
        )
    | inr z ↦
        let here : has s.head items ≡ true = head_has 0 s.next s.head items linked z in
        (
          items,
          rw z (record {
            replayed = replayed;
            linked = linked;
            distinct = distinct;
            away = away;
            unread = λ m j k. ground (arith, unread m j k, away m k);
            stored = stored;
            loaded = λ j h k. ground (arith, loaded j h);
            kept = λ j h nx k. ground (arith, kept j h nx, loaded j h);
            read = λ j h nx k. ground (arith, read j h nx);
          }),
        )
  ]
  pop_step-Inv i (load_next head) e = (
    items,
    record {
      replayed = replayed;
      linked = linked;
      distinct = distinct;
      away = away;
      unread = λ m j k. ground (arith, unread m j k, unread m i k);
      stored = stored;
      loaded = λ j h k. ground (arith, loaded j h);
      kept = λ j h nx k. ground (arith, kept j h nx, loaded j h);
      read = λ j h nx k. ground (arith, read j h nx, loaded i head);
    },
  )
  pop_step-Inv i (swap_head head nx) e = elim (Bool-cases (s.head == head)) [
    | inl z ↦
        let nz = kept i head nx e in
        let same : s.head ≡ head = ground arith in
        let (rest, (split, more)) =
          split_head 0 s.next s.head items linked (λ k. nz (sym same ∙ k)) in
        let here : has head items ≡ true =
          subst (λ (l : List ℕ). has head l ≡ true) (sym split) (ground arith) in
        let next_is : s.next head ≡ nx = read i head nx e here in
        let stays : (m : ℕ) → has m rest ≡ true → has m items ≡ true =
          λ m k. subst (λ (l : List ℕ). has m l ≡ true) (sym split) (ground arith) in
        let after : Linked 0 s.next nx rest =
          subst (λ (a : ℕ). Linked 0 s.next a rest) (ap s.next same ∙ next_is) more in
        let (emptiness, top) = Linked-empty 0 s.next nx rest after in
        let apart = subst Distinct split distinct in
        let gone : (m : ℕ) → has m items ≡ false → has m rest ≡ false = λ m k.
          let off : has m (s.head ∷ rest) ≡ false =
            subst (λ (l : List ℕ). has m l ≡ false) split k in
          ground arith in
        (
          rest,
          rw z (record {
            replayed =
                replay-cons 0 (popped head (nx == 0)) s.events items rest replayed
                  (rw split (pop_spec 0 s.head head (nx == 0) rest same emptiness));
            linked = after;
            distinct = apart.1;
            away = λ m k. ((away m k).0, gone m ((away m k).1));
            unread = λ m j k. ground (arith, unread m j k);
            stored = stored;
            loaded = λ j h k. ground (arith, loaded j h);
            kept = λ j h nx k. ground (arith, kept j h nx, loaded j h);
            read = λ j h nx' k m. ground (arith, read j h nx', stays h m);
          }),
        )
    | inr z ↦ (
      items,
      rw z (record {
        replayed = replayed;
        linked = linked;
        distinct = distinct;
        away = away;
        unread = λ m j k. ground (arith, unread m j k);
        stored = stored;
        loaded = λ j h k. ground (arith, loaded j h);
        kept = λ j h nx k. ground (arith, kept j h nx, loaded j h);
        read = λ j h nx' k. ground (arith, read j h nx');
      }),
    )
  ]

  take_all-Inv : Inv (pop_all s) []
  take_all-Inv =
      let (emptiness, top) = Linked-empty 0 s.next s.head items linked in
      record {
        replayed =
            replay-cons 0 (popped_all s.head) s.events items [] replayed
              (all_spec 0 s.head items top);
        linked = refl;
        distinct = tt;
        away = λ m k. ((away m k).0, refl);
        unread = unread;
        stored = stored;
        loaded = loaded;
        kept = kept;
        read = λ i h nx k m. absurd (ground arith);
      }

pub Step-Inv : {s t : Stack} {items : List ℕ} → Inv s items → Step s t → (new : List ℕ) × Inv t new
Step-Inv {s} {items = l} inv (Step.start_push n nz out off unheld) =
    let gone : has n l ≡ false = subst_holds 0 n s.events l inv.replayed off in
    (
      l,
      record {
        replayed = inv.replayed;
        linked = inv.linked;
        distinct = inv.distinct;
        away = λ m k. ground (arith, inv.away m);
        unread = λ m i k. ground (arith, inv.unread m i, unheld i);
        stored = λ m old k. ground (arith, inv.stored m old);
        loaded = inv.loaded;
        kept = inv.kept;
        read = inv.read;
      },
    )
Step-Inv {s} {items = l} inv (Step.overwrite n value out off) =
    let gone : has n l ≡ false = subst_holds 0 n s.events l inv.replayed off in
    (
      l,
      record {
        replayed = inv.replayed;
        linked =
            Linked-agree 0 s.next (update s.next n value) s.head l inv.linked (λ x m. ground arith);
        distinct = inv.distinct;
        away = inv.away;
        unread = inv.unread;
        stored = λ m old k. ground (arith, inv.stored m old);
        loaded = inv.loaded;
        kept = λ j h nx k. ground (arith, inv.kept j h nx, inv.loaded j h);
        read = λ i h nx k m. ground (arith, inv.read i h nx k);
      },
    )
Step-Inv {s} inv (Step.push_step n) = push_step-Inv inv n (s.push n) refl
Step-Inv {items = l} inv (Step.start_pop i e) = (
  l,
  record {
    replayed = inv.replayed;
    linked = inv.linked;
    distinct = inv.distinct;
    away = inv.away;
    unread = λ m j k. ground (arith, inv.unread m j k);
    stored = inv.stored;
    loaded = λ j h k. ground (arith, inv.loaded j h);
    kept = λ j h nx k. ground (arith, inv.kept j h nx, inv.loaded j h);
    read = λ j h nx k. ground (arith, inv.read j h nx);
  },
)
Step-Inv {s} inv (Step.pop_step i) = pop_step-Inv inv i (s.pop i) refl
Step-Inv inv Step.take_all = ([], take_all-Inv inv)

Inv-init : Inv ___cds_lfs_init []
unfolding replay
Inv-init = record {
  replayed = refl;
  linked = refl;
  distinct = tt;
  away = λ n k. absurd (k refl);
  unread = λ n i k. absurd (k refl);
  stored = λ n old k. cc;
  loaded = λ i h k. cc;
  kept = λ i h nx k. cc;
  read = λ i h nx k m. cc;
}

pub Reachable-Inv : {s : Stack} → Reachable s → (items : List ℕ) × Inv s items
Reachable-Inv fresh = ([], Inv-init)
Reachable-Inv (then_step r st) = let (items, inv) = Reachable-Inv r in Step-Inv inv st

-- Any number of threads push, pop and pop all, in any interleaving: the calls that have taken
-- effect, in the order in which they did, are calls of a sequential stack, each with what that
-- stack returns; and the list from the head is its contents.
pub lock_free_refines :
    {s : Stack}
    → Reachable s
    → (items : List ℕ) × ((replay 0 s.events ≡ some items) × Linked 0 s.next s.head items)
lock_free_refines r = let (items, inv) = Reachable-Inv r in (items, (inv.replayed, inv.linked))
