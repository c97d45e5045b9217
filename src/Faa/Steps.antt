-- ===== src/Faa/Steps.antt =====
-- Every access of `LinkedFAAArray` keeps the invariant.
use mpmc_queues.Base.{
  ℕ, suc, ◌+◌, ◌^◌, ◌<◌, ◌≡◌, ◌≢◌, refl, sym, arith, true, false, ◌&&◌, ◌==◌, leb, ltb, Bool-cases,
  inl, inr, none, some, List, ◌∷◌, count, tally, update, update_ne, eq→==, ne→==, if◌then◌else◌,
}
use mpmc_queues.Faa.{
  Pc, idle, enq_add, enq_cas, deq_add, deq_look, deq_head, deq_wait, deq_swap, closing, enqueued,
  dequeued, closed, empty, seen, Call, enqueue, dequeue, close, call, step, reserved, max_patience,
}
use mpmc_queues.Faa.System.{System, Event, run, invoke, next, put_in, taken_out, resting}
use mpmc_queues.Faa.Counts.{count-listing-update}
use mpmc_queues.Faa.Inv.{
  HasTicket, IsProper, Inv, Inv-quiet, Inv-head, Inv-put, none_after, none_alone, other,
  IsProper-update,
}

module _ {size k : ℕ} (s : System) (inv : Inv size k s) (i : ℕ) where
  open inv use {counts, items, small, mine, alone, unseen, owned, proper}

  -- The exchange of `dequeue` empties the cell of its ticket for good.
  Inv-swap :
      (h : ℕ) (p' : Pc) (returned' : List ℕ)
      → HasTicket (s.pc i) h
      → ((u : ℕ) → HasTicket (s.pc i) u → h ≡ u)
      → ((u : ℕ) → HasTicket p' u → ⊥)
      → ((x : ℕ)
          → count x returned'
            ≡ count x s.returned + (if s.mem.cells h == empty then 0 else tally x (s.mem.cells h)))
      → IsProper size p'
      → Inv size (suc k) (record s {
        mem = record s.mem { cells = update s.mem.cells h seen };
        pc = update s.pc i p';
        returned = returned';
      })
  Inv-swap h p' returned' has only without' more good =
      let (lt, below, fresh) = mine i h has in
      let cells' = update s.mem.cells h seen in
      let kept : (u : ℕ) → h ≢ u → cells' u ≡ s.mem.cells u =
        λ u ne. update_ne s.mem.cells h u seen ne in
      record {
        counts = λ x lx.
            let one : tally x seen ≡ 0 = rw (ne→== x 1 (omega arith)) refl in
            let now = count-listing-update x s.mem.cells size h seen lt in
            elim (Bool-cases (s.mem.cells h == empty)) [
              | inl y ↦
                  let e : s.mem.cells h ≡ 0 = ground arith in
                  let z : tally x (s.mem.cells h) ≡ 0 = rw (e, ne→== x 0 (omega arith)) refl in
                  omega (arith, rw y at (more x), counts x lx, now, one, z)
              | inr n ↦ omega (arith, rw n at (more x), counts x lx, now, one)
            ];
        items = elim (Bool-cases (s.mem.cells h == empty)) [
          | inl y ↦
              (omega (arith, rw y at (more 0), items.0), omega (arith, rw y at (more 1), items.1))
          | inr n ↦
              let z : tally 0 (s.mem.cells h) ≡ 0 = ground arith in
              let o : tally 1 (s.mem.cells h) ≡ 0 =
                rw (ne→== 1 (s.mem.cells h) (λ e. fresh (sym e))) refl in
              (
                omega (arith, rw n at (more 0), items.0, z),
                omega (arith, rw n at (more 1), items.1, o),
              )
        ];
        small = omega arith;
        mine = λ j u w.
            let (n, w') = none_after s inv i p' without' j u w in
            let (lu, bu, ne) = mine j u w' in
            let differs : h ≢ u = λ e. alone i j h n has (rw e w') in
            (lu, bu, rw (kept u differs) ne);
        alone = none_alone s inv i p' without';
        unseen =
            λ u le lu. let differs : h ≢ u = omega arith in rw (kept u differs) (unseen u le lu);
        owned = λ u lu bu ne.
            let differs : h ≢ u = λ e. ne (rw (eq→== h u e) refl) in
            let (j, w) = owned u lu bu (rw (kept u differs) at ne) in
            let another : i ≢ j = λ e. differs (only u (rw e w)) in
            (j, other s inv i p' j u another w);
        proper = IsProper-update s inv i p' good;
      }

  -- The system after thread `i`, standing at `p`, has taken a step.
  abbrev moved : Pc → System
  moved p =
      let r = step size s.mem p in
      record {
        mem = r.0;
        pc = update s.pc i r.1;
        accepted = put_in p r.1 s.accepted;
        returned = taken_out p r.1 s.returned;
      }

  -- A step between two places without a ticket that touches `tail` at most.
  idles :
      (tail' : ℕ) (p p' : Pc)
      → s.pc i ≡ p
      → ((t : ℕ) → HasTicket p t → ⊥)
      → ((t : ℕ) → HasTicket p' t → ⊥)
      → IsProper size p'
      → Inv size (suc k) (record s { mem = record s.mem { tail = tail' }; pc = update s.pc i p' })
  idles tail' p p' e no_old no_new good =
      Inv-quiet s inv i tail' p' (λ t h. absurd (no_new t h)) (λ t h. absurd (no_old t (rw e at h)))
        good

  -- A step that keeps the ticket and touches nothing.
  holds :
      (p p' : Pc)
      → s.pc i ≡ p
      → ((t : ℕ) → HasTicket p' t → HasTicket p t)
      → ((t : ℕ) → HasTicket p t → HasTicket p' t)
      → IsProper size p'
      → Inv size (suc k) (record s { mem = s.mem; pc = update s.pc i p' })
  holds p p' e back forth good =
      Inv-quiet s inv i s.mem.tail p' (λ t h. rw e (back t h)) (λ t h. forth t (rw e at h)) good

  gone : (p : Pc) → s.pc i ≡ p → ((t : ℕ) → HasTicket p t → ⊥) → (t : ℕ) → HasTicket (s.pc i) t → ⊥
  gone p e no_old t h = no_old t (rw e at h)

  Inv-moved : suc k < 2 ^ 64 → (p : Pc) → s.pc i ≡ p → IsProper size p → Inv size (suc k) (moved p)
  unfolding step
  Inv-moved bound idle e good = idles s.mem.tail idle idle e (λ t h. h) (λ t h. h) tt
  Inv-moved bound (enq_add item) e good = elim (Bool-cases (leb size s.mem.tail)) [
    | inl full ↦ rw full (idles _ (enq_add item) (enqueued false) e (λ t h. h) (λ t h. h) tt)
    | inr room ↦ rw room (
        idles _ (enq_add item) (enq_cas item s.mem.tail) e (λ t h. h) (λ t h. h)
          (good, ground arith))
  ]
  Inv-moved bound (enq_cas item t) (e) (big, lt) = elim (Bool-cases (s.mem.cells t == empty)) [
    | inl vacant ↦ rw vacant (
        Inv-put s inv i item t (enqueued true) big lt (ground arith)
          (gone (enq_cas item t) e (λ u h. h)) (λ u h. h) tt)
    | inr taken ↦
        rw taken (idles s.mem.tail (enq_cas item t) (enq_add item) e (λ t h. h) (λ t h. h) big)
  ]
  Inv-moved bound deq_add e good = elim (Bool-cases (leb size s.mem.head)) [
    | inl over ↦ rw over (
        Inv-head s inv i (dequeued none) bound (gone deq_add e (λ t h. h)) (λ t h. absurd h)
          (λ lt. absurd (ground arith)) tt)
    | inr lt ↦ rw lt (
        Inv-head s inv i (deq_look s.mem.head) bound (gone deq_add e (λ t h. h))
          (λ t h. (sym h, ground arith)) (λ l. refl) tt)
  ]
  Inv-moved bound (deq_look h) e good = elim (Bool-cases (s.mem.cells h == empty)) [
    | inl y ↦ rw y (holds (deq_look h) (deq_head h) e (λ t w. w) (λ t w. w) tt)
    | inr n ↦ rw n (holds (deq_look h) (deq_swap h) e (λ t w. w) (λ t w. w) tt)
  ]
  Inv-moved bound (deq_head h) e good = elim (Bool-cases (ltb h s.mem.head)) [
    | inl y ↦ rw y (holds (deq_head h) (deq_wait h 0) e (λ t w. w) (λ t w. w) tt)
    | inr n ↦ rw n (holds (deq_head h) (deq_swap h) e (λ t w. w) (λ t w. w) tt)
  ]
  Inv-moved bound (deq_wait h n) e good =
      elim (Bool-cases (s.mem.cells h == empty && ltb (n + 1) max_patience)) [
        | inl y ↦ rw y (holds (deq_wait h n) (deq_wait h (n + 1)) e (λ t w. w) (λ t w. w) tt)
        | inr d ↦ rw d (holds (deq_wait h n) (deq_swap h) e (λ t w. w) (λ t w. w) tt)
      ]
  Inv-moved bound (deq_swap h) e good =
      let has : HasTicket (s.pc i) h = rw e refl in
      let only : (u : ℕ) → HasTicket (s.pc i) u → h ≡ u = λ u w. (rw e at w) in
      let (lt, below, fresh) = mine i h has in
      elim (Bool-cases (s.mem.cells h == empty)) [
        | inl y ↦
            rw y (Inv-swap h deq_add s.returned has only (λ u w. w) (λ x. rw y (omega arith)) tt)
        | inr n ↦ rw n (
            Inv-swap h (dequeued (some (s.mem.cells h))) (s.mem.cells h ∷ s.returned) has only
              (λ u w. w) (λ x. rw n (omega arith)) (ground arith))
      ]
  Inv-moved bound closing e good = idles _ closing closed e (λ t h. h) (λ t h. h) tt
  Inv-moved bound (enqueued b) e good =
      idles s.mem.tail (enqueued b) (enqueued b) e (λ t h. h) (λ t h. h) tt
  Inv-moved bound (dequeued v) e good =
      idles s.mem.tail (dequeued v) (dequeued v) e (λ t h. h) (λ t h. h) good
  Inv-moved bound closed e good = idles s.mem.tail closed closed e (λ t h. h) (λ t h. h) tt

module _ {size k : ℕ} (s : System) (inv : Inv size k s) where
  called :
      (i : ℕ) (p' : Pc)
      → resting (s.pc i) ≡ true
      → ((t : ℕ) → HasTicket p' t → ⊥)
      → IsProper size p'
      → Inv size (suc k) (record s { pc = update s.pc i p' })
  called i p' r no_new good =
      Inv-quiet s inv i s.mem.tail p' (λ t h. absurd (no_new t h))
        (λ t h. absurd (rests (s.pc i) r t h)) good
    where
      rests : (p : Pc) → resting p ≡ true → (t : ℕ) → HasTicket p t → ⊥
      rests (deq_look h) r t w = cc
      rests (deq_head h) r t w = cc
      rests (deq_wait h n) r t w = cc
      rests (deq_swap h) r t w = cc
      rests _ r t w = w

  later : Inv size (suc k) s
  later = record {
    counts = inv.counts;
    items = inv.items;
    small = let le = inv.small in omega arith;
    mine = inv.mine;
    alone = inv.alone;
    unseen = inv.unseen;
    owned = inv.owned;
    proper = inv.proper;
  }

  asks :
      (i : ℕ) (c : Call)
      → resting (s.pc i) ≡ true
      → Inv size (suc k) (record s { pc = update s.pc i (call c) })
  unfolding call reserved
  asks i (enqueue item) r = elim (Bool-cases (leb item 1)) [
    | inl y ↦ rw y (called i idle r (λ t h. h) tt)
    | inr n ↦ rw n (called i (enq_add item) r (λ t h. h) (ground arith))
  ]
  asks i dequeue r = called i deq_add r (λ t h. h) tt
  asks i close r = called i closing r (λ t h. h) tt

  pub Inv-next : suc k < 2 ^ 64 → (e : Event) → Inv size (suc k) (next size e s)
  unfolding next
  Inv-next bound (run i) = Inv-moved s inv i bound (s.pc i) refl (inv.proper i)
  Inv-next bound (invoke i c) = elim (Bool-cases (resting (s.pc i))) [
    | inl y ↦ rw y (asks i c y)
    | inr n ↦ rw n later
  ]
