-- ===== src/Hq/Steps.antt =====
-- Every access of `LinkedHQ` keeps the invariant.
use mpmc_queues.Base.{
  ℕ, suc, ◌+◌, ◌^◌, ◌≤◌, ◌<◌, ◌≡◌, refl, sym, arith, true, false, not, ◌&&◌, ◌==◌, leb, ltb, Bool,
  Bool-cases, inl, inr, none, some, ◌∷◌, tally, update, ne→==, if◌then◌else◌,
}
use mpmc_queues.Hq.{
  Pc, idle, enq_add, enq_cas, deq_next, fast_add, fast_wait, fast_swap, slow_head, slow_item,
  slow_tail, slow_again, slow_skip, slow_wait, slow_swap, slow_help, closing, enqueued, dequeued,
  closed, empty, seen, Call, enqueue, dequeue, close, call, step, reserved, max_patience, help_head,
  slow_result, add64,
}
use mpmc_queues.Hq.System.{System, Event, run, invoke, link, next, put_in, taken_out, resting}
use mpmc_queues.Hq.Inv.{HasTicket, IsProper, Inv, Inv-quiet, Inv-swap, Inv-put, Inv-tail}

module _ {size w : ℕ} (s : System) (inv : Inv size w s) (i : ℕ) where
  open inv use {counts, items, mine}

  abbrev moved : (weak : Bool) → Pc → System
  moved weak p =
      let r = step size weak s.mem p in
      record {
        mem = r.0;
        pc = update s.pc i r.1;
        accepted = put_in p r.1 s.accepted;
        taken = taken_out s.mem p s.taken;
      }

  -- A load: the thread moves on and nothing else changes.
  looks :
      (p' : Pc)
      → ((t : ℕ) → HasTicket p' t → ⊥)
      → IsProper size p'
      → Inv size (w + suc size) (record s { pc = update s.pc i p' })
  looks p' without good = Inv-quiet s inv i s.mem.head s.mem.next p' (suc size) without good

  adds :
      (by : ℕ) (p' : Pc)
      → by ≤ suc size
      → w + suc size < 2 ^ 64
      → ((t : ℕ) → HasTicket p' t → (t ≡ s.mem.tail) × (t < size) × (1 ≤ by))
      → IsProper size p'
      → Inv size
          (w + suc size)
          (record s { mem = record s.mem { tail = add64 s.mem.tail by }; pc = update s.pc i p' })
  adds by p' le bound gets good = Inv-tail s inv i p' by (suc size) le bound gets good

  -- The help for `head`.
  helps :
      (weak : Bool) (h : ℕ) (p' : Pc)
      → ((t : ℕ) → HasTicket p' t → ⊥)
      → IsProper size p'
      → Inv size (w + suc size) (record s { mem = help_head weak s.mem h; pc = update s.pc i p' })
  unfolding help_head
  helps weak h p' without good = elim (Bool-cases (not weak && s.mem.head == h)) [
    | inl y ↦ rw y (Inv-quiet s inv i (add64 h 1) s.mem.next p' (suc size) without good)
    | inr n ↦ rw n (looks p' without good)
  ]

  -- The exchange that takes what stands in cell `h`.
  swaps :
      (h : ℕ) (p_none p_some : Pc)
      → h < size
      → ((t : ℕ) → HasTicket p_none t → ⊥)
      → ((t : ℕ) → HasTicket p_some t → ⊥)
      → IsProper size p_none
      → (1 < s.mem.cells h → IsProper size p_some)
      → Inv size (w + suc size) (record s {
        mem = record s.mem { cells = update s.mem.cells h seen };
        pc = update s.pc i (if leb (s.mem.cells h) 1 then p_none else p_some);
        taken = if leb (s.mem.cells h) 1 then s.taken else s.mem.cells h ∷ s.taken;
      })
  swaps h p_none p_some lt no_none no_some good_none good_some =
      elim (Bool-cases (leb (s.mem.cells h) 1)) [
        | inl y ↦
            let z : s.mem.cells h ≤ 1 = ground arith in
            rw y (
              Inv-swap s inv i h p_none s.taken (suc size) lt no_none
                (λ x lx.
                  let n : tally x (s.mem.cells h) ≡ 0 =
                    rw (ne→== x (s.mem.cells h) (omega arith)) refl in
                  omega arith)
                items good_none)
        | inr y ↦
            let z : 1 < s.mem.cells h = ground arith in
            let o : tally 0 (s.mem.cells h) ≡ 0 = rw (ne→== 0 (s.mem.cells h) (omega arith)) refl in
            let l : tally 1 (s.mem.cells h) ≡ 0 = rw (ne→== 1 (s.mem.cells h) (omega arith)) refl in
            rw y (
              Inv-swap s inv i h p_some (s.mem.cells h ∷ s.taken) (suc size) lt no_some
                (λ x lx. omega arith) (omega (arith, items.0), omega (arith, items.1))
                (good_some z))
      ]

  Inv-moved :
      (weak : Bool)
      → w + suc size < 2 ^ 64
      → (p : Pc) → s.pc i ≡ p
      → IsProper size p
      → Inv size (w + suc size) (moved weak p)
  unfolding step reserved slow_result
  Inv-moved weak bound idle e good = looks idle (λ t h. h) tt
  Inv-moved weak bound (enq_add item expected) e (big, low) =
      elim (Bool-cases (leb size s.mem.tail)) [
        | inl full ↦ rw full (adds 1 (enqueued false) (omega arith) bound (λ t h. absurd h) tt)
        | inr room ↦ rw room (
            adds 1 (enq_cas item expected s.mem.tail) (omega arith) bound
              (λ t h. (sym h, ground arith, omega arith)) (big, low, ground arith))
      ]
  Inv-moved weak bound (enq_cas item expected t) e (big, low, lt) =
      let has : HasTicket (s.pc i) t = rw e refl in
      elim (Bool-cases (s.mem.cells t == expected)) [
        | inl fits ↦
            rw fits (Inv-put s inv i item t (enqueued true) (suc size) big lt has (λ u h. h) tt)
        | inr taken ↦
            rw taken (looks (enq_add item (s.mem.cells t)) (λ u h. h) (big, (mine i t has).1))
      ]
  Inv-moved weak bound deq_next e good = elim (Bool-cases (s.mem.next == 0)) [
    | inl y ↦ rw y (looks slow_head (λ t h. h) tt)
    | inr y ↦ rw y (looks fast_add (λ t h. h) tt)
  ]
  Inv-moved weak bound fast_add e good = elim (Bool-cases (leb size s.mem.head)) [
    | inl y ↦ rw y (Inv-quiet s inv i _ _ (dequeued none) (suc size) (λ t h. h) tt)
    | inr y ↦
        rw y (Inv-quiet s inv i _ _ (fast_wait s.mem.head 0) (suc size) (λ t h. h) (ground arith))
  ]
  Inv-moved weak bound (fast_wait h n) e good =
      elim (Bool-cases (ltb n max_patience && s.mem.cells h == empty)) [
        | inl y ↦ rw y (looks (fast_wait h (n + 1)) (λ t h. h) good)
        | inr y ↦ rw y (looks (fast_swap h) (λ t h. h) good)
      ]
  Inv-moved weak bound (fast_swap h) e good =
      swaps h fast_add (dequeued (some (s.mem.cells h))) good (λ t h. h) (λ t h. h) tt (λ z. z)
  Inv-moved weak bound slow_head e good = elim (Bool-cases (leb size s.mem.head)) [
    | inl y ↦ rw y (looks (dequeued none) (λ t h. h) tt)
    | inr y ↦ rw y (looks (slow_item s.mem.head) (λ t h. h) (ground arith))
  ]
  Inv-moved weak bound (slow_item h) e good = looks (slow_tail h (s.mem.cells h)) (λ t h. h) good
  Inv-moved weak bound (slow_tail h item) e good =
      looks (slow_again h item s.mem.tail) (λ t h. h) good
  Inv-moved weak bound (slow_again h item t) e good = elim (Bool-cases (h == s.mem.head)) [
    | inr y ↦ rw y (looks slow_head (λ t h. h) tt)
    | inl y ↦ elim (Bool-cases (h == t)) [
      | inl z ↦ rw (y, z) (looks (dequeued none) (λ t h. h) tt)
      | inr z ↦ elim (Bool-cases (item == seen)) [
        | inl u ↦ rw (y, z, u) (looks (slow_skip h) (λ t h. h) good)
        | inr u ↦ elim (Bool-cases (item == empty)) [
          | inl v ↦ rw (y, z, u, v) (looks (slow_wait h 0) (λ t h. h) good)
          | inr v ↦ rw (y, z, u, v) (looks (slow_swap h) (λ t h. h) good)
        ]
      ]
    ]
  ]
  Inv-moved weak bound (slow_skip h) e good = helps weak h slow_head (λ t h. h) tt
  Inv-moved weak bound (slow_wait h n) e good = elim (Bool-cases (ltb n max_patience)) [
    | inr y ↦ rw y (looks (slow_swap h) (λ t h. h) good)
    | inl y ↦ elim (Bool-cases (s.mem.cells h == seen)) [
      | inl z ↦ rw (y, z) (looks (slow_skip h) (λ t h. h) good)
      | inr z ↦ elim (Bool-cases (s.mem.cells h == empty)) [
        | inl u ↦ rw (y, z, u) (looks (slow_wait h (n + 1)) (λ t h. h) good)
        | inr u ↦ rw (y, z, u) (looks (slow_swap h) (λ t h. h) good)
      ]
    ]
  ]
  Inv-moved weak bound (slow_swap h) e good = elim (Bool-cases (leb (s.mem.cells h) 1)) [
    | inl y ↦ rw y (
        rw y at (
          swaps h (slow_help h (s.mem.cells h)) (slow_help h (s.mem.cells h)) good (λ t h. h)
            (λ t h. h) tt (λ z. tt)))
    | inr y ↦ rw y (
        rw y at (
          swaps h (slow_help h (s.mem.cells h)) (slow_help h (s.mem.cells h)) good (λ t h. h)
            (λ t h. h) tt (λ z. tt)))
  ]
  Inv-moved weak bound (slow_help h item) e good = elim (Bool-cases (leb item 1)) [
    | inl y ↦ rw y (helps weak h slow_head (λ t h. h) tt)
    | inr y ↦ rw y (helps weak h (dequeued (some item)) (λ t h. h) (ground arith))
  ]
  Inv-moved weak bound closing e good = adds size closed (omega arith) bound (λ t h. absurd h) tt
  Inv-moved weak bound (enqueued b) e good = looks (enqueued b) (λ t h. h) tt
  Inv-moved weak bound (dequeued v) e good = looks (dequeued v) (λ t h. absurd h) good
  Inv-moved weak bound closed e good = looks closed (λ t h. h) tt

  asks : (c : Call) → Inv size (w + suc size) (record s { pc = update s.pc i (call c) })
  unfolding call reserved
  asks (enqueue item) = elim (Bool-cases (leb item 1)) [
    | inl y ↦ rw y (looks idle (λ t h. h) tt)
    | inr n ↦ rw n (looks (enq_add item empty) (λ t h. h) (ground arith, omega arith))
  ]
  asks dequeue = looks deq_next (λ t h. h) tt
  asks close = looks closing (λ t h. h) tt

  later : (next' : ℕ) → Inv size (w + suc size) (record s { mem = record s.mem { next = next' } })
  later next' = record {
    counts = counts;
    items = items;
    small = let le = inv.small in omega arith;
    mine = mine;
    alone = inv.alone;
    fresh = inv.fresh;
    proper = inv.proper;
  }

pub Inv-next :
    {size w : ℕ} (s : System)
    → Inv size w s
    → w + suc size < 2 ^ 64
    → (e : Event) → Inv size (w + suc size) (next size e s)
unfolding next
Inv-next s inv bound (run i weak) = Inv-moved s inv i weak bound (s.pc i) refl (inv.proper i)
Inv-next s inv bound (invoke i c) = elim (Bool-cases (resting (s.pc i))) [
  | inl y ↦ rw y (asks s inv i c)
  | inr n ↦ rw n (later s inv i s.mem.next)
]
Inv-next s inv bound (link n) = later s inv 0 n
