-- ===== src/Scq/Refine.antt =====
-- The accesses of `SCQueue` one by one: each keeps the invariant and is a move of the abstract queue.
use mpmc_queues.Base.{
  ℕ, ◌+◌, ◌<◌, ◌≡◌, ◌≢◌, refl, sym, ap, ◌∙◌, arith, Bool, true, false, none, List, ◌∷◌, count,
  tally, update, ℕ_discrete, eq→==, ne→==, if◌then◌else◌,
}
use mpmc_queues.Ring.Raw.{lfring_empty}
use mpmc_queues.Scq.Raw.{Rings}
use mpmc_queues.Scq.{
  Pc, enq_take, enq_shut, enq_write, deq_take, deq_read, enqueued, dequeued, step,
}
use mpmc_queues.Scq.System.{
  System, Place, free, filled, held, lost, stay, refuse, take_one, miss, putting, placed,
}
use mpmc_queues.Scq.Inv.{
  Inv, in_free, in_filled, Counted-same, Counted-remove, in_free_pos, in_filled_pos, in_free-le,
  in_filled-le,
}
use mpmc_queues.Scq.Steps.{Did, same, places}

-- The first element of a list occurs in it.
pub first_counted : (l l' : List ℕ) (e : ℕ) → l ≡ e ∷ l' → 0 < count e l
first_counted l l' e f =
    let split : count e l ≡ tally e e + count e l' = ap (count e) f in
    let one : tally e e ≡ 1 = rw (eq→== e e refl) refl in omega (arith, split, one)

pub in_free_some : (p : Place) → 0 < in_free p → p ≢ lost
in_free_some p h z = absurd (omega (arith, h, ap in_free z))

pub in_filled_some : (p : Place) → 0 < in_filled p → p ≢ lost
in_filled_some p h z = absurd (omega (arith, h, ap in_filled z))

pub held_ne : (i j : ℕ) → i ≢ j → held i ≢ held j
held_ne i j n z = n cc

module _ {R : Type 0} (rings : Rings R) (order : ℕ) where
  open rings use {
    lfring_enqueue, lfring_dequeue, lfring_close, lfring_is_closed, items, enqueue_ok,
    enqueue_refused, dequeue_empty, dequeue_index, close_items,
  }

  -- The access of thread `i` at `p`.
  abbrev pub moved : Bool → System R → ℕ → Pc → System R
  moved auto_close s i p =
      let (m, p') = step rings order auto_close s.mem p in
      record { mem = m; pc = update s.pc i p'; place = placed rings order i s.mem p s.place }

  module _ (s : System R) (inv : Inv rings order s) (i : ℕ) where
    open inv use {frees, fills, named, mine}

    pub Did-enq_take :
        (ac : Bool) (x : ℕ) → s.pc i ≡ enq_take x → Did rings order s (moved ac s i (enq_take x)) i
    unfolding step
    Did-enq_take ac x at =
        let r = lfring_dequeue order s.mem.fq in
        elim (ℕ_discrete r.1 lfring_empty) [
          | yes z ↦ rw (eq→== r.1 lfring_empty z) (
              let (was, now) = dequeue_empty order s.mem.fq z in
              elim ac
                as (λ (c : Bool).
                  Did rings order s
                    (record s {
                      mem = record s.mem { fq = r.0 };
                      pc = update s.pc i (if c then enq_shut else enqueued false);
                    })
                    i) [
                      | true ↦
                          same rings order s inv i (enq_take x) at s.mem.aq r.0 enq_shut refl
                            (now ∙ sym was) (λ e h. h) tt (refuse _ x)
                      | false ↦
                          same rings order s inv i (enq_take x) at s.mem.aq r.0 (enqueued false)
                            refl (now ∙ sym was) (λ e h. h) tt (refuse _ x)
                    ])
          | no n ↦ rw (ne→== r.1 lfring_empty n) (
              let first = dequeue_index order s.mem.fq n in
              let e = r.1 in
              let pos : 0 < in_free (s.place e) =
                omega (arith, first_counted _ _ e first, frees e) in
              let was : s.place e ≡ free = in_free_pos (s.place e) pos in
              places rings order s inv i (enq_take x) at s.mem.aq r.0 (enq_write x e) e (held i)
                (Counted-remove in_free s.place _ frees e (held i) (items r.0) first
                  (in_free-le (s.place e)) refl)
                (Counted-same in_filled s.place _ fills e (held i) (ap in_filled was))
                (λ _. named e (in_free_some (s.place e) pos))
                (λ j ne z. let bad : free ≡ held j = sym was ∙ z in cc) (λ u h. (h, refl)) tt
                (stay _ (putting x)))
        ]

    pub Did-deq_take : (ac : Bool) → s.pc i ≡ deq_take → Did rings order s (moved ac s i deq_take) i
    unfolding step
    Did-deq_take ac at =
        let r = lfring_dequeue order s.mem.aq in
        elim (ℕ_discrete r.1 lfring_empty) [
          | yes z ↦ rw (eq→== r.1 lfring_empty z) (
              let (was, now) = dequeue_empty order s.mem.aq z in
              same rings order s inv i deq_take at r.0 s.mem.fq (dequeued none) (now ∙ sym was) refl
                (λ e h. h) tt (rw was miss))
          | no n ↦ rw (ne→== r.1 lfring_empty n) (
              let first = dequeue_index order s.mem.aq n in
              let e = r.1 in
              let pos : 0 < in_filled (s.place e) =
                omega (arith, first_counted _ _ e first, fills e) in
              let was : s.place e ≡ filled = in_filled_pos (s.place e) pos in
              places rings order s inv i deq_take at r.0 s.mem.fq (deq_read e) e (held i)
                (Counted-same in_free s.place _ frees e (held i) (ap in_free was))
                (Counted-remove in_filled s.place _ fills e (held i) (items r.0) first
                  (in_filled-le (s.place e)) refl)
                (λ _. named e (in_filled_some (s.place e) pos))
                (λ j ne z. let bad : filled ≡ held j = sym was ∙ z in cc) (λ u h. (h, refl)) tt
                (rw first (take_one _ _)))
        ]
