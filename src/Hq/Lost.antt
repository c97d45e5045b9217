-- ===== src/Hq/Lost.antt =====
-- A failed exchange of `LinkedHQ::enqueue` leaves `SEEN` in the local `empty`, and the next one then
-- writes into a cell that the dequeues have passed.
use mpmc_queues.Base.{
  ℕ, ◌+◌, ◌^◌, ◌<◌, ◌≡◌, refl, ◌∙◌, arith, true, false, none, update, update_self, update_ne,
}
use mpmc_queues.Hq.{Shared, Pc, enq_add, slow_head, enqueued, dequeued, empty, seen, step}
use mpmc_queues.Hq.Alone.{solo, impatience, passes, finds_none, gets_ticket, fits, misses}

-- One thread enqueues `x` and another dequeues on the slow path; the second runs out of patience
-- twice, each time before the first has filled the cell of its ticket.
abbrev pub race : (size : ℕ) → Shared → (x : ℕ) → Shared × Pc × Pc
race size m x =
    let a = step size false m (enq_add x empty) in
    let b = solo impatience size a.0 slow_head in
    let c = step size false b.0 a.1 in
    let d = step size false c.0 c.1 in
    let e = solo impatience size d.0 b.1 in
    let f = step size false e.0 d.1 in let g = solo 4 size f.0 e.1 in (g.0, f.1, g.1)

-- Every ticket so far was used up on both sides.
abbrev pub drained : (t : ℕ) → (cells : ℕ → ℕ) → (next : ℕ) → Shared
drained t cells next = record { tail = t; head = t; cells = cells; next = next }

module _ (size x t : ℕ) (cells : ℕ → ℕ) (next : ℕ) where
  -- A segment with nothing in it and two free cells left: the enqueue of that race returns true, the
  -- dequeue finds the segment empty, and the item stands in a cell behind `head`.
  pub accepted_is_lost :
      t + 1 < size
      → t + 2 < 2 ^ 64
      → cells t ≡ empty
      → cells (t + 1) ≡ empty
      → ((race size (drained t cells next) x).1 ≡ enqueued true)
        × ((race size (drained t cells next) x).2 ≡ dequeued none)
        × ((race size (drained t cells next) x).0.head ≡ t + 2)
        × ((race size (drained t cells next) x).0.cells (t + 1) ≡ x)
  accepted_is_lost lt small z z' =
      let m = drained t cells next in
      let a : Shared = record m { tail = t + 1 } in
      let b : Shared = record a { head = t + 1; cells = update cells t seen } in
      let d : Shared = record b { tail = t + 1 + 1 } in
      let e : Shared = record d { head = t + 1 + 1; cells = update b.cells (t + 1) seen } in
      let f : Shared = record e { cells = update e.cells (t + 1) x } in
      let marked : b.cells t ≡ seen = update_self cells t seen in
      let free : b.cells (t + 1) ≡ empty = update_ne cells t (t + 1) seen (omega arith) ∙ z' in
      let marked' : e.cells (t + 1) ≡ seen = update_self b.cells (t + 1) seen in
      let two : t + 1 + 1 ≡ t + 2 = omega arith in
      rw
        (
          gets_ticket size m x empty (omega arith) (omega arith),
          passes size t a refl (omega arith) (omega arith) (omega arith) z,
          misses size b x empty t (rw marked (omega arith)),
          marked,
          gets_ticket size b x seen lt (omega arith),
          passes size (t + 1) d refl lt (omega arith) (omega arith) free,
          fits size e x seen (t + 1) marked',
          finds_none size (t + 1 + 1) f refl refl,
        )
        (refl, refl, two, update_self e.cells (t + 1) x)
