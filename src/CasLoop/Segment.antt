-- ===== src/CasLoop/Segment.antt =====
-- A `LinkedCASLoop` between two calls, as a segment of a proxy: `put` and `get` are its `enqueue` and
-- `dequeue` without interference. In states whose tail is within two rings of `2 ^ 63`, where the closed
-- bit would be a ticket bit, `put` closes the segment instead.
use mpmc_queues.Base.{
  ℕ, ◌+◌, ◌%◌, ◌^◌, ◌<◌, ◌≡◌, ◌⊎◌, inl, inr, refl, ap, arith, Bool, true, false, ltb→lt, Bool-cases,
  if◌then◌else◌, Option, none, some, List, [], ◌∷◌, ◌++◌, length, ltb,
}
use mpmc_queues.CasLoop.{
  Ring, Shared, Cell, step, init_slots, blank, enq_tail, deq_head, enqueued, dequeued,
}
use mpmc_queues.CasLoop.Inv.{IsRing, init_cells_in}
use mpmc_queues.CasLoop.Words.{is_closed-high}
use mpmc_queues.CasLoop.Alone.Defs.{solo, Holds}
use mpmc_queues.CasLoop.Alone.Enqueue as Enqueue
use mpmc_queues.CasLoop.Alone.Dequeue as Dequeue
use mpmc_queues.CasLoop.Alone.Dequeue.{with_tail}

-- The memory without the closed bit, the closed bit, and the items.
pub record Segment (r : Ring) : Type 0 where
  pub open_mem : Shared
  pub shut : Bool
  pub queue : List ℕ
  pub holds : Holds r open_mem queue
  pub below : open_mem.tail + r.size + r.size < 2 ^ 63

abbrev pub IsCase : Bool → Type 0
IsCase b = (b ≡ true) ⊎ (b ≡ false)

-- An item, if there is one, before a list.
abbrev pub listed : Option ℕ → List ℕ → List ℕ
listed none q = q
listed (some x) q = x ∷ q

module _ {r : Ring} where
  -- What the atomics hold.
  abbrev pub memory : Segment r → Shared
  memory s = with_tail (if s.shut then s.open_mem.tail + 2 ^ 63 else s.open_mem.tail) s.open_mem

  pub head_below : (s : Segment r) → s.open_mem.head + r.size + r.size < 2 ^ 63
  head_below s = let c = s.holds.count in let b = s.below in omega (arith, c, b)

  abbrev pub close : Segment r → Segment r
  close s = record {
    open_mem = s.open_mem;
    shut = true;
    queue = s.queue;
    holds = s.holds;
    below = s.below;
  }

  abbrev pub has_room : Segment r → Bool
  has_room s = ltb (length s.queue) r.size

  abbrev pub has_tickets : Segment r → Bool
  has_tickets s = ltb (s.open_mem.tail + 1 + r.size + r.size) (2 ^ 63)

module _ (r : Ring) (ring : IsRing r) where
  abbrev pub put_open :
      (x : ℕ) (s : Segment r) → IsCase (has_room s) → IsCase (has_tickets s) → Segment r × Bool
  put_open x s (inl room) (inl left) = (
    record {
      open_mem = Enqueue.stored ring s.holds (head_below s) x;
      shut = false;
      queue = s.queue ++ (x ∷ []);
      holds =
          Enqueue.Holds-stored ring s.holds (head_below s) x (ltb→lt (length s.queue) r.size room);
      below = ltb→lt (s.open_mem.tail + 1 + r.size + r.size) (2 ^ 63) left;
    },
    true,
  )
  put_open x s (inl room) (inr over) = (close s, false)
  put_open x s (inr full) left = (close s, false)

  abbrev pub put_when : Bool → ℕ → Segment r → Segment r × Bool
  put_when true x s = (s, false)
  put_when false x s = put_open x s (Bool-cases (has_room s)) (Bool-cases (has_tickets s))

  unfoldable pub put : ℕ → Segment r → Segment r × Bool
  put x s = put_when s.shut x s

  abbrev pub get_from : (s : Segment r) (q : List ℕ) → s.queue ≡ q → Segment r × Option ℕ
  get_from s [] e = (s, none)
  get_from s (x ∷ q) e =
      let holds : Holds r s.open_mem (x ∷ q) = rw e at s.holds in
      (
        record {
          open_mem = Dequeue.released ring (head_below s) holds;
          shut = s.shut;
          queue = q;
          holds = Dequeue.Holds-released ring (head_below s) holds;
          below = s.below;
        },
        some x,
      )

  unfoldable pub get : Segment r → Segment r × Option ℕ
  get s = get_from s s.queue refl

  put_queue :
      (x : ℕ) (s : Segment r)
      → (put x s).0.queue ≡ (if (put x s).1 then s.queue ++ (x ∷ []) else s.queue)
  unfolding put
  put_queue x s = from s.shut
    where
      cases :
          (a : IsCase (has_room s)) (b : IsCase (has_tickets s))
          → (put_open x s a b).0.queue
            ≡ (if (put_open x s a b).1 then s.queue ++ (x ∷ []) else s.queue)
      cases (inl room) (inl left) = refl
      cases (inl room) (inr over) = refl
      cases (inr full) b = refl

      from :
          (b : Bool)
          → (put_when b x s).0.queue ≡ (if (put_when b x s).1 then s.queue ++ (x ∷ []) else s.queue)
      from true = refl
      from false = cases (Bool-cases (has_room s)) (Bool-cases (has_tickets s))

  get_queue : (s : Segment r) → s.queue ≡ listed (get s).1 (get s).0.queue
  unfolding get
  get_queue s = from s.queue refl
    where
      from :
          (q : List ℕ) (e : s.queue ≡ q)
          → s.queue ≡ listed (get_from s q e).1 (get_from s q e).0.queue
      from [] e = refl
      from (x ∷ q) e = e

  unfoldable pub fresh : r.size + r.size < 2 ^ 63 → Segment r
  unfolding init_slots
  fresh sized = record {
    open_mem = init_slots r 0;
    shut = false;
    queue = [];
    holds = record {
      count = refl;
      fits = omega arith;
      items = tt;
      vacant = λ t a b.
          ap (λ (c : Cell). c.seq)
            (init_cells_in r ring r.size 0 t blank (omega arith) (omega arith) (omega arith));
    };
    below = omega arith;
  }

  shut_run :
      (x : ℕ) (s : Segment r)
      → r.linked ≡ true
      → solo r 1 (with_tail (s.open_mem.tail + 2 ^ 63) s.open_mem) (enq_tail x)
        ≡ (with_tail (s.open_mem.tail + 2 ^ 63) s.open_mem, enqueued false)
  unfolding solo step
  shut_run x s linked =
      let b = s.below in
      rw (linked, is_closed-high (s.open_mem.tail + 2 ^ 63) (omega arith) (omega arith)) refl

  -- `put` is a run of `enqueue`.
  put_run :
      (x : ℕ) (s : Segment r)
      → r.linked ≡ true
      → s.open_mem.tail + 1 + r.size + r.size < 2 ^ 63
      → (n : ℕ) × (solo r n (memory s) (enq_tail x) ≡ (memory (put x s).0, enqueued (put x s).1))
  unfolding put solo head_below
  put_run x s linked left = by_shut s.shut refl
    where
      by_shut :
          (b : Bool)
          → s.shut ≡ b
          → (n : ℕ) × (solo r n (memory s) (enq_tail x)
              ≡ (memory (put_when b x s).0, enqueued (put_when b x s).1))
      by_shut true e = (1, rw e (shut_run x s linked))
      by_shut false e = rw e (by_room (Bool-cases (has_room s)) (Bool-cases (has_tickets s)))
        where
          by_room :
              (a : IsCase (has_room s)) (c : IsCase (has_tickets s))
              → (n : ℕ) × (solo r n s.open_mem (enq_tail x)
                  ≡ (memory (put_open x s a c).0, enqueued (put_open x s a c).1))
          by_room (inl room) (inl l) = (
            5,
            Enqueue.stores ring s.holds (head_below s) x (ltb→lt (length s.queue) r.size room),
          )
          by_room (inl room) (inr over) = absurd (ground arith)
          by_room (inr full) c =
              let f = s.holds.fits in
              (3, Enqueue.three ring s.holds (head_below s) x (ground arith) linked)

  -- `get` is a run of `dequeue`.
  get_run :
      (s : Segment r)
      → (n : ℕ) × (solo r n (memory s) deq_head ≡ (memory (get s).0, dequeued (get s).1))
  unfolding get
  get_run s = by_queue s.queue refl
    where
      by_queue :
          (q : List ℕ) (e : s.queue ≡ q)
          → (n : ℕ) × (solo r n (memory s) deq_head
              ≡ (memory (get_from s q e).0, dequeued (get_from s q e).1))
      by_queue [] e =
          let holds : Holds r s.open_mem [] = rw e at s.holds in
          (4, Dequeue.four ring (head_below s) holds _ (cleared_tail s.shut))
        where
          cleared_tail :
              (b : Bool)
              → (if b then s.open_mem.tail + 2 ^ 63 else s.open_mem.tail) % 2 ^ 63 ≡ s.open_mem.tail
          cleared_tail true = let b = s.below in omega arith
          cleared_tail false = let b = s.below in omega arith
      by_queue (x ∷ q) e =
          let holds : Holds r s.open_mem (x ∷ q) = rw e at s.holds in
          (5, Dequeue.five ring (head_below s) holds _)

  -- On a linked ring of at least two cells, open or closed, between two calls: while its tail is more
  -- than two rings below `2 ^ 63`, an `enqueue` that runs alone ends with the answer and the memory of
  -- `put`, and a `dequeue` that runs alone with those of `get`; `put` appends an accepted item and
  -- keeps the queue when it refuses one, and `get` takes the oldest item.
  pub segment_runs :
      (x : ℕ) (s : Segment r)
      → r.linked ≡ true
      → s.open_mem.tail + 1 + r.size + r.size < 2 ^ 63
      → ((n : ℕ) × (solo r n (memory s) (enq_tail x) ≡ (memory (put x s).0, enqueued (put x s).1)))
        × ((n : ℕ) × (solo r n (memory s) deq_head ≡ (memory (get s).0, dequeued (get s).1)))
        × ((put x s).0.queue ≡ (if (put x s).1 then s.queue ++ (x ∷ []) else s.queue))
        × (s.queue ≡ listed (get s).1 (get s).0.queue)
  segment_runs x s linked left = (put_run x s linked left, get_run s, put_queue x s, get_queue s)
