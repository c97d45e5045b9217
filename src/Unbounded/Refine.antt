-- ===== src/Unbounded/Refine.antt =====
-- `UnboundedProxy` refines the abstract queue, access by access.
use mpmc_queues.Base.{
  ℕ, ◌+◌, ◌≤◌, ◌≡◌, ◌≢◌, refl, arith, Bool, true, false, [], Option, none, some, Bool-cases, inl,
  inr, eq→==, ◌==◌, if◌then◌else◌,
}
use mpmc_queues.Unbounded.{
  Pc, idle, enq_start, enq_check, enq_next, enq_help, enq_put, enq_link, enq_swing, deq_start,
  deq_check, deq_take, deq_next, deq_prepare, deq_again, deq_swing, enqueued, dequeued, Shared,
  step,
}
use mpmc_queues.Unbounded.Segment.{SegmentOps}
use mpmc_queues.Unbounded.Spec.{contents, Move, stay, see_empty, forget, miss, taking, saw_empty}
use mpmc_queues.Unbounded.System.{note}
use mpmc_queues.Unbounded.Inv.{Chain, IsGood}
use mpmc_queues.Unbounded.Links.{Chain-head, Later-head, contents-head_moved}
use mpmc_queues.Unbounded.Steps.{Stepped, looks}
use mpmc_queues.Unbounded.Accesses.{
  prepares, got_item, got_none, put_item, put_none, null-last, next-one, link_new, tail_to,
  none_left, taken,
}

module _ {S : Type 0} (seg : SegmentOps S) {m : Shared S} (c : Chain seg m) where
  open seg use {
    fresh, put, get, items, IsClosed, put_refused, refused_closed, get_none, get_none_left,
    get_closed,
  }
  open c use {head_pos, head_in, tail_pos, tail_in, links, last, gone}

  -- The access from `p` keeps the invariant and is a move of the abstract queue.
  abbrev pub IsRefined : (saw : Bool) → Pc → Type 0
  IsRefined saw p = Stepped seg m saw p (step seg m p).0 (note seg m p saw) (step seg m p).1

  pub take_step : (saw : Bool) (h : ℕ) → 1 ≤ h → h ≤ m.head → IsRefined saw (deq_take h)
  unfolding step
  take_step saw h a b = from (get (m.segs h)).1 refl
    where
      from :
          (o : Option ℕ)
          → (get (m.segs h)).1 ≡ o
          → Stepped seg m saw
              (deq_take h)
              (taken seg c h)
              (m.next h == 0)
              (elim o [ none ↦ deq_next h | some x ↦ dequeued (some x) ])
      from (some x) got = got_item seg c saw (m.next h == 0) (deq_take h) h x refl a b got
      from none got = elim (Bool-cases (m.next h == 0)) [
        | inl y ↦
            let z : m.next h ≡ 0 = ground arith in
            got_none seg c saw (m.next h == 0) (deq_take h) (deq_next h) h got (a, b, λ w. y)
              (rw (y, none_left seg c h a b z got) see_empty)
        | inr y ↦
            got_none seg c saw (m.next h == 0) (deq_take h) (deq_next h) h got
              (a, b, λ w. let v : m.next h ≢ 0 = ground arith in absurd (v w))
              (rw y (stay (contents seg m) taking))
      ]

  pub again_step :
      (saw : Bool) (h n : ℕ)
      → 1 ≤ h
      → h ≤ m.head
      → n ≡ h + 1
      → n ≤ m.used
      → IsRefined saw (deq_again h n)
  unfolding step
  again_step saw h n a b e f = from (get (m.segs h)).1 refl
    where
      from :
          (o : Option ℕ)
          → (get (m.segs h)).1 ≡ o
          → Stepped seg m saw
              (deq_again h n)
              (taken seg c h)
              saw
              (elim o [ none ↦ deq_swing h n | some x ↦ dequeued (some x) ])
      from (some x) got = got_item seg c saw saw (deq_again h n) h x refl a b got
      from none got =
          got_none seg c saw saw (deq_again h n) (deq_swing h n) h got
            (a, b, e, f, rw (eq→== h h refl) (get_none_left (m.segs h) got))
            (stay (contents seg m) taking)

  put_step : (saw : Bool) (x t : ℕ) → 1 ≤ t → t ≤ m.used → IsRefined saw (enq_put x t)
  unfolding step
  put_step saw x t a b = elim (Bool-cases (put false x (m.segs t)).1) [
    | inl y ↦ rw y (put_item seg c false saw x t a b y)
    | inr y ↦ rw y (put_none seg c false saw x t a b y)
  ]

  link_step :
      (saw : Bool) (x t : ℕ)
      → 1 ≤ t
      → t ≤ m.used
      → IsClosed (m.segs t)
      → IsRefined saw (enq_link x t)
  unfolding step
  link_step saw x t a b cl = elim (Bool-cases (m.next t == 0)) [
    | inl y ↦
        let z : m.next t ≡ 0 = ground arith in
        let e = null-last seg c t a b z in rw (y, e) (link_new seg c saw x m.used refl (rw e at cl))
    | inr y ↦
        let nz : m.next t ≢ 0 = ground arith in
        let (e, le) = next-one seg c t a b nz in
        rw y (
          looks seg c saw saw (enq_link x t) (enq_check x (m.next t)) (omega arith, omega arith)
            (stay _ _))
  ]

  pub refined : (saw : Bool) (p : Pc) → IsGood seg m saw p → IsRefined saw p
  unfolding step
  refined saw idle g = looks seg c saw saw idle idle tt (stay _ _)
  refined saw (enq_start x) g =
      let t = tail_in in
      looks seg c saw saw (enq_start x) (enq_check x m.tail) (tail_pos, t) (stay _ _)
  refined saw (enq_check x t) g = elim (Bool-cases (t == m.tail)) [
    | inl y ↦ rw y (looks seg c saw saw (enq_check x t) (enq_next x t) g (stay _ _))
    | inr y ↦
        rw y
          (looks seg c saw saw (enq_check x t) (enq_check x m.tail) (tail_pos, tail_in) (stay _ _))
  ]
  refined saw (enq_next x t) (a, b) = elim (Bool-cases (m.next t == 0)) [
    | inl y ↦ rw y (looks seg c saw saw (enq_next x t) (enq_put x t) (a, b) (stay _ _))
    | inr y ↦
        let nz : m.next t ≢ 0 = ground arith in
        let (e, le) = next-one seg c t a b nz in
        rw y (
          looks seg c saw saw (enq_next x t) (enq_help x t (m.next t)) (a, e, omega arith)
            (stay _ _))
  ]
  refined saw (enq_help x t n) (a, e, le) = elim (Bool-cases (m.tail == t)) [
    | inl y ↦ rw y (
        tail_to seg c saw (enq_help x t n) (enq_check x n) n (omega arith) le (omega arith, le)
          (stay _ _))
    | inr y ↦
        rw y
          (looks seg c saw saw (enq_help x t n) (enq_check x m.tail) (tail_pos, tail_in) (stay _ _))
  ]
  refined saw (enq_put x t) (a, b) = put_step saw x t a b
  refined saw (enq_link x t) (a, b, cl) = link_step saw x t a b cl
  refined saw (enq_swing t n) (a, b) = elim (Bool-cases (m.tail == t)) [
    | inl y ↦ rw y (tail_to seg c saw (enq_swing t n) enqueued n a b tt (stay _ _))
    | inr y ↦ rw y (looks seg c saw saw (enq_swing t n) enqueued tt (stay _ _))
  ]
  refined saw deq_start g =
      looks seg c saw saw deq_start (deq_check m.head) (head_pos, omega arith) (stay _ _)
  refined saw (deq_check h) g = elim (Bool-cases (h == m.head)) [
    | inl y ↦ rw y (looks seg c saw saw (deq_check h) (deq_take h) g (stay _ _))
    | inr y ↦
        rw y
          (looks seg c saw saw (deq_check h) (deq_check m.head) (head_pos, omega arith) (stay _ _))
  ]
  refined saw (deq_take h) (a, b) = take_step saw h a b
  refined saw (deq_next h) (a, b, d) = elim (Bool-cases (m.next h == 0)) [
    | inl y ↦
        let e = d (ground arith) in
        rw y (looks seg c saw saw (deq_next h) (dequeued none) tt (rw e (miss _)))
    | inr y ↦
        let nz : m.next h ≢ 0 = ground arith in
        let hi = head_in in
        let (e, le) = next-one seg c h a (omega arith) nz in
        rw y (
          looks seg c saw saw (deq_next h) (deq_prepare h (m.next h)) (a, b, e, omega arith)
            (gives_up saw))
  ]
    where
      gives_up :
          (w : Bool)
          → Move (contents seg m) (if w then saw_empty else taking) (contents seg m) taking
      gives_up true = forget _
      gives_up false = stay _ _
  refined saw (deq_prepare h n) g =
      prepares seg c saw (deq_prepare h n) (deq_again h n) h g (stay _ _)
  refined saw (deq_again h n) (a, b, e, f) = again_step saw h n a b e f
  refined saw (deq_swing h n) (a, b, e, f, none_in) = elim (Bool-cases (m.head == h)) [
    | inl y ↦
        let hd : m.head ≡ h = ground arith in
        let emp : items (m.segs m.head) ≡ [] = rw hd none_in in
        let more : m.head + 1 ≤ m.used = omega arith in
        let moved = contents-head_moved seg c emp more in
        rw (y, e, ← hd)
          (record {
            chain = Chain-head seg c emp more;
            later = Later-head seg c emp more;
            good = (omega arith, omega arith);
            move = rw (← moved) (stay (contents seg m) taking);
          })
    | inr y ↦
        rw y (
          looks seg c saw saw (deq_swing h n) (deq_check m.head) (head_pos, omega arith) (stay _ _))
  ]
  refined saw enqueued g = looks seg c saw saw enqueued enqueued tt (stay _ _)
  refined saw (dequeued v) g = looks seg c saw saw (dequeued v) (dequeued v) tt (stay _ _)
