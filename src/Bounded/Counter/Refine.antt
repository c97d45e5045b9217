-- ===== src/Bounded/Counter/Refine.antt =====
-- Every access of `BoundedCounterProxy` is an access of the list of segments, or a refusal.
use mpmc_queues.Base.{
  [], List, ℕ, ◌≡◌, ◌≢◌, refl, arith, Bool, true, false, ◌&&◌, Option, none, some, List, Bool-cases,
  inl, inr, ◌==◌,
}
use mpmc_queues.Unbounded as U
use mpmc_queues.Unbounded.{Call, enqueue, dequeue}
use mpmc_queues.Unbounded.Segment.{SegmentOps}
use mpmc_queues.Unbounded.Spec.{contents, status, stay}
use mpmc_queues.Unbounded.Inv.{Chain, IsGood}
use mpmc_queues.Unbounded.Steps.{looks}
use mpmc_queues.Unbounded.Accesses.{put_item, put_none, next-one, null-last, link_new, tail_to}
use mpmc_queues.Unbounded.Refine.{refined}
use mpmc_queues.Unbounded.Safety.{begun, Chain-construct, contents-construct}
use mpmc_queues.Bounded.Machine.{Machine, Outcome, moved, declines, still, Event, begin, AllMoves}
use mpmc_queues.Bounded.Safety.{AllMoves-begin}
use mpmc_queues.Bounded.Counter.{
  Config, Shared, Pc, idle, enq_protect, enq_next, enq_help, room_pushed, room_popped, enq_put,
  enq_link, enq_swing, enq_record, deq_start, deq_check, deq_take, deq_next, deq_prepare, deq_again,
  deq_swing, deq_record, enqueued, dequeued, call, step, capacity_respected, construct,
}

-- What a place stands for in `Unbounded`.
abbrev pub image : Pc → U.Pc
image idle = U.idle
image (enq_protect x) = U.enq_start x
image (enq_next x t) = U.enq_next x t
image (enq_help x t n) = U.enq_help x t n
image (room_pushed false x t) = U.enq_put x t
image (room_popped false x t p) = U.enq_put x t
image (room_pushed true x t) = U.enq_link x t
image (room_popped true x t p) = U.enq_link x t
image (enq_put x t) = U.enq_put x t
image (enq_link x t) = U.enq_link x t
image (enq_swing t n) = U.enq_swing t n
image enq_record = U.enqueued
image deq_start = U.deq_start
image (deq_check h) = U.deq_check h
image (deq_take h) = U.deq_take h
image (deq_next h) = U.deq_next h
image (deq_prepare h n) = U.deq_prepare h n
image (deq_again h n) = U.deq_again h n
image (deq_swing h n) = U.deq_swing h n
image (deq_record x) = U.dequeued (some x)
image (enqueued true) = U.enqueued
image (enqueued false) = U.idle
image (dequeued v) = U.dequeued v

abbrev pub refused : Pc → Bool
refused (enqueued false) = true
refused _ = false

abbrev pub rests : Pc → Bool
rests idle = true
rests (enqueued _) = true
rests (dequeued _) = true
rests _ = false

module _ {S : Type 0} (seg : SegmentOps S) (k : Config) where
  open seg use {fresh, put, get}

  module _ (i : ℕ) (m : Shared S) (saw : Bool) (c : Chain seg m.list) where
    open c use {head_pos, head_in, tail_pos, tail_in}

    abbrev Done : Pc → Type 0
    Done p = Outcome seg image refused m.list (step seg k i m p).0.list saw p (step seg k i m p).1

    pub outcome : (p : Pc) → IsGood seg m.list saw (image p) → Done p
    unfolding step U.step
    outcome idle g = still refl refl refl
    outcome (enq_protect x) g = moved refl refl (
        looks seg c saw saw (U.enq_start x) (U.enq_next x m.list.tail) (tail_pos, tail_in)
          (stay _ _))
    outcome (enq_next x t) (a, b) = elim (Bool-cases (m.list.next t == 0)) [
      | inl y ↦
          rw y (
            moved refl refl
              (looks seg c saw saw (U.enq_next x t) (U.enq_put x t) (a, b) (stay _ _)))
      | inr y ↦
          let nz : m.list.next t ≢ 0 = ground arith in
          let (e, le) = next-one seg c t a b nz in
          rw y (
            moved refl refl (
              looks seg c saw saw (U.enq_next x t) (U.enq_help x t (m.list.next t))
                (a, e, omega arith) (stay _ _)))
    ]
    outcome (enq_help x t n) (a, e, le) = elim (Bool-cases (m.list.tail == t)) [
      | inl y ↦ rw y (
          moved refl refl
            (tail_to seg c saw (U.enq_help x t n) (U.enq_start x) n (omega arith) le tt (stay _ _)))
      | inr y ↦
          rw y
            (moved refl refl (looks seg c saw saw (U.enq_help x t n) (U.enq_start x) tt (stay _ _)))
    ]
    outcome (room_pushed false x t) g =
        moved refl refl (looks seg c saw saw (U.enq_put x t) (U.enq_put x t) g (stay _ _))
    outcome (room_pushed true x t) g =
        moved refl refl (looks seg c saw saw (U.enq_link x t) (U.enq_link x t) g (stay _ _))
    outcome (room_popped false x t p) g = elim (Bool-cases (capacity_respected k p m.popped)) [
      | inl y ↦
          rw y (moved refl refl (looks seg c saw saw (U.enq_put x t) (U.enq_put x t) g (stay _ _)))
      | inr y ↦ rw y (declines x refl refl refl refl refl)
    ]
    outcome (room_popped true x t p) g = elim (Bool-cases (capacity_respected k p m.popped)) [
      | inl y ↦
          rw y
            (moved refl refl (looks seg c saw saw (U.enq_link x t) (U.enq_link x t) g (stay _ _)))
      | inr y ↦ rw y (declines x refl refl refl refl refl)
    ]
    outcome (enq_put x t) (a, b) =
        let info = k.info_required && t == m.last_seen i in
        elim (Bool-cases (put info x (m.list.segs t)).1) [
          | inl y ↦ rw y (moved refl refl (put_item seg c info saw x t a b y))
          | inr y ↦ rw y (moved refl refl (put_none seg c info saw x t a b y))
        ]
    outcome (enq_link x t) (a, b, cl) = elim (Bool-cases (m.list.next t == 0)) [
      | inl y ↦
          let z : m.list.next t ≡ 0 = ground arith in
          let e = null-last seg c t a b z in
          rw (y, e) (moved refl refl (link_new seg c saw x m.list.used refl (rw e at cl)))
      | inr y ↦
          rw y
            (moved refl refl (looks seg c saw saw (U.enq_link x t) (U.enq_start x) tt (stay _ _)))
    ]
    outcome (enq_swing t n) (a, b) = elim (Bool-cases (m.list.tail == t)) [
      | inl y ↦
          rw y
            (moved refl refl (tail_to seg c saw (U.enq_swing t n) U.enqueued n a b tt (stay _ _)))
      | inr y ↦
          rw y (moved refl refl (looks seg c saw saw (U.enq_swing t n) U.enqueued tt (stay _ _)))
    ]
    outcome enq_record g = moved refl refl (looks seg c saw saw U.enqueued U.enqueued tt (stay _ _))
    outcome deq_start g = moved refl refl (refined seg c saw U.deq_start g)
    outcome (deq_check h) g = elim (Bool-cases (h == m.list.head)) [
      | inl y ↦ rw y (moved refl refl (rw y at (refined seg c saw (U.deq_check h) g)))
      | inr y ↦ rw y (moved refl refl (rw y at (refined seg c saw (U.deq_check h) g)))
    ]
    outcome (deq_take h) g = from (get (m.list.segs h)).1 refl
      where
        from : (o : Option ℕ) → (get (m.list.segs h)).1 ≡ o → Done (deq_take h)
        from none e = rw e (moved refl refl (rw e at (refined seg c saw (U.deq_take h) g)))
        from (some x) e = rw e (moved refl refl (rw e at (refined seg c saw (U.deq_take h) g)))
    outcome (deq_next h) g = elim (Bool-cases (m.list.next h == 0)) [
      | inl y ↦ rw y (moved refl refl (rw y at (refined seg c saw (U.deq_next h) g)))
      | inr y ↦ rw y (moved refl refl (rw y at (refined seg c saw (U.deq_next h) g)))
    ]
    outcome (deq_prepare h n) g = moved refl refl (refined seg c saw (U.deq_prepare h n) g)
    outcome (deq_again h n) g = from (get (m.list.segs h)).1 refl
      where
        from : (o : Option ℕ) → (get (m.list.segs h)).1 ≡ o → Done (deq_again h n)
        from none e = rw e (moved refl refl (rw e at (refined seg c saw (U.deq_again h n) g)))
        from (some x) e = rw e (moved refl refl (rw e at (refined seg c saw (U.deq_again h n) g)))
    outcome (deq_swing h n) g = elim (Bool-cases (m.list.head == h)) [
      | inl y ↦ rw y (moved refl refl (rw y at (refined seg c saw (U.deq_swing h n) g)))
      | inr y ↦ rw y (moved refl refl (rw y at (refined seg c saw (U.deq_swing h n) g)))
    ]
    outcome (deq_record x) g =
        moved refl refl
          (looks seg c saw saw (U.dequeued (some x)) (U.dequeued (some x)) tt (stay _ _))
    outcome (enqueued true) g = still refl refl refl
    outcome (enqueued false) g = still refl refl refl
    outcome (dequeued v) g = still refl refl refl

  pub begun-call : (saw : Bool) (q : Call) → status saw (image (call q)) ≡ begun q
  unfolding call
  begun-call saw (enqueue x) = refl
  begun-call saw dequeue = refl

  pub IsGood-call : (m : U.Shared S) (saw : Bool) (q : Call) → IsGood seg m saw (image (call q))
  unfolding call
  IsGood-call m saw (enqueue x) = tt
  IsGood-call m saw dequeue = tt

  pub asked_open : (q : Call) → refused (call q) ≡ false
  unfolding call
  asked_open (enqueue x) = refl
  asked_open dequeue = refl

  abbrev pub machine : Machine seg
  machine = record {
    State = Shared S;
    Place = Pc;
    access = step seg k;
    core = λ m. m.list;
    image = image;
    refused = refused;
    rests = rests;
    ask = call;
    start_place = idle;
    outcome = λ i m p saw c g. outcome i m saw c p g;
    asked = begun-call;
    asked_good = IsGood-call;
    asked_open = asked_open;
    starts = (refl, refl);
  }

  -- For any segment that keeps the promises of `SegmentOps`: whatever the threads do and in whatever order
  -- their accesses come, every event is a move of the abstract queue by its thread, from the empty queue
  -- on, and an invocation begins the operation that was called. So an accepted item is appended once, an
  -- enqueue that returns false leaves the queue as it is, a dequeue returns the oldest item of its
  -- moment, and one that returns false has seen the whole queue empty during its call.
  pub counter_refines :
      (m : Shared S) (es : List Event)
      → construct seg k ≡ some m
      → (contents seg m.list ≡ []) × AllMoves machine es (begin machine m)
  unfolding construct
  counter_refines m es made = (
    rw (← fresh_list) (contents-construct seg),
    AllMoves-begin machine m es (rw (← fresh_list) (Chain-construct seg)),
  )
    where
      fresh_list : U.construct seg ≡ m.list
      fresh_list = ground arith
