-- ===== src/Scq/Safety.antt =====
-- Every schedule of `SCQueue` is a run of the abstract queue, event by event.
use mpmc_queues.Base.{
  ℕ, ◌^◌, ◌<◌, ◌≡◌, ◌≢◌, refl, ap, ◌∙◌, arith, Bool, true, false, List, [], ◌∷◌, count, Bool-cases,
  inl, inr, ltb, if◌then◌else◌, eq→==, ne→==,
}
use mpmc_queues.Scq.Raw.{Rings}
use mpmc_queues.Scq.{
  Pc, Call, enqueue, dequeue, close, call, construct, step, idle, enq_info, enq_take, enq_shut,
  enq_write, enq_put, enq_back, deq_take, deq_read, deq_back, shut, enqueued, dequeued, closed,
}
use mpmc_queues.Scq.System.{
  System, free, lost, Event, run, invoke, next, begin, resting, Status, Move, stay, refuse, ready,
  putting, taking, status, contents, view,
}
use mpmc_queues.Scq.Inv.{Inv, Holds, Knows, in_free, in_filled, Inv-same}
use mpmc_queues.Scq.Steps.{Did, same, looks, writes}
use mpmc_queues.Scq.Refine.{moved, Did-enq_take, Did-deq_take}
use mpmc_queues.Scq.Returns.{Did-enq_put, Did-enq_back, Did-deq_back}

-- What a call begins; `close` is no operation of the abstract queue.
abbrev pub begun : Call → Status
begun (enqueue info x) = putting x
begun dequeue = taking
begun close = ready

module _ {R : Type 0} (rings : Rings R) (order : ℕ) where
  open rings use {
    lfring_close, lfring_is_closed, items, close_items, init_empty_items, init_full_items,
  }

  did :
      (ac : Bool) (s : System R) (inv : Inv rings order s) (i : ℕ) (p : Pc)
      → s.pc i ≡ p
      → Did rings order s (moved rings order ac s i p) i
  unfolding step
  did ac s inv i (enq_info x) at = elim (Bool-cases (lfring_is_closed s.mem.fq)) [
    | inl y ↦ rw y (looks rings order s inv i _ at (enqueued false) (λ e h. h) tt (refuse _ x))
    | inr y ↦ rw y (looks rings order s inv i _ at (enq_take x) (λ e h. h) tt (stay _ _))
  ]
  did ac s inv i (enq_take x) at = Did-enq_take rings order s inv i ac x at
  did ac s inv i enq_shut at =
      same rings order s inv i _ at (lfring_close s.mem.aq) s.mem.fq (enqueued false)
        (close_items s.mem.aq) refl (λ e h. h) tt (stay _ _)
  did ac s inv i (enq_write x e) at = writes rings order s inv i _ at x e refl
  did ac s inv i (enq_put x e) at = Did-enq_put rings order s inv i ac x e at
  did ac s inv i (enq_back e) at = Did-enq_back rings order s inv i ac e at
  did ac s inv i deq_take at = Did-deq_take rings order s inv i ac at
  did ac s inv i (deq_read e) at =
      looks rings order s inv i _ at (deq_back e (s.mem.underlying e)) (λ u h. h) tt (stay _ _)
  did ac s inv i (deq_back e x) at = Did-deq_back rings order s inv i ac e x at
  did ac s inv i shut at =
      same rings order s inv i _ at s.mem.aq (lfring_close s.mem.fq) closed refl
        (close_items s.mem.fq) (λ e h. h) tt (stay _ _)
  did ac s inv i idle at = looks rings order s inv i _ at idle (λ e h. h) tt (stay _ _)
  did ac s inv i (enqueued b) at =
      looks rings order s inv i _ at (enqueued b) (λ e h. h) tt (stay _ _)
  did ac s inv i (dequeued v) at =
      looks rings order s inv i _ at (dequeued v) (λ e h. h) tt (stay _ _)
  did ac s inv i closed at = looks rings order s inv i _ at closed (λ e h. h) tt (stay _ _)

  ran :
      (ac : Bool) (s : System R)
      → Inv rings order s
      → (i : ℕ) → Did rings order s (next rings order ac (run i) s) i
  unfolding next
  ran ac s inv i = did ac s inv i (s.pc i) refl

  begun-call : (d : ℕ → ℕ) (c : Call) → status d (call c) ≡ begun c
  unfolding call
  begun-call d (enqueue true x) = refl
  begun-call d (enqueue false x) = refl
  begun-call d dequeue = refl
  begun-call d close = refl

  calls_hold_nothing : (c : Call) (e : ℕ) → ¬ Holds (call c) e
  unfolding call
  calls_hold_nothing (enqueue true x) e h = h
  calls_hold_nothing (enqueue false x) e h = h
  calls_hold_nothing dequeue e h = h
  calls_hold_nothing close e h = h

  calls_know : (d : ℕ → ℕ) (c : Call) → Knows d (call c)
  unfolding call
  calls_know d (enqueue true x) = tt
  calls_know d (enqueue false x) = tt
  calls_know d dequeue = tt
  calls_know d close = tt

  Inv-next :
      (ac : Bool) (s : System R)
      → Inv rings order s
      → (e : Event) → Inv rings order (next rings order ac e s)
  unfolding next
  Inv-next ac s inv (run i) = (ran ac s inv i).inv
  Inv-next ac s inv (invoke i c) = elim (Bool-cases (resting (s.pc i))) [
    | inl y ↦ rw y (
        Inv-same rings order s inv i s.mem.aq s.mem.fq (call c) refl refl
          (λ e h. absurd (calls_hold_nothing c e h)) (calls_know s.mem.underlying c))
    | inr y ↦ rw y inv
  ]

  -- What an event is to the abstract queue: an access of a thread is one move by it, and an invocation
  -- begins its operation and leaves the queue alone. No other thread's operation changes.
  abbrev pub IsMove : Event → System R → System R → Type 0
  IsMove (run i) s s' =
      Move (contents rings order s.mem) (view rings order s i) (contents rings order s'.mem)
        (view rings order s' i)
      × ((j : ℕ) → i ≢ j → view rings order s' j ≡ view rings order s j)
  IsMove (invoke i c) s s' =
      (contents rings order s'.mem ≡ contents rings order s.mem)
      × (view rings order s' i ≡ (if resting (s.pc i) then begun c else view rings order s i))
      × ((j : ℕ) → i ≢ j → view rings order s' j ≡ view rings order s j)

  abbrev pub AllMoves : (auto_close : Bool) → List Event → System R → Type 0
  AllMoves ac [] s = Unit {0}
  AllMoves ac (e ∷ es) s =
      IsMove e s (next rings order ac e s) × AllMoves ac es (next rings order ac e s)

  IsMove-next :
      (ac : Bool) (s : System R)
      → Inv rings order s
      → (e : Event) → IsMove e s (next rings order ac e s)
  unfolding next
  IsMove-next ac s inv (run i) = let d = ran ac s inv i in (d.move, d.others)
  IsMove-next ac s inv (invoke i c) = elim (Bool-cases (resting (s.pc i))) [
    | inl y ↦
        rw y (
          refl,
          rw (eq→== i i refl) (begun-call s.mem.underlying c),
          λ j ne. rw (ne→== i j ne) refl,
        )
    | inr y ↦ rw y (refl, refl, λ j ne. refl)
  ]

  AllMoves-run_all :
      (ac : Bool) (es : List Event) (s : System R) → Inv rings order s → AllMoves ac es s
  AllMoves-run_all ac [] s inv = tt
  AllMoves-run_all ac (e ∷ es) s inv = (
    IsMove-next ac s inv e,
    AllMoves-run_all ac es (next rings order ac e s) (Inv-next ac s inv e),
  )

  module _ (raw : ℕ → ℕ) (small : order < 64) where
    Inv-begin : Inv rings order (begin rings order raw)
    unfolding begin construct
    Inv-begin = record {
      frees = λ x. init_full_items order x small ∙ in_free_first (ltb x (2 ^ order));
      fills = λ x. ap (count x) (init_empty_items order) ∙ in_filled_first (ltb x (2 ^ order));
      named = λ x ne. ground arith;
      mine = λ i e h. absurd h;
      known = λ i. tt;
      small = small;
    }
      where
        in_free_first : (b : Bool) → (if b then 1 else 0) ≡ in_free (if b then free else lost)
        in_free_first true = refl
        in_free_first false = refl

        in_filled_first : (b : Bool) → 0 ≡ in_filled (if b then free else lost)
        in_filled_first true = refl
        in_filled_first false = refl

    begins_empty : contents rings order (begin rings order raw).mem ≡ []
    unfolding begin construct
    begins_empty = rw (init_empty_items order) refl

    -- For any rings that keep the promises of `Rings` and hold 2 ^ order indices with order < 64, whatever
    -- the buffer holds at first: whatever the threads do, closing included, and in whatever order their
    -- accesses come, every event is a move of the abstract queue by its thread, from the empty queue on,
    -- and an invocation begins the operation that was called. So an accepted item is appended once, a
    -- dequeue returns the oldest item of its moment, and one that returns false has seen the queue empty.
    pub scq_refines :
        (auto_close : Bool) (es : List Event)
        → (contents rings order (begin rings order raw).mem ≡ [])
          × AllMoves auto_close es (begin rings order raw)
    scq_refines ac es = (begins_empty, AllMoves-run_all ac es (begin rings order raw) Inv-begin)
