-- ===== src/Unbounded/Safety.antt =====
-- Every event of every schedule of `UnboundedProxy` is a move of the abstract queue.
use mpmc_queues.Base.{
  ℕ, ◌≡◌, ◌≢◌, refl, arith, Bool, List, [], ◌∷◌, Bool-cases, inl, inr, ℕ_discrete, eq→==, ne→==,
  if◌then◌else◌,
}
use mpmc_queues.Unbounded.{Call, enqueue, dequeue, call, construct}
use mpmc_queues.Unbounded.Segment.{SegmentOps}
use mpmc_queues.Unbounded.Spec.{contents, status, Status, Move, putting, taking}
use mpmc_queues.Unbounded.System.{System, Event, run, invoke, next, begin, resting}
use mpmc_queues.Unbounded.Inv.{Chain, IsGood, IsGood-Later}
use mpmc_queues.Unbounded.Steps.{Stepped}
use mpmc_queues.Unbounded.Refine.{refined}

-- What a call begins.
abbrev pub begun : Call → Status
begun (enqueue x) = putting x
begun dequeue = taking

module _ {S : Type 0} (seg : SegmentOps S) where
  abbrev pub Inv : System S → Type 0
  Inv s = Chain seg s.mem × ((i : ℕ) → IsGood seg s.mem (s.saw i) (s.pc i))

  abbrev pub view : System S → ℕ → Status
  view s i = status (s.saw i) (s.pc i)

  pub Chain-construct : Chain seg (construct seg)
  unfolding construct
  Chain-construct = record {
    head_pos = omega arith;
    head_in = omega arith;
    tail_pos = omega arith;
    tail_in = omega arith;
    links = λ t a b. absurd (omega arith);
    last = λ t a. refl;
    shut = λ t a b. absurd (omega arith);
    gone = λ t a b. absurd (omega arith);
  }

  pub contents-construct : contents seg (construct seg) ≡ []
  unfolding construct
  contents-construct = rw seg.fresh_empty refl

  Inv-begin : Inv (begin seg)
  unfolding begin construct
  Inv-begin = (Chain-construct, λ i. tt)

  -- What the run of one thread leaves.
  ran :
      (s : System S) (inv : Inv s) (i : ℕ)
      → Stepped seg s.mem
          (s.saw i)
          (s.pc i)
          (next seg (run i) s).mem
          ((next seg (run i) s).saw i)
          ((next seg (run i) s).pc i)
  unfolding next
  ran s inv i = rw (eq→== i i refl) (refined seg inv.0 (s.saw i) (s.pc i) (inv.1 i))

  others :
      (s : System S) (i j : ℕ)
      → i ≢ j
      → ((next seg (run i) s).saw j ≡ s.saw j) × ((next seg (run i) s).pc j ≡ s.pc j)
  unfolding next
  others s i j ne = rw (ne→== i j ne) (refl, refl)

  Inv-next : (s : System S) → Inv s → (e : Event) → Inv (next seg e s)
  unfolding next call
  Inv-next s inv (run i) =
      let r = ran s inv i in
      (
        r.chain,
        λ j. elim (ℕ_discrete i j) [
          | yes e ↦ rw (← e) r.good
          | no ne ↦
              let (a, b) = others s i j ne in
              rw (a, b)
                (IsGood-Later seg s.mem (next seg (run i) s).mem (s.saw j) r.later (s.pc j)
                  (inv.1 j))
        ],
      )
  Inv-next s inv (invoke i c) = elim (Bool-cases (resting (s.pc i))) [
    | inl y ↦ rw y (
      inv.0,
      λ j. elim (ℕ_discrete i j) [
        | yes e ↦ rw (eq→== i j e) (asked (s.saw j) c)
        | no ne ↦ rw (ne→== i j ne) (inv.1 j)
      ],
    )
    | inr y ↦ rw y inv
  ]
    where
      asked : (w : Bool) (c : Call) → IsGood seg s.mem w (call c)
      asked w (enqueue x) = tt
      asked w dequeue = tt

  begun-call : (w : Bool) (c : Call) → status w (call c) ≡ begun c
  unfolding call
  begun-call w (enqueue x) = refl
  begun-call w dequeue = refl

  -- What an event is to the abstract queue: an access of a thread is one move by it, and an invocation
  -- begins its operation and leaves the queue alone. No other thread's operation changes.
  abbrev pub IsMove : Event → System S → System S → Type 0
  IsMove (run i) s s' =
      Move (contents seg s.mem) (view s i) (contents seg s'.mem) (view s' i)
      × ((j : ℕ) → i ≢ j → view s' j ≡ view s j)
  IsMove (invoke i c) s s' =
      (contents seg s'.mem ≡ contents seg s.mem)
      × (view s' i ≡ (if resting (s.pc i) then begun c else view s i))
      × ((j : ℕ) → i ≢ j → view s' j ≡ view s j)

  abbrev pub AllMoves : List Event → System S → Type 0
  AllMoves [] s = Unit {0}
  AllMoves (e ∷ es) s = IsMove e s (next seg e s) × AllMoves es (next seg e s)

  IsMove-next : (s : System S) → Inv s → (e : Event) → IsMove e s (next seg e s)
  unfolding next
  IsMove-next s inv (run i) =
      ((ran s inv i).move, λ j ne. let (a, b) = others s i j ne in rw (a, b) refl)
  IsMove-next s inv (invoke i c) = elim (Bool-cases (resting (s.pc i))) [
    | inl y ↦
        rw y (refl, rw (eq→== i i refl) (begun-call (s.saw i) c), λ j ne. rw (ne→== i j ne) refl)
    | inr y ↦ rw y (refl, refl, λ j ne. refl)
  ]

  AllMoves-run_all : (es : List Event) (s : System S) → Inv s → AllMoves es s
  AllMoves-run_all [] s inv = tt
  AllMoves-run_all (e ∷ es) s inv =
      (IsMove-next s inv e, AllMoves-run_all es (next seg e s) (Inv-next s inv e))

  begins_empty : contents seg (begin seg).mem ≡ []
  unfolding begin
  begins_empty = contents-construct

  -- For any segment that keeps the promises of `SegmentOps`: whatever the threads do and in whatever
  -- order their accesses come, every event is a move of the abstract queue by its thread, from the
  -- empty queue on, and an invocation begins the operation that was called. So an accepted item is
  -- appended once, a dequeue returns the oldest item of its moment, and one that returns false has
  -- seen the whole queue empty during its call.
  pub proxy_refines :
      (es : List Event) → (contents seg (begin seg).mem ≡ []) × AllMoves es (begin seg)
  proxy_refines es = (begins_empty, AllMoves-run_all es (begin seg) Inv-begin)
