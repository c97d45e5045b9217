-- ===== src/Bounded/Machine.antt =====
-- A proxy that works on the list of segments of `Unbounded` and may also refuse an item: what such a
-- proxy provides, and what its accesses are to an abstract queue.
use mpmc_queues.Base.{ℕ, ◌≡◌, ◌≢◌, Bool, true, false, List, [], ◌∷◌, update, if◌then◌else◌}
use mpmc_queues.Unbounded.{Shared, Pc, idle, Call}
use mpmc_queues.Unbounded.Segment.{SegmentOps}
use mpmc_queues.Unbounded.Spec.{status, Status, Move, putting, contents}
use mpmc_queues.Unbounded.System.{note}
use mpmc_queues.Unbounded.Inv.{Chain, IsGood}
use mpmc_queues.Unbounded.Steps.{Stepped}
use mpmc_queues.Unbounded.Safety.{begun}

-- What one access of a thread at `p` does: a move on the list of segments, the end of an enqueue that
-- returns false without the item, or nothing.
pub data Outcome {S P : Type 0} (seg : SegmentOps S) (image : P → Pc) (refused : P → Bool)
    (m m' : Shared S) (saw : Bool) (p p' : P) : Type 0 where
  moved :
      refused p ≡ false
      → refused p' ≡ false
      → Stepped seg m saw (image p) m' (note seg m (image p) saw) (image p')
      → Outcome seg image refused m m' saw p p'
  declines :
      (x : ℕ)
      → refused p ≡ false
      → refused p' ≡ true
      → image p' ≡ idle
      → status saw (image p) ≡ putting x
      → m' ≡ m
      → Outcome seg image refused m m' saw p p'
  still : m' ≡ m → p' ≡ p → note seg m (image p) saw ≡ saw → Outcome seg image refused m m' saw p p'

-- The proxy: its state, the places of its threads, one access of a thread, and what both stand for in
-- `Unbounded`.
pub record Machine {S : Type 0} (seg : SegmentOps S) : Type 1 where
  pub State : Type 0
  pub Place : Type 0
  pub access : (thread : ℕ) → State → Place → State × Place
  pub core : State → Shared S
  pub image : Place → Pc
  pub refused : Place → Bool
  pub rests : Place → Bool
  pub ask : Call → Place
  pub start_place : Place
  pub outcome :
      (i : ℕ) (m : State) (p : Place) (saw : Bool)
      → Chain seg (core m)
      → IsGood seg (core m) saw (image p)
      → Outcome seg image refused (core m) (core (access i m p).0) saw p (access i m p).1
  pub asked : (saw : Bool) (c : Call) → status saw (image (ask c)) ≡ begun c
  pub asked_good : (m : Shared S) (saw : Bool) (c : Call) → IsGood seg m saw (image (ask c))
  pub asked_open : (c : Call) → refused (ask c) ≡ false
  pub starts : (image start_place ≡ idle) × (refused start_place ≡ false)

pub data Seen : Type 0 where
  running : Status → Seen
  declined : Seen

-- One access of a thread on the abstract queue: a move, a refusal, or nothing.
pub data Turn : List ℕ → Seen → List ℕ → Seen → Type 0 where
  moves : (q q' : List ℕ) (a b : Status) → Move q a q' b → Turn q (running a) q' (running b)
  refuses : (q : List ℕ) (x : ℕ) → Turn q (running (putting x)) q declined
  stays : (q : List ℕ) (a : Seen) → Turn q a q a

pub data Event : Type 0 where
  run : (thread : ℕ) → Event
  invoke : (thread : ℕ) → Call → Event

module _ {S : Type 0} {seg : SegmentOps S} (k : Machine seg) where
  open k use {State, Place, access, core, image, refused, rests, ask, start_place}

  -- `saw` is a ghost, as in `Unbounded`.
  pub record System : Type 0 where
    pub state : State
    pub pc : ℕ → Place
    pub saw : ℕ → Bool

  unfoldable pub next : Event → System → System
  next (run i) s =
      let (m, p) = access i s.state (s.pc i) in
      record {
        state = m;
        pc = update s.pc i p;
        saw = update s.saw i (note seg (core s.state) (image (s.pc i)) (s.saw i));
      }
  next (invoke i c) s = if rests (s.pc i) then record s { pc = update s.pc i (ask c) } else s

  unfoldable pub run_all : List Event → System → System
  run_all [] s = s
  run_all (e ∷ es) s = run_all es (next e s)

  unfoldable pub begin : State → System
  begin m = record { state = m; pc = λ _. start_place; saw = λ _. false }

  abbrev pub seen_at : Bool → Place → Seen
  seen_at w p = if refused p then declined else running (status w (image p))

  abbrev pub view : System → ℕ → Seen
  view s i = seen_at (s.saw i) (s.pc i)

  -- What an event is to the abstract queue: an access of a thread is one turn of it, and an invocation
  -- begins its operation and leaves the queue alone. No other thread's operation changes.
  abbrev pub IsMove : Event → System → System → Type 0
  IsMove (run i) s s' =
      Turn (contents seg (core s.state)) (view s i) (contents seg (core s'.state)) (view s' i)
      × ((j : ℕ) → i ≢ j → view s' j ≡ view s j)
  IsMove (invoke i c) s s' =
      (contents seg (core s'.state) ≡ contents seg (core s.state))
      × (view s' i ≡ (if rests (s.pc i) then running (begun c) else view s i))
      × ((j : ℕ) → i ≢ j → view s' j ≡ view s j)

  abbrev pub AllMoves : List Event → System → Type 0
  AllMoves [] s = Unit {0}
  AllMoves (e ∷ es) s = IsMove e s (next e s) × AllMoves es (next e s)
