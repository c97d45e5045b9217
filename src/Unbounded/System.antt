-- ===== src/Unbounded/System.antt =====
-- Any number of threads over one `UnboundedProxy`, interleaved in any order.
use mpmc_queues.Base.{ℕ, Bool, true, false, List, [], ◌∷◌, ◌==◌, if◌then◌else◌, update}
use mpmc_queues.Unbounded.{
  Shared, Pc, Call, call, step, construct, idle, deq_take, enqueued, dequeued,
}
use mpmc_queues.Unbounded.Segment.{SegmentOps}

-- `saw` is a ghost: whether there was no next segment when a thread last looked into one.
pub record System (S : Type 0) : Type 0 where
  pub mem : Shared S
  pub pc : ℕ → Pc
  pub saw : ℕ → Bool

pub data Event : Type 0 where
  run : (thread : ℕ) → Event
  invoke : (thread : ℕ) → Call → Event

abbrev pub resting : Pc → Bool
resting idle = true
resting enqueued = true
resting (dequeued _) = true
resting _ = false

module _ {S : Type 0} (seg : SegmentOps S) where
  abbrev pub note : Shared S → Pc → Bool → Bool
  note m (deq_take h) saw = m.next h == 0
  note m _ saw = saw

  unfoldable pub next : Event → System S → System S
  next (run i) s =
      let (m, p) = step seg s.mem (s.pc i) in
      record { mem = m; pc = update s.pc i p; saw = update s.saw i (note s.mem (s.pc i) (s.saw i)) }
  next (invoke i c) s = if resting (s.pc i) then record s { pc = update s.pc i (call c) } else s

  unfoldable pub run_all : List Event → System S → System S
  run_all [] s = s
  run_all (e ∷ es) s = run_all es (next e s)

  unfoldable pub begin : System S
  begin = record { mem = construct seg; pc = λ _. idle; saw = λ _. false }
