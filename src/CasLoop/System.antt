-- ===== src/CasLoop/System.antt =====
-- Any number of threads over one `CASLoopQueue`, interleaved in any order.
use mpmc_queues.Base.{ℕ, Bool, true, false, not, ◌&&◌, List, [], ◌∷◌, ◌==◌, if◌then◌else◌, update}
use mpmc_queues.CasLoop.{
  Ring, Shared, Pc, Call, call, step, idle, enq_cas, enqueued, dequeued, closed,
}

-- `puts` is a ghost: the item that the winner of ticket `t` brings. Nothing of the code reads it.
pub record System : Type 0 where
  pub mem : Shared
  pub pc : ℕ → Pc
  pub puts : ℕ → ℕ

-- A thread takes a step, or makes a call between two calls.
pub data Event : Type 0 where
  run : (thread : ℕ) → (weak : Bool) → Event
  invoke : (thread : ℕ) → Call → Event

abbrev pub resting : Pc → Bool
resting idle = true
resting (enqueued _) = true
resting (dequeued _) = true
resting closed = true
resting _ = false

-- The ghost is written where the exchange of `tail_` succeeds.
abbrev pub note : Bool → Shared → Pc → (ℕ → ℕ) → ℕ → ℕ
note weak m (enq_cas item t seq) puts = if not weak && m.tail == t then update puts t item else puts
note weak m _ puts = puts

unfoldable pub next : Ring → Event → System → System
next r (run i weak) s =
    let (m, p) = step r weak s.mem (s.pc i) in
    record { mem = m; pc = update s.pc i p; puts = note weak s.mem (s.pc i) s.puts }
next r (invoke i c) s = if resting (s.pc i) then record s { pc = update s.pc i (call r c) } else s

unfoldable pub run_all : Ring → List Event → System → System
run_all r [] s = s
run_all r (e ∷ es) s = run_all r es (next r e s)

unfoldable pub begin : Shared → System
begin m = record { mem = m; pc = λ _. idle; puts = λ _. 0 }
