-- ===== src/Ticket/System.antt =====
-- Any number of threads over one manager of tickets, interleaved in any order.
use mpmc_queues.Base.{ℕ, Bool, true, false, List, [], ◌∷◌, if◌then◌else◌, update}
use mpmc_queues.Ticket.{
  Pc, step, idle, acq_enter, rel_enter, acquired, refused, released, no_ticket,
}

pub record System : Type 0 where
  pub storage : ℕ → ℕ
  pub local : ℕ → ℕ
  pub pc : ℕ → Pc

pub data Event : Type 0 where
  run : (thread : ℕ) → (weak : Bool) → Event
  acquire : (thread : ℕ) → Event
  release : (thread : ℕ) → Event

abbrev pub resting : Pc → Bool
resting idle = true
resting (acquired _) = true
resting refused = true
resting released = true
resting _ = false

unfoldable pub next : (max_threads : ℕ) → Event → System → System
next m (run i weak) s =
    let (storage, local, p) = step m weak s.storage (s.local i) (s.pc i) in
    record { storage = storage; local = update s.local i local; pc = update s.pc i p }
next m (acquire i) s = if resting (s.pc i) then record s { pc = update s.pc i acq_enter } else s
next m (release i) s = if resting (s.pc i) then record s { pc = update s.pc i rel_enter } else s

unfoldable pub run_all : (max_threads : ℕ) → List Event → System → System
run_all m [] s = s
run_all m (e ∷ es) s = run_all m es (next m e s)

unfoldable pub begin : (ℕ → ℕ) → System
begin storage = record { storage = storage; local = λ _. no_ticket; pc = λ _. idle }
