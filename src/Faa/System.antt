-- ===== src/Faa/System.antt =====
-- Any number of threads over one `LinkedFAAArray`, interleaved in any order.
use mpmc_queues.Base.{some, ℕ, Bool, true, false, List, [], ◌∷◌, if◌then◌else◌, update}
use mpmc_queues.Faa.{
  Shared, Pc, Call, call, step, idle, enq_add, enq_cas, enqueued, dequeued, closed,
}

-- `accepted` and `returned` are ghosts: the items of the calls of `enqueue` that returned true, and the
-- values that calls of `dequeue` returned, newest first.
pub record System : Type 0 where
  pub mem : Shared
  pub pc : ℕ → Pc
  pub accepted : List ℕ
  pub returned : List ℕ

pub data Event : Type 0 where
  run : (thread : ℕ) → Event
  invoke : (thread : ℕ) → Call → Event

abbrev pub resting : Pc → Bool
resting idle = true
resting (enqueued _) = true
resting (dequeued _) = true
resting closed = true
resting _ = false

-- An access from `p` to `p'` that returns true from an `enqueue` accepts its item.
abbrev pub put_in : (p p' : Pc) → List ℕ → List ℕ
put_in (enq_add item) (enqueued true) xs = item ∷ xs
put_in (enq_cas item t) (enqueued true) xs = item ∷ xs
put_in _ _ xs = xs

-- An access that returns an item from a `dequeue` hands it out.
abbrev pub taken_out : (p p' : Pc) → List ℕ → List ℕ
taken_out (dequeued v) _ xs = xs
taken_out _ (dequeued (some x)) xs = x ∷ xs
taken_out _ _ xs = xs

unfoldable pub next : (size : ℕ) → Event → System → System
next size (run i) s =
    let (m, p) = step size s.mem (s.pc i) in
    record {
      mem = m;
      pc = update s.pc i p;
      accepted = put_in (s.pc i) p s.accepted;
      returned = taken_out (s.pc i) p s.returned;
    }
next size (invoke i c) s = if resting (s.pc i) then record s { pc = update s.pc i (call c) } else s

unfoldable pub run_all : (size : ℕ) → List Event → System → System
run_all size [] s = s
run_all size (e ∷ es) s = run_all size es (next size e s)

unfoldable pub begin : Shared → System
begin m = record { mem = m; pc = λ _. idle; accepted = []; returned = [] }
