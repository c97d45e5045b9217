-- ===== src/Hq/System.antt =====
-- Any number of threads over one `LinkedHQ`, interleaved in any order.
use mpmc_queues.Base.{
  some, none, Option, ℕ, Bool, true, false, List, [], ◌∷◌, leb, if◌then◌else◌, update,
}
use mpmc_queues.Hq.{
  Shared, Pc, Call, call, step, idle, enq_add, enq_cas, fast_swap, slow_swap, enqueued, dequeued,
  closed,
}

-- `accepted` and `taken` are ghosts: the items of the calls of `enqueue` that returned true, and those
-- that an exchange of `dequeue` has taken out of a cell.
pub record System : Type 0 where
  pub mem : Shared
  pub pc : ℕ → Pc
  pub accepted : List ℕ
  pub taken : List ℕ

-- `link` is the proxy's write of `next_`; `weak` says that a weak exchange fails for no reason.
pub data Event : Type 0 where
  run : (thread : ℕ) (weak : Bool) → Event
  invoke : (thread : ℕ) → Call → Event
  link : (segment : ℕ) → Event

abbrev pub resting : Pc → Bool
resting idle = true
resting (enqueued _) = true
resting (dequeued _) = true
resting closed = true
resting _ = false

-- An access from `p` to `p'` that returns true from an `enqueue` accepts its item.
abbrev pub put_in : (p p' : Pc) → List ℕ → List ℕ
put_in (enq_add item expected) (enqueued true) xs = item ∷ xs
put_in (enq_cas item expected t) (enqueued true) xs = item ∷ xs
put_in _ _ xs = xs

abbrev pub taken_out : Shared → Pc → List ℕ → List ℕ
taken_out m (fast_swap h) xs = if leb (m.cells h) 1 then xs else m.cells h ∷ xs
taken_out m (slow_swap h) xs = if leb (m.cells h) 1 then xs else m.cells h ∷ xs
taken_out m _ xs = xs

unfoldable pub next : (size : ℕ) → Event → System → System
next size (run i weak) s =
    let (m, p) = step size weak s.mem (s.pc i) in
    record {
      mem = m;
      pc = update s.pc i p;
      accepted = put_in (s.pc i) p s.accepted;
      taken = taken_out s.mem (s.pc i) s.taken;
    }
next size (invoke i c) s = if resting (s.pc i) then record s { pc = update s.pc i (call c) } else s
next size (link n) s = record s { mem = record s.mem { next = n } }

unfoldable pub run_all : (size : ℕ) → List Event → System → System
run_all size [] s = s
run_all size (e ∷ es) s = run_all size es (next size e s)

unfoldable pub begin : Shared → System
begin m = record { mem = m; pc = λ _. idle; accepted = []; taken = [] }

-- What a thread has taken out of a cell in its last call.
abbrev pub took : Shared → Pc → Option ℕ → Option ℕ
took m (fast_swap h) v = if leb (m.cells h) 1 then v else some (m.cells h)
took m (slow_swap h) v = if leb (m.cells h) 1 then v else some (m.cells h)
took m _ v = v

abbrev pub next_took : Event → System → (ℕ → Option ℕ) → ℕ → Option ℕ
next_took (run i weak) s f = update f i (took s.mem (s.pc i) (f i))
next_took (invoke i c) s f = if resting (s.pc i) then update f i none else f
next_took (link n) s f = f

unfoldable pub took_all : (size : ℕ) → List Event → System → (ℕ → Option ℕ) → ℕ → Option ℕ
took_all size [] s f = f
took_all size (e ∷ es) s f = took_all size es (next size e s) (next_took e s f)
