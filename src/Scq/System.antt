-- ===== src/Scq/System.antt =====
-- Any number of threads over one `SCQueue`, interleaved in any order, and what they see from outside.
use mpmc_queues.Base.{
  ℕ, Bool, true, false, none, some, List, [], ◌∷◌, ◌++◌, ◌==◌, ltb, ◌^◌, if◌then◌else◌, update,
}
use mpmc_queues.Ring.Raw.{lfring_empty}
use mpmc_queues.Scq.Raw.{Rings}
use mpmc_queues.Scq.{
  Shared, Pc, Call, call, step, construct, idle, enq_info, enq_take, enq_shut, enq_write, enq_put,
  enq_back, deq_take, deq_read, deq_back, shut, enqueued, dequeued, closed,
}

-- Who has an index: a ring or a thread; an index that a closed ring refused is lost.
pub data Place : Type 0 where
  free : Place
  filled : Place
  held : (thread : ℕ) → Place
  lost : Place

pub data Status : Type 0 where
  ready : Status
  putting : ℕ → Status
  put_done : (ok : Bool) → Status
  taking : Status
  took : ℕ → Status
  missed : Status

-- One moment of the abstract queue. An enqueue may be refused at any time; a dequeue returns false on
-- an empty queue only.
pub data Move : List ℕ → Status → List ℕ → Status → Type 0 where
  stay : (q : List ℕ) (s : Status) → Move q s q s
  put_one : (q : List ℕ) (x : ℕ) → Move q (putting x) (q ++ (x ∷ [])) (put_done true)
  refuse : (q : List ℕ) (x : ℕ) → Move q (putting x) q (put_done false)
  take_one : (q : List ℕ) (x : ℕ) → Move (x ∷ q) taking q (took x)
  miss : Move [] taking [] missed

-- What a thread at a place has done; `d` is the buffer.
abbrev pub status : (d : ℕ → ℕ) → Pc → Status
status d idle = ready
status d (enq_info x) = putting x
status d (enq_take x) = putting x
status d enq_shut = put_done false
status d (enq_write x e) = putting x
status d (enq_put x e) = putting x
status d (enq_back e) = put_done false
status d deq_take = taking
status d (deq_read e) = took (d e)
status d (deq_back e x) = took x
status d shut = ready
status d (enqueued b) = put_done b
status d (dequeued (some x)) = took x
status d (dequeued none) = missed
status d closed = ready

-- The items behind a list of indices.
abbrev pub read_all : (ℕ → ℕ) → List ℕ → List ℕ
read_all d [] = []
read_all d (e ∷ es) = d e ∷ read_all d es

pub record System (R : Type 0) : Type 0 where
  pub mem : Shared R
  pub pc : ℕ → Pc
  pub place : ℕ → Place

pub data Event : Type 0 where
  run : (thread : ℕ) → Event
  invoke : (thread : ℕ) → Call → Event

abbrev pub resting : Pc → Bool
resting idle = true
resting (enqueued _) = true
resting (dequeued _) = true
resting closed = true
resting _ = false

module _ {R : Type 0} (rings : Rings R) (order : ℕ) where
  open rings use {lfring_enqueue, lfring_dequeue, items}

  abbrev pub contents : Shared R → List ℕ
  contents m = read_all m.underlying (items m.aq)

  abbrev pub got : (thread e : ℕ) → (ℕ → Place) → ℕ → Place
  got i e place = if e == lfring_empty then place else update place e (held i)

  -- What an access does to the ghost.
  abbrev pub placed : (thread : ℕ) → Shared R → Pc → (ℕ → Place) → ℕ → Place
  placed i m (enq_take x) place = got i (lfring_dequeue order m.fq).1 place
  placed i m (enq_put x e) place =
      if (lfring_enqueue order e m.aq).1 then update place e filled else place
  placed i m (enq_back e) place =
      update place e (if (lfring_enqueue order e m.fq).1 then free else lost)
  placed i m deq_take place = got i (lfring_dequeue order m.aq).1 place
  placed i m (deq_back e x) place =
      update place e (if (lfring_enqueue order e m.fq).1 then free else lost)
  placed i m _ place = place

  unfoldable pub next : (auto_close : Bool) → Event → System R → System R
  next auto_close (run i) s =
      let (m, p) = step rings order auto_close s.mem (s.pc i) in
      record { mem = m; pc = update s.pc i p; place = placed i s.mem (s.pc i) s.place }
  next auto_close (invoke i q) s =
      if resting (s.pc i) then record s { pc = update s.pc i (call q) } else s

  unfoldable pub run_all : (auto_close : Bool) → List Event → System R → System R
  run_all auto_close [] s = s
  run_all auto_close (e ∷ es) s = run_all auto_close es (next auto_close e s)

  unfoldable pub begin : (raw : ℕ → ℕ) → System R
  begin raw = record {
    mem = construct rings order raw;
    pc = λ _. idle;
    place = λ x. if ltb x (2 ^ order) then free else lost;
  }

  abbrev pub view : System R → ℕ → Status
  view s i = status s.mem.underlying (s.pc i)
