-- ===== src/CasLoop/Spec.antt =====
-- What a bounded queue promises each of its threads: a list of items, oldest first, that a call
-- changes at one moment between its invocation and its return.
use mpmc_queues.Base.{
  ℕ, zero, suc, ◌-◌, ◌%◌, ◌^◌, ◌<◌, List, [], ◌∷◌, ◌++◌, none, some, true, false, length,
}
use mpmc_queues.CasLoop.{
  Call, enqueue, dequeue, close, Shared, Pc, idle, enq_tail, enq_seq, enq_cas, enq_val, enq_pub,
  enq_close, deq_head, deq_seq, deq_cas, deq_val, deq_pub, deq_size_tail, deq_size_head, closing,
  enqueued, dequeued, closed,
}
use mpmc_queues.CasLoop.System.{System}

-- Where a call stands in the eyes of a client.
pub data Status : Type 0 where
  ready : Status
  putting : ℕ → Status
  put : Status
  refused : Status
  taking : Status
  took : ℕ → Status
  missed : Status

-- One move of one thread on a queue of at most `cap` items. A refusal or a miss may happen at any
-- moment of a call that has had no effect.
pub data Move (cap : ℕ) : List ℕ → Status → List ℕ → Status → Type 0 where
  stay : (q : List ℕ) (s : Status) → Move cap q s q s
  put_one : (q : List ℕ) (x : ℕ) → length q < cap → Move cap q (putting x) (q ++ (x ∷ [])) put
  take_one : (q : List ℕ) (x : ℕ) → Move cap (x ∷ q) taking q (took x)
  refuse : (q : List ℕ) (x : ℕ) → Move cap q (putting x) q refused
  miss : (q : List ℕ) → Move cap q taking q missed

-- What a call begins. `close` is no operation of the queue, nor is a call that does nothing.
abbrev pub begun : Call → Status
begun (enqueue x) = putting x
begun dequeue = taking
begun close = ready

-- The items of the tickets from `h` on, `n` of them.
abbrev pub window : (ℕ → ℕ) → (n h : ℕ) → List ℕ
window puts zero h = []
window puts (suc n) h = puts h ∷ window puts n (suc h)

-- The index part of `tail_`.
abbrev pub tail_index : Shared → ℕ
tail_index m = m.tail % 2 ^ 63

abbrev pub contents : System → List ℕ
contents s = window s.puts (tail_index s.mem - s.mem.head) s.mem.head

-- A thread that has won a ticket has had its effect.
abbrev pub status : (ℕ → ℕ) → Pc → Status
status puts idle = ready
status puts (enq_tail item) = putting item
status puts (enq_seq item t) = putting item
status puts (enq_cas item t seq) = putting item
status puts (enq_val item t seq) = put
status puts (enq_pub item t seq) = put
status puts (enq_close item) = putting item
status puts deq_head = taking
status puts (deq_seq h) = taking
status puts (deq_cas h) = taking
status puts (deq_val h) = took (puts h)
status puts (deq_pub h v) = took v
status puts deq_size_tail = taking
status puts (deq_size_head t) = taking
status puts closing = ready
status puts (enqueued true) = put
status puts (enqueued false) = refused
status puts (dequeued (some v)) = took v
status puts (dequeued none) = missed
status puts closed = ready
