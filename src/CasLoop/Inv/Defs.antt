-- ===== src/CasLoop/Inv/Defs.antt =====
-- Which ticket each cell serves, and what the locals of a thread say about the shared memory.
use mpmc_queues.Base.{ℕ, ◌+◌, ◌%◌, ◌^◌, ◌≤◌, ◌<◌, ◌≡◌, ◌⊎◌, true, false, Option, none, some}
use mpmc_queues.CasLoop.{
  Cell, Ring, Shared, slot, Pc, enq_seq, enq_cas, enq_val, enq_pub, enq_close, closing, deq_seq,
  deq_cas, deq_val, deq_pub,
}
use mpmc_queues.CasLoop.System.{System}
use mpmc_queues.CasLoop.Spec.{tail_index}

-- A ring of at least two cells whose `mod` is the remainder.
pub record IsRing (r : Ring) : Type 0 where
  pub two : 2 ≤ r.size
  pub slot_lem : (i : ℕ) → slot r i ≡ i % r.size

-- The cell of a ticket.
abbrev pub cell : Ring → Shared → ℕ → Cell
cell r m t = m.cells (t % r.size)

-- The ticket that a thread has won and not finished.
abbrev pub puts_at : Pc → Option ℕ
puts_at (enq_val item t seq) = some t
puts_at (enq_pub item t seq) = some t
puts_at _ = none

abbrev pub takes_at : Pc → Option ℕ
takes_at (deq_val h) = some h
takes_at (deq_pub h v) = some h
takes_at _ = none

module _ (r : Ring) (m : Shared) (puts : ℕ → ℕ) where
  abbrev pub IsFresh : Pc → Type 0
  IsFresh (enq_seq item t) = (t < 2 ^ 63) × (t ≤ tail_index m)
  IsFresh (enq_cas item t seq) =
      (seq ≡ t) × (t < 2 ^ 63) × (t ≤ tail_index m) × (tail_index m ≡ t → (cell r m t).seq ≡ t)
  IsFresh (enq_val item t seq) =
      (seq ≡ t) × (m.head ≤ t) × (t < tail_index m) × ((cell r m t).seq ≡ t) × (puts t ≡ item)
  IsFresh (enq_pub item t seq) =
      (seq ≡ t)
      × (m.head ≤ t)
      × (t < tail_index m)
      × ((cell r m t).seq ≡ t)
      × (puts t ≡ item)
      × ((cell r m t).val ≡ item)
  IsFresh (deq_seq h) = h ≤ m.head
  IsFresh (deq_cas h) = (h ≤ m.head) × (m.head ≡ h → (cell r m h).seq ≡ h + 1)
  IsFresh (deq_val h) =
      (h < m.head)
      × (tail_index m ≤ h + r.size)
      × ((cell r m h).seq ≡ h + 1)
      × ((cell r m h).val ≡ puts h)
  IsFresh (deq_pub h v) =
      (h < m.head) × (tail_index m ≤ h + r.size) × ((cell r m h).seq ≡ h + 1) × (puts h ≡ v)
  IsFresh _ = Unit {0}

  -- A ticket that is out but not served: its cell waits for the item, or holds it.
  abbrev pub Filled : ℕ → Type 0
  Filled t = ((cell r m t).seq ≡ t) ⊎ (((cell r m t).seq ≡ t + 1) × ((cell r m t).val ≡ puts t))

  -- A ticket that comes next: its cell is free, or about to be freed by the ticket before.
  abbrev pub IsVacant : ℕ → Type 0
  IsVacant t = ((cell r m t).seq ≡ t) ⊎ ((cell r m t).seq + r.size ≡ t + 1)

  -- The shared memory. `k` bounds the tickets handed out so far.
  pub record Consistent (k : ℕ) : Type 0 where
    pub order : m.head ≤ tail_index m
    pub room : tail_index m ≤ m.head + r.size
    pub word : m.tail < 2 ^ 64
    pub open_unless : r.linked ≡ false → m.tail < 2 ^ 63
    pub few : tail_index m ≤ k
    pub filled : (t : ℕ) → m.head ≤ t → t < tail_index m → Filled t
    pub vacant : (t : ℕ) → tail_index m ≤ t → t < m.head + r.size → IsVacant t

-- Only a thread of a linked ring runs `close`.
abbrev pub IsAllowed : Ring → Pc → Type 0
IsAllowed r (enq_close item) = r.linked ≡ true
IsAllowed r closing = r.linked ≡ true
IsAllowed r _ = Unit {0}

pub record Inv (r : Ring) (k : ℕ) (s : System) : Type 0 where
  pub ok : Consistent r s.mem s.puts k
  pub allowed : (i : ℕ) → IsAllowed r (s.pc i)
  pub fresh : (i : ℕ) → IsFresh r s.mem s.puts (s.pc i)
  pub one_put : (i j t : ℕ) → puts_at (s.pc i) ≡ some t → puts_at (s.pc j) ≡ some t → i ≡ j
  pub one_take : (i j h : ℕ) → takes_at (s.pc i) ≡ some h → takes_at (s.pc j) ≡ some h → i ≡ j
