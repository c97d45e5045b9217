-- ===== src/Scq.antt =====
-- include/queue/segment/SCQueue.hpp: `SCQueue` and `LinkedSCQ`, a buffer whose slots go round between
-- a ring of free and a ring of filled indices, one shared access of one thread at a time; a call of
-- a ring of the third-party library is one access. `next_` is the proxy's.
pub mod Raw
pub mod System
pub mod Inv
pub mod Steps
pub mod Refine
pub mod Returns
pub mod Safety
pub mod Listed
pub mod Closing
pub mod Layout
pub mod Tests
use mpmc_queues.Base.{
  ℕ, zero, suc, ◌+◌, ◌-◌, ◌*◌, ◌%◌, ◌^◌, Bool, true, false, ◌&&◌, Option, none, some, ltb, leb,
  ◌==◌, if◌then◌else◌, update,
}
use mpmc_queues.Bit.{log2}
use mpmc_queues.Ring.Raw.{lfring_empty}
use mpmc_queues.Scq.Raw.{Rings}

abbrev pub cache_line : ℕ
cache_line = 64

-- The layout of a block: two rings and the buffer. `lfring_size` is `LFRING_SIZE`, `item_bytes` the size
-- of an item. The sums are of `size_t`.
unfoldable pub align_size : ℕ → ℕ
align_size s = if s % cache_line == 0 then s else (s + cache_line - s % cache_line) % 2 ^ 64

unfoldable pub ring_bytes : (lfring_size : ℕ → ℕ) → (order : ℕ) → ℕ
ring_bytes lfring_size order = align_size (lfring_size order)

unfoldable pub buffer_bytes : (item_bytes order : ℕ) → ℕ
buffer_bytes item_bytes order = align_size (item_bytes * 2 ^ order % 2 ^ 64)

unfoldable pub total_bytes_needed : (lfring_size : ℕ → ℕ) (item_bytes order : ℕ) → ℕ
total_bytes_needed lfring_size item_bytes order =
    (ring_bytes lfring_size order * 2 + buffer_bytes item_bytes order) % 2 ^ 64

-- The addresses of `aq_`, `fq_` and `underlying` in the block at `base`.
unfoldable pub setup_pointers : (lfring_size : ℕ → ℕ) (base order : ℕ) → ℕ × ℕ × ℕ
setup_pointers lfring_size base order =
    let r = ring_bytes lfring_size order in (base, base + r, base + r + r)

-- `scq_order`; `min_order` is `LFRING_MIN_ORDER`, and `none` is the failed assertion of the constructor.
unfoldable pub order_of : (min_order size : ℕ) → Option ℕ
order_of min_order size = if leb min_order (log2 64 size) then some (log2 64 size) else none

-- The order that the constructor with a buffer and `create` take.
unfoldable pub clamped_order : (min_order size : ℕ) → ℕ
clamped_order min_order size = if leb min_order (log2 64 size) then log2 64 size else min_order

-- `LinkedSCQ::create` puts the rings and the buffer behind the object; `object_bytes` is the size of
-- the object, and `create_bytes` the size of the block.
unfoldable pub compute_buffer_addr : (object_bytes self : ℕ) → ℕ
compute_buffer_addr object_bytes self =
    let addr = (self + object_bytes) % 2 ^ 64 in
    if addr % cache_line == 0 then addr else (addr + (cache_line - addr % cache_line)) % 2 ^ 64

unfoldable pub create_bytes : (lfring_size : ℕ → ℕ) (item_bytes object_bytes min_order size : ℕ) → ℕ
create_bytes lfring_size item_bytes object_bytes min_order size =
    (align_size object_bytes
      + total_bytes_needed lfring_size item_bytes (clamped_order min_order size))
    % 2 ^ 64

-- Where a thread stands; `info` is the second argument of `LinkedSCQ::enqueue`.
pub data Pc : Type 0 where
  idle : Pc
  enq_info : (item : ℕ) → Pc
  enq_take : (item : ℕ) → Pc
  enq_shut : Pc
  enq_write : (item e : ℕ) → Pc
  enq_put : (item e : ℕ) → Pc
  enq_back : (e : ℕ) → Pc
  deq_take : Pc
  deq_read : (e : ℕ) → Pc
  deq_back : (e item : ℕ) → Pc
  shut : Pc
  enqueued : Bool → Pc
  dequeued : Option ℕ → Pc
  closed : Pc

pub data Call : Type 0 where
  enqueue : (info : Bool) → ℕ → Call
  dequeue : Call
  close : Call

unfoldable pub call : Call → Pc
call (enqueue info item) = if info then enq_info item else enq_take item
call dequeue = deq_take
call close = shut

pub record Shared (R : Type 0) : Type 0 where
  pub aq : R
  pub fq : R
  pub underlying : ℕ → ℕ

module _ {R : Type 0} (rings : Rings R) (order : ℕ) where
  open rings use {
    lfring_init_empty, lfring_init_full, lfring_enqueue, lfring_dequeue, lfring_close, lfring_open,
    lfring_is_closed, lfring_reset_threshold, lfring_get_head, lfring_get_tail,
  }

  unfoldable pub construct : (raw : ℕ → ℕ) → Shared R
  construct raw = record {
    aq = lfring_init_empty order;
    fq = lfring_init_full order;
    underlying = raw;
  }

  -- One shared access; `auto_close` is `AUTO_CLOSE`.
  unfoldable pub step : (auto_close : Bool) → Shared R → Pc → Shared R × Pc
  step auto_close m (enq_info item) =
      (m, if lfring_is_closed m.fq then enqueued false else enq_take item)
  step auto_close m (enq_take item) =
      let (fq, e) = lfring_dequeue order m.fq in
      (
        record m { fq = fq },
        if e == lfring_empty
            then if auto_close then enq_shut else enqueued false
            else enq_write item e,
      )
  step auto_close m enq_shut = (record m { aq = lfring_close m.aq }, enqueued false)
  step auto_close m (enq_write item e) =
      (record m { underlying = update m.underlying e item }, enq_put item e)
  step auto_close m (enq_put item e) =
      let (aq, ok) = lfring_enqueue order e m.aq in
      (record m { aq = aq }, if ok then enqueued true else enq_back e)
  step auto_close m (enq_back e) =
      (record m { fq = (lfring_enqueue order e m.fq).0 }, enqueued false)
  step auto_close m deq_take =
      let (aq, e) = lfring_dequeue order m.aq in
      (record m { aq = aq }, if e == lfring_empty then dequeued none else deq_read e)
  step auto_close m (deq_read e) = (m, deq_back e (m.underlying e))
  step auto_close m (deq_back e item) =
      (record m { fq = (lfring_enqueue order e m.fq).0 }, dequeued (some item))
  step auto_close m shut = (record m { fq = lfring_close m.fq }, closed)
  step auto_close m idle = (m, idle)
  step auto_close m (enqueued b) = (m, enqueued b)
  step auto_close m (dequeued v) = (m, dequeued v)
  step auto_close m closed = (m, closed)

  unfoldable pub size : Shared R → ℕ
  size m =
      let h = lfring_get_head m.aq in let t = lfring_get_tail m.aq in if ltb t h then 0 else t - h

  -- Functions of `LinkedSCQ` that take one access or need exclusive ownership.
  unfoldable pub is_closed : Shared R → Bool
  is_closed m = lfring_is_closed m.fq

  unfoldable pub open_segment : Shared R → Shared R
  open_segment m = record m { fq = lfring_reset_threshold order (lfring_open m.fq) }

  unfoldable pub prepare_dequeue_after_next_linked : Shared R → Shared R
  prepare_dequeue_after_next_linked m = record m { aq = lfring_reset_threshold order m.aq }

unfoldable pub capacity : (order : ℕ) → ℕ
capacity order = 2 ^ order % 2 ^ 32
