-- ===== src/Ring.antt =====
-- include/queue/segment/LFring.hpp: `LFring`, a queue of indices over the ring of a third-party
-- library, and `LFringSlab`, a block of such queues. The ring and the constants of its header are
-- parameters.
pub mod Raw
pub mod Queue
pub mod Blocks
pub mod Listed
mod Tests
use mpmc_queues.Base.{
  ℕ, zero, suc, ◌+◌, ◌*◌, ◌%◌, ◌^◌, Bool, true, false, Option, none, some, List, [], ◌∷◌, ◌==◌, ltb,
  leb, if◌then◌else◌,
}
use mpmc_queues.Bit.{log2}
use mpmc_queues.Ring.Raw.{RawRing, lfring_empty}

abbrev pub cache_line : ℕ
cache_line = 64

-- `order_`, on a `size_t`; `min_order` is `LFRING_MIN_ORDER`.
unfoldable pub order_of : (min_order s : ℕ) → ℕ
order_of min_order s =
    let o = log2 64 s in
    let up = if ltb (2 ^ o) s then o + 1 else o in if leb min_order up then up else min_order

-- `ring_bytes` is `LFRING_SIZE`.
unfoldable pub bytes_needed : (ring_bytes : ℕ → ℕ) (min_order size : ℕ) → ℕ
bytes_needed ring_bytes min_order size =
    (cache_line + ring_bytes (order_of min_order size)) % 2 ^ 64

module _ {R : Type 0} (raw : RawRing R) where
  open raw use {init_empty, ring_enqueue, ring_dequeue}

  pub record LFring : Type 0 where
    pub scq_order : ℕ
    pub ring : R

  unfoldable pub construct : (min_order size : ℕ) → LFring
  construct min_order size =
      let o = order_of min_order size in record { scq_order = o; ring = init_empty o }

  unfoldable pub enqueue : ℕ → LFring → LFring × Bool
  enqueue item q = let (r, ok) = ring_enqueue q.scq_order item q.ring in (record q { ring = r }, ok)

  unfoldable pub dequeue : LFring → LFring × Option ℕ
  dequeue q =
      let (r, i) = ring_dequeue q.scq_order q.ring in
      (record q { ring = r }, if i == lfring_empty then none else some i)

  unfoldable pub capacity : LFring → ℕ
  capacity q = 2 ^ q.scq_order

  unfoldable pub size : LFring → ℕ
  size q = 0

-- The slab: the addresses that its loop constructs queues at, with the queues left, and `get`;
-- `none` is a failed assertion.
unfoldable pub place_queues : (left cursor stride : ℕ) → List ℕ
place_queues zero cursor stride = []
place_queues (suc n) cursor stride = cursor ∷ place_queues n (cursor + stride) stride

pub record Slab : Type 0 where
  pub count : ℕ
  pub stride : ℕ
  pub memory : ℕ

-- The slab at the address `memory` that the allocator gave, and the bytes asked for.
unfoldable pub construct_slab :
    (ring_bytes : ℕ → ℕ) (min_order count size_per_queue memory : ℕ) → Slab × ℕ
construct_slab ring_bytes min_order count size_per_queue memory =
    let stride = bytes_needed ring_bytes min_order size_per_queue in
    (record { count = count; stride = stride; memory = memory }, stride * count % 2 ^ 64)

unfoldable pub get : Slab → (index : ℕ) → Option ℕ
get s index = if ltb index s.count then some (s.memory + index * s.stride % 2 ^ 64) else none
