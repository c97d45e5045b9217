-- ===== src/Prq/Step.antt =====
-- The accesses of `PRQueue` and `LinkedPRQ` (include/queue/segment/PRQSegment.hpp).
use mpmc_queues.Base.{
  ℕ, bit_and, bit_or, true, false, not, ◌&&◌, ◌||◌, Option, none, some, ltb, leb, ◌==◌,
  if◌then◌else◌,
}
use mpmc_queues.Bit.{get_msb, set_msb, clear_msb}
use mpmc_queues.CasLoop.{Ring, slot, add64}
use mpmc_queues.Prq.{
  Shared, Pc, idle, enq_info, enq_add, enq_tag, enq_seq, enq_val, enq_head, enq_reserve, enq_mark,
  enq_put, enq_unset, enq_full, enq_close, deq_add, deq_seq, deq_val, deq_same, deq_take, deq_still,
  deq_mark, deq_load, deq_clear, deq_skip, deq_tail, fix_tail, fix_head, fix_cas, shut, enqueued,
  dequeued, closed, undefined, is_closed_, is_reserved, thread_reserved, max_reload, max_retry,
  add32, set_val, set_seq, close_tail,
}

-- What a dequeue does with a cell that has no item, after its look at `tail`.
unfoldable pub judge : (h n : ℕ) (tail : Option ℕ) (packed val : ℕ) → Pc
judge h n none packed val =
    if get_msb 64 packed == 0
    then undefined
    else if is_reserved val
    then deq_clear h n none packed val
    else deq_skip h n none packed
judge h n (some t) packed val =
    if not (get_msb 64 packed == 0)
      || ltb (clear_msb 64 t) (add64 h 1)
      || not (t == clear_msb 64 t)
      || ltb max_retry n
    then if is_reserved val then deq_clear h n (some t) packed val else deq_skip h n (some t) packed
    else deq_seq h (add32 n 1) (some t)

-- After the two equal loads of `seq`.
unfoldable pub inspect : Ring → (h n : ℕ) (tail : Option ℕ) (packed val : ℕ) → Pc
unfolding judge
inspect r h n tail packed val =
    let seq = clear_msb 64 packed in
    if ltb (add64 h r.size) seq
    then deq_tail h
    else if not (val == 0) && not (is_reserved val)
    then (if seq == add64 h r.size
        then deq_take h val
        else if get_msb 64 packed == 0
        then deq_mark h n tail packed
        else deq_still h n tail packed)
    else if bit_and n max_reload == 0
    then deq_load h n packed val
    else judge h n tail packed val

-- One shared access. `tid` is the `thread_local` of `threadReserved`, once it is set.
unfoldable pub step : Ring → (tid : Option ℕ) → Shared → Pc → Shared × Option ℕ × Pc
step r tid m (enq_info item) = (m, tid, if is_closed_ m.tail then enqueued false else enq_add item)
step r tid m (enq_add item) = (
  record m { tail = add64 m.tail 1 },
  tid,
  if r.linked && is_closed_ m.tail
      then enqueued false
      else elim tid [ none ↦ enq_tag item m.tail | some tagged ↦ enq_seq item m.tail tagged ],
)
step r tid m (enq_tag item t) =
    let tagged = thread_reserved m.counter in
    (record m { counter = add64 m.counter 1 }, some tagged, enq_seq item t tagged)
step r tid m (enq_seq item t tagged) = (m, tid, enq_val item t tagged (m.cells (slot r t)).seq)
step r tid m (enq_val item t tagged seq) = (
  m,
  tid,
  if (m.cells (slot r t)).val == 0 && leb (clear_msb 64 seq) t
      then if get_msb 64 seq == 0 then enq_reserve item t tagged seq else enq_head item t tagged seq
      else enq_full item t,
)
step r tid m (enq_head item t tagged seq) =
    (m, tid, if leb m.head t then enq_reserve item t tagged seq else enq_full item t)
step r tid m (enq_reserve item t tagged seq) =
    if (m.cells (slot r t)).val == 0
    then (set_val r m t tagged, tid, enq_mark item t tagged seq)
    else (m, tid, enq_unset item t tagged)
step r tid m (enq_mark item t tagged seq) =
    if (m.cells (slot r t)).seq == seq
    then (set_seq r m t (add64 t r.size), tid, enq_put item t tagged)
    else (m, tid, enq_full item t)
step r tid m (enq_put item t tagged) =
    if (m.cells (slot r t)).val == tagged
    then (set_val r m t item, tid, enqueued true)
    else (m, tid, enq_full item t)
step r tid m (enq_unset item t tagged) =
    (if (m.cells (slot r t)).val == tagged then set_val r m t 0 else m, tid, enq_full item t)
step r tid m (enq_full item t) =
    (m, tid, if leb (add64 m.head r.size) t && r.linked then enq_close else enq_add item)
step r tid m enq_close = (close_tail m, tid, enqueued false)
step r tid m deq_add = (record m { head = add64 m.head 1 }, tid, deq_seq m.head 0 none)
step r tid m (deq_seq h n tail) = (m, tid, deq_val h n tail (m.cells (slot r h)).seq)
step r tid m (deq_val h n tail packed) = (m, tid, deq_same h n tail packed (m.cells (slot r h)).val)
step r tid m (deq_same h n tail packed val) = (
  m,
  tid,
  if packed == (m.cells (slot r h)).seq then inspect r h n tail packed val else deq_seq h n tail,
)
step r tid m (deq_take h val) = (set_val r m h 0, tid, dequeued (some val))
step r tid m (deq_still h n tail packed) =
    (m, tid, if (m.cells (slot r h)).seq == packed then deq_tail h else deq_seq h (add32 n 1) tail)
step r tid m (deq_mark h n tail packed) =
    if (m.cells (slot r h)).seq == packed
    then (set_seq r m h (set_msb 64 (clear_msb 64 packed)), tid, deq_tail h)
    else (m, tid, deq_seq h (add32 n 1) tail)
step r tid m (deq_load h n packed val) = (m, tid, judge h n (some m.tail) packed val)
step r tid m (deq_clear h n tail packed val) =
    if (m.cells (slot r h)).val == val
    then (set_val r m h 0, tid, deq_skip h n tail packed)
    else (m, tid, deq_seq h n tail)
step r tid m (deq_skip h n tail packed) =
    if (m.cells (slot r h)).seq == packed
    then (set_seq r m h (bit_or (get_msb 64 packed) (add64 h r.size)), tid, deq_tail h)
    else (m, tid, deq_seq h (add32 n 1) tail)
step r tid m (deq_tail h) =
    (m, tid, if ltb (clear_msb 64 m.tail) (add64 h 1) then fix_tail else deq_add)
step r tid m fix_tail = (m, tid, fix_head m.tail)
step r tid m (fix_head t) = (m, tid, if ltb t m.head then fix_cas t m.head else dequeued none)
step r tid m (fix_cas t h) =
    if m.tail == t
    then (record m { tail = h }, tid, dequeued none)
    else (m, tid, if ltb m.tail h then fix_cas m.tail h else dequeued none)
step r tid m shut = (close_tail m, tid, closed)
step r tid m idle = (m, tid, idle)
step r tid m (enqueued b) = (m, tid, enqueued b)
step r tid m (dequeued v) = (m, tid, dequeued v)
step r tid m closed = (m, tid, closed)
step r tid m undefined = (m, tid, undefined)
