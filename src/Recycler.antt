-- ===== src/Recycler.antt =====
-- include/util/hazard/Recycler/Recycler.hpp: `Recycler`, one shared access of one thread at a time; a
-- call of a bucket is one access. Thread `i` holds ticket `i`. The objects behind the indices and the
-- metadata are not in the state.
pub mod System
pub mod Held
pub mod Inv
pub mod Steps
pub mod Returns
pub mod Safety
pub mod Runs
pub mod Grace
mod Tests
use mpmc_queues.Base.{
  ℕ, zero, suc, ◌+◌, ◌%◌, ◌^◌, bit_and, Bool, true, false, not, ◌&&◌, Option, none, some, ltb, ◌==◌,
  if◌then◌else◌, update,
}
use mpmc_queues.Epoch as EpochCell
use mpmc_queues.Ring.{LFring}
use mpmc_queues.Ring as Ring
use mpmc_queues.Ring.Raw.{RawRing}

pub data BucketState : Type 0 where
  current : BucketState
  grace : BucketState
  free : BucketState
  next : BucketState

abbrev pub offset_of : BucketState → ℕ
offset_of current = 0
offset_of grace = 3
offset_of free = 2
offset_of next = 1

-- The number of the bucket, as `get_bucket` computes it.
unfoldable pub bucket_of : (epoch : ℕ) → BucketState → ℕ
bucket_of epoch state = bit_and ((epoch + offset_of state) % 2 ^ 64) 3

pub record Config : Type 0 where
  pub capacity : ℕ
  pub max_threads : ℕ
  pub no_cache : Bool
  pub min_order : ℕ

-- `cells` are the words of the threads' epoch cells; `atom` is the location that
-- `protect_epoch_and_load` reads.
pub record Shared {R : Type 0} (raw : RawRing R) : Type 0 where
  pub epoch : ℕ
  pub cells : ℕ → ℕ
  pub buckets : ℕ → LFring raw
  pub atom : ℕ

-- Where a thread stands. In `reclaim`, `a` counts the attempts, `act` is `was_active`, `e` is the local
-- epoch and `i` the thread that `can_advance_epoch` looks at.
pub data Pc : Type 0 where
  idle : Pc
  prot_load : Pc
  prot_store : (e : ℕ) → Pc
  clr : Pc
  pal_load : Pc
  pal_store : (e : ℕ) → Pc
  pal_atom : Pc
  pal_again : (v : ℕ) → Pc
  ret_look : (idx : ℕ) → Pc
  ret_load : (idx : ℕ) → Pc
  ret_store : (idx e : ℕ) → Pc
  ret_put : (idx : ℕ) (act : Bool) (e : ℕ) → Pc
  ret_clear : Pc
  rec_look : Pc
  rec_load : (a : ℕ) → Pc
  rec_store : (a e : ℕ) → Pc
  rec_get : (a : ℕ) (act : Bool) (e : ℕ) → Pc
  rec_cell : (a : ℕ) (act : Bool) (e i : ℕ) → Pc
  rec_epoch : (a : ℕ) (act : Bool) (e i : ℕ) → Pc
  rec_cas : (a : ℕ) (act : Bool) (e : ℕ) → Pc
  rec_check : (a : ℕ) (act : Bool) (e : ℕ) → Pc
  rec_clear : (got : Option ℕ) → Pc
  cache_get : Pc
  cache_put : (idx : ℕ) → Pc
  returned : Pc
  loaded : (v : ℕ) → Pc
  gave : Option ℕ → Pc
  aborted : Pc

pub data Call : Type 0 where
  protect_epoch : Call
  clear_epoch : Call
  protect_epoch_and_load : Call
  retire : (idx : ℕ) → Call
  reclaim : Call
  get_from_cache : Call
  put_in_cache : (idx : ℕ) → Call

unfoldable pub call : (no_cache : Bool) → Call → Pc
call no_cache protect_epoch = prot_load
call no_cache clear_epoch = clr
call no_cache protect_epoch_and_load = pal_load
call no_cache (retire idx) = ret_look idx
call no_cache reclaim = rec_look
call no_cache get_from_cache = if no_cache then gave none else cache_get
call no_cache (put_in_cache idx) = if no_cache then aborted else cache_put idx

abbrev pub max_attempts : ℕ
max_attempts = 3

-- The bucket behind `cache_`.
abbrev pub cache_bucket : ℕ
cache_bucket = 4

-- The end of `reclaim`, which clears the cell if the call has set it.
abbrev pub finish : (act : Bool) → Option ℕ → Pc
finish act got = if act then gave got else rec_clear got

-- The next round of the loop of `reclaim`.
unfoldable pub attempt : (a : ℕ) (act : Bool) (e : ℕ) → Pc
attempt a act e =
    if ltb a max_attempts then (if act then rec_get a act e else rec_load a) else finish act none

-- The next round of the loop of `can_advance_epoch`.
unfoldable pub scan : (max_threads a : ℕ) (act : Bool) (e i : ℕ) → Pc
scan max_threads a act e i = if ltb i max_threads then rec_cell a act e i else rec_cas a act e

-- Past the dequeue of `reclaim`.
abbrev pub after_get : (max_threads a : ℕ) (act : Bool) (e : ℕ) → Option ℕ → Pc
after_get n a act e (some x) = finish act (some x)
after_get n a act e none = scan n a act e 0

module _ {R : Type 0} (raw : RawRing R) where
  -- The store of a word to the cell of thread `i`, then `p`; `none` is a failed assertion.
  abbrev pub store_word : Shared raw → (i : ℕ) → Pc → Option ℕ → Shared raw × Pc
  store_word m i p (some w) = (record m { cells = update m.cells i w }, p)
  store_word m i p none = (m, aborted)

  -- `EpochCell::protect` on the cell of thread `i`, then `p`.
  unfoldable pub protect : Shared raw → (i e : ℕ) → Pc → Shared raw × Pc
  protect m i e p = store_word m i p (EpochCell.protect e)

  unfoldable pub clear : Shared raw → (i : ℕ) → Shared raw
  clear m i = record m { cells = update m.cells i (EpochCell.clear (m.cells i)) }

  -- The queue `b` gives an index or is empty.
  unfoldable pub take_from : Shared raw → (b : ℕ) → Shared raw × Option ℕ
  take_from m b =
      let (q, got) = Ring.dequeue raw (m.buckets b) in
      (record m { buckets = update m.buckets b q }, got)

  unfoldable pub put_to : Shared raw → (b idx : ℕ) → Shared raw
  put_to m b idx = record m { buckets = update m.buckets b (Ring.enqueue raw idx (m.buckets b)).0 }

  -- One shared access of thread `i`.
  unfoldable pub step : (max_threads i : ℕ) → Shared raw → Pc → Shared raw × Pc
  unfolding protect clear take_from put_to attempt scan
  step n i m prot_load = (m, prot_store m.epoch)
  step n i m (prot_store e) = protect m i e returned
  step n i m clr = (clear m i, returned)
  step n i m pal_load = (m, pal_store m.epoch)
  step n i m (pal_store e) = protect m i e pal_atom
  step n i m pal_atom = (m, pal_again m.atom)
  step n i m (pal_again v) = (m, if v == m.atom then loaded v else pal_load)
  step n i m (ret_look idx) =
      let (act, e) = EpochCell.snapshot (m.cells i) in
      (m, if act then ret_put idx true e else ret_load idx)
  step n i m (ret_load idx) = (m, ret_store idx m.epoch)
  step n i m (ret_store idx e) = protect m i e (ret_put idx false e)
  step n i m (ret_put idx act e) =
      (put_to m (bucket_of e grace) idx, if act then returned else ret_clear)
  step n i m ret_clear = (clear m i, returned)
  step n i m rec_look = let (act, e) = EpochCell.snapshot (m.cells i) in (m, attempt 0 act e)
  step n i m (rec_load a) = (m, rec_store a m.epoch)
  step n i m (rec_store a e) = protect m i e (rec_get a false e)
  step n i m (rec_get a act e) =
      let (m', got) = take_from m (bucket_of e free) in (m', after_get n a act e got)
  step n i m (rec_cell a act e k) =
      let (active, t_epoch) = EpochCell.snapshot (m.cells k) in
      (m, if active && not (t_epoch == e) then rec_check a act e else rec_epoch a act e k)
  step n i m (rec_epoch a act e k) =
      (m, if m.epoch == e then scan n a act e (k + 1) else rec_check a act e)
  step n i m (rec_cas a act e) =
      (if m.epoch == e then record m { epoch = (e + 1) % 2 ^ 64 } else m, rec_check a act e)
  step n i m (rec_check a act e) =
      (m, if m.epoch == e then finish act none else attempt (a + 1) act e)
  step n i m (rec_clear got) = (clear m i, gave got)
  step n i m cache_get = let (m', got) = take_from m cache_bucket in (m', gave got)
  step n i m (cache_put idx) = (put_to m cache_bucket idx, returned)
  step n i m idle = (m, idle)
  step n i m returned = (m, returned)
  step n i m (loaded v) = (m, loaded v)
  step n i m (gave got) = (m, gave got)
  step n i m aborted = (m, aborted)

  -- The loop of the constructor that fills a bucket with the indices from `i` on.
  unfoldable pub fill : (left i : ℕ) → LFring raw → LFring raw
  fill zero i q = q
  fill (suc n) i q = fill n (i + 1) (Ring.enqueue raw i q).0

  unfoldable pub construct : Config → (atom : ℕ) → Shared raw
  construct c atom =
      let empty = Ring.construct raw c.min_order c.capacity in
      record {
        epoch = 0;
        cells = λ _. 0;
        buckets = update (λ _. empty) (bucket_of 0 free) (fill c.capacity 0 empty);
        atom = atom;
      }
