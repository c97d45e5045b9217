-- ===== src/Recycler/System.antt =====
-- Any number of threads over one `Recycler`, interleaved in any order.
use mpmc_queues.Base.{
  ℕ, Bool, true, false, Option, none, some, List, [], ◌∷◌, ltb, ◌&&◌, if◌then◌else◌, update,
}
use mpmc_queues.Ring.Raw.{RawRing}
use mpmc_queues.Recycler.{
  Config, Shared, Pc, Call, retire, put_in_cache, call, step, construct, idle, ret_put, rec_get,
  rec_clear, cache_get, cache_put, returned, loaded, gave,
}

-- Who has an index: the recycler, a client, or a thread inside a call. An index out
-- of range is nowhere.
pub data Place : Type 0 where
  pooled : Place
  client : Place
  pending : (thread : ℕ) → Place
  nowhere : Place

-- `place` is a ghost.
pub record System {R : Type 0} (raw : RawRing R) : Type 0 where
  pub mem : Shared raw
  pub pc : ℕ → Pc
  pub place : ℕ → Place

-- `write` is the client's write to the location that `protect_epoch_and_load` reads.
pub data Event : Type 0 where
  run : (thread : ℕ) → Event
  invoke : (thread : ℕ) → Call → Event
  write : (value : ℕ) → Event

abbrev pub resting : Pc → Bool
resting idle = true
resting returned = true
resting (loaded _) = true
resting (gave _) = true
resting _ = false

abbrev pub is_client : Place → Bool
is_client client = true
is_client _ = false

module _ {R : Type 0} (raw : RawRing R) where
  abbrev pub handed : (to : Place) → Option ℕ → (ℕ → Place) → ℕ → Place
  handed to none place = place
  handed to (some x) place = update place x to

  -- The index that thread `i` returns at `p` goes to the client; one that it keeps is pending.
  abbrev pub given : (thread : ℕ) → (p : Pc) → (ℕ → Place) → ℕ → Place
  given i (gave got) place = handed client got place
  given i (rec_clear got) place = handed (pending i) got place
  given i _ place = place

  -- What an access of thread `i` from `p` to `p'` does to the ghost.
  abbrev pub placed : (thread : ℕ) → (p p' : Pc) → (ℕ → Place) → ℕ → Place
  placed i (ret_put idx act e) p' place = update place idx pooled
  placed i (cache_put idx) p' place = update place idx pooled
  placed i (rec_get a act e) p' place = given i p' place
  placed i (rec_clear got) p' place = given i p' place
  placed i cache_get p' place = given i p' place
  placed i _ p' place = place

  -- A client gives back only an index that a client has.
  abbrev pub may : Config → System raw → Call → Bool
  may c s (retire idx) = is_client (s.place idx)
  may c s (put_in_cache idx) = is_client (s.place idx) && (if c.no_cache then false else true)
  may c s _ = true

  abbrev pub asked : (thread : ℕ) → Call → (ℕ → Place) → ℕ → Place
  asked i (retire idx) place = update place idx (pending i)
  asked i (put_in_cache idx) place = update place idx (pending i)
  asked i _ place = place

  unfoldable pub next : Config → Event → System raw → System raw
  next c (run i) s =
      let (m, p) = step raw c.max_threads i s.mem (s.pc i) in
      record { mem = m; pc = update s.pc i p; place = placed i (s.pc i) p s.place }
  next c (invoke i q) s =
      if resting (s.pc i) && may c s q
      then record s { pc = update s.pc i (call c.no_cache q); place = asked i q s.place }
      else s
  next c (write v) s = record s { mem = record s.mem { atom = v } }

  unfoldable pub run_all : Config → List Event → System raw → System raw
  run_all c [] s = s
  run_all c (e ∷ es) s = run_all c es (next c e s)

  unfoldable pub begin : Config → (atom : ℕ) → System raw
  begin c atom = record {
    mem = construct raw c atom;
    pc = λ _. idle;
    place = λ x. if ltb x c.capacity then pooled else nowhere;
  }
