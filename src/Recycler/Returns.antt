-- ===== src/Recycler/Returns.antt =====
-- The index that a call of `Recycler` returns, with the access that ends the call.
use mpmc_queues.Base.{
  ℕ, ◌+◌, ◌<◌, ◌≡◌, ◌⊎◌, inl, inr, refl, sym, ap, ◌∙◌, arith, Bool, true, false, ◌==◌,
  if◌then◌else◌, ltb, Bool-cases, Option, none, some, count, tally, eq→==,
}
use mpmc_queues.Epoch as EpochCell
use mpmc_queues.Ring as Ring
use mpmc_queues.Ring.Raw.{RawRing}
use mpmc_queues.Ring.Queue.{dequeue-some}
use mpmc_queues.Recycler.{
  Pc, step, bucket_of, free, grace, cache_bucket, attempt, scan, finish, max_attempts, protect,
  store_word, take_from, after_get, idle, prot_load, prot_store, clr, pal_load, pal_store, pal_atom,
  pal_again, ret_look, ret_load, ret_store, ret_put, ret_clear, rec_look, rec_load, rec_store,
  rec_get, rec_cell, rec_epoch, rec_cas, rec_check, rec_clear, cache_get, cache_put, returned,
  loaded, gave, aborted,
}
use mpmc_queues.Recycler.System.{System, placed, pooled, client, pending}
use mpmc_queues.Recycler.Held.{
  count-le-held, count-count-le-held, in_pool_pos, in_pool-le, bucket_of-lt, grace-apart,
}
use mpmc_queues.Recycler.Inv.{Inv}

-- The index that a call has returned.
abbrev pub gives : Pc → Option ℕ
gives (gave got) = got
gives _ = none

-- The index that `reclaim` has taken.
abbrev pub takes : Pc → Option ℕ
takes (gave got) = got
takes (rec_clear got) = got
takes _ = none

clash {ℓ} : {A : Type ℓ} {o : Option ℕ} {x : ℕ} → o ≡ none → o ≡ some x → A
clash a b = absurd (let z : none ≡ some _ = sym a ∙ b in cc)

gives-if :
    (b : Bool) (p q : Pc) → gives p ≡ none → gives q ≡ none → gives (if b then p else q) ≡ none
gives-if true p q a c = a
gives-if false p q a c = c

gives-finish : (act : Bool) → gives (finish act none) ≡ none
gives-finish true = refl
gives-finish false = refl

gives-scan : (n a : ℕ) (act : Bool) (e k : ℕ) → gives (scan n a act e k) ≡ none
unfolding scan
gives-scan n a act e k = gives-if (ltb k n) (rec_cell a act e k) (rec_cas a act e) refl refl

takes-scan : (n a : ℕ) (act : Bool) (e k : ℕ) → takes (scan n a act e k) ≡ none
unfolding scan
takes-scan n a act e k = elim (Bool-cases (ltb k n)) [ inl y ↦ rw y refl | inr y ↦ rw y refl ]

gives-attempt : (a : ℕ) (act : Bool) (e : ℕ) → gives (attempt a act e) ≡ none
unfolding attempt
gives-attempt a true e = elim (Bool-cases (ltb a max_attempts)) [
  | inl y ↦ rw y refl
  | inr y ↦ rw y refl
]
gives-attempt a false e = elim (Bool-cases (ltb a max_attempts)) [
  | inl y ↦ rw y refl
  | inr y ↦ rw y refl
]

module _ {R : Type 0} (raw : RawRing R) {order : ℕ} (s : System raw) (inv : Inv raw order s)
    (i : ℕ) where
  open raw use {items}
  open inv use {pool, mine}

  gives-protect : (e : ℕ) (p' : Pc) → gives p' ≡ none → gives (protect raw s.mem i e p').1 ≡ none
  unfolding protect
  gives-protect e p' h = from (EpochCell.protect e)
    where
      from : (o : Option ℕ) → gives (store_word raw s.mem i p' o).1 ≡ none
      from none = refl
      from (some w) = h

  -- What a bucket gives was in the pool.
  head_pooled : (k x : ℕ) → k < 5 → (take_from raw s.mem k).1 ≡ some x → s.place x ≡ pooled
  unfolding take_from Ring.dequeue
  head_pooled k x lt e =
      let first = dequeue-some raw (s.mem.buckets k) x e in
      let one : tally x x ≡ 1 = rw (eq→== x x refl) refl in
      in_pool_pos (s.place x)
        (omega (arith, ap (count x) first, one, count-le-held raw s.mem.buckets 5 k x lt, pool x))

  abbrev pub Comes : (p p' : Pc) (x : ℕ) → Type 0
  Comes p p' x =
      ((s.place x ≡ pooled) ⊎ (s.place x ≡ pending i)) × (placed raw i p p' s.place x ≡ client)

  pub gives-step :
      (n : ℕ) (p : Pc) (x : ℕ)
      → s.pc i ≡ p
      → gives p ≡ none
      → gives (step raw n i s.mem p).1 ≡ some x
      → Comes p (step raw n i s.mem p).1 x
  unfolding step
  gives-step n idle x e was h = clash refl h
  gives-step n prot_load x e was h = clash refl h
  gives-step n (prot_store ep) x e was h = clash (gives-protect ep returned refl) h
  gives-step n clr x e was h = clash refl h
  gives-step n pal_load x e was h = clash refl h
  gives-step n (pal_store ep) x e was h = clash (gives-protect ep pal_atom refl) h
  gives-step n pal_atom x e was h = clash refl h
  gives-step n (pal_again v) x e was h =
      clash (gives-if (v == s.mem.atom) (loaded v) pal_load refl refl) h
  gives-step n (ret_look idx) x e was h =
      clash (gives-if (EpochCell.snapshot (s.mem.cells i)).0 _ (ret_load idx) refl refl) h
  gives-step n (ret_load idx) x e was h = clash refl h
  gives-step n (ret_store idx ep) x e was h = clash (gives-protect ep (ret_put idx false ep) refl) h
  gives-step n (ret_put idx act ep) x e was h = clash (gives-if act returned ret_clear refl refl) h
  gives-step n ret_clear x e was h = clash refl h
  gives-step n rec_look x e was h = clash (gives-attempt 0 _ _) h
  gives-step n (rec_load a) x e was h = clash refl h
  gives-step n (rec_store a ep) x e was h = clash (gives-protect ep (rec_get a false ep) refl) h
  gives-step n (rec_get a act ep) x e was h =
      from act (take_from raw s.mem (bucket_of ep free)).1 refl h
    where
      from :
          (act : Bool) (o : Option ℕ)
          → (take_from raw s.mem (bucket_of ep free)).1 ≡ o
          → gives (after_get n a act ep o) ≡ some x
          → Comes (rec_get a act ep) (after_get n a act ep o) x
      from act none f g = clash (gives-scan n a act ep 0) g
      from false (some y) f g = clash refl g
      from true (some y) f g =
          let same : y ≡ x = cc in
          let lt : bucket_of ep free < 5 = omega (arith, bucket_of-lt ep free) in
          (inl (head_pooled (bucket_of ep free) x lt (f ∙ g)), rw (eq→== y x same) refl)
  gives-step n (rec_cell a act ep k) x e was h =
      clash (gives-if _ (rec_check a act ep) (rec_epoch a act ep k) refl refl) h
  gives-step n (rec_epoch a act ep k) x e was h =
      clash
        (gives-if _ (scan n a act ep (k + 1)) (rec_check a act ep) (gives-scan n a act ep (k + 1))
          refl)
        h
  gives-step n (rec_cas a act ep) x e was h = clash refl h
  gives-step n (rec_check a act ep) x e was h =
      clash
        (gives-if _ (finish act none) (attempt (a + 1) act ep) (gives-finish act)
          (gives-attempt (a + 1) act ep))
        h
  gives-step n (rec_clear none) x e was h = clash refl h
  gives-step n (rec_clear (some y)) x e was h =
      let same : y ≡ x = cc in (inr (mine i x (rw e same)), rw (eq→== y x same) refl)
  gives-step n cache_get x e was h = from (take_from raw s.mem cache_bucket).1 refl h
    where
      from :
          (o : Option ℕ)
          → (take_from raw s.mem cache_bucket).1 ≡ o
          → o ≡ some x
          → Comes cache_get (gave o) x
      from none f g = clash refl g
      from (some y) f g =
          let same : y ≡ x = cc in
          (inl (head_pooled cache_bucket x (omega arith) (f ∙ g)), rw (eq→== y x same) refl)
  gives-step n (cache_put idx) x e was h = clash refl h
  gives-step n returned x e was h = clash refl h
  gives-step n (loaded v) x e was h = clash refl h
  gives-step n (gave got) x e was h = clash was h
  gives-step n aborted x e was h = clash refl h

  -- What `reclaim` takes at epoch `ep` does not stand in the bucket of the indices retired at `ep`.
  pub takes-step :
      (n a : ℕ) (act : Bool) (ep x : ℕ)
      → takes (step raw n i s.mem (rec_get a act ep)).1 ≡ some x
      → count x (items (s.mem.buckets (bucket_of ep grace)).ring) ≡ 0
  unfolding step take_from Ring.dequeue
  takes-step n a act ep x h = from act (take_from raw s.mem (bucket_of ep free)).1 refl h
    where
      apart :
          (take_from raw s.mem (bucket_of ep free)).1 ≡ some x
          → count x (items (s.mem.buckets (bucket_of ep grace)).ring) ≡ 0
      apart f =
          let k = bucket_of ep free in
          let one : tally x x ≡ 1 = rw (eq→== x x refl) refl in
          omega (
            arith,
            ap (count x) (dequeue-some raw (s.mem.buckets k) x f),
            one,
            count-count-le-held raw s.mem.buckets 5 k (bucket_of ep grace) x
                (omega (arith, bucket_of-lt ep free)) (omega (arith, bucket_of-lt ep grace))
                (grace-apart ep),
            pool x,
            in_pool-le (s.place x),
          )

      from :
          (act : Bool) (o : Option ℕ)
          → (take_from raw s.mem (bucket_of ep free)).1 ≡ o
          → takes (after_get n a act ep o) ≡ some x
          → count x (items (s.mem.buckets (bucket_of ep grace)).ring) ≡ 0
      from act none f g = clash (takes-scan n a act ep 0) g
      from true (some y) f g = apart (f ∙ g)
      from false (some y) f g = apart (f ∙ g)
