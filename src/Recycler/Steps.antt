-- ===== src/Recycler/Steps.antt =====
-- Every access of `Recycler` keeps the invariant.
use mpmc_queues.Base.{
  ℕ, ◌+◌, ◌%◌, ◌^◌, ◌≡◌, ◌≢◌, refl, sym, ap, ◌∙◌, arith, Bool, true, false, ◌&&◌, Option, none,
  some, update, ℕ_discrete, eq→==, ne→==, ◌==◌, ltb, if◌then◌else◌, Bool-cases, inl, inr,
}
use mpmc_queues.Epoch as EpochCell
use mpmc_queues.Ring.Raw.{RawRing}
use mpmc_queues.Recycler.{
  Config, Pc, Call, protect_epoch, clear_epoch, protect_epoch_and_load, retire, reclaim,
  get_from_cache, put_in_cache, call, step, bucket_of, grace, free, cache_bucket, attempt, scan,
  finish, max_attempts, protect, clear, take_from, store_word, after_get, idle, prot_load,
  prot_store, clr, pal_load, pal_store, pal_atom, pal_again, ret_look, ret_load, ret_store, ret_put,
  ret_clear, rec_look, rec_load, rec_store, rec_get, rec_cell, rec_epoch, rec_cas, rec_check,
  rec_clear, cache_get, cache_put, returned, loaded, gave, aborted,
}
use mpmc_queues.Recycler.System.{
  System, Event, run, invoke, write, next, placed, handed, resting, may, asked, is_client, Place,
  pooled, client, pending, nowhere,
}
use mpmc_queues.Recycler.Held.{in_pool, bucket_of-lt}
use mpmc_queues.Recycler.Inv.{Inv, Holds, Inv-quiet, Inv-put, Inv-take, Inv-give}

-- The places of `reclaim` hold no index.
abbrev IsFree : Pc → Type 0
IsFree p = (x : ℕ) → Holds p x → ⊥

IsFree-finish : (act : Bool) → IsFree (finish act none)
IsFree-finish true x h = h
IsFree-finish false x h = h

IsFree-scan : (n a : ℕ) (act : Bool) (e i : ℕ) → IsFree (scan n a act e i)
unfolding scan
IsFree-scan n a act e i x h = elim (Bool-cases (ltb i n)) [ inl y ↦ rw y at h | inr y ↦ rw y at h ]

IsFree-attempt : (a : ℕ) (act : Bool) (e : ℕ) → IsFree (attempt a act e)
unfolding attempt
IsFree-attempt a true e x h = elim (Bool-cases (ltb a max_attempts)) [
  | inl y ↦ rw y at h
  | inr y ↦ rw y at h
]
IsFree-attempt a false e x h = elim (Bool-cases (ltb a max_attempts)) [
  | inl y ↦ rw y at h
  | inr y ↦ rw y at h
]

module _ {R : Type 0} (raw : RawRing R) {order : ℕ} (s : System raw) (inv : Inv raw order s)
    (i : ℕ) where
  abbrev moved : (n : ℕ) → Pc → System raw
  moved n p =
      let r = step raw n i s.mem p in
      record { mem = r.0; pc = update s.pc i r.1; place = placed raw i p r.1 s.place }

  looks :
      (p' : Pc)
      → ((x : ℕ) → Holds p' x → Holds (s.pc i) x)
      → Inv raw order (record s { pc = update s.pc i p' })
  looks p' back = Inv-quiet raw s inv i s.mem.epoch s.mem.cells s.mem.atom p' back

  goes : (p' : Pc) → IsFree p' → Inv raw order (record s { pc = update s.pc i p' })
  goes p' none_held = looks p' (λ x h. absurd (none_held x h))

  -- A choice between two places that hold no index.
  chooses :
      (b : Bool) (p q : Pc)
      → IsFree p
      → IsFree q
      → Inv raw order (record s { pc = update s.pc i (if b then p else q) })
  chooses true p q a b = goes p a
  chooses false p q a b = goes q b

  protects :
      (e : ℕ) (p' : Pc)
      → ((x : ℕ) → Holds p' x → Holds (s.pc i) x)
      → Inv raw order (record s {
        mem = (protect raw s.mem i e p').0;
        pc = update s.pc i (protect raw s.mem i e p').1;
      })
  unfolding protect
  protects e p' back = from (EpochCell.protect e)
    where
      from :
          (o : Option ℕ)
          → Inv raw order (record s {
            mem = (store_word raw s.mem i p' o).0;
            pc = update s.pc i (store_word raw s.mem i p' o).1;
          })
      from none = goes aborted (λ x h. h)
      from (some w) = Inv-quiet raw s inv i s.mem.epoch _ s.mem.atom p' back

  clears :
      (p' : Pc)
      → IsFree p'
      → Inv raw order (record s { mem = clear raw s.mem i; pc = update s.pc i p' })
  unfolding clear
  clears p' none_held =
      Inv-quiet raw s inv i s.mem.epoch _ s.mem.atom p' (λ x h. absurd (none_held x h))

  Inv-moved : (n : ℕ) (p : Pc) → s.pc i ≡ p → Inv raw order (moved n p)
  unfolding step
  Inv-moved n idle e = goes idle (λ x h. h)
  Inv-moved n prot_load e = goes (prot_store s.mem.epoch) (λ x h. h)
  Inv-moved n (prot_store ep) e = protects ep returned (λ x h. absurd h)
  Inv-moved n clr e = clears returned (λ x h. h)
  Inv-moved n pal_load e = goes (pal_store s.mem.epoch) (λ x h. h)
  Inv-moved n (pal_store ep) e = protects ep pal_atom (λ x h. absurd h)
  Inv-moved n pal_atom e = goes (pal_again s.mem.atom) (λ x h. h)
  Inv-moved n (pal_again v) e = chooses (v == s.mem.atom) (loaded v) pal_load (λ x h. h) (λ x h. h)
  Inv-moved n (ret_look idx) e = from (EpochCell.snapshot (s.mem.cells i)).0
    where
      from :
          (act : Bool)
          → Inv raw order (record s {
            pc = update s.pc i (
                if act
                then ret_put idx true (EpochCell.snapshot (s.mem.cells i)).1
                else ret_load idx);
          })
      from true = looks (ret_put idx true _) (λ x h. rw e h)
      from false = looks (ret_load idx) (λ x h. rw e h)
  Inv-moved n (ret_load idx) e = looks (ret_store idx s.mem.epoch) (λ x h. rw e h)
  Inv-moved n (ret_store idx ep) e = protects ep (ret_put idx false ep) (λ x h. rw e h)
  Inv-moved n (ret_put idx act ep) e =
      Inv-put raw s inv i (bucket_of ep grace) idx _ (omega (arith, bucket_of-lt ep grace))
        (rw e refl) (free_after act)
    where
      free_after : (b : Bool) → IsFree (if b then returned else ret_clear)
      free_after true x h = h
      free_after false x h = h
  Inv-moved n ret_clear e = clears returned (λ x h. h)
  Inv-moved n rec_look e = goes _ (IsFree-attempt 0 _ _)
  Inv-moved n (rec_load a) e = goes (rec_store a s.mem.epoch) (λ x h. h)
  Inv-moved n (rec_store a ep) e = protects ep (rec_get a false ep) (λ x h. absurd h)
  Inv-moved n (rec_get a act ep) e =
      let got = (take_from raw s.mem (bucket_of ep free)).1 in
      rw (place_eq act got) (
        Inv-take raw s inv i (bucket_of ep free) (after_get n a act ep got)
          (if act then client else pending i) (omega (arith, bucket_of-lt ep free)) (out act)
          (owns act got))
    where
      place_eq :
          (act : Bool) (o : Option ℕ)
          → placed raw i (rec_get a act ep) (after_get n a act ep o) s.place
            ≡ handed raw (if act then client else pending i) o s.place
      place_eq true none = elim (Bool-cases (ltb 0 n)) [ inl y ↦ rw y refl | inr y ↦ rw y refl ]
      place_eq false none = elim (Bool-cases (ltb 0 n)) [ inl y ↦ rw y refl | inr y ↦ rw y refl ]
      place_eq true (some x) = refl
      place_eq false (some x) = refl

      out : (act : Bool) → in_pool (if act then client else pending i) ≡ 0
      out true = refl
      out false = refl

      owns :
          (act : Bool) (o : Option ℕ) (y : ℕ)
          → Holds (after_get n a act ep o) y
          → (o ≡ some y) × ((if act then client else pending i) ≡ pending i)
      owns act none y h = absurd (IsFree-scan n a act ep 0 y h)
      owns true (some x) y h = absurd h
      owns false (some x) y h = (ap some h, refl)
  Inv-moved n (rec_cell a act ep k) e =
      chooses _ (rec_check a act ep) (rec_epoch a act ep k) (λ x h. h) (λ x h. h)
  Inv-moved n (rec_epoch a act ep k) e =
      chooses _ (scan n a act ep (k + 1)) (rec_check a act ep) (IsFree-scan n a act ep (k + 1))
        (λ x h. h)
  Inv-moved n (rec_cas a act ep) e = from (s.mem.epoch == ep)
    where
      from :
          (b : Bool)
          → Inv raw order (record s {
            mem = (if b then record s.mem { epoch = (ep + 1) % 2 ^ 64 } else s.mem);
            pc = update s.pc i (rec_check a act ep);
          })
      from true =
          Inv-quiet raw s inv i _ s.mem.cells s.mem.atom (rec_check a act ep) (λ x h. absurd h)
      from false = goes (rec_check a act ep) (λ x h. h)
  Inv-moved n (rec_check a act ep) e =
      chooses _ (finish act none) (attempt (a + 1) act ep) (IsFree-finish act)
        (IsFree-attempt (a + 1) act ep)
  Inv-moved n (rec_clear none) e = clears (gave none) (λ x h. h)
  Inv-moved n (rec_clear (some y)) e =
      Inv-give raw s inv i _ y (gave (some y)) (rw e refl) (λ x h. h)
  Inv-moved n cache_get e =
      Inv-take raw s inv i cache_bucket (gave (take_from raw s.mem cache_bucket).1) client
        (omega arith) refl (λ y h. absurd h)
  Inv-moved n (cache_put idx) e =
      Inv-put raw s inv i cache_bucket idx returned (omega arith) (rw e refl) (λ x h. h)
  Inv-moved n returned e = goes returned (λ x h. h)
  Inv-moved n (loaded v) e = goes (loaded v) (λ x h. h)
  Inv-moved n (gave got) e = goes (gave got) (λ x h. h)
  Inv-moved n aborted e = goes aborted (λ x h. h)

  -- A call takes the index from the client.
  gives_back :
      (idx : ℕ) (p' : Pc)
      → s.place idx ≡ client
      → ((x : ℕ) → Holds p' x → idx ≡ x)
      → Inv raw order (record s { pc = update s.pc i p'; place = update s.place idx (pending i) })
  gives_back idx p' has only = record {
    pool = λ y. elim (ℕ_discrete idx y) [
      | yes e ↦ rw (eq→== idx y e) (inv.pool y ∙ ap in_pool (rw e at has))
      | no n ↦ rw (ne→== idx y n) (inv.pool y)
    ];
    named = λ y ne. elim (ℕ_discrete idx y) [
      | yes e ↦ rw e at (inv.named idx (λ z. cc))
      | no n ↦ inv.named y (rw (ne→== idx y n) at ne)
    ];
    orders = inv.orders;
    mine = λ j y h. elim (ℕ_discrete i j) [
      | yes e ↦ rw (eq→== idx y (only y (rw (eq→== i j e) at h)), e) refl
      | no n ↦
          let there = inv.mine j y (rw (ne→== i j n) at h) in
          let differs : idx ≢ y =
            λ f. (let g : client ≡ pending j = sym has ∙ ap s.place f ∙ there in cc) in
          rw (ne→== idx y differs) there
    ];
    small = inv.small;
  }

  Inv-call :
      (c : Config) (q : Call)
      → may raw c s q ≡ true
      → Inv raw order
          (record s { pc = update s.pc i (call c.no_cache q); place = asked raw i q s.place })
  unfolding call
  Inv-call c protect_epoch y = goes prot_load (λ x h. h)
  Inv-call c clear_epoch y = goes clr (λ x h. h)
  Inv-call c protect_epoch_and_load y = goes pal_load (λ x h. h)
  Inv-call c (retire idx) y = gives_back idx (ret_look idx) (has_client (s.place idx) y) (λ x h. h)
    where
      has_client : (p : Place) → is_client p ≡ true → p ≡ client
      has_client client y = refl
      has_client pooled y = cc
      has_client (pending i) y = cc
      has_client nowhere y = cc
  Inv-call c reclaim y = goes rec_look (λ x h. h)
  Inv-call c get_from_cache y = chooses c.no_cache (gave none) cache_get (λ x h. h) (λ x h. h)
  Inv-call c (put_in_cache idx) y = from c.no_cache (s.place idx) refl y
    where
      from :
          (b : Bool) (p : Place)
          → s.place idx ≡ p
          → (is_client p && (if b then false else true)) ≡ true
          → Inv raw order (record s {
            pc = update s.pc i (if b then aborted else cache_put idx);
            place = update s.place idx (pending i);
          })
      from true client e y = cc
      from false client e y = gives_back idx (cache_put idx) e (λ x h. h)
      from b pooled e y = cc
      from b (pending i) e y = cc
      from b nowhere e y = cc

pub Inv-next :
    {R : Type 0} (raw : RawRing R) {order : ℕ} (c : Config) (s : System raw)
    → Inv raw order s
    → (e : Event) → Inv raw order (next raw c e s)
unfolding next
Inv-next raw c s inv (run i) = Inv-moved raw s inv i c.max_threads (s.pc i) refl
Inv-next raw c s inv (invoke i q) = elim (Bool-cases (resting (s.pc i))) [
  | inl y ↦ elim (Bool-cases (may raw c s q)) [
    | inl z ↦ rw (y, z) (Inv-call raw s inv i c q z)
    | inr z ↦ rw (y, z) inv
  ]
  | inr y ↦ rw y inv
]
Inv-next raw c s inv (write v) = record {
  pool = inv.pool;
  named = inv.named;
  orders = inv.orders;
  mine = inv.mine;
  small = inv.small;
}
