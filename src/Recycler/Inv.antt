-- ===== src/Recycler/Inv.antt =====
-- What every schedule of `Recycler` keeps: an index that the recycler has stands in one bucket, once.
use mpmc_queues.Base.{
  ℕ, ◌+◌, ◌^◌, ◌<◌, ◌≡◌, ◌≢◌, ◌⊎◌, inl, inr, refl, sym, ap, ◌∙◌, arith, Option, none, some, [], ◌∷◌,
  count, tally, count-append, update, ℕ_discrete, eq→==, ne→==,
}
use mpmc_queues.Ring.{LFring}
use mpmc_queues.Ring as Ring
use mpmc_queues.Ring.Raw.{RawRing, HasPlace}
use mpmc_queues.Ring.Queue.{enqueue_lem, dequeue-none, dequeue-some}
use mpmc_queues.Recycler.{
  Pc, ret_look, ret_load, ret_store, ret_put, rec_clear, cache_put, take_from, put_to,
}
use mpmc_queues.Recycler.System.{System, Place, pooled, client, pending, nowhere, handed}
use mpmc_queues.Recycler.Held.{held, held-update, count-le-held, in_pool, in_pool_pos, in_pool-le}

-- The index that a thread is about to put back or to return.
abbrev pub Holds : Pc → ℕ → Type 0
Holds (ret_look idx) x = idx ≡ x
Holds (ret_load idx) x = idx ≡ x
Holds (ret_store idx e) x = idx ≡ x
Holds (ret_put idx act e) x = idx ≡ x
Holds (cache_put idx) x = idx ≡ x
Holds (rec_clear (some y)) x = y ≡ x
Holds _ x = ⊥

module _ {R : Type 0} (raw : RawRing R) where
  open raw use {items}

  pub record Inv (order : ℕ) (s : System raw) : Type 0 where
    pub pool : (x : ℕ) → held raw s.mem.buckets 5 x ≡ in_pool (s.place x)
    pub named : (x : ℕ) → s.place x ≢ nowhere → x < 2 ^ order
    pub orders : (k : ℕ) → (s.mem.buckets k).scq_order ≡ order
    pub mine : (i x : ℕ) → Holds (s.pc i) x → s.place x ≡ pending i
    pub small : order < 64

  module _ {order : ℕ} (s : System raw) (inv : Inv order s) (i : ℕ) where
    open inv use {pool, named, orders, mine, small}

    -- Who holds an index after thread `i` has moved to `p'`.
    holder :
        (p' : Pc) (j x : ℕ)
        → Holds (update s.pc i p' j) x
        → (((i ≡ j) × Holds p' x) ⊎ ((i ≢ j) × Holds (s.pc j) x))
    holder p' j x h = elim (ℕ_discrete i j) [
      | yes e ↦ let h' : Holds p' x = rw (eq→== i j e) at h in inl (e, h')
      | no n ↦ let h' : Holds (s.pc j) x = rw (ne→== i j n) at h in inr (n, h')
    ]

    -- Nothing moves between the buckets and the clients.
    pub Inv-quiet :
        (epoch' : ℕ) (cells' : ℕ → ℕ) (atom' : ℕ) (p' : Pc)
        → ((x : ℕ) → Holds p' x → Holds (s.pc i) x)
        → Inv order (record s {
          mem = record s.mem { epoch = epoch'; cells = cells'; atom = atom' };
          pc = update s.pc i p';
        })
    Inv-quiet epoch' cells' atom' p' back = record {
      pool = pool;
      named = named;
      orders = orders;
      mine = λ j x h. elim (holder p' j x h) [
        | inl (e, h') ↦ rw (← e) (mine i x (back x h'))
        | inr (n, h') ↦ mine j x h'
      ];
      small = small;
    }

    -- An index that thread `i` holds has a place in every bucket.
    room :
        (k x : ℕ) → k < 5 → s.place x ≡ pending i → HasPlace order x (items (s.mem.buckets k).ring)
    room k x lt e = record {
      small = small;
      in_range = named x (λ z. cc);
      absent = omega (arith, count-le-held raw s.mem.buckets 5 k x lt, pool x, ap in_pool e);
      at_most_once = λ y.
          omega (arith, count-le-held raw s.mem.buckets 5 k y lt, pool y, in_pool-le (s.place y));
      all_in_range = λ y pos.
          let inside =
            in_pool_pos (s.place y)
              (omega (arith, count-le-held raw s.mem.buckets 5 k y lt, pool y)) in
          named y (λ z. cc);
    }

    -- A bucket takes the index that the thread holds.
    pub Inv-put :
        (k x : ℕ) (p' : Pc)
        → k < 5
        → Holds (s.pc i) x
        → ((y : ℕ) → Holds p' y → ⊥)
        → Inv order (record s {
          mem = put_to raw s.mem k x;
          pc = update s.pc i p';
          place = update s.place x pooled;
        })
    unfolding put_to Ring.enqueue
    Inv-put k x p' lt has without =
        let q = s.mem.buckets k in
        let at = mine i x has in
        let o : q.scq_order ≡ order = orders k in
        let (ok, more) = enqueue_lem raw q x (rw o (room k x lt at)) in
        record {
          pool = λ y.
              let moved = held-update raw s.mem.buckets 5 k (Ring.enqueue raw x q).0 y lt in
              let counted : count y (items (Ring.enqueue raw x q).0.ring)
                  ≡ count y (items q.ring) + (tally y x + 0) =
                ap (count y) more ∙ count-append y (items q.ring) (x ∷ []) in
              elim (ℕ_discrete x y) [
                | yes e ↦
                    let one : tally y x ≡ 1 = rw (eq→== y x (sym e)) refl in
                    let z : in_pool (s.place y) ≡ 0 = ap in_pool (rw e at at) in
                    rw (eq→== x y e) (omega (arith, moved, counted, one, pool y, z))
                | no n ↦
                    let zero_of : tally y x ≡ 0 = rw (ne→== y x (λ e. n (sym e))) refl in
                    rw (ne→== x y n) (omega (arith, moved, counted, zero_of, pool y))
              ];
          named = λ y ne. elim (ℕ_discrete x y) [
            | yes e ↦ rw e at (named x (λ z. cc))
            | no n ↦ named y (rw (ne→== x y n) at ne)
          ];
          orders = λ l. elim (ℕ_discrete k l) [
            | yes e ↦ rw (eq→== k l e) o
            | no n ↦ rw (ne→== k l n) (orders l)
          ];
          mine = λ j y h. elim (holder p' j y h) [
            | inl (e, h') ↦ absurd (without y h')
            | inr (n, h') ↦
                let there = mine j y h' in
                let differs : x ≢ y =
                  λ e. n (let f : pending i ≡ pending j = sym at ∙ ap s.place e ∙ there in cc) in
                rw (ne→== x y differs) there
          ];
          small = small;
        }

    -- A bucket gives an index, or is empty.
    pub Inv-take :
        (k : ℕ) (p' : Pc) (to : Place)
        → k < 5
        → in_pool to ≡ 0
        → ((y : ℕ)
            → Holds p' y
            → ((Ring.dequeue raw (s.mem.buckets k)).1 ≡ some y) × (to ≡ pending i))
        → Inv order (record s {
          mem = (take_from raw s.mem k).0;
          pc = update s.pc i p';
          place = handed raw to (Ring.dequeue raw (s.mem.buckets k)).1 s.place;
        })
    unfolding take_from Ring.dequeue
    Inv-take k p' to lt out owns = from (Ring.dequeue raw q).1 refl
      where
        q : LFring raw
        q = s.mem.buckets k

        q' : LFring raw
        q' = (Ring.dequeue raw q).0

        orders' : (l : ℕ) → (update s.mem.buckets k q' l).scq_order ≡ order
        orders' l = elim (ℕ_discrete k l) [
          | yes e ↦ rw (eq→== k l e) (orders k)
          | no n ↦ rw (ne→== k l n) (orders l)
        ]

        from :
            (o : Option ℕ)
            → (Ring.dequeue raw q).1 ≡ o
            → Inv order (record s {
              mem = record s.mem { buckets = update s.mem.buckets k q' };
              pc = update s.pc i p';
              place = handed raw to o s.place;
            })
        from none e =
            let (was, left) = dequeue-none raw q e in
            record {
              pool = λ y. omega (
                arith,
                held-update raw s.mem.buckets 5 k q' y lt,
                ap (count y) was,
                ap (count y) left,
                pool y,
              );
              named = named;
              orders = orders';
              mine = λ j y h. elim (holder p' j y h) [
                | inl (f, h') ↦
                    absurd (let (g, _) = owns y h' in let z : none ≡ some y = sym e ∙ g in cc)
                | inr (n, h') ↦ mine j y h'
              ];
              small = small;
            }
        from (some x) e =
            let first = dequeue-some raw q x e in
            let there : 0 < held raw s.mem.buckets 5 x =
              let one : tally x x ≡ 1 = rw (eq→== x x refl) refl in
              omega (arith, ap (count x) first, one, count-le-held raw s.mem.buckets 5 k x lt) in
            let at : s.place x ≡ pooled = in_pool_pos (s.place x) (omega (arith, pool x)) in
            record {
              pool = λ y.
                  let moved = held-update raw s.mem.buckets 5 k q' y lt in
                  elim (ℕ_discrete x y) [
                    | yes f ↦
                        let one : tally y x ≡ 1 = rw (eq→== y x (sym f)) refl in
                        let z : in_pool (s.place y) ≡ 1 = ap in_pool (rw f at at) in
                        rw (eq→== x y f)
                          (omega (arith, moved, ap (count y) first, one, pool y, z, out))
                    | no n ↦
                        let zero_of : tally y x ≡ 0 = rw (ne→== y x (λ f. n (sym f))) refl in
                        rw (ne→== x y n) (omega (arith, moved, ap (count y) first, zero_of, pool y))
                  ];
              named = λ y ne. elim (ℕ_discrete x y) [
                | yes f ↦ rw f at (named x (λ z. cc))
                | no n ↦ named y (rw (ne→== x y n) at ne)
              ];
              orders = orders';
              mine = λ j y h. elim (holder p' j y h) [
                | inl (f, h') ↦
                    let (g, is) = owns y h' in
                    let same : x ≡ y = let z : some x ≡ some y = sym e ∙ g in cc in
                    rw (eq→== x y same, ← f) is
                | inr (n, h') ↦
                    let waits = mine j y h' in
                    let differs : x ≢ y =
                      λ f. (let g : pooled ≡ pending j = sym at ∙ ap s.place f ∙ waits in cc) in
                    rw (ne→== x y differs) waits
              ];
              small = small;
            }

    -- The thread returns the index that it has.
    pub Inv-give :
        (cells' : ℕ → ℕ) (x : ℕ) (p' : Pc)
        → Holds (s.pc i) x
        → ((y : ℕ) → Holds p' y → ⊥)
        → Inv order (record s {
          mem = record s.mem { cells = cells' };
          pc = update s.pc i p';
          place = update s.place x client;
        })
    Inv-give cells' x p' has without =
        let at = mine i x has in
        record {
          pool = λ y. elim (ℕ_discrete x y) [
            | yes e ↦ rw (eq→== x y e) (pool y ∙ ap in_pool (rw e at at))
            | no n ↦ rw (ne→== x y n) (pool y)
          ];
          named = λ y ne. elim (ℕ_discrete x y) [
            | yes e ↦ rw e at (named x (λ z. cc))
            | no n ↦ named y (rw (ne→== x y n) at ne)
          ];
          orders = orders;
          mine = λ j y h. elim (holder p' j y h) [
            | inl (e, h') ↦ absurd (without y h')
            | inr (n, h') ↦
                let there = mine j y h' in
                let differs : x ≢ y =
                  λ e. n (let f : pending i ≡ pending j = sym at ∙ ap s.place e ∙ there in cc) in
                rw (ne→== x y differs) there
          ];
          small = small;
        }
