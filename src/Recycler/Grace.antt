-- ===== src/Recycler/Grace.antt =====
-- `Recycler` hands an index out while a thread is still active at the epoch in which it was retired.
use mpmc_queues.Base.{
  ℕ, ◌+◌, ◌*◌, ◌^◌, ◌<◌, ◌≡◌, ◌≢◌, refl, sym, ap, ◌∙◌, arith, Bool, true, false, not, ◌&&◌, Option,
  none, some, List, [], ◌∷◌, ◌++◌, update, update_ne, update_self, ℕ_discrete, eq→==, ◌==◌,
}
use mpmc_queues.Epoch as EpochCell
use mpmc_queues.Epoch.Cell.{epoch_cell}
use mpmc_queues.Ring.{LFring}
use mpmc_queues.Ring as Ring
use mpmc_queues.Ring.Raw.{RawRing, HasPlace}
use mpmc_queues.Ring.Queue.{enqueue_lem, dequeue-none, dequeue-some}
use mpmc_queues.Recycler.{
  Shared, Pc, bucket_of, grace, free, ret_look, rec_look, scan, returned, gave,
}
use mpmc_queues.Recycler.Runs.{
  solo, solo_add, AllAt, scan_passes, retire_runs, reclaim_starts, reclaim_ends, grace_is_next_free,
  free-ne-grace,
}

module _ {R : Type 0} (raw : RawRing R) where
  open raw use {items}

  -- An empty queue gives nothing.
  dry : (q : LFring raw) → items q.ring ≡ [] → Ring.dequeue raw q ≡ ((Ring.dequeue raw q).0, none)
  dry q e = from (Ring.dequeue raw q).1 refl
    where
      from :
          (o : Option ℕ)
          → (Ring.dequeue raw q).1 ≡ o
          → Ring.dequeue raw q ≡ ((Ring.dequeue raw q).0, none)
      from none f = ap (λ (o : Option ℕ). ((Ring.dequeue raw q).0, o)) f
      from (some x) f =
          let z : ◌≡◌ {A = List ℕ} [] (x ∷ items (Ring.dequeue raw q).0.ring) =
            sym e ∙ dequeue-some raw q x f in
          absurd cc

  -- A queue of one index gives that.
  single :
      (q : LFring raw) (x : ℕ)
      → items q.ring ≡ x ∷ []
      → Ring.dequeue raw q ≡ ((Ring.dequeue raw q).0, some x)
  single q x e = from (Ring.dequeue raw q).1 refl
    where
      from :
          (o : Option ℕ)
          → (Ring.dequeue raw q).1 ≡ o
          → Ring.dequeue raw q ≡ ((Ring.dequeue raw q).0, some x)
      from none f =
          let z : ◌≡◌ {A = List ℕ} (x ∷ []) [] = sym e ∙ (dequeue-none raw q f).0 in absurd cc
      from (some y) f =
          let z : ◌≡◌ {A = List ℕ} (x ∷ []) (y ∷ items (Ring.dequeue raw q).0.ring) =
            sym e ∙ dequeue-some raw q y f in
          let same : y ≡ x = cc in
          ap (λ (o : Option ℕ). ((Ring.dequeue raw q).0, o)) (f ∙ ap some same)

  -- What `can_advance_epoch` stops at.
  abbrev stops : (e word : ℕ) → Bool
  stops e word = (EpochCell.snapshot word).0 && not ((EpochCell.snapshot word).1 == e)

  at_epoch : (e word : ℕ) → EpochCell.snapshot word ≡ (true, e) → stops e word ≡ false
  at_epoch e word h = ap (λ (p : Bool × ℕ). p.0 && not (p.1 == e)) h ∙ rw (eq→== e e refl) refl

  at_rest : (e word : ℕ) → (EpochCell.snapshot word).0 ≡ false → stops e word ≡ false
  at_rest e word h = rw h refl

  -- The reader `r` is active at the epoch `e`, nobody else is active, and two buckets are empty.
  pub record OneReader (n r e order idx : ℕ) (m : Shared raw) : Type 0 where
    pub at : m.epoch ≡ e
    pub reads : EpochCell.snapshot (m.cells r) ≡ (true, e)
    pub quiet : (k : ℕ) → k < n → k ≢ r → (EpochCell.snapshot (m.cells k)).0 ≡ false
    pub free_empty : items (m.buckets (bucket_of e free)).ring ≡ []
    pub grace_empty : items (m.buckets (bucket_of e grace)).ring ≡ []
    pub order_is : (m.buckets (bucket_of e grace)).scq_order ≡ order
    pub in_range : idx < 2 ^ order
    pub small : order < 64

  -- A reader is active at the current epoch `e`, below `2 ^ 63 - 1`, and nobody else is; the buckets for retired and for free
  -- indices are empty. If thread `i` then retires an index and thread `j`, which may be `i`, calls
  -- `reclaim`, the call returns that index, and the cell of the reader still says that it is active
  -- at `e`.
  pub reclaimed_under_reader :
      (n r i j e order idx : ℕ) (m : Shared raw)
      → e + 1 < 2 ^ 63
      → i < n
      → j < n
      → i ≢ r
      → j ≢ r
      → OneReader n r e order idx m
      → let retired = solo raw 5 n i m (ret_look idx) in
        let reclaimed = solo raw (4 + (n * 2 + 6)) n j retired.0 rec_look in
        (retired.1 ≡ returned)
        × (reclaimed.1 ≡ gave (some idx))
        × (EpochCell.snapshot (reclaimed.0.cells r) ≡ (true, e))
  reclaimed_under_reader n r i j e order idx m small_e li lj ni nj one =
      let g = bucket_of e grace in
      let f = bucket_of e free in
      let (w, ok, _, snap, cleared, _) = (epoch_cell e).0 (omega arith) in
      let (w', ok', _, snap', cleared', _) = (epoch_cell (e + 1)).0 (omega arith) in
      let place : HasPlace (m.buckets g).scq_order idx (items (m.buckets g).ring) =
        rw (one.order_is, one.grace_empty)
          (record {
            small = one.small;
            in_range = one.in_range;
            absent = refl;
            at_most_once = λ y. omega arith;
            all_in_range = λ y pos. absurd (omega arith);
          }) in
      let (_, filled) = enqueue_lem raw (m.buckets g) idx place in
      let q = (Ring.enqueue raw idx (m.buckets g)).0 in
      let full : items q.ring ≡ idx ∷ [] =
        filled ∙ ap (λ (l : List ℕ). l ++ (idx ∷ [])) one.grace_empty in
      let m1 : Shared raw = record m {
        cells = update (update m.cells i w) i (EpochCell.clear w);
        buckets = update m.buckets g q;
      } in
      let apart : g ≢ f = λ z. free-ne-grace e (sym z) in
      let same_f : m1.buckets f ≡ m.buckets f = update_ne m.buckets g f q apart in
      let dry_f : items (m1.buckets f).ring ≡ [] =
        ap (λ (b : LFring raw). items b.ring) same_f ∙ one.free_empty in
      let q' = (Ring.dequeue raw (m1.buckets f)).0 in
      let m2 : Shared raw = record m1 {
        cells = update m1.cells j w;
        buckets = update m1.buckets f q';
      } in
      let cells1_i : m1.cells i ≡ EpochCell.clear w =
        update_self (update m.cells i w) i (EpochCell.clear w) in
      let cells1_ne : (k : ℕ) → i ≢ k → m1.cells k ≡ m.cells k = λ k d.
        update_ne (update m.cells i w) i k (EpochCell.clear w) d ∙ update_ne m.cells i k w d in
      let rested : (EpochCell.snapshot (EpochCell.clear w)).0 ≡ false =
        ap (λ (p : Bool × ℕ). p.0) cleared in
      let quiet_j : (EpochCell.snapshot (m1.cells j)).0 ≡ false = elim (ℕ_discrete i j) [
        | yes d ↦ ap (λ (c : ℕ). (EpochCell.snapshot c).0) (ap m1.cells (sym d) ∙ cells1_i) ∙ rested
        | no d ↦ ap (λ (c : ℕ). (EpochCell.snapshot c).0) (cells1_ne j d) ∙ one.quiet j lj nj
      ] in
      let others : (k : ℕ) → k < n → stops e (m1.cells k) ≡ false = λ k lt. elim (ℕ_discrete i k) [
        | yes d ↦
            ap (stops e) (ap m1.cells (sym d) ∙ cells1_i) ∙ at_rest e (EpochCell.clear w) rested
        | no d ↦ ap (stops e) (cells1_ne k d) ∙ elim (ℕ_discrete k r) [
          | yes z ↦ ap (λ (u : ℕ). stops e (m.cells u)) z ∙ at_epoch e (m.cells r) one.reads
          | no z ↦ at_rest e (m.cells k) (one.quiet k lt z)
        ]
      ] in
      let all : AllAt raw n e m2.cells = λ k lt. elim (ℕ_discrete j k) [
        | yes d ↦ ap (stops e) (ap m2.cells (sym d) ∙ update_self m1.cells j w) ∙ at_epoch e w snap
        | no d ↦ ap (stops e) (update_ne m1.cells j k w d) ∙ others k lt
      ] in
      let has_g : m2.buckets (bucket_of (e + 1) free) ≡ q =
        ap m2.buckets (grace_is_next_free e)
        ∙ update_ne m1.buckets f g q' (λ z. apart (sym z))
        ∙ update_self m.buckets g q in
      let gives =
        single (m2.buckets (bucket_of (e + 1) free)) idx
          (ap (λ (b : LFring raw). items b.ring) has_g ∙ full) in
      let q2 = (Ring.dequeue raw (m2.buckets (bucket_of (e + 1) free))).0 in
      let m3 : Shared raw = record m2 {
        epoch = e + 1;
        cells = update (update m2.cells j w') j (EpochCell.clear w');
        buckets = update m2.buckets (bucket_of (e + 1) free) q2;
      } in
      let retires : solo raw 5 n i m (ret_look idx) ≡ (m1, returned) =
        retire_runs raw n i m idx e w one.at (one.quiet i li ni) ok in
      let reclaims : solo raw (4 + (n * 2 + 6)) n j m1 rec_look ≡ (m3, gave (some idx)) =
        solo_add raw 4 (n * 2 + 6) n j m1 rec_look
        ∙ ap (λ (s : Shared raw × Pc). solo raw (n * 2 + 6) n j s.0 s.1)
            (reclaim_starts raw n j m1 e w q' one.at quiet_j ok (dry (m1.buckets f) dry_f))
        ∙ solo_add raw (n * 2) 6 n j m2 (scan n 0 false e 0)
        ∙ ap (λ (s : Shared raw × Pc). solo raw 6 n j s.0 s.1)
            (scan_passes raw n j m2 n 0 0 false e (omega arith) one.at all)
        ∙ reclaim_ends raw n j m2 e w' idx q2 one.at (omega arith) ok' gives in
      let both =
        ap (λ (s : Shared raw × Pc). solo raw (4 + (n * 2 + 6)) n j s.0 rec_look) retires
        ∙ reclaims in
      let untouched : m3.cells r ≡ m.cells r =
        update_ne (update m2.cells j w') j r (EpochCell.clear w') nj
        ∙ update_ne m2.cells j r w' nj
        ∙ update_ne m1.cells j r w nj
        ∙ cells1_ne r ni in
      (
        ap (λ (s : Shared raw × Pc). s.1) retires,
        ap (λ (s : Shared raw × Pc). s.1) both,
        ap (λ (s : Shared raw × Pc). EpochCell.snapshot (s.0.cells r)) both
            ∙ ap EpochCell.snapshot untouched
            ∙ one.reads,
      )
