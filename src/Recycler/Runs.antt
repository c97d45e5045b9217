-- ===== src/Recycler/Runs.antt =====
-- One thread of `Recycler` runs while the others stand still.
use mpmc_queues.Base.{
  ℕ, zero, suc, ◌+◌, ◌*◌, ◌%◌, ◌^◌, ◌<◌, ◌≡◌, ◌≢◌, refl, sym, ap, ◌∙◌, arith, Bool, true, false,
  not, ◌&&◌, none, some, update, eq→==, ne→==, lt→ltb, ltb, ◌==◌, bit_and, bit_and-low,
}
use mpmc_queues.Epoch as EpochCell
use mpmc_queues.Ring.Raw.{RawRing}
use mpmc_queues.Ring as Ring
use mpmc_queues.Recycler.{
  Shared, Pc, step, scan, attempt, protect, clear, put_to, take_from, bucket_of, grace, free,
  ret_look, rec_look, rec_cell, rec_epoch, rec_cas, returned, gave,
}

bucket_of-eq : (x : ℕ) → bit_and (x % 2 ^ 64) 3 ≡ x % 2 ^ 64 % 4
bucket_of-eq x = bit_and-low (x % 2 ^ 64) 2

-- What is retired at an epoch goes to the bucket that is reclaimed from at the next.
pub grace_is_next_free : (e : ℕ) → bucket_of (e + 1) free ≡ bucket_of e grace
unfolding bucket_of
grace_is_next_free e = let same : e + 1 + 2 ≡ e + 3 = omega arith in rw same refl

pub free-ne-grace : (e : ℕ) → bucket_of e free ≢ bucket_of e grace
unfolding bucket_of
free-ne-grace e eq =
    let a = bucket_of-eq (e + 2) in
    let b = bucket_of-eq (e + 3) in
    let same : (e + 2) % 2 ^ 64 % 4 ≡ (e + 3) % 2 ^ 64 % 4 = sym a ∙ eq ∙ b in omega arith

module _ {R : Type 0} (raw : RawRing R) where
  unfoldable pub solo : (steps n i : ℕ) → Shared raw → Pc → Shared raw × Pc
  solo zero n i m p = (m, p)
  solo (suc k) n i m p = let r = step raw n i m p in solo k n i r.0 r.1

  pub solo_add :
      (a b n i : ℕ) (m : Shared raw) (p : Pc)
      → solo (a + b) n i m p ≡ solo b n i (solo a n i m p).0 (solo a n i m p).1
  unfolding solo
  solo_add zero b n i m p = let e : 0 + b ≡ b = omega arith in rw e refl
  solo_add (suc a) b n i m p =
      let e : suc a + b ≡ suc (a + b) = omega arith in
      rw e (solo_add a b n i (step raw n i m p).0 (step raw n i m p).1)

  -- No thread is active at an epoch other than `e`.
  abbrev pub AllAt : (n e : ℕ) → (cells : ℕ → ℕ) → Type 0
  AllAt n e cells =
      (k : ℕ)
      → k < n
      → ((EpochCell.snapshot (cells k)).0 && not ((EpochCell.snapshot (cells k)).1 == e)) ≡ false

  solo-suc :
      (k n i : ℕ) (m : Shared raw) (p : Pc) (m' : Shared raw) (p' : Pc)
      → step raw n i m p ≡ (m', p')
      → solo (suc k) n i m p ≡ solo k n i m' p'
  unfolding solo
  solo-suc k n i m p m' p' e = ap (λ (r : Shared raw × Pc). solo k n i r.0 r.1) e

  module _ (n i : ℕ) (m : Shared raw) where
    sees_cell :
        (a k e : ℕ) (act : Bool)
        → ((EpochCell.snapshot (m.cells k)).0 && not ((EpochCell.snapshot (m.cells k)).1 == e))
          ≡ false
        → step raw n i m (rec_cell a act e k) ≡ (m, rec_epoch a act e k)
    unfolding step
    sees_cell a k e act y = rw y refl

    sees_epoch :
        (a k e : ℕ) (act : Bool)
        → m.epoch ≡ e
        → step raw n i m (rec_epoch a act e k) ≡ (m, scan n a act e (k + 1))
    unfolding step
    sees_epoch a k e act at = rw (eq→== m.epoch e at) refl

    pub scan_passes :
        (left k a : ℕ) (act : Bool) (e : ℕ)
        → k + left ≡ n
        → m.epoch ≡ e
        → AllAt n e m.cells
        → solo (left * 2) n i m (scan n a act e k) ≡ (m, rec_cas a act e)
    unfolding solo scan
    scan_passes zero k a act e end at all = let y : ltb k n ≡ false = ground arith in rw y refl
    scan_passes (suc l) k a act e end at all =
        let y : ltb k n ≡ true = lt→ltb k n (omega arith) in
        let two : suc l * 2 ≡ suc (suc (l * 2)) = omega arith in
        rw (two, y)
          (solo-suc (suc (l * 2)) n i m (rec_cell a act e k) m (rec_epoch a act e k)
              (sees_cell a k e act (all k (omega arith)))
            ∙ solo-suc (l * 2) n i m (rec_epoch a act e k) m (scan n a act e (k + 1))
                (sees_epoch a k e act at)
            ∙ scan_passes l (k + 1) a act e (omega arith) at all)

    -- `retire` by a thread that is not active.
    pub retire_runs :
        (idx e w : ℕ)
        → m.epoch ≡ e
        → (EpochCell.snapshot (m.cells i)).0 ≡ false
        → EpochCell.protect e ≡ some w
        → solo 5 n i m (ret_look idx) ≡ (
          record m {
            cells = update (update m.cells i w) i (EpochCell.clear w);
            buckets =
                update m.buckets
                  (bucket_of e grace)
                  (Ring.enqueue raw idx (m.buckets (bucket_of e grace))).0;
          },
          returned,
        )
    unfolding solo step protect clear put_to
    retire_runs idx e w at quiet ok = rw (quiet, at, ok, eq→== i i refl) refl

    -- `reclaim` by a thread that is not active, up to the end of the first attempt, which finds the
    -- bucket empty.
    pub reclaim_starts :
        (e w : ℕ) (q : Ring.LFring raw)
        → m.epoch ≡ e
        → (EpochCell.snapshot (m.cells i)).0 ≡ false
        → EpochCell.protect e ≡ some w
        → Ring.dequeue raw (m.buckets (bucket_of e free)) ≡ (q, none)
        → solo 4 n i m rec_look ≡ (
          record m { cells = update m.cells i w; buckets = update m.buckets (bucket_of e free) q },
          scan n 0 false e 0,
        )
    unfolding solo step protect take_from attempt
    reclaim_starts e w q at quiet ok dry = rw (quiet, at, ok, dry) refl

    -- The epoch is advanced and the second attempt finds an index.
    pub reclaim_ends :
        (e w x : ℕ) (q : Ring.LFring raw)
        → m.epoch ≡ e
        → e + 1 < 2 ^ 64
        → EpochCell.protect (e + 1) ≡ some w
        → Ring.dequeue raw (m.buckets (bucket_of (e + 1) free)) ≡ (q, some x)
        → solo 6 n i m (rec_cas 0 false e) ≡ (
          record m {
            epoch = e + 1;
            cells = update (update m.cells i w) i (EpochCell.clear w);
            buckets = update m.buckets (bucket_of (e + 1) free) q;
          },
          gave (some x),
        )
    unfolding solo step protect clear take_from attempt
    reclaim_ends e w x q at small ok has =
        let up : (e + 1) % 2 ^ 64 ≡ e + 1 = omega arith in
        let other : (e + 1 == e) ≡ false = ne→== (e + 1) e (omega arith) in
        rw (at, eq→== e e refl, up, other, ok, has, eq→== i i refl) refl
