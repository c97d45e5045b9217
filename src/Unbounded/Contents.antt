-- ===== src/Unbounded/Contents.antt =====
-- The items of a range of segments.
use mathlib.Core.List.{append-nil, append_assoc}
use mpmc_queues.Base.{ℕ, zero, suc, ◌+◌, ◌≤◌, ◌<◌, ◌≡◌, refl, sym, ap, ◌∙◌, arith, List, ◌++◌}
use mpmc_queues.Unbounded.Segment.{SegmentOps}
use mpmc_queues.Unbounded.Spec.{gather}

module _ {S : Type 0} (seg : SegmentOps S) where
  open seg use {items}

  -- Only the items of the segments in the range count.
  pub gather_same :
      (f g : ℕ → S) (h n : ℕ)
      → ((t : ℕ) → h ≤ t → t < h + n → items (f t) ≡ items (g t))
      → gather seg f h n ≡ gather seg g h n
  gather_same f g h zero same = refl
  gather_same f g h (suc n) same = rw (same h (omega arith) (omega arith)) (
      ap (λ (r : List ℕ). items (g h) ++ r)
        (gather_same f g (h + 1) n (λ t le lt. same t (omega arith) (omega arith))))

  -- One more segment at the end.
  pub gather_snoc :
      (f : ℕ → S) (h n : ℕ) → gather seg f h (suc n) ≡ gather seg f h n ++ items (f (h + n))
  gather_snoc f h zero = let e : h + 0 ≡ h = omega arith in rw e (append-nil (items (f h)))
  gather_snoc f h (suc n) =
      let e : h + suc n ≡ h + 1 + n = omega arith in
      rw e (
        ap (λ (r : List ℕ). items (f h) ++ r) (gather_snoc f (h + 1) n)
        ∙ sym (append_assoc (items (f h)) (gather seg f (h + 1) n) (items (f (h + 1 + n)))))
