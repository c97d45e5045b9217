-- ===== src/Unbounded/Changes.antt =====
-- The changes of the shared state that the accesses of `UnboundedProxy` make.
use mpmc_queues.Base.{
  ℕ, suc, ◌+◌, ◌-◌, ◌≤◌, ◌<◌, ◌≡◌, refl, ap, ◌∙◌, arith, [], ◌++◌, update, ℕ_discrete, eq→==, ne→==,
}
use mpmc_queues.Unbounded.{Shared}
use mpmc_queues.Unbounded.Segment.{SegmentOps}
use mpmc_queues.Unbounded.Spec.{gather, contents}
use mpmc_queues.Unbounded.Contents.{gather_same, gather_snoc}
use mpmc_queues.Unbounded.Inv.{Chain, Later}

module _ {S : Type 0} (seg : SegmentOps S) {m : Shared S} (c : Chain seg m) where
  open seg use {items, IsClosed}
  open c use {head_pos, head_in, tail_pos, tail_in, links, last, shut, gone}

  pub Later-refl : Later seg m m
  Later-refl = record {
    head_up = omega arith;
    used_up = omega arith;
    stays_null = λ t z. z;
    stays_shut = λ t a b s. s;
    stays_empty = λ t a b e. e;
  }

  -- One segment changes.
  module _ (t : ℕ) (s : S) (closed_stays : IsClosed (m.segs t) → IsClosed s)
      (empty_stays : t < m.used → items (m.segs t) ≡ [] → items s ≡ []) where
    shut_after : (u : ℕ) → IsClosed (m.segs u) → IsClosed (update m.segs t s u)
    shut_after u cl = elim (ℕ_discrete t u) [
      | yes e ↦ rw (eq→== t u e) (closed_stays (rw e cl))
      | no n ↦ rw (ne→== t u n) cl
    ]

    empty_after : (u : ℕ) → u < m.used → items (m.segs u) ≡ [] → items (update m.segs t s u) ≡ []
    empty_after u lt e = elim (ℕ_discrete t u) [
      | yes y ↦ rw (eq→== t u y) (empty_stays (omega arith) (rw y e))
      | no n ↦ rw (ne→== t u n) e
    ]

    pub Chain-segs : Chain seg (record m { segs = update m.segs t s })
    Chain-segs = record {
      head_pos = head_pos;
      head_in = head_in;
      tail_pos = tail_pos;
      tail_in = tail_in;
      links = links;
      last = last;
      shut = λ u a b. shut_after u (shut u a b);
      gone = λ u a b. empty_after u (let h = head_in in omega arith) (gone u a b);
    }

    pub Later-segs : Later seg m (record m { segs = update m.segs t s })
    Later-segs = record {
      head_up = omega arith;
      used_up = omega arith;
      stays_null = λ u z. z;
      stays_shut = λ u a b. shut_after u;
      stays_empty = λ u a b. empty_after u b;
    }

  -- The same items as before.
  pub contents-kept :
      (t : ℕ) (s : S)
      → (m.head ≤ t → items s ≡ items (m.segs t))
      → contents seg (record m { segs = update m.segs t s }) ≡ contents seg m
  contents-kept t s same = gather_same seg _ m.segs m.head (m.used + 1 - m.head) (λ u le lt.
      elim (ℕ_discrete t u) [
        | yes e ↦
            rw (eq→== t u e)
              (let b : m.head ≤ t = omega arith in same b ∙ ap (λ (v : ℕ). items (m.segs v)) e)
        | no n ↦ rw (ne→== t u n) refl
      ])

  -- The first segment in full.
  pub contents-head :
      contents seg m ≡ items (m.segs m.head) ++ gather seg m.segs (m.head + 1) (m.used - m.head)
  contents-head =
      let h = head_in in
      let e : m.used + 1 - m.head ≡ suc (m.used - m.head) = omega arith in rw e refl

  -- The last segment in full.
  pub contents-last :
      contents seg m ≡ gather seg m.segs m.head (m.used - m.head) ++ items (m.segs m.used)
  contents-last =
      let h = head_in in
      let e : m.used + 1 - m.head ≡ suc (m.used - m.head) = omega arith in
      let l : m.head + (m.used - m.head) ≡ m.used = omega arith in
      let snoc = gather_snoc seg m.segs m.head (m.used - m.head) in
      rw e (snoc ∙ ap (λ (u : ℕ). gather seg m.segs m.head (m.used - m.head) ++ items (m.segs u)) l)
