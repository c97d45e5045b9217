-- ===== src/Unbounded/Links.antt =====
-- Linking a segment and moving `head_` and `tail_` of `UnboundedProxy`.
use mpmc_queues.Base.{
  false, ℕ, ◌+◌, ◌-◌, ◌≤◌, ◌≡◌, refl, sym, ap, ◌∙◌, arith, List, [], ◌∷◌, ◌++◌, update, update_ne,
  ℕ_discrete, eq→==, ne→==,
}
use mpmc_queues.Unbounded.{Shared}
use mpmc_queues.Unbounded.Segment.{SegmentOps}
use mpmc_queues.Unbounded.Spec.{gather, contents}
use mpmc_queues.Unbounded.Contents.{gather_same}
use mpmc_queues.Unbounded.Inv.{Chain, Later}
use mpmc_queues.Unbounded.Changes.{contents-head, contents-last}

module _ {S : Type 0} (seg : SegmentOps S) {m : Shared S} (c : Chain seg m) where
  open seg use {fresh, put, items, IsClosed, fresh_empty, fresh_takes, put_items}
  open c use {head_pos, head_in, tail_pos, tail_in, links, last, shut, gone}

  abbrev pub linked : (x : ℕ) → Shared S
  linked x = record m {
    used = m.used + 1;
    segs = update m.segs (m.used + 1) (put false x fresh).0;
    next = update m.next m.used (m.used + 1);
  }

  old_seg : (x u : ℕ) → u ≤ m.used → (linked x).segs u ≡ m.segs u
  old_seg x u le = update_ne m.segs (m.used + 1) u _ (omega arith)

  pub Chain-linked : (x : ℕ) → IsClosed (m.segs m.used) → Chain seg (linked x)
  Chain-linked x cl = record {
    head_pos = head_pos;
    head_in = let h = head_in in omega arith;
    tail_pos = tail_pos;
    tail_in = let t = tail_in in omega arith;
    links = λ t a b. elim (ℕ_discrete m.used t) [
      | yes e ↦ rw (eq→== m.used t e) (omega arith)
      | no n ↦ rw (ne→== m.used t n) (links t a (omega arith))
    ];
    last = λ t a. update_ne m.next m.used t _ (omega arith) ∙ last t (omega arith);
    shut = λ t a b.
        rw (old_seg x t (omega arith))
          (elim (ℕ_discrete m.used t) [ yes e ↦ rw (← e) cl | no n ↦ shut t a (omega arith) ]);
    gone = λ t a b. rw (old_seg x t (let h = head_in in omega arith)) (gone t a b);
  }

  pub Later-linked : (x : ℕ) → Later seg m (linked x)
  Later-linked x = record {
    head_up = omega arith;
    used_up = omega arith;
    stays_null = λ t z. elim (ℕ_discrete m.used t) [
      | yes e ↦ let w : m.used + 1 ≡ 0 = rw (eq→== m.used t e) at z in absurd (omega arith)
      | no n ↦ rw (ne→== m.used t n) at z
    ];
    stays_shut = λ t a b cl. rw (old_seg x t b) cl;
    stays_empty = λ t a b e. rw (old_seg x t (omega arith)) e;
  }

  pub contents-linked :
      (x : ℕ) (cl : IsClosed (m.segs m.used)) → contents seg (linked x) ≡ contents seg m ++ (x ∷ [])
  contents-linked x cl =
      let h = head_in in
      let n : m.used + 1 - m.head ≡ m.used + 1 - m.head = refl in
      let front : gather seg (linked x).segs m.head (m.used + 1 - m.head) ≡ contents seg m =
        gather_same seg (linked x).segs m.segs m.head (m.used + 1 - m.head)
          (λ u le lt. ap items (old_seg x u (omega arith))) in
      let new : items ((linked x).segs (m.used + 1)) ≡ x ∷ [] =
        rw (eq→== (m.used + 1) (m.used + 1) refl) (
          put_items false x fresh (fresh_takes false x)
          ∙ ap (λ (q : List ℕ). q ++ (x ∷ [])) fresh_empty) in
      contents-last seg (Chain-linked x cl)
      ∙ ap (λ (q : List ℕ). q ++ items ((linked x).segs (m.used + 1))) front
      ∙ ap (λ (q : List ℕ). contents seg m ++ q) new

  pub Chain-tail : (t : ℕ) → 1 ≤ t → t ≤ m.used → Chain seg (record m { tail = t })
  Chain-tail t a b = record {
    head_pos = head_pos;
    head_in = head_in;
    tail_pos = a;
    tail_in = b;
    links = links;
    last = last;
    shut = shut;
    gone = gone;
  }

  pub Later-tail : (t : ℕ) → Later seg m (record m { tail = t })
  Later-tail t = record {
    head_up = omega arith;
    used_up = omega arith;
    stays_null = λ u z. z;
    stays_shut = λ u a b cl. cl;
    stays_empty = λ u a b e. e;
  }

  -- `head_` leaves an empty segment that is not the last.
  module _ (empty : items (m.segs m.head) ≡ []) (more : m.head + 1 ≤ m.used) where
    pub Chain-head : Chain seg (record m { head = m.head + 1 })
    Chain-head = record {
      head_pos = omega arith;
      head_in = more;
      tail_pos = tail_pos;
      tail_in = tail_in;
      links = links;
      last = last;
      shut = shut;
      gone = λ t a b. elim (ℕ_discrete t m.head) [
        | yes e ↦ rw e empty
        | no n ↦ gone t a (omega arith)
      ];
    }

    pub Later-head : Later seg m (record m { head = m.head + 1 })
    Later-head = record {
      head_up = omega arith;
      used_up = omega arith;
      stays_null = λ u z. z;
      stays_shut = λ u a b cl. cl;
      stays_empty = λ u a b e. e;
    }

    pub contents-head_moved : contents seg m ≡ contents seg (record m { head = m.head + 1 })
    contents-head_moved =
        let e : m.used + 1 - (m.head + 1) ≡ m.used - m.head = omega arith in
        contents-head seg c
        ∙ ap (λ (q : List ℕ). q ++ gather seg m.segs (m.head + 1) (m.used - m.head)) empty
        ∙ ap (λ (n : ℕ). gather seg m.segs (m.head + 1) n) (sym e)
