-- ===== src/Unbounded/Accesses.antt =====
-- The accesses of `UnboundedProxy` that change a segment, a link or a pointer, each as a move of the
-- abstract queue.
use mpmc_queues.Base.{
  ℕ, ◌+◌, ◌-◌, ◌≤◌, ◌≡◌, ◌≢◌, refl, sym, ◌∙◌, arith, Bool, true, false, [], none, some, update,
  ℕ_discrete, eq→==,
}
use mpmc_queues.Unbounded.{Pc, enq_put, enq_link, enq_swing, enqueued, dequeued, Shared}
use mpmc_queues.Unbounded.Segment.{SegmentOps}
use mpmc_queues.Unbounded.Spec.{contents, status, Move, stay, put_one, take_one, putting, taking}
use mpmc_queues.Unbounded.Inv.{Chain, IsGood}
use mpmc_queues.Unbounded.Changes.{Chain-segs, Later-segs, contents-kept}
use mpmc_queues.Unbounded.Links.{
  linked, Chain-linked, Later-linked, contents-linked, Chain-tail, Later-tail,
}
use mpmc_queues.Unbounded.Steps.{
  Stepped, put-closed, put-empty, get-empty, contents-got, contents-put,
}

module _ {S : Type 0} (seg : SegmentOps S) {m : Shared S} (c : Chain seg m) where
  open seg use {
    fresh, put, get, items, IsClosed, put_refused, refused_closed, get_none, get_none_left,
    get_closed, prepare, prepare_items, prepare_closed,
  }
  open c use {head_pos, head_in, tail_pos, tail_in, links, last, gone}

  abbrev pub taken : ℕ → Shared S
  taken h = record m { segs = update m.segs h (get (m.segs h)).0 }

  abbrev pub given : Bool → ℕ → ℕ → Shared S
  given info x t = record m { segs = update m.segs t (put info x (m.segs t)).0 }

  -- An access of `get` that returns an item.
  pub got_item :
      (saw saw' : Bool) (p : Pc) (h x : ℕ)
      → status saw p ≡ taking
      → 1 ≤ h
      → h ≤ m.head
      → (get (m.segs h)).1 ≡ some x
      → Stepped seg m saw p (taken h) saw' (dequeued (some x))
  got_item saw saw' p h x st a b got = record {
    chain = Chain-segs seg c h _ (get_closed (m.segs h)) (λ lt. get-empty seg c h);
    later = Later-segs seg c h _ (get_closed (m.segs h)) (λ lt. get-empty seg c h);
    good = tt;
    move = rw (st, contents-got seg c h x a b got) (take_one (contents seg (taken h)) x);
  }

  -- An access of `get` that finds the segment empty.
  pub got_none :
      (saw saw' : Bool) (p p' : Pc) (h : ℕ)
      → (get (m.segs h)).1 ≡ none
      → IsGood seg (taken h) saw' p'
      → Move (contents seg m) (status saw p) (contents seg m) (status saw' p')
      → Stepped seg m saw p (taken h) saw' p'
  got_none saw saw' p p' h got g mv = record {
    chain = Chain-segs seg c h _ (get_closed (m.segs h)) (λ lt. get-empty seg c h);
    later = Later-segs seg c h _ (get_closed (m.segs h)) (λ lt. get-empty seg c h);
    good = g;
    move =
        rw
          (contents-kept seg c h (get (m.segs h)).0
            (λ le. get_none_left (m.segs h) got ∙ sym (get_none (m.segs h) got)))
          mv;
  }

  abbrev pub prepared : ℕ → Shared S
  prepared h = record m { segs = update m.segs h (prepare (m.segs h)) }

  -- The call of `prepareDequeueAfterNextLinked` leaves the items.
  pub prepares :
      (saw : Bool) (p p' : Pc) (h : ℕ)
      → IsGood seg (prepared h) saw p'
      → Move (contents seg m) (status saw p) (contents seg m) (status saw p')
      → Stepped seg m saw p (prepared h) saw p'
  prepares saw p p' h g mv = record {
    chain = Chain-segs seg c h _ (prepare_closed (m.segs h)) (λ lt e. prepare_items (m.segs h) ∙ e);
    later = Later-segs seg c h _ (prepare_closed (m.segs h)) (λ lt e. prepare_items (m.segs h) ∙ e);
    good = g;
    move = rw (contents-kept seg c h (prepare (m.segs h)) (λ le. prepare_items (m.segs h))) mv;
  }

  pub put_item :
      (info saw : Bool) (x t : ℕ)
      → 1 ≤ t
      → t ≤ m.used
      → (put info x (m.segs t)).1 ≡ true
      → Stepped seg m saw (enq_put x t) (given info x t) saw enqueued
  put_item info saw x t a b ok = record {
    chain = Chain-segs seg c t _ (put-closed seg c info t x) (put-empty seg c info t x a);
    later = Later-segs seg c t _ (put-closed seg c info t x) (put-empty seg c info t x a);
    good = tt;
    move = rw (contents-put seg c info t x a b ok) (put_one (contents seg m) x);
  }

  pub put_none :
      (info saw : Bool) (x t : ℕ)
      → 1 ≤ t
      → t ≤ m.used
      → (put info x (m.segs t)).1 ≡ false
      → Stepped seg m saw (enq_put x t) (given info x t) saw (enq_link x t)
  put_none info saw x t a b shut = record {
    chain = Chain-segs seg c t _ (put-closed seg c info t x) (put-empty seg c info t x a);
    later = Later-segs seg c t _ (put-closed seg c info t x) (put-empty seg c info t x a);
    good = (a, b, rw (eq→== t t refl) (refused_closed info x (m.segs t) shut));
    move =
        rw
          (contents-kept seg c t (put info x (m.segs t)).0
            (λ le. put_refused info x (m.segs t) shut))
          (stay (contents seg m) (putting x));
  }

  -- The last segment is the one without a next.
  pub null-last : (t : ℕ) → 1 ≤ t → t ≤ m.used → m.next t ≡ 0 → t ≡ m.used
  null-last t a b z = elim (ℕ_discrete t m.used) [
    | yes e ↦ e
    | no n ↦ let w = links t a (omega arith) in absurd (omega arith)
  ]

  pub next-one : (t : ℕ) → 1 ≤ t → t ≤ m.used → m.next t ≢ 0 → (m.next t ≡ t + 1) × (t + 1 ≤ m.used)
  next-one t a b nz = elim (ℕ_discrete t m.used) [
    | yes e ↦ absurd (nz (last t (omega arith)))
    | no n ↦ (links t a (omega arith), omega arith)
  ]

  pub link_new :
      (saw : Bool) (x t : ℕ)
      → t ≡ m.used
      → IsClosed (m.segs t)
      → Stepped seg m saw (enq_link x t) (linked seg c x) saw (enq_swing t (m.used + 1))
  link_new saw x t e cl =
      let cl' : IsClosed (m.segs m.used) = rw (← e) cl in
      record {
        chain = Chain-linked seg c x cl';
        later = Later-linked seg c x;
        good = (omega arith, omega arith);
        move = rw (contents-linked seg c x cl') (put_one (contents seg m) x);
      }

  pub tail_to :
      (saw : Bool) (p p' : Pc) (t : ℕ)
      → 1 ≤ t
      → t ≤ m.used
      → IsGood seg (record m { tail = t }) saw p'
      → Move (contents seg m) (status saw p) (contents seg m) (status saw p')
      → Stepped seg m saw p (record m { tail = t }) saw p'
  tail_to saw p p' t a b g mv = record {
    chain = Chain-tail seg c t a b;
    later = Later-tail seg c t;
    good = g;
    move = mv;
  }

  -- The first segment is empty and the last: so is the queue.
  pub none_left :
      (h : ℕ) → 1 ≤ h → h ≤ m.head → m.next h ≡ 0 → (get (m.segs h)).1 ≡ none → contents seg m ≡ []
  none_left h a b z got =
      let hi = head_in in
      let e = null-last h a (omega arith) z in
      let one : m.used + 1 - m.head ≡ 1 = omega arith in
      let hd : m.head ≡ h = omega arith in rw (one, hd, get_none (m.segs h) got) refl
