-- ===== src/CasLoop/Linked.antt =====
-- The `Segment` of a ring of `LinkedCASLoop` keeps what a proxy asks of a segment. Its `enqueue` does not
-- read `info`, and it has no `prepareDequeueAfterNextLinked`.
use mpmc_queues.Base.{
  ℕ, ◌+◌, ◌^◌, ◌<◌, ◌≡◌, refl, arith, Bool, true, false, Bool-cases, none, some, List, [], ◌∷◌,
  ◌++◌, inl, inr,
}
use mpmc_queues.CasLoop.{Ring, slot}
use mpmc_queues.CasLoop.Inv.{IsRing}
use mpmc_queues.CasLoop.Segment as S
use mpmc_queues.CasLoop.Segment.{Segment}
use mpmc_queues.Unbounded.Segment.{SegmentOps}

module _ (r : Ring) (ring : IsRing r) (sized : r.size + r.size + 1 < 2 ^ 63) where
  pub put_items :
      (x : ℕ) (s : Segment r)
      → (S.put r ring x s).1 ≡ true
      → (S.put r ring x s).0.queue ≡ s.queue ++ (x ∷ [])
  unfolding S.put
  put_items x s = from s.shut
    where
      cases :
          (a : S.IsCase (S.has_room s)) (b : S.IsCase (S.has_tickets s))
          → (S.put_open r ring x s a b).1 ≡ true
          → (S.put_open r ring x s a b).0.queue ≡ s.queue ++ (x ∷ [])
      cases (inl room) (inl left) e = refl
      cases (inl room) (inr over) e = absurd cc
      cases (inr full) b e = absurd cc

      from :
          (b : Bool)
          → (S.put_when r ring b x s).1 ≡ true
          → (S.put_when r ring b x s).0.queue ≡ s.queue ++ (x ∷ [])
      from true e = absurd cc
      from false e = cases (Bool-cases (S.has_room s)) (Bool-cases (S.has_tickets s)) e

  pub put_refused :
      (x : ℕ) (s : Segment r)
      → (S.put r ring x s).1 ≡ false
      → ((S.put r ring x s).0.queue ≡ s.queue) × ((S.put r ring x s).0.shut ≡ true)
  unfolding S.put
  put_refused x s = from s.shut refl
    where
      cases :
          (a : S.IsCase (S.has_room s)) (b : S.IsCase (S.has_tickets s))
          → (S.put_open r ring x s a b).1 ≡ false
          → ((S.put_open r ring x s a b).0.queue ≡ s.queue)
            × ((S.put_open r ring x s a b).0.shut ≡ true)
      cases (inl room) (inl left) e = absurd cc
      cases (inl room) (inr over) e = (refl, refl)
      cases (inr full) b e = (refl, refl)

      from :
          (b : Bool)
          → s.shut ≡ b
          → (S.put_when r ring b x s).1 ≡ false
          → ((S.put_when r ring b x s).0.queue ≡ s.queue)
            × ((S.put_when r ring b x s).0.shut ≡ true)
      from true e f = (refl, e)
      from false e f = cases (Bool-cases (S.has_room s)) (Bool-cases (S.has_tickets s)) f

  pub shut_refuses : (x : ℕ) (s : Segment r) → s.shut ≡ true → (S.put r ring x s).1 ≡ false
  unfolding S.put
  shut_refuses x s e = rw e refl

  pub fresh_takes : (x : ℕ) → (S.put r ring x (S.fresh r ring (omega (arith, sized)))).1 ≡ true
  unfolding S.put S.fresh
  fresh_takes x =
      let two = ring.two in cases (Bool-cases (S.has_room new)) (Bool-cases (S.has_tickets new))
    where
      new : Segment r
      new = S.fresh r ring (omega (arith, sized))

      cases :
          (a : S.IsCase (S.has_room new)) (b : S.IsCase (S.has_tickets new))
          → (S.put_open r ring x new a b).1 ≡ true
      cases (inl room) (inl left) = refl
      cases (inl room) (inr over) = absurd (ground arith)
      cases (inr full) b = let two = ring.two in absurd (ground arith)

  pub get_some :
      (s : Segment r) (x : ℕ) → (S.get r ring s).1 ≡ some x → s.queue ≡ x ∷ (S.get r ring s).0.queue
  unfolding S.get
  get_some s x = from s.queue refl
    where
      from :
          (q : List ℕ) (e : s.queue ≡ q)
          → (S.get_from r ring s q e).1 ≡ some x
          → s.queue ≡ x ∷ (S.get_from r ring s q e).0.queue
      from [] e f = absurd cc
      from (y ∷ q) e f = let g : y ≡ x = cc in rw (← g) e

  pub get_none :
      (s : Segment r) → (S.get r ring s).1 ≡ none → (s.queue ≡ []) × ((S.get r ring s).0.queue ≡ [])
  unfolding S.get
  get_none s = from s.queue refl
    where
      from :
          (q : List ℕ) (e : s.queue ≡ q)
          → (S.get_from r ring s q e).1 ≡ none
          → (s.queue ≡ []) × ((S.get_from r ring s q e).0.queue ≡ [])
      from [] e f = (e, e)
      from (y ∷ q) e f = absurd cc

  pub get_shut : (s : Segment r) → s.shut ≡ true → (S.get r ring s).0.shut ≡ true
  unfolding S.get
  get_shut s h = from s.queue refl
    where
      from : (q : List ℕ) (e : s.queue ≡ q) → (S.get_from r ring s q e).0.shut ≡ true
      from [] e = h
      from (y ∷ q) e = h

  abbrev pub linked_segment : SegmentOps (Segment r)
  unfolding S.fresh
  linked_segment = record {
    fresh = S.fresh r ring (omega (arith, sized));
    put = λ info. S.put r ring;
    get = S.get r ring;
    prepare = λ s. s;
    items = λ s. s.queue;
    IsClosed = λ s. s.shut ≡ true;
    fresh_empty = refl;
    fresh_takes = λ info. fresh_takes;
    put_items = λ info. put_items;
    put_refused = λ info x s h. (put_refused x s h).0;
    refused_closed = λ info x s h. (put_refused x s h).1;
    closed_refuses = λ info. shut_refuses;
    get_some = get_some;
    get_none = λ s h. (get_none s h).0;
    get_none_left = λ s h. (get_none s h).1;
    get_closed = get_shut;
    prepare_items = λ s. refl;
    prepare_closed = λ s h. h;
  }

-- A linked ring of two cells.
abbrev pub pair_ring : Ring
pair_ring = record { pow2 = false; linked = true; size = 2; mask = 0 }

pub pair_ring-IsRing : IsRing pair_ring
unfolding slot
pair_ring-IsRing = record { two = omega arith; slot_lem = λ i. refl }

abbrev pub pair_segment : SegmentOps (Segment pair_ring)
pair_segment = linked_segment pair_ring pair_ring-IsRing (omega arith)
