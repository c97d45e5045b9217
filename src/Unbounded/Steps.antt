-- ===== src/Unbounded/Steps.antt =====
-- Every access of `UnboundedProxy` keeps the invariant and is a move of the abstract queue.
use mathlib.Core.List.{append_assoc}
use mpmc_queues.Base.{
  ℕ, ◌+◌, ◌-◌, ◌≤◌, ◌<◌, ◌≡◌, ◌≢◌, refl, sym, ap, ◌∙◌, arith, Bool, true, List, [], ◌∷◌, ◌++◌,
  Option, none, some, update, ℕ_discrete, eq→==, ne→==,
}
use mpmc_queues.Unbounded.{Pc, Shared}
use mpmc_queues.Unbounded.Segment.{SegmentOps}
use mpmc_queues.Unbounded.Spec.{gather, contents, status, Move}
use mpmc_queues.Unbounded.Contents.{gather_same}
use mpmc_queues.Unbounded.Inv.{Chain, Later, IsGood}
use mpmc_queues.Unbounded.Changes.{Later-refl, Chain-segs, contents-head, contents-last}

-- The outcome of one access from place `p`.
pub record Stepped {S : Type 0} (seg : SegmentOps S) (m : Shared S) (saw : Bool) (p : Pc)
    (m' : Shared S) (saw' : Bool) (p' : Pc) : Type 0 where
  pub chain : Chain seg m'
  pub later : Later seg m m'
  pub good : IsGood seg m' saw' p'
  pub move : Move (contents seg m) (status saw p) (contents seg m') (status saw' p')

module _ {S : Type 0} (seg : SegmentOps S) {m : Shared S} (c : Chain seg m) where
  open seg use {
    fresh, put, get, items, IsClosed, fresh_empty, fresh_takes, put_items, put_refused,
    refused_closed, closed_refuses, get_some, get_none, get_none_left, get_closed,
  }
  open c use {head_pos, head_in, tail_pos, tail_in, links, last, shut, gone}

  -- Nothing shared changes, and the status neither.
  pub looks :
      (saw saw' : Bool) (p p' : Pc)
      → IsGood seg m saw' p'
      → Move (contents seg m) (status saw p) (contents seg m) (status saw' p')
      → Stepped seg m saw p m saw' p'
  looks saw saw' p p' g mv = record { chain = c; later = Later-refl seg c; good = g; move = mv }

  -- A segment that accepts an item is the last one.
  pub accepts-last :
      (info : Bool) (t x : ℕ) → 1 ≤ t → t ≤ m.used → (put info x (m.segs t)).1 ≡ true → t ≡ m.used
  accepts-last info t x a b ok = elim (ℕ_discrete t m.used) [
    | yes e ↦ e
    | no n ↦ let no_more = closed_refuses info x (m.segs t) (shut t a (omega arith)) in absurd cc
  ]

  pub put-closed :
      (info : Bool) (t x : ℕ) → IsClosed (m.segs t) → IsClosed (put info x (m.segs t)).0
  put-closed info t x cl = refused_closed info x (m.segs t) (closed_refuses info x (m.segs t) cl)

  pub put-empty :
      (info : Bool) (t x : ℕ)
      → 1 ≤ t
      → t < m.used
      → items (m.segs t) ≡ []
      → items (put info x (m.segs t)).0 ≡ []
  put-empty info t x a lt e =
      put_refused info x (m.segs t) (closed_refuses info x (m.segs t) (shut t a lt)) ∙ e

  pub get-empty : (t : ℕ) → items (m.segs t) ≡ [] → items (get (m.segs t)).0 ≡ []
  get-empty t e = from (get (m.segs t)).1 refl
    where
      from : (o : Option ℕ) → (get (m.segs t)).1 ≡ o → items (get (m.segs t)).0 ≡ []
      from none eq = get_none_left (m.segs t) eq
      from (some x) eq = absurd cc (sym e ∙ get_some (m.segs t) x eq)

  -- An item comes from the first segment.
  pub gets-first : (h x : ℕ) → 1 ≤ h → h ≤ m.head → (get (m.segs h)).1 ≡ some x → h ≡ m.head
  gets-first h x a b got = elim (ℕ_discrete h m.head) [
    | yes e ↦ e
    | no n ↦
        let z : ◌≡◌ {A = List ℕ} [] (x ∷ items (get (m.segs h)).0) =
          sym (gone h a (omega arith)) ∙ get_some (m.segs h) x got in
        absurd cc
  ]

  pub contents-got :
      (h x : ℕ)
      → 1 ≤ h
      → h ≤ m.head
      → (get (m.segs h)).1 ≡ some x
      → contents seg m ≡ x ∷ contents seg (record m { segs = update m.segs h (get (m.segs h)).0 })
  contents-got h x a b got =
      let s' = (get (m.segs h)).0 in
      let f' = update m.segs h s' in
      let e = gets-first h x a b got in
      let n = m.used - m.head in
      let c' = Chain-segs seg c h s' (get_closed (m.segs h)) (λ lt. get-empty h) in
      let rest : gather seg f' (m.head + 1) n ≡ gather seg m.segs (m.head + 1) n =
        gather_same seg f' m.segs (m.head + 1) n
          (λ u le lt. let ne : h ≢ u = omega arith in rw (ne→== h u ne) refl) in
      let at : items (f' m.head) ≡ items s' = rw (eq→== h m.head e) refl in
      let first : items (m.segs m.head) ≡ x ∷ items s' =
        ap (λ (u : ℕ). items (m.segs u)) (sym e) ∙ get_some (m.segs h) x got in
      contents-head seg c
      ∙ ap (λ (q : List ℕ). q ++ gather seg m.segs (m.head + 1) n) first
      ∙ ap (λ (q : List ℕ). x ∷ q)
          (sym (
            contents-head seg c'
            ∙ ap (λ (q : List ℕ). q ++ gather seg f' (m.head + 1) n) at
            ∙ ap (λ (q : List ℕ). items s' ++ q) rest))

  pub contents-put :
      (info : Bool) (t x : ℕ)
      → 1 ≤ t
      → t ≤ m.used
      → (put info x (m.segs t)).1 ≡ true
      → contents seg (record m { segs = update m.segs t (put info x (m.segs t)).0 })
        ≡ contents seg m ++ (x ∷ [])
  contents-put info t x a b ok =
      let s' = (put info x (m.segs t)).0 in
      let f' = update m.segs t s' in
      let e = accepts-last info t x a b ok in
      let n = m.used - m.head in
      let h = head_in in
      let c' = Chain-segs seg c t s' (put-closed info t x) (put-empty info t x a) in
      let front : gather seg f' m.head n ≡ gather seg m.segs m.head n =
        gather_same seg f' m.segs m.head n
          (λ u le lt. let ne : t ≢ u = omega arith in rw (ne→== t u ne) refl) in
      let at : items (f' m.used) ≡ items s' = rw (eq→== t m.used e) refl in
      let more : items s' ≡ items (m.segs m.used) ++ (x ∷ []) =
        put_items info x (m.segs t) ok ∙ ap (λ (u : ℕ). items (m.segs u) ++ (x ∷ [])) e in
      contents-last seg c'
      ∙ ap (λ (q : List ℕ). q ++ items (f' m.used)) front
      ∙ ap (λ (q : List ℕ). gather seg m.segs m.head n ++ q) (at ∙ more)
      ∙ sym (append_assoc (gather seg m.segs m.head n) (items (m.segs m.used)) (x ∷ []))
      ∙ ap (λ (q : List ℕ). q ++ (x ∷ [])) (sym (contents-last seg c))
