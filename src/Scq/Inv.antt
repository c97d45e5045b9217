-- ===== src/Scq/Inv.antt =====
-- What every schedule of `SCQueue` keeps: an index is in one ring, once, or a thread has it.
use mpmc_queues.Base.{
  ℕ, ◌+◌, ◌^◌, ◌≤◌, ◌<◌, ◌≡◌, ◌≢◌, ◌⊎◌, inl, inr, refl, sym, ap, ◌∙◌, arith, List, [], ◌∷◌, ◌++◌,
  count, tally, count-append, update, ℕ_discrete, eq→==, ne→==,
}
use mpmc_queues.Ring.Raw.{HasPlace}
use mpmc_queues.Scq.Raw.{Rings}
use mpmc_queues.Scq.{Pc, enq_write, enq_put, enq_back, deq_read, deq_back}
use mpmc_queues.Scq.System.{System, Place, free, filled, held, lost}

-- The index that a thread has.
abbrev pub Holds : Pc → ℕ → Type 0
Holds (enq_write x e) u = e ≡ u
Holds (enq_put x e) u = e ≡ u
Holds (enq_back e) u = e ≡ u
Holds (deq_read e) u = e ≡ u
Holds (deq_back e x) u = e ≡ u
Holds _ u = ⊥

-- The item that a thread is about to publish is in its slot.
abbrev pub Knows : (ℕ → ℕ) → Pc → Type 0
Knows d (enq_put x e) = d e ≡ x
Knows d _ = Unit {0}

abbrev pub in_free : Place → ℕ
in_free free = 1
in_free _ = 0

abbrev pub in_filled : Place → ℕ
in_filled filled = 1
in_filled _ = 0

-- A list holds the indices that are at one place.
abbrev pub Counted : (Place → ℕ) → (ℕ → Place) → List ℕ → Type 0
Counted at place l = (x : ℕ) → count x l ≡ at (place x)

module _ (at : Place → ℕ) (place : ℕ → Place) (l : List ℕ) (h : Counted at place l) (e : ℕ)
    (p : Place) where
  pub Counted-add : at (place e) ≡ 0 → at p ≡ 1 → Counted at (update place e p) (l ++ (e ∷ []))
  Counted-add a b x =
      let split = count-append x l (e ∷ []) in
      elim (ℕ_discrete e x) [
        | yes f ↦
            let one : tally x e ≡ 1 = rw (eq→== x e (sym f)) refl in
            let z : at (place x) ≡ 0 = ap (λ (u : ℕ). at (place u)) (sym f) ∙ a in
            rw (eq→== e x f) (omega (arith, split, one, h x, z, b))
        | no n ↦
            let none_of : tally x e ≡ 0 = rw (ne→== x e (λ f. n (sym f))) refl in
            rw (ne→== e x n) (omega (arith, split, none_of, h x))
      ]

  pub Counted-same : at (place e) ≡ at p → Counted at (update place e p) l
  Counted-same a x = elim (ℕ_discrete e x) [
    | yes f ↦ rw (eq→== e x f) (h x ∙ ap (λ (u : ℕ). at (place u)) (sym f) ∙ a)
    | no n ↦ rw (ne→== e x n) (h x)
  ]

  pub Counted-remove :
      (l' : List ℕ) → l ≡ e ∷ l' → at (place e) ≤ 1 → at p ≡ 0 → Counted at (update place e p) l'
  Counted-remove l' first a b x =
      let split : count x l ≡ tally x e + count x l' = ap (count x) first in
      elim (ℕ_discrete e x) [
        | yes f ↦
            let one : tally x e ≡ 1 = rw (eq→== x e (sym f)) refl in
            let z : at (place x) ≡ at (place e) = ap (λ (u : ℕ). at (place u)) (sym f) in
            rw (eq→== e x f) (omega (arith, split, one, h x, z, b, a))
        | no n ↦
            let none_of : tally x e ≡ 0 = rw (ne→== x e (λ f. n (sym f))) refl in
            rw (ne→== e x n) (omega (arith, split, none_of, h x))
      ]

pub in_free_pos : (p : Place) → 0 < in_free p → p ≡ free
in_free_pos free h = refl
in_free_pos filled h = absurd (omega arith)
in_free_pos (held i) h = absurd (omega arith)
in_free_pos lost h = absurd (omega arith)

pub in_filled_pos : (p : Place) → 0 < in_filled p → p ≡ filled
in_filled_pos filled h = refl
in_filled_pos free h = absurd (omega arith)
in_filled_pos (held i) h = absurd (omega arith)
in_filled_pos lost h = absurd (omega arith)

pub in_free-le : (p : Place) → in_free p ≤ 1
in_free-le free = omega arith
in_free-le filled = omega arith
in_free-le (held i) = omega arith
in_free-le lost = omega arith

pub in_filled-le : (p : Place) → in_filled p ≤ 1
in_filled-le free = omega arith
in_filled-le filled = omega arith
in_filled-le (held i) = omega arith
in_filled-le lost = omega arith

module _ {R : Type 0} (rings : Rings R) (order : ℕ) where
  open rings use {items}

  pub record Inv (s : System R) : Type 0 where
    pub frees : Counted in_free s.place (items s.mem.fq)
    pub fills : Counted in_filled s.place (items s.mem.aq)
    pub named : (x : ℕ) → s.place x ≢ lost → x < 2 ^ order
    pub mine : (i e : ℕ) → Holds (s.pc i) e → s.place e ≡ held i
    pub known : (i : ℕ) → Knows s.mem.underlying (s.pc i)
    pub small : order < 64

  module _ (s : System R) (inv : Inv s) (i : ℕ) where
    open inv use {frees, fills, named, mine, known, small}

    -- Who has an index after thread `i` has moved to `p'`.
    holder :
        (p' : Pc) (j x : ℕ)
        → Holds (update s.pc i p' j) x
        → (((i ≡ j) × Holds p' x) ⊎ ((i ≢ j) × Holds (s.pc j) x))
    holder p' j x h = elim (ℕ_discrete i j) [
      | yes e ↦ let h' : Holds p' x = rw (eq→== i j e) at h in inl (e, h')
      | no n ↦ let h' : Holds (s.pc j) x = rw (ne→== i j n) at h in inr (n, h')
    ]

    pub knows :
        (p' : Pc)
        → Knows s.mem.underlying p'
        → (j : ℕ) → Knows s.mem.underlying (update s.pc i p' j)
    knows p' k j = elim (ℕ_discrete i j) [
      | yes e ↦ rw (eq→== i j e) k
      | no n ↦ rw (ne→== i j n) (known j)
    ]

    -- The rings hold what they held, and thread `i` gets no index.
    pub Inv-same :
        (aq' fq' : R) (p' : Pc)
        → items aq' ≡ items s.mem.aq
        → items fq' ≡ items s.mem.fq
        → ((e : ℕ) → Holds p' e → Holds (s.pc i) e)
        → Knows s.mem.underlying p'
        → Inv (record s { mem = record s.mem { aq = aq'; fq = fq' }; pc = update s.pc i p' })
    Inv-same aq' fq' p' a f back k = record {
      frees = λ x. ap (count x) f ∙ frees x;
      fills = λ x. ap (count x) a ∙ fills x;
      named = named;
      mine = λ j x h. elim (holder p' j x h) [
        | inl (e, h') ↦ rw (← e) (mine i x (back x h'))
        | inr (n, h') ↦ mine j x h'
      ];
      known = knows p' k;
      small = small;
    }

    -- One index changes its place.
    pub Inv-place :
        (aq' fq' : R) (p' : Pc) (e : ℕ) (p : Place)
        → Counted in_free (update s.place e p) (items fq')
        → Counted in_filled (update s.place e p) (items aq')
        → (p ≢ lost → e < 2 ^ order)
        → ((j x : ℕ) → i ≢ j → Holds (s.pc j) x → e ≢ x)
        → ((x : ℕ) → Holds p' x → (e ≡ x) × (p ≡ held i))
        → Knows s.mem.underlying p'
        → Inv (record s {
          mem = record s.mem { aq = aq'; fq = fq' };
          pc = update s.pc i p';
          place = update s.place e p;
        })
    Inv-place aq' fq' p' e p f a range apart own k = record {
      frees = f;
      fills = a;
      named = λ x ne. elim (ℕ_discrete e x) [
        | yes z ↦ rw (← z) (range (rw (eq→== e x z) at ne))
        | no n ↦ named x (rw (ne→== e x n) at ne)
      ];
      mine = λ j x h. elim (holder p' j x h) [
        | inl (z, h') ↦ let (same, at) = own x h' in rw (eq→== e x same, ← z) at
        | inr (n, h') ↦ rw (ne→== e x (apart j x n h')) (mine j x h')
      ];
      known = knows p' k;
      small = small;
    }

    -- The other threads have no index that stands in a ring or that thread `i` has.
    pub apart_from :
        (e : ℕ)
        → ((j : ℕ) → i ≢ j → s.place e ≢ held j)
        → (j x : ℕ) → i ≢ j
        → Holds (s.pc j) x
        → e ≢ x
    apart_from e differs j x n h z = differs j n (ap s.place z ∙ mine j x h)

    -- An index that thread `i` has fits in a ring.
    pub fits :
        (at : Place → ℕ) (l : List ℕ) (e : ℕ)
        → Counted at s.place l
        → ((p : Place) → at p ≤ 1)
        → ((p : Place) → 0 < at p → p ≢ lost)
        → at (s.place e) ≡ 0
        → s.place e ≡ held i
        → HasPlace order e l
    fits at l e h once some_place z has = record {
      small = small;
      in_range = named e (λ q. cc);
      absent = h e ∙ z;
      at_most_once = λ y. omega (arith, h y, once (s.place y));
      all_in_range = λ y pos. named y (some_place (s.place y) (omega (arith, h y)));
    }
