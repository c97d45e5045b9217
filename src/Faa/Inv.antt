-- ===== src/Faa/Inv.antt =====
-- What every schedule of `Faa/System` keeps: tickets of `dequeue` are handed out once, and an item
-- that went into a cell is there or has been handed out.
use mpmc_queues.Base.{
  ℕ, suc, ◌+◌, ◌^◌, ◌≤◌, ◌<◌, ◌≡◌, ◌≢◌, ◌⊎◌, refl, sym, ◌∙◌, arith, inl, inr, some, ◌∷◌, count,
  tally, update, ℕ_discrete, eq→==, ne→==,
}
use mpmc_queues.Faa.{
  Pc, enq_add, enq_cas, deq_look, deq_head, deq_wait, deq_swap, dequeued, empty, seen, add64,
}
use mpmc_queues.Faa.System.{System}
use mpmc_queues.Faa.Counts.{listing, count-listing-update}

abbrev pub HasTicket : Pc → ℕ → Type 0
HasTicket (deq_look h) t = h ≡ t
HasTicket (deq_head h) t = h ≡ t
HasTicket (deq_wait h i) t = h ≡ t
HasTicket (deq_swap h) t = h ≡ t
HasTicket _ t = ⊥

-- The local variables of a thread, and what it returned, are proper.
abbrev pub IsProper : (size : ℕ) → Pc → Type 0
IsProper size (enq_add item) = 1 < item
IsProper size (enq_cas item t) = (1 < item) × (t < size)
IsProper size (dequeued (some x)) = 1 < x
IsProper size _ = Unit {0}

-- `k` bounds the number of events so far.
pub record Inv (size k : ℕ) (s : System) : Type 0 where
  pub counts :
      (x : ℕ) → 1 < x → count x s.accepted ≡ count x s.returned + count x (listing s.mem.cells size)
  pub items : (count 0 s.returned ≡ 0) × (count 1 s.returned ≡ 0)
  pub small : s.mem.head ≤ k
  pub mine :
      (i t : ℕ) → HasTicket (s.pc i) t → (t < size) × (t < s.mem.head) × (s.mem.cells t ≢ seen)
  pub alone : (i j t : ℕ) → i ≢ j → HasTicket (s.pc i) t → HasTicket (s.pc j) t → ⊥
  pub unseen : (t : ℕ) → s.mem.head ≤ t → t < size → s.mem.cells t ≢ seen
  pub owned :
      (t : ℕ) → t < size → t < s.mem.head → s.mem.cells t ≢ seen → (i : ℕ) × HasTicket (s.pc i) t
  pub proper : (i : ℕ) → IsProper size (s.pc i)

module _ {size k : ℕ} (s : System) (inv : Inv size k s) (i : ℕ) where
  open inv use {counts, items, small, mine, alone, unseen, owned, proper}

  pub IsProper-update : (p' : Pc) → IsProper size p' → (j : ℕ) → IsProper size (update s.pc i p' j)
  IsProper-update p' good j = elim (ℕ_discrete i j) [
    | yes e ↦ rw (eq→== i j e) good
    | no n ↦ rw (ne→== i j n) (proper j)
  ]

  -- Who has a ticket after thread `i` has moved to `p'`.
  owner :
      (p' : Pc) (j t : ℕ)
      → HasTicket (update s.pc i p' j) t
      → (((i ≡ j) × HasTicket p' t) ⊎ ((i ≢ j) × HasTicket (s.pc j) t))
  owner p' j t h = elim (ℕ_discrete i j) [
    | yes e ↦ let h' : HasTicket p' t = rw (eq→== i j e) at h in inl (e, h')
    | no n ↦ let h' : HasTicket (s.pc j) t = rw (ne→== i j n) at h in inr (n, h')
  ]

  self : (p' : Pc) (t : ℕ) → HasTicket p' t → HasTicket (update s.pc i p' i) t
  self p' t h = rw (eq→== i i refl) h

  pub other : (p' : Pc) (j t : ℕ) → i ≢ j → HasTicket (s.pc j) t → HasTicket (update s.pc i p' j) t
  other p' j t n h = rw (ne→== i j n) h

  -- A step that keeps the cells, `head` and the thread's ticket.
  pub Inv-quiet :
      (tail' : ℕ) (p' : Pc)
      → ((t : ℕ) → HasTicket p' t → HasTicket (s.pc i) t)
      → ((t : ℕ) → HasTicket (s.pc i) t → HasTicket p' t)
      → IsProper size p'
      → Inv size (suc k) (record s { mem = record s.mem { tail = tail' }; pc = update s.pc i p' })
  Inv-quiet tail' p' back forth good = record {
    counts = counts;
    items = items;
    small = omega arith;
    mine = λ j t h. elim (owner p' j t h) [
      | inl (e, h') ↦ mine i t (back t h')
      | inr (n, h') ↦ mine j t h'
    ];
    alone = λ j l t ne a b. elim (owner p' j t a) [
      | inl (e, a') ↦ elim (owner p' l t b) [
        | inl (f, b') ↦ ne (sym e ∙ f)
        | inr (n, b') ↦ alone i l t n (back t a') b'
      ]
      | inr (m, a') ↦ elim (owner p' l t b) [
        | inl (f, b') ↦ alone i j t m (back t b') a'
        | inr (n, b') ↦ alone j l t ne a' b'
      ]
    ];
    unseen = unseen;
    owned = λ t lt below ne.
        let (j, h) = owned t lt below ne in
        elim (ℕ_discrete i j) [
          | yes e ↦ let h' : HasTicket (s.pc i) t = rw e h in (i, self p' t (forth t h'))
          | no n ↦ (j, other p' j t n h)
        ];
    proper = IsProper-update p' good;
  }

  pub none_after :
      (p' : Pc)
      → ((t : ℕ) → HasTicket p' t → ⊥)
      → (j t : ℕ) → HasTicket (update s.pc i p' j) t
      → (i ≢ j) × HasTicket (s.pc j) t
  none_after p' without j t h = elim (owner p' j t h) [
    | inl (e, h') ↦ absurd (without t h')
    | inr (n, h') ↦ (n, h')
  ]

  pub none_alone :
      (p' : Pc)
      → ((t : ℕ) → HasTicket p' t → ⊥)
      → (j l t : ℕ) → j ≢ l
      → HasTicket (update s.pc i p' j) t
      → HasTicket (update s.pc i p' l) t
      → ⊥
  none_alone p' without j l t ne a b =
      alone j l t ne (none_after p' without j t a).1 (none_after p' without l t b).1

  -- `head.fetch_add(1)` gives the thread the ticket `head`, if that is in range.
  pub Inv-head :
      (p' : Pc)
      → suc k < 2 ^ 64
      → ((t : ℕ) → HasTicket (s.pc i) t → ⊥)
      → ((t : ℕ) → HasTicket p' t → (t ≡ s.mem.head) × (t < size))
      → (s.mem.head < size → HasTicket p' s.mem.head)
      → IsProper size p'
      → Inv size
          (suc k)
          (record s { mem = record s.mem { head = add64 s.mem.head 1 }; pc = update s.pc i p' })
  Inv-head p' bound without gets given good =
      let up : add64 s.mem.head 1 ≡ suc s.mem.head = omega arith in
      record {
        counts = counts;
        items = items;
        small = rw up (omega arith);
        mine = λ j t h. rw up (elim (owner p' j t h) [
          | inl (e, h') ↦ let (at, lt) = gets t h' in (lt, omega arith, unseen t (omega arith) lt)
          | inr (n, h') ↦ let (lt, below, ne) = mine j t h' in (lt, omega arith, ne)
        ]);
        alone = λ j l t ne a b. elim (owner p' j t a) [
          | inl (e, a') ↦ elim (owner p' l t b) [
            | inl (f, b') ↦ ne (sym e ∙ f)
            | inr (n, b') ↦
                let (at, lt) = gets t a' in let (lt', below, _) = mine l t b' in omega arith
          ]
          | inr (m, a') ↦ elim (owner p' l t b) [
            | inl (f, b') ↦
                let (at, lt) = gets t b' in let (lt', below, _) = mine j t a' in omega arith
            | inr (n, b') ↦ alone j l t ne a' b'
          ]
        ];
        unseen = λ t le lt. unseen t (omega (arith, up, le)) lt;
        owned = λ t lt below ne. elim (ℕ_discrete t s.mem.head) [
          | yes e ↦ (i, self p' t (rw e (given (omega arith))))
          | no n ↦
              let (j, h) = owned t lt (omega (arith, up, below)) ne in
              let differs : i ≢ j = λ e. without t (rw e h) in (j, other p' j t differs h)
        ];
        proper = IsProper-update p' good;
      }

  -- The exchange of `enqueue` fills an empty cell.
  pub Inv-put :
      (item t : ℕ) (p' : Pc)
      → 1 < item
      → t < size
      → s.mem.cells t ≡ empty
      → ((u : ℕ) → HasTicket (s.pc i) u → ⊥)
      → ((u : ℕ) → HasTicket p' u → ⊥)
      → IsProper size p'
      → Inv size (suc k) (record s {
        mem = record s.mem { cells = update s.mem.cells t item };
        pc = update s.pc i p';
        accepted = item ∷ s.accepted;
      })
  Inv-put item t p' big lt vacant without without' good =
      let cells' = update s.mem.cells t item in
      let real : (u : ℕ) → s.mem.cells u ≢ seen → cells' u ≢ seen = λ u ne. elim (ℕ_discrete t u) [
        | yes e ↦ rw (eq→== t u e) (omega arith)
        | no n ↦ rw (ne→== t u n) ne
      ] in
      let was : (u : ℕ) → cells' u ≢ seen → s.mem.cells u ≢ seen = λ u ne. elim (ℕ_discrete t u) [
        | yes e ↦ rw (← e, vacant) (omega arith)
        | no n ↦ rw (ne→== t u n) at ne
      ] in
      record {
        counts = λ x lx.
            let none_there : tally x (s.mem.cells t) ≡ 0 =
              rw (vacant, ne→== x 0 (omega arith)) refl in
            omega
              (arith, counts x lx, count-listing-update x s.mem.cells size t item lt, none_there);
        items = items;
        small = omega arith;
        mine = λ j u h.
            let (n, h') = none_after p' without' j u h in
            let (lu, below, ne) = mine j u h' in (lu, below, real u ne);
        alone = none_alone p' without';
        unseen = λ u le lu. real u (unseen u le lu);
        owned = λ u lu below ne.
            let (j, h) = owned u lu below (was u ne) in
            let differs : i ≢ j = λ e. without u (rw e h) in (j, other p' j u differs h);
        proper = IsProper-update p' good;
      }
