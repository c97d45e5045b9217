-- ===== src/Hq/Inv.antt =====
-- What every schedule of `Hq/System` keeps: tickets of `enqueue` are handed out once, and the cell of
-- an open ticket holds no item.
use mpmc_queues.Base.{
  ℕ, ◌+◌, ◌^◌, ◌≤◌, ◌<◌, ◌≡◌, ◌≢◌, ◌⊎◌, refl, sym, ◌∙◌, arith, inl, inr, some, ◌∷◌, List, count,
  tally, update, ℕ_discrete, eq→==, ne→==,
}
use mpmc_queues.Hq.{
  Pc, enq_add, enq_cas, fast_wait, fast_swap, slow_item, slow_tail, slow_again, slow_skip,
  slow_wait, slow_swap, dequeued, add64, seen,
}
use mpmc_queues.Hq.System.{System}
use mpmc_queues.Faa.Counts.{listing, count-listing-update}

abbrev pub HasTicket : Pc → ℕ → Type 0
HasTicket (enq_cas item expected t) u = t ≡ u
HasTicket _ u = ⊥

-- The local variables of a thread, and what it returned, are proper.
abbrev pub IsProper : (size : ℕ) → Pc → Type 0
IsProper size (enq_add item expected) = (1 < item) × (expected ≤ 1)
IsProper size (enq_cas item expected t) = (1 < item) × (expected ≤ 1) × (t < size)
IsProper size (fast_wait h i) = h < size
IsProper size (fast_swap h) = h < size
IsProper size (slow_item h) = h < size
IsProper size (slow_tail h item) = h < size
IsProper size (slow_again h item t) = h < size
IsProper size (slow_skip h) = h < size
IsProper size (slow_wait h i) = h < size
IsProper size (slow_swap h) = h < size
IsProper size (dequeued (some x)) = 1 < x
IsProper size _ = Unit {0}

-- `w` bounds what was added to `tail` so far.
pub record Inv (size w : ℕ) (s : System) : Type 0 where
  pub counts :
      (x : ℕ) → 1 < x → count x s.accepted ≡ count x s.taken + count x (listing s.mem.cells size)
  pub items : (count 0 s.taken ≡ 0) × (count 1 s.taken ≡ 0)
  pub small : s.mem.tail ≤ w
  pub mine : (i t : ℕ) → HasTicket (s.pc i) t → (t < s.mem.tail) × (s.mem.cells t ≤ 1)
  pub alone : (i j t : ℕ) → i ≢ j → HasTicket (s.pc i) t → HasTicket (s.pc j) t → ⊥
  pub fresh : (t : ℕ) → s.mem.tail ≤ t → t < size → s.mem.cells t ≤ 1
  pub proper : (i : ℕ) → IsProper size (s.pc i)

module _ {size w : ℕ} (s : System) (inv : Inv size w s) (i : ℕ) where
  open inv use {counts, items, small, mine, alone, fresh, proper}

  IsProper-update : (p' : Pc) → IsProper size p' → (j : ℕ) → IsProper size (update s.pc i p' j)
  IsProper-update p' good j = elim (ℕ_discrete i j) [
    | yes e ↦ rw (eq→== i j e) good
    | no n ↦ rw (ne→== i j n) (proper j)
  ]

  -- Who has a ticket after thread `i` has moved to `p'`.
  owner :
      (p' : Pc) (j t : ℕ)
      → HasTicket (update s.pc i p' j) t
      → (((i ≡ j) × HasTicket p' t) ⊎ ((i ≢ j) × HasTicket (s.pc j) t))
  owner p' j t h = elim (ℕ_discrete i j) [
    | yes e ↦ let h' : HasTicket p' t = rw (eq→== i j e) at h in inl (e, h')
    | no n ↦ let h' : HasTicket (s.pc j) t = rw (ne→== i j n) at h in inr (n, h')
  ]

  -- A step that keeps `tail` and the cells of the open tickets, and gives no ticket.
  pub Inv-cells :
      (head' next' : ℕ) (cells' : ℕ → ℕ) (p' : Pc) (accepted' taken' : List ℕ) (more : ℕ)
      → ((t : ℕ) → HasTicket p' t → ⊥)
      → ((x : ℕ) → 1 < x → count x accepted' ≡ count x taken' + count x (listing cells' size))
      → (count 0 taken' ≡ 0) × (count 1 taken' ≡ 0)
      → ((j t : ℕ) → i ≢ j → HasTicket (s.pc j) t → cells' t ≤ 1)
      → ((t : ℕ) → s.mem.tail ≤ t → t < size → cells' t ≤ 1)
      → IsProper size p'
      → Inv size (w + more) (record s {
        mem = record s.mem { head = head'; cells = cells'; next = next' };
        pc = update s.pc i p';
        accepted = accepted';
        taken = taken';
      })
  Inv-cells head' next' cells' p' accepted' taken' more without counts' items' held fresh' good =
      record {
        counts = counts';
        items = items';
        small = omega arith;
        mine = λ j t h. elim (owner p' j t h) [
          | inl (e, h') ↦ absurd (without t h')
          | inr (n, h') ↦ ((mine j t h').0, held j t n h')
        ];
        alone = λ j l t ne a b. elim (owner p' j t a) [
          | inl (e, a') ↦ absurd (without t a')
          | inr (m, a') ↦ elim (owner p' l t b) [
            | inl (f, b') ↦ absurd (without t b')
            | inr (n, b') ↦ alone j l t ne a' b'
          ]
        ];
        fresh = fresh';
        proper = IsProper-update p' good;
      }

  -- `tail.fetch_add` hands out the ticket `tail`, or none.
  pub Inv-tail :
      (p' : Pc) (by more : ℕ)
      → by ≤ more
      → w + more < 2 ^ 64
      → ((t : ℕ) → HasTicket p' t → (t ≡ s.mem.tail) × (t < size) × (1 ≤ by))
      → IsProper size p'
      → Inv size
          (w + more)
          (record s { mem = record s.mem { tail = add64 s.mem.tail by }; pc = update s.pc i p' })
  Inv-tail p' by more le bound gets good =
      let up : add64 s.mem.tail by ≡ s.mem.tail + by = omega arith in
      record {
        counts = counts;
        items = items;
        small = rw up (omega arith);
        mine = λ j t h. rw up (elim (owner p' j t h) [
          | inl (e, h') ↦ let (at, lt, one) = gets t h' in (omega arith, fresh t (omega arith) lt)
          | inr (n, h') ↦ let (below, z) = mine j t h' in (omega arith, z)
        ]);
        alone = λ j l t ne a b. elim (owner p' j t a) [
          | inl (e, a') ↦ elim (owner p' l t b) [
            | inl (f, b') ↦ ne (sym e ∙ f)
            | inr (n, b') ↦
                let (at, lt, one) = gets t a' in let (below, z) = mine l t b' in omega arith
          ]
          | inr (m, a') ↦ elim (owner p' l t b) [
            | inl (f, b') ↦
                let (at, lt, one) = gets t b' in let (below, z) = mine j t a' in omega arith
            | inr (n, b') ↦ alone j l t ne a' b'
          ]
        ];
        fresh = λ t le' lt. fresh t (omega (arith, up, le')) lt;
        proper = IsProper-update p' good;
      }

  -- A step that changes neither `tail` nor the cells, and gives no ticket.
  pub Inv-quiet :
      (head' next' : ℕ) (p' : Pc) (more : ℕ)
      → ((t : ℕ) → HasTicket p' t → ⊥)
      → IsProper size p'
      → Inv size
          (w + more)
          (record s { mem = record s.mem { head = head'; next = next' }; pc = update s.pc i p' })
  Inv-quiet head' next' p' more without good =
      Inv-cells head' next' s.mem.cells p' s.accepted s.taken more without counts items
        (λ j t n h. (mine j t h).1) fresh good

  -- The exchange of `dequeue` leaves no item in the cell.
  pub Inv-swap :
      (h : ℕ) (p' : Pc) (taken' : List ℕ) (more : ℕ)
      → h < size
      → ((t : ℕ) → HasTicket p' t → ⊥)
      → ((x : ℕ) → 1 < x → count x taken' ≡ count x s.taken + tally x (s.mem.cells h))
      → (count 0 taken' ≡ 0) × (count 1 taken' ≡ 0)
      → IsProper size p'
      → Inv size (w + more) (record s {
        mem = record s.mem { cells = update s.mem.cells h seen };
        pc = update s.pc i p';
        taken = taken';
      })
  Inv-swap h p' taken' more lt without took none_reserved good =
      let cells' = update s.mem.cells h seen in
      let low : (t : ℕ) → s.mem.cells t ≤ 1 → cells' t ≤ 1 = λ t z. elim (ℕ_discrete h t) [
        | yes e ↦ rw (eq→== h t e) (omega arith)
        | no n ↦ rw (ne→== h t n) z
      ] in
      Inv-cells s.mem.head s.mem.next cells' p' s.accepted taken' more without
        (λ x lx.
          let one : tally x seen ≡ 0 = rw (ne→== x 1 (omega arith)) refl in
          omega
            (arith, counts x lx, count-listing-update x s.mem.cells size h seen lt, one, took x lx))
        none_reserved (λ j t n h'. low t (mine j t h').1) (λ t le l. low t (fresh t le l)) good

  -- The exchange of `enqueue` puts the item in the cell of its ticket.
  pub Inv-put :
      (item t : ℕ) (p' : Pc) (more : ℕ)
      → 1 < item
      → t < size
      → HasTicket (s.pc i) t
      → ((u : ℕ) → HasTicket p' u → ⊥)
      → IsProper size p'
      → Inv size (w + more) (record s {
        mem = record s.mem { cells = update s.mem.cells t item };
        pc = update s.pc i p';
        accepted = item ∷ s.accepted;
      })
  Inv-put item t p' more big lt has without good =
      let cells' = update s.mem.cells t item in
      let (below, low) = mine i t has in
      Inv-cells s.mem.head s.mem.next cells' p' (item ∷ s.accepted) s.taken more without
        (λ x lx.
          let none_there : tally x (s.mem.cells t) ≡ 0 =
            rw (ne→== x (s.mem.cells t) (omega arith)) refl in
          omega (arith, counts x lx, count-listing-update x s.mem.cells size t item lt, none_there))
        items
        (λ j u n h'.
          let differs : t ≢ u = λ e. alone i j u n (rw (← e) has) h' in
          rw (ne→== t u differs) (mine j u h').1)
        (λ u le l. let differs : t ≢ u = omega arith in rw (ne→== t u differs) (fresh u le l)) good
