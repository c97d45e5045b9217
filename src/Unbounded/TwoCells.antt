-- ===== src/Unbounded/TwoCells.antt =====
-- A segment of two cells that keeps the promises of `SegmentOps`.
use mpmc_queues.Base.{
  ℕ, zero, suc, ◌≡◌, refl, arith, Bool, true, false, Option, none, some, List, [], ◌∷◌, ◌++◌,
}
use mpmc_queues.Unbounded.Segment.{SegmentOps}

-- A segment whose cells are used once: how many are left, and the items.
abbrev pub Cells : Type 0
Cells = ℕ × List ℕ

abbrev pub put_cell : ℕ → Cells → Cells × Bool
put_cell x (zero, q) = ((zero, q), false)
put_cell x (suc n, q) = ((n, q ++ (x ∷ [])), true)

abbrev pub get_cell : Cells → Cells × Option ℕ
get_cell (n, []) = ((n, []), none)
get_cell (n, x ∷ q) = ((n, q), some x)

pub cells_put_items :
    (x : ℕ) (s : Cells) → (put_cell x s).1 ≡ true → (put_cell x s).0.1 ≡ s.1 ++ (x ∷ [])
cells_put_items x (zero, q) e = absurd cc
cells_put_items x (suc n, q) e = refl

pub cells_put_refused : (x : ℕ) (s : Cells) → (put_cell x s).1 ≡ false → (put_cell x s).0.1 ≡ s.1
cells_put_refused x (zero, q) e = refl
cells_put_refused x (suc n, q) e = absurd cc

pub cells_refused_closed : (x : ℕ) (s : Cells) → (put_cell x s).1 ≡ false → (put_cell x s).0.0 ≡ 0
cells_refused_closed x (zero, q) e = refl
cells_refused_closed x (suc n, q) e = absurd cc

pub cells_closed_refuses : (x : ℕ) (s : Cells) → s.0 ≡ 0 → (put_cell x s).1 ≡ false
cells_closed_refuses x (zero, q) e = refl
cells_closed_refuses x (suc n, q) e = absurd (omega arith)

pub cells_get_some : (s : Cells) (x : ℕ) → (get_cell s).1 ≡ some x → s.1 ≡ x ∷ (get_cell s).0.1
cells_get_some (n, []) x e = absurd cc
cells_get_some (n, y ∷ q) x e = cc

pub cells_get_none : (s : Cells) → (get_cell s).1 ≡ none → s.1 ≡ []
cells_get_none (n, []) e = refl
cells_get_none (n, y ∷ q) e = absurd cc

pub cells_get_none_left : (s : Cells) → (get_cell s).1 ≡ none → (get_cell s).0.1 ≡ []
cells_get_none_left (n, []) e = refl
cells_get_none_left (n, y ∷ q) e = absurd cc

pub cells_get_closed : (s : Cells) → s.0 ≡ 0 → (get_cell s).0.0 ≡ 0
cells_get_closed (n, []) e = e
cells_get_closed (n, y ∷ q) e = e

abbrev pub two_cells : SegmentOps Cells
two_cells = record {
  fresh = (2, []);
  put = λ _. put_cell;
  get = get_cell;
  prepare = λ s. s;
  items = λ s. s.1;
  IsClosed = λ s. s.0 ≡ 0;
  fresh_empty = refl;
  fresh_takes = λ _ x. refl;
  put_items = λ _. cells_put_items;
  put_refused = λ _. cells_put_refused;
  refused_closed = λ _. cells_refused_closed;
  closed_refuses = λ _. cells_closed_refuses;
  get_some = cells_get_some;
  get_none = cells_get_none;
  get_none_left = cells_get_none_left;
  get_closed = cells_get_closed;
  prepare_items = λ s. refl;
  prepare_closed = λ s h. h;
}
