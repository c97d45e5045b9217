-- ===== src/CasLoop/Alone/Defs.antt =====
-- Runs without interference, and what a ring holds between two calls.
use mpmc_queues.Base.{
  ℕ, zero, suc, ◌+◌, ◌%◌, ◌≤◌, ◌<◌, ◌≡◌, ◌≢◌, ap, false, List, [], ◌∷◌, ◌++◌, arith, update,
  update_ne, length,
}
use mpmc_queues.CasLoop.{Ring, Shared, Cell, Pc, step}

-- `n` shared accesses in a row, with no spurious failure.
unfoldable pub solo : Ring → (n : ℕ) → Shared → Pc → Shared × Pc
solo r zero m p = (m, p)
solo r (suc n) m p = solo r n (step r false m p).0 (step r false m p).1

pub solo-suc :
    (r : Ring) (n : ℕ) (m : Shared) (p : Pc) {m' : Shared} {p' : Pc}
    → step r false m p ≡ (m', p')
    → solo r (suc n) m p ≡ solo r n m' p'
unfolding solo
solo-suc r n m p e = ap (λ (s : Shared × Pc). solo r n s.0 s.1) e

-- The items from ticket `h` on stand published in their cells.
abbrev pub Published : Ring → (ℕ → Cell) → (h : ℕ) → List ℕ → Type 0
Published r cells h [] = Unit {0}
Published r cells h (x ∷ q) =
    (cells (h % r.size) ≡ record { val = x; seq = h + 1 }) × Published r cells (suc h) q

-- No call is under way, the ring is open, and it holds the queue `q`.
pub record Holds (r : Ring) (m : Shared) (q : List ℕ) : Type 0 where
  pub count : m.tail ≡ m.head + length q
  pub fits : length q ≤ r.size
  pub items : Published r m.cells m.head q
  pub vacant : (t : ℕ) → m.tail ≤ t → t < m.head + r.size → (m.cells (t % r.size)).seq ≡ t

-- A write to a cell of another ticket.
pub Published-update :
    (r : Ring) (cells : ℕ → Cell) (h : ℕ) (q : List ℕ) (i : ℕ) (c : Cell)
    → ((t : ℕ) → h ≤ t → t < h + length q → i ≢ t % r.size)
    → Published r cells h q
    → Published r (update cells i c) h q
Published-update r cells h [] i c ne p = tt
Published-update r cells h (x ∷ q) i c ne (e, p) = (
  rw (update_ne cells i (h % r.size) c (ne h (omega arith) (omega arith))) e,
  Published-update r cells (suc h) q i c (λ t a b. ne t (omega arith) (omega arith)) p,
)

pub Published-append :
    (r : Ring) (cells : ℕ → Cell) (h t : ℕ) (q : List ℕ) (x : ℕ)
    → t ≡ h + length q
    → Published r cells h q
    → cells (t % r.size) ≡ record { val = x; seq = t + 1 }
    → Published r cells h (q ++ (x ∷ []))
Published-append r cells h t [] x e p c = let e' : t ≡ h = omega arith in (rw e' at c, tt)
Published-append r cells h t (y ∷ q) x e (e₀, p) c =
    (e₀, Published-append r cells (suc h) t q x (omega arith) p c)

-- The oldest cell shows that its item is there.
pub Published-seq :
    (r : Ring) (cells : ℕ → Cell) (h : ℕ) (q : List ℕ)
    → 0 < length q
    → Published r cells h q
    → (cells (h % r.size)).seq ≡ h + 1
Published-seq r cells h [] lt p = absurd (omega arith)
Published-seq r cells h (x ∷ q) lt (e, p) = ap (λ (c : Cell). c.seq) e
