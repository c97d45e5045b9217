-- ===== src/Prq/Alone/Defs.antt =====
-- Runs without interference, and what a `PRQueue` holds between two calls.
use mpmc_queues.Base.{
  ℕ, zero, suc, ◌+◌, ◌%◌, ◌≤◌, ◌<◌, ◌≡◌, ◌≢◌, ap, false, List, [], ◌∷◌, ◌++◌, arith, update, Option,
  none, some, update_ne, length,
}
use mpmc_queues.CasLoop.{Ring, Cell}
use mpmc_queues.Prq.{Shared, Pc, is_reserved, thread_reserved}
use mpmc_queues.Prq.Step.{step}

-- The shared state, the `thread_local` of the thread, and where it stands.
abbrev pub State : Type 0
State = Shared × Option ℕ × Pc

abbrev pub access : Ring → State → State
access r (m, tid, p) = step r tid m p

-- `n` shared accesses in a row.
unfoldable pub solo : Ring → (n : ℕ) → State → State
solo r zero s = s
solo r (suc n) s = solo r n (access r s)

pub solo-suc :
    (r : Ring) (n : ℕ) (s : State) {s' : State} → access r s ≡ s' → solo r (suc n) s ≡ solo r n s'
unfolding solo
solo-suc r n s e = ap (solo r n) e

-- The tag of a thread, which the first enqueue takes from the counter.
abbrev pub tag : Option ℕ → Shared → ℕ
tag none m = thread_reserved m.counter
tag (some u) m = u

abbrev pub HasTag : Option ℕ → Type 0
HasTag none = Unit {0}
HasTag (some u) = u ≢ 0

-- The accesses of an enqueue that looks at its cell with `n` accesses left.
abbrev pub rounds : Option ℕ → ℕ → ℕ
rounds none n = suc (suc n)
rounds (some u) n = suc n

-- A pointer that a client may enqueue.
abbrev pub IsItem : ℕ → Type 0
IsItem x = (x ≢ 0) × (is_reserved x ≡ false)

-- The items from ticket `h` on stand in their cells.
abbrev pub Stored : Ring → (ℕ → Cell) → (h : ℕ) → List ℕ → Type 0
Stored r cells h [] = Unit {0}
Stored r cells h (x ∷ q) =
    IsItem x
    × (cells (h % r.size) ≡ record { val = x; seq = h + r.size })
    × Stored r cells (suc h) q

-- No call is under way, the ring is open, no cell is unsafe, and the ring holds the queue `q`.
pub record Holds (r : Ring) (m : Shared) (q : List ℕ) : Type 0 where
  pub count : m.tail ≡ m.head + length q
  pub fits : length q ≤ r.size
  pub items : Stored r m.cells m.head q
  pub vacant :
      (t : ℕ)
      → m.tail ≤ t
      → t < m.head + r.size
      → ((m.cells (t % r.size)).val ≡ 0) × ((m.cells (t % r.size)).seq ≤ t)

-- A write to a cell of another ticket.
pub Stored-update :
    (r : Ring) (cells : ℕ → Cell) (h : ℕ) (q : List ℕ) (i : ℕ) (c : Cell)
    → ((t : ℕ) → h ≤ t → t < h + length q → i ≢ t % r.size)
    → Stored r cells h q
    → Stored r (update cells i c) h q
Stored-update r cells h [] i c ne p = tt
Stored-update r cells h (x ∷ q) i c ne (k, e, p) = (
  k,
  rw (update_ne cells i (h % r.size) c (ne h (omega arith) (omega arith))) e,
  Stored-update r cells (suc h) q i c (λ t a b. ne t (omega arith) (omega arith)) p,
)

pub Stored-append :
    (r : Ring) (cells : ℕ → Cell) (h t : ℕ) (q : List ℕ) (x : ℕ)
    → t ≡ h + length q
    → Stored r cells h q
    → IsItem x
    → cells (t % r.size) ≡ record { val = x; seq = t + r.size }
    → Stored r cells h (q ++ (x ∷ []))
Stored-append r cells h t [] x e p k c = let e' : t ≡ h = omega arith in (k, (rw e' at c), tt)
Stored-append r cells h t (y ∷ q) x e (k₀, e₀, p) k c =
    (k₀, e₀, Stored-append r cells (suc h) t q x (omega arith) p k c)
