-- ===== src/Hazard/Protect.antt =====
-- The two forms of `protect`, and `clear`.
use mathlib.Core.Option.{some-injective, none-ne-some}
use mpmc_queues.Base.{
  ℕ, zero, suc, ◌+◌, ◌*◌, ◌≤◌, ◌<◌, ◌≡◌, ◌≢◌, ◌⊎◌, refl, sym, ap, arith, true, false, ◌==◌, ◌&&◌,
  ltb, Bool-cases, inl, inr, Option, none, some, eq→==, ne→==, ℕ_discrete, lt→ltb, le→ltb, update,
  fun_ext,
}
use mpmc_queues.Hazard.{Config, Cells, protect, clear, protect_atom, null}

module _ (atom : ℕ → ℕ) (p : ℕ) where
  atom_sound :
      (fuel m s : ℕ) → protect_atom fuel atom m ≡ some (p, s) → (m ≤ s) × (atom (s + 1) ≡ p)
  unfolding protect_atom
  atom_sound zero m s e = absurd (none-ne-some _ e)
  atom_sound (suc fuel) m s e = elim (Bool-cases (atom (m + 2) == atom m)) [
    | inl y ↦
        let e' : ◌≡◌ {A = Option (ℕ × ℕ)} (some (atom m, m + 1)) (some (p, s)) = rw y at e in
        let pair : ◌≡◌ {A = ℕ × ℕ} (atom m, m + 1) (p, s) = some-injective _ _ e' in
        let first : atom m ≡ p = ap (λ (r : ℕ × ℕ). r.0) pair in
        let when : m + 1 ≡ s = ap (λ (r : ℕ × ℕ). r.1) pair in
        let after : s + 1 ≡ m + 2 = omega arith in (omega arith, rw after (ground arith))
    | inr n ↦ let (le, a) = atom_sound fuel (m + 3) s (rw n at e) in (omega arith, a)
  ]

  atom_ends :
      (k m : ℕ)
      → ((n : ℕ) → m + 3 * k ≤ n → atom n ≡ p)
      → (q : ℕ) × (s : ℕ) × (protect_atom (suc k) atom m ≡ some (q, s))
  unfolding protect_atom
  atom_ends zero m still =
      let a : atom (m + 2) ≡ p = still (m + 2) (omega arith) in
      let b : atom m ≡ p = still m (omega arith) in
      let y : (atom (m + 2) == atom m) ≡ true = ground arith in (atom m, m + 1, rw y refl)
  atom_ends (suc k) m still = elim (Bool-cases (atom (m + 2) == atom m)) [
    | inl y ↦ (atom m, m + 1, rw y refl)
    | inr n ↦ let (q, s, e) = atom_ends k (m + 3) (λ i le. still i (omega arith)) in (q, s, rw n e)
  ]

  -- When the loop of `protect` returns a pointer, it has written the cell at a moment `s` from the
  -- call on, and the atomic holds the pointer just after it. If the atomic does not change any more
  -- after `k` rounds, the loop returns in at most one round more.
  pub protect_atom_holds :
      (m : ℕ)
      → ((fuel s : ℕ) → protect_atom fuel atom m ≡ some (p, s) → (m ≤ s) × (atom (s + 1) ≡ p))
        × ((k : ℕ)
            → ((n : ℕ) → m + 3 * k ≤ n → atom n ≡ p)
            → (q : ℕ) × (s : ℕ) × (protect_atom (suc k) atom m ≡ some (q, s)))
  protect_atom_holds m = (λ fuel s e. atom_sound fuel m s e, λ k still. atom_ends k m still)

module _ (cells : Cells) (ptr tid hpid : ℕ) where
  written : Cells
  written = update cells tid (update (cells tid) hpid ptr)

  kept : (t h : ℕ) → (t ≢ tid) ⊎ (h ≢ hpid) → written t h ≡ cells t h
  unfolding written
  kept t h other = elim (ℕ_discrete tid t) [
    | yes e ↦ elim (ℕ_discrete hpid h) [
      | yes f ↦ elim other [ inl a ↦ absurd (a (sym e)) | inr b ↦ absurd (b (sym f)) ]
      | no g ↦ rw (← e, eq→== tid tid refl, ne→== hpid h g) refl
    ]
    | no n ↦ rw (ne→== tid t n) refl
  ]

  undone : cells tid hpid ≡ null → update written tid (update (written tid) hpid null) ≡ cells
  unfolding written
  undone z = fun_ext λ t. fun_ext λ h. elim (ℕ_discrete tid t) [
    | yes e ↦ elim (ℕ_discrete hpid h) [
      | yes f ↦ rw (← e, ← f, eq→== tid tid refl, eq→== hpid hpid refl) (sym z)
      | no g ↦ rw (← e, eq→== tid tid refl, ne→== hpid h g) refl
    ]
    | no n ↦ rw (ne→== tid t n) refl
  ]

-- In range, `protect` writes one slot of one thread and nothing else, and `clear` on a slot that was
-- null before undoes it; out of range, the assertion of either fails.
pub protect-clear :
    (c : Config) (ptr tid hpid : ℕ) (cells : Cells)
    → (tid < c.max_threads
        → hpid < c.max_hps
        → (cells' : Cells) × (protect c ptr tid hpid cells ≡ some cells')
          × (cells' tid hpid ≡ ptr)
          × ((t h : ℕ) → (t ≢ tid) ⊎ (h ≢ hpid) → cells' t h ≡ cells t h)
          × (cells tid hpid ≡ null → clear c tid hpid cells' ≡ some cells))
      × ((c.max_threads ≤ tid) ⊎ (c.max_hps ≤ hpid)
          → (protect c ptr tid hpid cells ≡ none) × (clear c tid hpid cells ≡ none))
unfolding protect clear written
protect-clear c ptr tid hpid cells = (
  λ lt lh.
      let cells' = update cells tid (update (cells tid) hpid ptr) in
      (
        cells',
        rw (lt→ltb tid c.max_threads lt, lt→ltb hpid c.max_hps lh) refl,
        rw (eq→== tid tid refl, eq→== hpid hpid refl) refl,
        kept cells ptr tid hpid,
        λ z.
            rw (lt→ltb tid c.max_threads lt, lt→ltb hpid c.max_hps lh)
              (ap some (undone cells ptr tid hpid z)),
      ),
  λ out. elim out [
    | inl a ↦ rw (le→ltb tid c.max_threads a) (refl, refl)
    | inr b ↦
        let e : (ltb tid c.max_threads && ltb hpid c.max_hps) ≡ false = ground arith in
        rw e (refl, refl)
  ],
)
