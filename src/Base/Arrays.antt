-- ===== src/Base/Arrays.antt =====
-- Shared arrays and families of threads: maps from an index, written at one place.
use Prim.Native.Nat.{ℕ}
use mathlib.Core.Path.{◌≡◌, ap, fun_ext}
use native.Mathlib.Decide.{ℕ_discrete}
use mathlib.Core.Logic.{◌≢◌}
use native.Mathlib.Omega.{arith}
use mpmc_queues.Base.Tests.{◌==◌, if◌then◌else◌, eq→==}

module _ {ℓ} {A : Type ℓ} where
  abbrev pub update : (ℕ → A) → ℕ → A → ℕ → A
  update f i a j = if i == j then a else f j

  pub update_self : (f : ℕ → A) (i : ℕ) (a : A) → update f i a i ≡ a
  update_self f i a = ground arith

  pub update_ne : (f : ℕ → A) (i j : ℕ) (a : A) → i ≢ j → update f i a j ≡ f j
  update_ne f i j a h = ground arith

  pub update_same : (f : ℕ → A) (i : ℕ) → update f i (f i) ≡ f
  update_same f i = fun_ext λ j. elim (ℕ_discrete i j) [
    | yes e ↦ rw (eq→== i j e) (ap f e)
    | no n ↦ update_ne f i j (f i) n
  ]
