-- ===== src/CasLoop/Inv/Runs.antt =====
-- The invariant holds at the start, and in every interleaving while the tickets fit.
use mpmc_queues.Base.{
  ℕ, suc, ◌+◌, ◌^◌, ◌<◌, ◌≡◌, refl, true, inl, inr, none, List, [], ◌∷◌, arith, Bool-cases, length,
}
use mpmc_queues.CasLoop.{Ring, Shared, Pc, Call, enqueue, dequeue, close, call}
use mpmc_queues.CasLoop.System.{System, Event, run, invoke, next, run_all, resting}
use mpmc_queues.CasLoop.Inv.Defs.{IsRing, IsFresh, Inv, IsAllowed, puts_at, takes_at}
use mpmc_queues.CasLoop.Inv.Acts.{local}
use mpmc_queues.CasLoop.Inv.Memory.{Consistent-more}
use mpmc_queues.CasLoop.Inv.Keep.{Inv-Act}
use mpmc_queues.CasLoop.Inv.Steps.{step-Act, step-IsAllowed}

rest_free : (p : Pc) → resting p ≡ true → (puts_at p ≡ none) × (takes_at p ≡ none)
rest_free p h = ground arith

call-IsAllowed : (r : Ring) (c : Call) → IsAllowed r (call r c)
unfolding call
call-IsAllowed r (enqueue x) = tt
call-IsAllowed r dequeue = tt
call-IsAllowed r close = ground arith

call-IsFresh :
    (r : Ring) (m : Shared) (puts : ℕ → ℕ) (c : Call)
    → IsFresh r m puts (call r c) × (puts_at (call r c) ≡ none) × (takes_at (call r c) ≡ none)
unfolding call
call-IsFresh r m puts (enqueue x) = (tt, refl, refl)
call-IsFresh r m puts dequeue = (tt, refl, refl)
call-IsFresh r m puts close = elim (Bool-cases r.linked) [
  | inl l ↦ rw l (tt, refl, refl)
  | inr u ↦ rw u (tt, refl, refl)
]

module _ {r : Ring} (ring : IsRing r) where
  Inv-more : {k : ℕ} {s : System} → k + r.size + 1 < 2 ^ 63 → Inv r k s → Inv r (k + 1) s
  Inv-more small inv = record {
    ok = Consistent-more ring small inv.ok;
    allowed = inv.allowed;
    fresh = inv.fresh;
    one_put = inv.one_put;
    one_take = inv.one_take;
  }

  -- One event of any thread keeps the invariant.
  pub next-Inv :
      (k : ℕ) {s : System} (e : Event)
      → k + r.size + 1 < 2 ^ 63
      → Inv r k s
      → Inv r (k + 1) (next r e s)
  unfolding next
  next-Inv k {s = s} (run i weak) small inv =
      Inv-Act i ring small inv
        (step-Act ring small inv.ok weak (s.pc i) (inv.allowed i) (inv.fresh i))
        (step-IsAllowed r weak s.mem (s.pc i) (inv.allowed i))
  next-Inv k {s = s} (invoke i c) small inv = elim (Bool-cases (resting (s.pc i))) [
    | inl rest ↦
        let (a, b) = rest_free (s.pc i) rest in
        let (f, a', b') = call-IsFresh r s.mem s.puts c in
        rw rest (Inv-Act i ring small inv (local (call r c) f a b a' b') (call-IsAllowed r c))
    | inr busy ↦ rw busy (Inv-more small inv)
  ]

  pub run_all-Inv :
      (k : ℕ) {s : System} (es : List Event)
      → k + length es + r.size < 2 ^ 63
      → Inv r k s
      → Inv r (k + length es) (run_all r es s)
  unfolding run_all
  run_all-Inv k [] small inv = let e : k + 0 ≡ k = omega arith in rw e inv
  run_all-Inv k (e ∷ es) small inv =
      let n : k + suc (length es) ≡ k + 1 + length es = omega arith in
      rw n (run_all-Inv (k + 1) es (omega arith) (next-Inv k e (omega arith) inv))
