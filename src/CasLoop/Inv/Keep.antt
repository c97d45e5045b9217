-- ===== src/CasLoop/Inv/Keep.antt =====
-- Every move of a thread keeps the invariant.
use mpmc_queues.Base.{ℕ, ◌+◌, ◌^◌, ◌<◌, ◌≡◌, Option, some, arith, update, ℕ_discrete, update_ne}
use mpmc_queues.CasLoop.{Ring, Shared, Pc, enq_val, enq_pub, deq_val, deq_pub}
use mpmc_queues.CasLoop.System.{System}
use mpmc_queues.CasLoop.Inv.Defs.{IsRing, IsFresh, Consistent, Inv, puts_at, takes_at, IsAllowed}
use mpmc_queues.CasLoop.Inv.Acts.{Act, local, win_tail, write, publish, shut, win_head, read, free}
use mpmc_queues.CasLoop.Inv.Memory.{
  Consistent-more, Consistent-win_tail, Consistent-write, Consistent-publish, Consistent-shut,
  Consistent-win_head, Consistent-free, busy-win_head,
}
use mpmc_queues.CasLoop.Inv.Others.{
  Distinct, Fresh-win_tail, Fresh-write, Fresh-publish, Fresh-shut, Fresh-win_head, Fresh-free,
}

module _ {r : Ring} {k : ℕ} {m : Shared} {puts : ℕ → ℕ} (ring : IsRing r)
    (small : k + r.size + 1 < 2 ^ 63) (c : Consistent r m puts k) where
  pub Consistent-Act :
      {p p' : Pc} {m' : Shared} {puts' : ℕ → ℕ}
      → Act r m puts p m' puts' p'
      → IsFresh r m puts p
      → Consistent r m' puts' (k + 1)
  Consistent-Act (local p' g a b a' b') f = Consistent-more ring small c
  Consistent-Act (win_tail {item} {t} {seq} e) f = Consistent-win_tail ring small c item t seq e f
  Consistent-Act (write {item} {t} {seq}) f = Consistent-write ring small c item t seq f
  Consistent-Act (publish {item} {t} {seq}) f = Consistent-publish ring small c item t seq f
  Consistent-Act (shut p' l a b a' b' g) f = Consistent-shut ring small c l
  Consistent-Act (win_head {h} e) f = Consistent-win_head ring small c h e f
  Consistent-Act read f = Consistent-more ring small c
  Consistent-Act (free {h} {v}) f = Consistent-free ring small c h v f

  -- What the thread that moved knows afterwards.
  pub Fresh-mover :
      {p p' : Pc} {m' : Shared} {puts' : ℕ → ℕ}
      → Act r m puts p m' puts' p'
      → IsFresh r m puts p
      → IsFresh r m' puts' p'
  Fresh-mover (local p' g a b a' b') f = g
  Fresh-mover (win_tail {item} {t} e) f = ground (arith, c.order, f.3 (omega arith))
  Fresh-mover (write {item} {t} {seq}) f = ground arith
  Fresh-mover publish f = tt
  Fresh-mover (shut p' l a b a' b' g) f = Fresh-shut ring small c p' g
  Fresh-mover (win_head {h} e) f =
      ground (arith, c.filled h, c.room, busy-win_head ring small c h e (f.1 e))
  Fresh-mover read f = ground arith
  Fresh-mover free f = tt

  pub Fresh-other :
      {p p' : Pc} {m' : Shared} {puts' : ℕ → ℕ}
      → Act r m puts p m' puts' p'
      → IsFresh r m puts p
      → (q : Pc) → Distinct p q
      → IsFresh r m puts q
      → IsFresh r m' puts' q
  Fresh-other (local p' g a b a' b') f q d h = h
  Fresh-other (win_tail {item} {t} {seq} e) f q d h = Fresh-win_tail ring small c item t seq e f q h
  Fresh-other (write {item} {t} {seq}) f q d h = Fresh-write ring small c item t seq f q d h
  Fresh-other (publish {item} {t} {seq}) f q d h = Fresh-publish ring small c item t seq f q d h
  Fresh-other (shut p' l a b a' b' g) f q d h = Fresh-shut ring small c q h
  Fresh-other (win_head {h = n} e) f q d h = Fresh-win_head ring small c n e f q h
  Fresh-other read f q d h = h
  Fresh-other (free {h = n} {v = v}) f q d h = Fresh-free ring small c n v f q d h

  -- A ticket that a thread holds was its own before, or is new to all.
  new_put :
      {p p' : Pc} {m' : Shared} {puts' : ℕ → ℕ}
      → Act r m puts p m' puts' p'
      → IsFresh r m puts p
      → (t : ℕ) → puts_at p' ≡ some t
      → (q : Pc) → IsFresh r m puts q
      → puts_at q ≡ some t
      → puts_at p ≡ some t
  new_put (local p' g a b a' b') f t e q h eq = cc
  new_put (win_tail {t = n} w) f t e (enq_val i u s) h eq = absurd (ground arith)
  new_put (win_tail {t = n} w) f t e (enq_pub i u s) h eq = absurd (ground arith)
  new_put (win_tail {t = n} w) f t e q h eq = cc
  new_put write f t e q h eq = e
  new_put publish f t e q h eq = cc
  new_put (shut p' l a b a' b' g) f t e q h eq = cc
  new_put (win_head {h = n} w) f t e q h eq = cc
  new_put read f t e q h eq = cc
  new_put free f t e q h eq = cc

  new_take :
      {p p' : Pc} {m' : Shared} {puts' : ℕ → ℕ}
      → Act r m puts p m' puts' p'
      → IsFresh r m puts p
      → (t : ℕ) → takes_at p' ≡ some t
      → (q : Pc) → IsFresh r m puts q
      → takes_at q ≡ some t
      → takes_at p ≡ some t
  new_take (local p' g a b a' b') f t e q h eq = cc
  new_take (win_head {h = n} w) f t e (deq_val u) h eq = absurd (ground arith)
  new_take (win_head {h = n} w) f t e (deq_pub u v) h eq = absurd (ground arith)
  new_take (win_head {h = n} w) f t e q h eq = cc
  new_take (win_tail w) f t e q h eq = cc
  new_take write f t e q h eq = cc
  new_take publish f t e q h eq = cc
  new_take (shut p' l a b a' b' g) f t e q h eq = cc
  new_take read f t e q h eq = e
  new_take free f t e q h eq = cc

-- At most one thread holds each ticket, if a ticket that is new to the mover is new to all.
one-update :
    (own : Pc → Option ℕ) (pc : ℕ → Pc) (i : ℕ) (p' : Pc)
    → ((a b t : ℕ) → own (pc a) ≡ some t → own (pc b) ≡ some t → a ≡ b)
    → ((j t : ℕ) → own p' ≡ some t → own (pc j) ≡ some t → own (pc i) ≡ some t)
    → (a b t : ℕ) → own (update pc i p' a) ≡ some t
    → own (update pc i p' b) ≡ some t
    → a ≡ b
one-update own pc i p' one new a b t oa ob =
    ground (arith, one a b t, one i b t, one a i t, new b t, new a t)

-- A move of thread `i` keeps the invariant, while the tickets are below `2 ^ 63`.
pub Inv-Act :
    {r : Ring} {k : ℕ} {s : System} (i : ℕ) {p' : Pc} {m' : Shared} {puts' : ℕ → ℕ}
    → IsRing r
    → k + r.size + 1 < 2 ^ 63
    → Inv r k s
    → Act r s.mem s.puts (s.pc i) m' puts' p'
    → IsAllowed r p'
    → Inv r (k + 1) (record { mem = m'; pc = update s.pc i p'; puts = puts' })
Inv-Act {r} {s = s} i {p'} {m'} {puts'} ring small inv act may = record {
  allowed = λ j. elim (ℕ_discrete i j) [
    | yes e ↦ let u : update s.pc i p' j ≡ p' = ground arith in rw u may
    | no ne ↦ rw (update_ne s.pc i j p' ne) (inv.allowed j)
  ];
  ok = Consistent-Act ring small inv.ok act (inv.fresh i);
  fresh = fresh';
  one_put =
      one-update puts_at s.pc i p' inv.one_put
        λ j t e o. new_put ring small inv.ok act (inv.fresh i) t e (s.pc j) (inv.fresh j) o;
  one_take =
      one-update takes_at s.pc i p' inv.one_take
        λ j t e o. new_take ring small inv.ok act (inv.fresh i) t e (s.pc j) (inv.fresh j) o;
}
  where
    fresh' : (j : ℕ) → IsFresh r m' puts' (update s.pc i p' j)
    fresh' j = elim (ℕ_discrete i j) [
      | yes e ↦
          let u : update s.pc i p' j ≡ p' = ground arith in
          rw u (Fresh-mover ring small inv.ok act (inv.fresh i))
      | no ne ↦
          let u : update s.pc i p' j ≡ s.pc j = update_ne s.pc i j p' ne in
          let apart : Distinct (s.pc i) (s.pc j) =
            (λ t a b. ne (inv.one_put i j t a b), λ t a b. ne (inv.one_take i j t a b)) in
          rw u (Fresh-other ring small inv.ok act (inv.fresh i) (s.pc j) apart (inv.fresh j))
    ]
