-- ===== src/CasLoop/Refine.antt =====
-- Under every interleaving `CASLoopQueue` behaves as the bounded queue of `Spec`: an enqueue has
-- its effect when it wins `tail_`, a dequeue when it wins `head_`.
use mpmc_queues.Base.{
  ℕ, zero, suc, ◌+◌, ◌-◌, ◌%◌, ◌^◌, ◌<◌, ◌≡◌, ◌≢◌, refl, ap, ap₂, Bool, not, ◌&&◌, inl, inr, none,
  List, [], ◌∷◌, ◌++◌, arith, Bool-cases, ◌==◌, update, update_ne, update_self, length,
}
use mpmc_queues.CasLoop.{
  Ring, Shared, step, sub64, is_closed, Pc, idle, enq_tail, enq_seq, enq_cas, enq_val, enq_pub,
  enq_close, deq_head, deq_seq, deq_cas, deq_val, deq_pub, deq_size_head,
}
use mpmc_queues.CasLoop.System.{System, run, next}
use mpmc_queues.CasLoop.Spec.{
  Status, putting, refused, taking, took, missed, Move, stay, put_one, take_one, refuse, miss,
  window, tail_index, contents, status,
}
use mpmc_queues.CasLoop.Inv.{
  IsRing, IsFresh, Consistent, Inv, Act, local, win_tail, write, publish, shut, win_head, read,
  free, puts_at, takes_at, room-win_tail, busy-win_head, step-Act,
}

-- A change of status that leaves the queue alone.
data Quiet : Status → Status → Type 0 where
  same : (s : Status) → Quiet s s
  give_up : (x : ℕ) → Quiet (putting x) refused
  find_none : Quiet taking missed

Quiet-Move : (cap : ℕ) (q : List ℕ) {s s' : Status} → Quiet s s' → Move cap q s q s'
Quiet-Move cap q (same s) = stay q s
Quiet-Move cap q (give_up x) = refuse q x
Quiet-Move cap q find_none = miss q

module _ (r : Ring) (weak : Bool) (m : Shared) (puts : ℕ → ℕ) where
  abbrev IsQuiet : Pc → Type 0
  IsQuiet p =
      puts_at (step r weak m p).1 ≡ none
      → takes_at (step r weak m p).1 ≡ none
      → Quiet (status puts p) (status puts (step r weak m p).1)

  Quiet-enq_seq : (item t : ℕ) → IsQuiet (enq_seq item t)
  unfolding step
  Quiet-enq_seq item t a b =
      let e : status puts (step r weak m (enq_seq item t)).1 ≡ putting item = ground arith in
      rw e (same (putting item))

  Quiet-step : (p : Pc) → puts_at p ≡ none → takes_at p ≡ none → IsQuiet p
  unfolding step
  Quiet-step (enq_tail item) n o a b = elim (Bool-cases (r.linked && is_closed m.tail)) [
    | inl refusal ↦ rw refusal (give_up item)
    | inr unshut ↦ rw unshut (same (putting item))
  ]
  Quiet-step (enq_seq item t) n o a b = Quiet-enq_seq item t a b
  Quiet-step (enq_cas item t seq) n o a b = elim (Bool-cases (not weak && m.tail == t)) [
    | inl won ↦ absurd (ground arith)
    | inr lost ↦ rw lost (same (putting item))
  ]
  Quiet-step (enq_val item t seq) n o a b = cc
  Quiet-step (enq_pub item t seq) n o a b = cc
  Quiet-step (enq_close item) n o a b = give_up item
  Quiet-step (deq_seq h) n o a b =
      let e : status puts (step r weak m (deq_seq h)).1 ≡ taking = ground arith in
      rw e (same taking)
  Quiet-step (deq_cas h) n o a b = elim (Bool-cases (not weak && m.head == h)) [
    | inl won ↦ absurd (ground arith)
    | inr lost ↦ rw lost (same taking)
  ]
  Quiet-step (deq_val h) n o a b = cc
  Quiet-step (deq_pub h v) n o a b = cc
  Quiet-step (deq_size_head t) n o a b = elim (Bool-cases (sub64 t m.head == 0)) [
    | inl none' ↦ rw none' find_none
    | inr some' ↦ rw some' (same taking)
  ]
  Quiet-step deq_head n o a b = same _
  Quiet-step p n o a b = same _

pub length-window : (puts : ℕ → ℕ) (n h : ℕ) → length (window puts n h) ≡ n
length-window puts zero h = refl
length-window puts (suc n) h = ap suc (length-window puts n (suc h))

-- A new ticket at the end of the window.
window-suc :
    (puts : ℕ → ℕ) (n h t x : ℕ)
    → h + n ≡ t
    → window (update puts t x) (suc n) h ≡ window puts n h ++ (x ∷ [])
window-suc puts zero h t x e = ap₂ ◌∷◌ (ground arith) refl
window-suc puts (suc n) h t x e =
    ap₂ ◌∷◌ (ground arith) (window-suc puts n (suc h) t x (omega arith))

window-pos :
    (puts : ℕ → ℕ) (n h : ℕ) → 0 < n → window puts n h ≡ puts h ∷ window puts (n - 1) (suc h)
window-pos puts zero h lt = absurd (omega arith)
window-pos puts (suc n) h lt = ap (λ k. puts h ∷ window puts k (suc h)) (omega arith)

module _ {r : Ring} {k : ℕ} {m : Shared} {puts : ℕ → ℕ} (ring : IsRing r)
    (small : k + r.size + 1 < 2 ^ 63) (c : Consistent r m puts k) where
  abbrev queue : Shared → (ℕ → ℕ) → List ℕ
  queue m' puts' = window puts' (tail_index m' - m'.head) m'.head

  Act-Move :
      {p p' : Pc} {m' : Shared} {puts' : ℕ → ℕ}
      → Act r m puts p m' puts' p'
      → IsFresh r m puts p
      → (puts_at p ≡ none
          → takes_at p ≡ none
          → puts_at p' ≡ none
          → takes_at p' ≡ none
          → Quiet (status puts p) (status puts p'))
      → Move r.size (queue m puts) (status puts p) (queue m' puts') (status puts' p')
  Act-Move (local p' g a b a' b') f quiet = Quiet-Move _ _ (quiet a b a' b')
  Act-Move (win_tail {item} {t} {seq} e) f quiet =
      let ti : tail_index m ≡ t = omega arith in
      let room : t < m.head + r.size = room-win_tail ring small c t ti (f.3 ti) in
      let n : (t + 1) % 2 ^ 63 - m.head ≡ suc (tail_index m - m.head) = omega (arith, c.order) in
      rw (n, window-suc puts (tail_index m - m.head) m.head t item (omega (arith, c.order)))
        (put_one _ item (omega (arith, length-window puts (tail_index m - m.head) m.head, c.order)))
  Act-Move write f quiet = stay _ _
  Act-Move publish f quiet = stay _ _
  Act-Move (shut p' l a b a' b' g) f quiet =
      let e : (tail_index m + 2 ^ 63) % 2 ^ 63 ≡ tail_index m = omega arith in
      rw e (Quiet-Move _ _ (quiet a b a' b'))
  Act-Move (win_head {h} e) f quiet =
      let busy : h < tail_index m = busy-win_head ring small c h e (f.1 e) in
      let n : tail_index m - (h + 1) ≡ tail_index m - h - 1 = omega arith in
      let sh : h + 1 ≡ suc h = omega arith in
      rw (e, n, window-pos puts (tail_index m - h) h (omega arith), sh) (take_one _ (puts h))
  Act-Move (read {h}) f quiet = rw f.3 (stay _ _)
  Act-Move free f quiet = stay _ _

  -- The others do not notice.
  Act-status :
      {p p' : Pc} {m' : Shared} {puts' : ℕ → ℕ}
      → Act r m puts p m' puts' p'
      → IsFresh r m puts p
      → (q : Pc) → IsFresh r m puts q
      → status puts' q ≡ status puts q
  Act-status (win_tail {item} {t} {seq} e) f (deq_val h) g =
      ap took (update_ne puts t h item (omega (arith, c.order)))
  Act-status (win_tail e) f idle g = refl
  Act-status (win_tail e) f q g = refl
  Act-status (local p' g' a b a' b') f q g = refl
  Act-status write f q g = refl
  Act-status publish f q g = refl
  Act-status (shut p' l a b a' b' g') f q g = refl
  Act-status (win_head e) f q g = refl
  Act-status read f q g = refl
  Act-status free f q g = refl

abbrev pub statuses : System → ℕ → Status
statuses s i = status s.puts (s.pc i)

-- On a ring of at least two cells whose tickets are below `2 ^ 63`, in every state that keeps the
-- invariant: a shared access of a thread is one move of the bounded queue by that thread, and no
-- other thread's call is affected.
pub next_refines :
    {r : Ring} {k : ℕ} {s : System} (i : ℕ) (weak : Bool)
    → IsRing r
    → k + r.size + 1 < 2 ^ 63
    → Inv r k s
    → Move r.size
        (contents s)
        (statuses s i)
        (contents (next r (run i weak) s))
        (statuses (next r (run i weak) s) i)
      × ((j : ℕ) → i ≢ j → statuses (next r (run i weak) s) j ≡ statuses s j)
unfolding next
next_refines {r} {k} {s} i weak ring small inv =
    let act = step-Act ring small inv.ok weak (s.pc i) (inv.allowed i) (inv.fresh i) in
    (
      rw (update_self s.pc i (step r weak s.mem (s.pc i)).1) (
          Act-Move ring small inv.ok act (inv.fresh i)
            λ a b a' b'. Quiet-step r weak s.mem s.puts (s.pc i) a b a' b'),
      λ j ne.
          rw (update_ne s.pc i j (step r weak s.mem (s.pc i)).1 ne)
            (Act-status ring small inv.ok act (inv.fresh i) (s.pc j) (inv.fresh j)),
    )
