-- ===== src/Scq/Returns.antt =====
-- The accesses of `SCQueue` that give an index to a ring.
use mpmc_queues.Base.{
  ℕ, ◌≡◌, inl, inr, refl, sym, ap, ◌∙◌, Bool, true, false, some, update, if◌then◌else◌, Bool-cases,
}
use mpmc_queues.Scq.Raw.{Rings}
use mpmc_queues.Scq.{Pc, enq_put, enq_back, deq_back, enqueued, dequeued, step}
use mpmc_queues.Scq.System.{
  System, free, filled, held, lost, Move, stay, put_one, refuse, status, contents,
}
use mpmc_queues.Scq.Inv.{
  Inv, Holds, Knows, in_free, in_filled, Counted-add, Counted-same, in_free-le, in_filled-le, fits,
}
use mpmc_queues.Scq.Steps.{Did, same, places, read_all-append}
use mpmc_queues.Scq.Refine.{moved, in_free_some, in_filled_some, held_ne}

module _ {R : Type 0} (rings : Rings R) (order : ℕ) (s : System R) (inv : Inv rings order s)
    (i : ℕ) where
  open rings use {lfring_enqueue, lfring_dequeue, items, enqueue_ok, enqueue_refused}
  open inv use {frees, fills, named, mine, known}

  pub Did-enq_put :
      (ac : Bool) (x e : ℕ)
      → s.pc i ≡ enq_put x e
      → Did rings order s (moved rings order ac s i (enq_put x e)) i
  unfolding step
  Did-enq_put ac x e at =
      let r = lfring_enqueue order e s.mem.aq in
      let has : s.place e ≡ held i = mine i e (rw at refl) in
      elim (Bool-cases r.1) [
        | inl took_it ↦ rw took_it (
            let knows_it : s.mem.underlying e ≡ x = rw at at (known i) in
            let room =
              fits rings order s inv i in_filled _ e fills in_filled-le in_filled_some
                (ap in_filled has) has in
            let longer = enqueue_ok order e s.mem.aq room took_it in
            places rings order s inv i (enq_put x e) at r.0 s.mem.fq (enqueued true) e filled
              (Counted-same in_free s.place _ frees e filled (ap in_free has))
              (rw longer (Counted-add in_filled s.place _ fills e filled (ap in_filled has) refl))
              (λ _. named e (λ z. let bad : held i ≡ lost = sym has ∙ z in cc))
              (λ j ne z. held_ne i j ne (sym has ∙ z)) (λ u h. absurd h) tt
              (rw (longer, read_all-append s.mem.underlying (items s.mem.aq) e, knows_it)
                (put_one _ x)))
        | inr refused ↦ rw refused (
            same rings order s inv i (enq_put x e) at r.0 s.mem.fq (enq_back e)
              (enqueue_refused order e s.mem.aq refused) refl (λ u h. h) tt (refuse _ x))
      ]

  -- An index goes back to the ring of the free ones, or is lost when that ring refuses it.
  gives_back :
      (p p' : Pc) (e : ℕ)
      → s.pc i ≡ p
      → Holds p e
      → ((u : ℕ) → ¬ Holds p' u)
      → Knows s.mem.underlying p'
      → status s.mem.underlying p' ≡ status s.mem.underlying p
      → Did rings order s
          (record s {
            mem = record s.mem { fq = (lfring_enqueue order e s.mem.fq).0 };
            pc = update s.pc i p';
            place = update s.place e (if (lfring_enqueue order e s.mem.fq).1 then free else lost);
          })
          i
  gives_back p p' e at h quiet k st =
      let r = lfring_enqueue order e s.mem.fq in
      let has : s.place e ≡ held i = mine i e (rw at h) in
      let mv : Move (contents rings order s.mem) (status s.mem.underlying p)
          (contents rings order s.mem) (status s.mem.underlying p') =
        rw st (stay _ _) in
      elim (Bool-cases r.1) [
        | inl took_it ↦ rw took_it (
            let room =
              fits rings order s inv i in_free _ e frees in_free-le in_free_some (ap in_free has)
                has in
            places rings order s inv i p at s.mem.aq r.0 p' e free
              (rw (enqueue_ok order e s.mem.fq room took_it)
                (Counted-add in_free s.place _ frees e free (ap in_free has) refl))
              (Counted-same in_filled s.place _ fills e free (ap in_filled has))
              (λ _. named e (λ z. let bad : held i ≡ lost = sym has ∙ z in cc))
              (λ j ne z. held_ne i j ne (sym has ∙ z)) (λ u g. absurd (quiet u g)) k mv)
        | inr refused ↦ rw refused (
            places rings order s inv i p at s.mem.aq r.0 p' e lost
              (rw (enqueue_refused order e s.mem.fq refused)
                (Counted-same in_free s.place _ frees e lost (ap in_free has)))
              (Counted-same in_filled s.place _ fills e lost (ap in_filled has))
              (λ ne. absurd (ne refl)) (λ j ne z. held_ne i j ne (sym has ∙ z))
              (λ u g. absurd (quiet u g)) k mv)
      ]

  pub Did-enq_back :
      (ac : Bool) (e : ℕ)
      → s.pc i ≡ enq_back e
      → Did rings order s (moved rings order ac s i (enq_back e)) i
  unfolding step
  Did-enq_back ac e at = gives_back (enq_back e) (enqueued false) e at refl (λ u h. h) tt refl

  pub Did-deq_back :
      (ac : Bool) (e x : ℕ)
      → s.pc i ≡ deq_back e x
      → Did rings order s (moved rings order ac s i (deq_back e x)) i
  unfolding step
  Did-deq_back ac e x at =
      gives_back (deq_back e x) (dequeued (some x)) e at refl (λ u h. h) tt refl
