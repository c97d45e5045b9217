-- ===== src/Ticket/Inv.antt =====
-- The threads of `Ticket/System` and the bits of the storage agree.
use mpmc_queues.Base.{
  ℕ, ◌+◌, ◌*◌, ◌^◌, ◌≤◌, ◌<◌, ◌≡◌, ◌≢◌, refl, sym, ap, ◌∙◌, arith, Bool, update, ℕ_discrete, ne→==,
  eq→==, update_ne, if◌then◌else◌,
}
use mpmc_queues.Ticket.{Pc, acq_load, acq_cas, no_ticket, cap, count_trailing_zeros}
use mpmc_queues.Ticket.System.{System}
use mpmc_queues.Ticket.Words.{free_bit}

-- A cached ticket is in range and marked as held; no two threads cache the same one; and a ticket
-- that is marked as held is some thread's.
pub record Allotted (m : ℕ) (storage local : ℕ → ℕ) : Type 0 where
  pub below : (i : ℕ) → local i ≢ no_ticket → local i < m
  pub marked : (i : ℕ) → local i ≢ no_ticket → free_bit storage (local i) ≡ 0
  pub unique : (i j : ℕ) → i ≢ j → local i ≢ no_ticket → local i ≢ local j
  pub owned : (t : ℕ) → t < m → free_bit storage t ≡ 0 → (i : ℕ) × (local i ≡ t)

-- What a thread in the middle of `acquire` knows.
abbrev pub IsReady : (m : ℕ) → Pc → (local : ℕ) → Type 0
IsReady m (acq_load cell) local = local ≡ no_ticket
IsReady m (acq_cas cell cur) local =
    (local ≡ no_ticket) × (cur ≢ 0) × (cur < 2 ^ 64) × (cell * 64 + count_trailing_zeros cur < m)
IsReady m _ local = Unit {0}

pub record Inv (m : ℕ) (s : System) : Type 0 where
  pub ok : Allotted m s.storage s.local
  pub words : (c : ℕ) → s.storage c < 2 ^ 64
  pub ready : (i : ℕ) → IsReady m (s.pc i) (s.local i)

module _ {m : ℕ} (small : m ≤ cap) {storage local : ℕ → ℕ} (ok : Allotted m storage local)
    (i : ℕ) where
  open ok use {below, marked, unique, owned}

  -- Thread `i`, without a ticket, takes the free ticket `t`.
  module _ (after : ℕ → ℕ) (t : ℕ) (none_yet : local i ≡ no_ticket) (lt : t < m)
      (free : free_bit storage t ≡ 1) (held : free_bit after t ≡ 0)
      (others : (u : ℕ) → u ≢ t → free_bit after u ≡ free_bit storage u) where
    differs : (j : ℕ) → local j ≢ no_ticket → local j ≢ t
    differs j h e =
        let z : free_bit storage (local j) ≡ 0 = marked j h in omega (arith, rw e at z, free)

    take_unique :
        (j k : ℕ) → j ≢ k → update local i t j ≢ no_ticket → update local i t j ≢ update local i t k
    take_unique j k ne h e = elim (ℕ_discrete i j) [
      | yes ij ↦ elim (ℕ_discrete i k) [
        | yes ik ↦ ne (sym ij ∙ ik)
        | no nk ↦
            let e' : t ≡ local k =
              sym (ap (λ (b : Bool). if b then t else local j) (eq→== i j ij))
              ∙ e
              ∙ update_ne local i k t nk in
            differs k (omega arith) (sym e')
      ]
      | no nj ↦
          let h' : local j ≢ no_ticket = λ z. h (update_ne local i j t nj ∙ z) in
          elim (ℕ_discrete i k) [
            | yes ik ↦ differs j h' (
                sym (update_ne local i j t nj)
                ∙ e
                ∙ ap (λ (b : Bool). if b then t else local k) (eq→== i k ik))
            | no nk ↦
                unique j k ne h' (sym (update_ne local i j t nj) ∙ e ∙ update_ne local i k t nk)
          ]
    ]

    take_owned : (u : ℕ) → u < m → free_bit after u ≡ 0 → (j : ℕ) × (update local i t j ≡ u)
    take_owned u lu z = elim (ℕ_discrete u t) [
      | yes e ↦ (i, rw (eq→== i i refl) (sym e))
      | no ne ↦
          let (j, own) = owned u lu (sym (others u ne) ∙ z) in
          let other : i ≢ j = λ ij. let w : local i ≡ u = rw ij own in omega arith in
          (j, rw (ne→== i j other) own)
    ]

    pub Allotted-take : Allotted m after (update local i t)
    Allotted-take = record {
      below = λ j h. elim (ℕ_discrete i j) [
        | yes ij ↦ rw (eq→== i j ij) lt
        | no nj ↦ rw (ne→== i j nj) (below j (λ z. h (update_ne local i j t nj ∙ z)))
      ];
      marked = λ j h. elim (ℕ_discrete i j) [
        | yes ij ↦ rw (eq→== i j ij) held
        | no nj ↦
            let h' : local j ≢ no_ticket = λ z. h (update_ne local i j t nj ∙ z) in
            rw (ne→== i j nj) (others (local j) (differs j h') ∙ marked j h')
      ];
      unique = take_unique;
      owned = take_owned;
    }

  -- Thread `i` gives its ticket back.
  module _ (after : ℕ → ℕ) (has : local i ≢ no_ticket) (free : free_bit after (local i) ≡ 1)
      (others : (u : ℕ) → u ≢ local i → free_bit after u ≡ free_bit storage u) where
    give_unique :
        (j k : ℕ)
        → j ≢ k
        → update local i no_ticket j ≢ no_ticket
        → update local i no_ticket j ≢ update local i no_ticket k
    give_unique j k ne h e = elim (ℕ_discrete i j) [
      | yes ij ↦ h (rw (eq→== i j ij))
      | no nj ↦
          let h' : local j ≢ no_ticket = λ z. h (update_ne local i j no_ticket nj ∙ z) in
          elim (ℕ_discrete i k) [
            | yes ik ↦ h (e ∙ ap (λ (b : Bool). if b then no_ticket else local k) (eq→== i k ik))
            | no nk ↦
                unique j k ne h'
                  (sym (update_ne local i j no_ticket nj) ∙ e ∙ update_ne local i k no_ticket nk)
          ]
    ]

    give_owned : (u : ℕ) → u < m → free_bit after u ≡ 0 → (j : ℕ) × (update local i no_ticket j ≡ u)
    give_owned u lu z = elim (ℕ_discrete u (local i)) [
      | yes e ↦ absurd (omega (arith, rw e at z, free))
      | no ne ↦
          let (j, own) = owned u lu (sym (others u ne) ∙ z) in
          let other : i ≢ j = λ ij. ne (rw ij (sym own)) in (j, rw (ne→== i j other) own)
    ]

    pub Allotted-give : Allotted m after (update local i no_ticket)
    Allotted-give = record {
      below = λ j h. elim (ℕ_discrete i j) [
        | yes ij ↦ absurd (h (rw (eq→== i j ij)))
        | no nj ↦ rw (ne→== i j nj) (below j (λ z. h (update_ne local i j no_ticket nj ∙ z)))
      ];
      marked = λ j h. elim (ℕ_discrete i j) [
        | yes ij ↦ absurd (h (rw (eq→== i j ij)))
        | no nj ↦
            let h' : local j ≢ no_ticket = λ z. h (update_ne local i j no_ticket nj ∙ z) in
            rw (ne→== i j nj) (others (local j) (unique j i (λ e. nj (sym e)) h') ∙ marked j h')
      ];
      unique = give_unique;
      owned = give_owned;
    }
