-- ===== src/Ticket/Static.antt =====
-- include/util/threading/StaticThreadTicket.hpp: `StaticThreadTicket`, whose only shared access is the
-- increment of `get_id`, so that a call is one step.
use mpmc_queues.Base.{
  ℕ, suc, ◌+◌, ◌-◌, ◌%◌, ◌^◌, ◌≤◌, ◌<◌, ◌≡◌, ◌≢◌, refl, sym, ◌∙◌, arith, List, [], ◌∷◌, length,
  Option, none, some, ◌==◌, if◌then◌else◌, update, ℕ_discrete, eq→==, ne→==,
}

abbrev pub invalid_id : ℕ
invalid_id = 2 ^ 64 - 1

-- `counter_` and the `thread_local` of each thread.
pub record Ids : Type 0 where
  pub counter : ℕ
  pub local_id : ℕ → ℕ

abbrev pub begin : Ids
begin = record { counter = 1; local_id = λ _. invalid_id }

-- A call of thread `i`; `none` is the exception.
unfoldable pub get_id : (thread : ℕ) → Ids → Ids × Option ℕ
get_id i s =
    let assigned = s.counter in
    let counter' = (s.counter + 1) % 2 ^ 64 in
    if s.local_id i == invalid_id
    then (if assigned == invalid_id then (record s { counter = counter' }, none) else (
      record { counter = counter'; local_id = update s.local_id i assigned },
      some assigned,
    ))
    else (s, some (s.local_id i))

-- The calls of the threads, in their order.
unfoldable pub get_ids : List ℕ → Ids → Ids
get_ids [] s = s
get_ids (i ∷ is) s = get_ids is (get_id i s).0

record Inv (bound : ℕ) (s : Ids) : Type 0 where
  counter : s.counter ≤ bound
  below : (i : ℕ) → s.local_id i ≢ invalid_id → s.local_id i < s.counter
  apart : (i j : ℕ) → s.local_id i ≢ invalid_id → s.local_id i ≡ s.local_id j → i ≡ j

module _ (bound : ℕ) (s : Ids) (inv : Inv bound s) (small : bound < invalid_id) (i : ℕ) where
  open inv use {counter, below, apart}

  abbrev given : Ids
  given = record { counter = s.counter + 1; local_id = update s.local_id i s.counter }

  -- What thread `j` has after thread `i` has got the counter.
  Inv-given : Inv (bound + 1) given
  Inv-given = record {
    counter = omega arith;
    below = λ j ne. elim (ℕ_discrete i j) [
      | yes e ↦ rw (eq→== i j e) (omega arith)
      | no n ↦ rw (ne→== i j n) (omega (arith, below j (rw (ne→== i j n) at ne)))
    ];
    apart = λ j k ne same. elim (ℕ_discrete i j) [
      | yes e ↦ elim (ℕ_discrete i k) [
        | yes f ↦ sym e ∙ f
        | no m ↦ absurd (
            let z : s.counter ≡ s.local_id k = rw (eq→== i j e, ne→== i k m) at same in
            let valid : s.local_id k ≢ invalid_id = λ w. omega (arith, w, z) in
            omega (arith, below k valid, z))
      ]
      | no n ↦
          let valid : s.local_id j ≢ invalid_id = rw (ne→== i j n) at ne in
          elim (ℕ_discrete i k) [
            | yes f ↦ absurd (
                let z : s.local_id j ≡ s.counter = rw (ne→== i j n, eq→== i k f) at same in
                omega (arith, below j valid, z))
            | no m ↦ apart j k valid (rw (ne→== i j n, ne→== i k m) at same)
          ]
    ];
  }

  Inv-get_id :
      Inv (bound + 1) (get_id i s).0
      × ((get_id i s).1 ≡ some ((get_id i s).0.local_id i))
      × ((get_id i s).0.local_id i ≢ invalid_id)
  unfolding get_id
  Inv-get_id = elim (ℕ_discrete (s.local_id i) invalid_id) [
    | yes e ↦
        let step : (s.counter + 1) % 2 ^ 64 ≡ s.counter + 1 = omega (arith, counter) in
        rw
          (
            eq→== (s.local_id i) invalid_id e,
            ne→== s.counter invalid_id (λ z. omega (arith, counter, z)),
            step,
          )
          (
            Inv-given,
            rw (eq→== i i refl) refl,
            rw (eq→== i i refl) (λ z. omega (arith, counter, z)),
          )
    | no n ↦
        rw (ne→== (s.local_id i) invalid_id n)
          (record { counter = omega (arith, counter); below = below; apart = apart }, refl, n)
  ]

Inv-get_ids :
    (is : List ℕ) (bound : ℕ) (s : Ids)
    → Inv bound s
    → bound + length is < invalid_id
    → Inv (bound + length is) (get_ids is s)
unfolding get_ids
Inv-get_ids [] bound s inv lt = let e : bound + 0 ≡ bound = omega arith in rw e inv
Inv-get_ids (i ∷ is) bound s inv lt =
    let e : bound + suc (length is) ≡ bound + 1 + length is = omega arith in
    rw e (
      Inv-get_ids is (bound + 1) (get_id i s).0 (Inv-get_id bound s inv (omega arith) i).0
        (omega arith))

-- When the calls so far, of any threads in any order, are fewer than 2 ^ 64 - 3: the next call of a thread returns an id, which is the
-- one that it keeps, and no other thread has it.
pub get_id_unique :
    (is : List ℕ)
    → 1 + length is + 1 < invalid_id
    → (i : ℕ)
    → let (s, got) = get_id i (get_ids is begin) in
      (got ≡ some (s.local_id i)) × ((j : ℕ) → s.local_id j ≡ s.local_id i → j ≡ i)
get_id_unique is lt i =
    let start : Inv 1 begin = record {
      counter = omega arith;
      below = λ j ne. absurd (ne refl);
      apart = λ j k ne same. absurd (ne refl);
    } in
    let before = Inv-get_ids is 1 begin start (omega arith) in
    let (after, same, valid) =
      Inv-get_id (1 + length is) (get_ids is begin) before (omega arith) i in
    (same, λ j e. sym (after.apart i j valid (sym e)))
