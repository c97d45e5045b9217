-- ===== src/Ticket/Safety.antt =====
-- Every schedule keeps the tickets of `DynamicThreadTicket` apart.
use mpmc_queues.Base.{
  ℕ, ◌≤◌, ◌≡◌, Bool, Bool-cases, inl, inr, update, ℕ_discrete, ne→==, eq→==, List, [], ◌∷◌, some,
}
use mpmc_queues.Ticket.{Pc, acq_enter, rel_enter, cap, step, construct}
use mpmc_queues.Ticket.System.{System, Event, run, acquire, release, next, run_all, begin, resting}
use mpmc_queues.Ticket.Inv.{Allotted, IsReady, Inv}
use mpmc_queues.Ticket.Steps.{stepped}
use mpmc_queues.Ticket.Start.{begin-Inv, construct_le}

module _ {m : ℕ} (small : m ≤ cap) where
  moved :
      (i : ℕ) (weak : Bool) (s : System) (inv : Inv m s) (j : ℕ)
      → let r = step m weak s.storage (s.local i) (s.pc i) in
        IsReady m (update s.pc i r.2 j) (update s.local i r.1 j)
  moved i weak s inv j =
      let st = stepped m small i s inv weak (s.pc i) (inv.ready i) in
      elim (ℕ_discrete i j) [
        | yes e ↦ rw (eq→== i j e) st.ready
        | no n ↦ rw (ne→== i j n) (inv.ready j)
      ]

  called :
      (i : ℕ) (p : Pc) (s : System) (inv : Inv m s)
      → IsReady m p (s.local i)
      → Inv m (record s { pc = update s.pc i p })
  called i p s inv r = record {
    ok = inv.ok;
    words = inv.words;
    ready = λ j. elim (ℕ_discrete i j) [
      | yes e ↦ rw (eq→== i j e) (rw e at r)
      | no n ↦ rw (ne→== i j n) (inv.ready j)
    ];
  }

  Inv-next : (e : Event) (s : System) → Inv m s → Inv m (next m e s)
  unfolding next
  Inv-next (run i weak) s inv =
      let st = stepped m small i s inv weak (s.pc i) (inv.ready i) in
      record { ok = st.ok; words = st.words; ready = λ j. moved i weak s inv j }
  Inv-next (acquire i) s inv = elim (Bool-cases (resting (s.pc i))) [
    | inl y ↦ rw y (called i acq_enter s inv tt)
    | inr n ↦ rw n inv
  ]
  Inv-next (release i) s inv = elim (Bool-cases (resting (s.pc i))) [
    | inl y ↦ rw y (called i rel_enter s inv tt)
    | inr n ↦ rw n inv
  ]

  Inv-run_all : (es : List Event) (s : System) → Inv m s → Inv m (run_all m es s)
  unfolding run_all
  Inv-run_all [] s inv = inv
  Inv-run_all (e ∷ es) s inv = Inv-run_all es (next m e s) (Inv-next e s inv)

-- Let the constructor accept `m`. After any schedule of `acquire`s and `release`s by any number of
-- threads, each ticket that a thread caches is below `m` and marked as held, no two threads cache
-- the same ticket, and each ticket below `m` that is marked as held is cached by some thread.
pub tickets-Allotted :
    {m : ℕ} {storage : ℕ → ℕ} (es : List Event)
    → construct m ≡ some storage
    → let s = run_all m es (begin storage) in Allotted m s.storage s.local
tickets-Allotted {m} es made =
    let small : m ≤ cap = construct_le made in (Inv-run_all small es _ (begin-Inv made)).ok
