-- ===== src/Ticket/Steps.antt =====
-- What one access of `DynamicThreadTicket` does to the tickets.
use mpmc_queues.Base.{
  ℕ, ◌+◌, ◌-◌, ◌*◌, ◌/◌, ◌%◌, ◌^◌, ◌≤◌, ◌<◌, ◌≡◌, ◌≢◌, refl, arith, Bool, not, ◌&&◌, ◌==◌, leb, ltb,
  Bool-cases, inl, inr, update, ℕ_discrete, ne→==, eq→==, bit_or-lt, bit_and-le, update_same,
}
use native.Mathlib.Nat.{pow-le-pow_right}
use mpmc_queues.Ticket.{
  Pc, idle, acq_enter, acq_load, acq_cas, rel_enter, acquired, refused, released, no_ticket, cap,
  num_cells, scan, claim, give_back, step, count_trailing_zeros,
}
use mpmc_queues.Ticket.System.{System}
use mpmc_queues.Ticket.Words.{free_before, claimed_self, claimed_other, given_self, given_other}
use mpmc_queues.Ticket.Inv.{Allotted, IsReady, Inv, Allotted-take, Allotted-give}

module _ (m : ℕ) where
  scan-IsReady : (cell cur : ℕ) → cur < 2 ^ 64 → IsReady m (scan m cell cur) no_ticket
  unfolding scan
  scan-IsReady cell cur word = elim (Bool-cases (cur == 0)) [
    | inl z ↦ rw z refl
    | inr nz ↦ elim (Bool-cases (leb m (cell * 64 + count_trailing_zeros cur))) [
      | inl out ↦ rw (nz, out) refl
      | inr fits ↦ rw (nz, fits) (refl, ground arith, word, ground arith)
    ]
  ]

  claim-word : (x : ℕ) → x < 2 ^ 64 → claim x < 2 ^ 64
  unfolding claim
  claim-word x lt =
      omega (arith, bit_and-le x x (2 ^ 64 - 1 - 2 ^ count_trailing_zeros x) (omega arith))

  pub words_update :
      (f : ℕ → ℕ) (c x : ℕ)
      → x < 2 ^ 64
      → ((k : ℕ) → f k < 2 ^ 64)
      → (k : ℕ) → update f c x k < 2 ^ 64
  words_update f c x lt all k = elim (ℕ_discrete c k) [
    | yes e ↦ rw (eq→== c k e) lt
    | no n ↦ rw (ne→== c k n) (all k)
  ]

  give_back-word :
      (t : ℕ) (f : ℕ → ℕ) → ((k : ℕ) → f k < 2 ^ 64) → (k : ℕ) → give_back t f k < 2 ^ 64
  unfolding give_back
  give_back-word t f all =
      words_update f (t / 64) _
        (bit_or-lt 64 (f (t / 64)) (2 ^ (t % 64)) (all (t / 64)) (
          let le : t % 64 ≤ 63 = omega arith in
          omega (arith, pow-le-pow_right {n = 2} (omega arith) le)))
        all

  -- What one access does to the thread's own part and to the tickets.
  pub record Stepped (i : ℕ) (s : System) (r : (ℕ → ℕ) × ℕ × Pc) : Type 0 where
    pub ok : Allotted m r.0 (update s.local i r.1)
    pub words : (c : ℕ) → r.0 c < 2 ^ 64
    pub ready : IsReady m r.2 r.1

  module _ (small : m ≤ cap) (i : ℕ) (s : System) (inv : Inv m s) where
    open inv use {ok, words, ready}

    kept : Allotted m s.storage (update s.local i (s.local i))
    kept = rw (update_same s.local i) ok

    stays : (p : Pc) → IsReady m p (s.local i) → Stepped i s (s.storage, s.local i, p)
    stays p r = record { ok = kept; words = words; ready = r }

    scans :
        (cell : ℕ)
        → s.local i ≡ no_ticket
        → Stepped i s (s.storage, s.local i, scan m cell (s.storage cell))
    scans cell e = stays _ (rw e (scan-IsReady cell (s.storage cell) (words cell)))

    won :
        (cell : ℕ)
        → s.local i ≡ no_ticket
        → s.storage cell ≢ 0
        → cell * 64 + count_trailing_zeros (s.storage cell) < m
        → let t = cell * 64 + count_trailing_zeros (s.storage cell) in
          Stepped i s (update s.storage cell (claim (s.storage cell)), t, acquired t)
    won cell mine pos lt =
        let t = cell * 64 + count_trailing_zeros (s.storage cell) in
        let after = update s.storage cell (claim (s.storage cell)) in
        record {
          ok =
              Allotted-take small ok i after t mine lt (free_before s.storage cell pos (words cell))
                (claimed_self s.storage cell pos (words cell))
                (claimed_other s.storage cell pos (words cell));
          words = words_update s.storage cell _ (claim-word _ (words cell)) words;
          ready = tt;
        }

    gives :
        s.local i ≢ no_ticket → Stepped i s (give_back (s.local i) s.storage, no_ticket, released)
    gives has = record {
      ok =
          Allotted-give small ok i (give_back (s.local i) s.storage) has
            (given_self s.storage (s.local i)) (given_other s.storage (s.local i));
      words = give_back-word (s.local i) s.storage words;
      ready = tt;
    }

    pub stepped :
        (weak : Bool) (p : Pc)
        → IsReady m p (s.local i)
        → Stepped i s (step m weak s.storage (s.local i) p)
    unfolding step
    stepped weak idle r = stays _ r
    stepped weak acq_enter r = elim (Bool-cases (s.local i == no_ticket)) [
      | inl e ↦ rw e (stays (acq_load 0) (ground arith))
      | inr n ↦ rw n (stays (acquired (s.local i)) tt)
    ]
    stepped weak (acq_load cell) r = elim (Bool-cases (ltb cell num_cells)) [
      | inl e ↦ rw e (scans cell r)
      | inr n ↦ rw n (stays refused tt)
    ]
    stepped weak (acq_cas cell cur) (mine, pos, word, lt) =
        elim (Bool-cases (not weak && s.storage cell == cur)) [
          | inl e ↦
              let same : s.storage cell ≡ cur = ground arith in
              rw (e, ← same) (won cell mine (rw same pos) (rw same lt))
          | inr n ↦ rw n (scans cell mine)
        ]
    stepped weak rel_enter r = elim (Bool-cases (s.local i == no_ticket)) [
      | inl e ↦ rw e (stays released tt)
      | inr n ↦ rw n (gives (λ z. absurd (ground arith)))
    ]
    stepped weak (acquired t) r = stays _ r
    stepped weak refused r = stays _ r
    stepped weak released r = stays _ r
