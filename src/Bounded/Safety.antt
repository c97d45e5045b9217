-- ===== src/Bounded/Safety.antt =====
-- Every event of every schedule over a `Machine` is a move of the abstract queue.
use mpmc_queues.Base.{
  ℕ, ◌≡◌, ◌≢◌, refl, ap₂, ◌∙◌, Bool, true, List, [], ◌∷◌, Bool-cases, inl, inr, update, ℕ_discrete,
  eq→==, ne→==,
}
use mpmc_queues.Unbounded.{Call}
use mpmc_queues.Unbounded.Segment.{SegmentOps}
use mpmc_queues.Unbounded.Spec.{status}
use mpmc_queues.Unbounded.System.{note}
use mpmc_queues.Unbounded.Inv.{Chain, IsGood, IsGood-Later}
use mpmc_queues.Bounded.Machine.{
  Machine, Outcome, moved, declines, still, moves, refuses, stays, IsMove, AllMoves, Event, run,
  invoke, System, next, begin, seen_at, view,
}

module _ {S : Type 0} {seg : SegmentOps S} (k : Machine seg) where
  open k use {
    State, Place, access, core, image, refused, rests, ask, start_place, outcome, asked, asked_good,
    asked_open, starts,
  }

  abbrev pub Inv : System k → Type 0
  Inv s =
      Chain seg (core s.state) × ((i : ℕ) → IsGood seg (core s.state) (s.saw i) (image (s.pc i)))

  -- The system after an access of thread `i`, and its view from outside.
  module _ (s : System k) (inv : Inv s) (i : ℕ) where
    abbrev m' : State
    m' = (access i s.state (s.pc i)).0

    abbrev p' : Place
    p' = (access i s.state (s.pc i)).1

    abbrev w' : Bool
    w' = note seg (core s.state) (image (s.pc i)) (s.saw i)

    abbrev s' : System k
    s' = record { state = m'; pc = update s.pc i p'; saw = update s.saw i w' }

    own : view k s' i ≡ seen_at k w' p'
    own = rw (eq→== i i refl) refl

    others : (j : ℕ) → i ≢ j → view k s' j ≡ view k s j
    others j ne = rw (ne→== i j ne) refl

    keeps : core m' ≡ core s.state → IsGood seg (core m') w' (image p') → Inv s'
    keeps e good = (
      rw e inv.0,
      λ j. elim (ℕ_discrete i j) [
        | yes f ↦ rw (eq→== i j f) good
        | no n ↦ rw (ne→== i j n, e) (inv.1 j)
      ],
    )

    runs :
        Outcome seg image refused (core s.state) (core m') (s.saw i) (s.pc i) p'
        → Inv s' × IsMove k (run i) s s'
    runs (moved a b st) = (
      (
        st.chain,
        λ j. elim (ℕ_discrete i j) [
          | yes f ↦ rw (eq→== i j f) st.good
          | no n ↦ rw (ne→== i j n) (
              IsGood-Later seg (core s.state) (core m') (s.saw j) st.later (image (s.pc j))
                (inv.1 j))
        ],
      ),
      (
        rw (own, a, b)
            (moves _ _ (status (s.saw i) (image (s.pc i))) (status w' (image p')) st.move),
        others,
      ),
    )
    runs (declines x a b im put e) =
        (keeps e (rw im tt), (rw (own, a, b, put, e) (refuses _ x), others))
    runs (still e f w) =
        (keeps e (rw (e, w, f) (inv.1 i)), (rw (own ∙ ap₂ (seen_at k) w f, e) (stays _ _), others))

    calls :
        (c : Call)
        → rests (s.pc i) ≡ true
        → Inv (record s { pc = update s.pc i (ask c) })
          × IsMove k (invoke i c) s (record s { pc = update s.pc i (ask c) })
    calls c y = (
      (
        inv.0,
        λ j. elim (ℕ_discrete i j) [
          | yes f ↦ rw (eq→== i j f) (asked_good (core s.state) (s.saw j) c)
          | no n ↦ rw (ne→== i j n) (inv.1 j)
        ],
      ),
      (
        refl,
        rw (y, eq→== i i refl, asked_open c, asked (s.saw i) c) refl,
        λ j ne. rw (ne→== i j ne) refl,
      ),
    )

  keeps_next : (s : System k) (e : Event) → Inv s → Inv (next k e s) × IsMove k e s (next k e s)
  unfolding next
  keeps_next s (run i) inv = runs s inv i (outcome i s.state (s.pc i) (s.saw i) inv.0 (inv.1 i))
  keeps_next s (invoke i c) inv = elim (Bool-cases (rests (s.pc i))) [
    | inl y ↦ rw y (rw y at (calls s inv i c y))
    | inr y ↦ rw y (inv, (refl, refl, λ j ne. refl))
  ]

  AllMoves-run_all : (es : List Event) (s : System k) → Inv s → AllMoves k es s
  AllMoves-run_all [] s inv = tt
  AllMoves-run_all (e ∷ es) s inv =
      let (inv', mv) = keeps_next s e inv in (mv, AllMoves-run_all es (next k e s) inv')

  -- From a state in order, every event of every schedule is a move of the abstract queue.
  pub AllMoves-begin :
      (m : State) (es : List Event) → Chain seg (core m) → AllMoves k es (begin k m)
  unfolding begin
  AllMoves-begin m es chain = AllMoves-run_all es (begin k m) (chain, λ i. rw starts.0 tt)
