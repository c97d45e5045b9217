-- ===== src/CasLoop/Safety.antt =====
-- What a client of `CASLoopQueue` can rely on, whatever the interleaving.
use mpmc_queues.Base.{
  ℕ, ◌+◌, ◌-◌, ◌^◌, ◌≤◌, ◌<◌, ◌≡◌, ◌≢◌, refl, sym, ◌∙◌, Bool, inl, inr, some, List, [], ◌∷◌, arith,
  Bool-cases, update_ne, update_self, length, ap, ◌++◌, append-nil, append_assoc, if◌then◌else◌,
}
use mpmc_queues.CasLoop.{Ring, Shared, construct, size, Call, call, enqueue, dequeue, close}
use mpmc_queues.CasLoop.System.{System, Event, run, invoke, next, run_all, begin, resting}
use mpmc_queues.CasLoop.Spec.{
  Status, Move, stay, put_one, take_one, refuse, miss, ready, putting, put, refused, taking, took,
  missed, tail_index, contents, status, begun,
}
use mpmc_queues.CasLoop.Words.{size_lem}
use mpmc_queues.CasLoop.Inv.{IsRing, Inv, next-Inv, run_all-Inv, construct-Inv, construct-start}
use mpmc_queues.CasLoop.Refine.{next_refines, statuses, length-window}

-- What an event is to the bounded queue of `Spec`: an access of a thread is one move by it, and an
-- invocation begins its operation and leaves the queue alone. No other thread's operation changes.
abbrev pub IsMove : Ring → Event → System → System → Type 0
IsMove r (run i weak) s s' =
    Move r.size (contents s) (statuses s i) (contents s') (statuses s' i)
    × ((j : ℕ) → i ≢ j → statuses s' j ≡ statuses s j)
IsMove r (invoke i c) s s' =
    (contents s' ≡ contents s)
    × (statuses s' i ≡ (if resting (s.pc i) then begun c else statuses s i))
    × ((j : ℕ) → i ≢ j → statuses s' j ≡ statuses s j)

abbrev pub AllMoves : Ring → List Event → System → Type 0
AllMoves r [] s = Unit {0}
AllMoves r (e ∷ es) s = IsMove r e s (next r e s) × AllMoves r es (next r e s)

-- The item that a thread has put into the queue, or taken out, when its status changes.
abbrev pub gained : Status → Status → List ℕ
gained (putting x) put = x ∷ []
gained a b = []

abbrev pub lost : Status → Status → List ℕ
lost taking (took x) = x ∷ []
lost a b = []

-- The items that went in and out along a schedule, oldest first.
abbrev pub went_in : Ring → List Event → System → List ℕ
went_in r [] s = []
went_in r (run i weak ∷ es) s =
    let s' = next r (run i weak) s in gained (statuses s i) (statuses s' i) ++ went_in r es s'
went_in r (invoke i c ∷ es) s = went_in r es (next r (invoke i c) s)

abbrev pub went_out : Ring → List Event → System → List ℕ
went_out r [] s = []
went_out r (run i weak ∷ es) s =
    let s' = next r (run i weak) s in lost (statuses s i) (statuses s' i) ++ went_out r es s'
went_out r (invoke i c ∷ es) s = went_out r es (next r (invoke i c) s)

Move-balance :
    (cap : ℕ) {q q' : List ℕ} {a b : Status} → Move cap q a q' b → q ++ gained a b ≡ lost a b ++ q'
Move-balance cap (stay q s) = quiet s
  where
    quiet : (a : Status) → q ++ gained a a ≡ lost a a ++ q
    quiet ready = append-nil q
    quiet (putting x) = append-nil q
    quiet put = append-nil q
    quiet refused = append-nil q
    quiet taking = append-nil q
    quiet (took x) = append-nil q
    quiet missed = append-nil q
Move-balance cap (put_one q x lt) = refl
Move-balance cap (take_one q x) = append-nil (x ∷ q)
Move-balance cap (refuse q x) = append-nil q
Move-balance cap (miss q) = append-nil q

balance :
    (r : Ring) (es : List Event) (s : System)
    → AllMoves r es s
    → contents s ++ went_in r es s ≡ went_out r es s ++ contents (run_all r es s)
unfolding run_all
balance r [] s m = append-nil (contents s)
balance r (run i weak ∷ es) s ((mv, _), rest) =
    let s' = next r (run i weak) s in
    let a = gained (statuses s i) (statuses s' i) in
    let b = lost (statuses s i) (statuses s' i) in
    sym (append_assoc (contents s) a (went_in r es s'))
    ∙ ap (λ (l : List ℕ). l ++ went_in r es s') (Move-balance r.size mv)
    ∙ append_assoc b (contents s') (went_in r es s')
    ∙ ap (λ (l : List ℕ). b ++ l) (balance r es s' rest)
    ∙ sym (append_assoc b (went_out r es s') (contents (run_all r es s')))
balance r (invoke i c ∷ es) s ((same, _, _), rest) =
    ap (λ (l : List ℕ). l ++ went_in r es (next r (invoke i c) s)) (sym same)
    ∙ balance r es (next r (invoke i c) s) rest

begun-call : (r : Ring) (puts : ℕ → ℕ) (c : Call) → status puts (call r c) ≡ begun c
unfolding call
begun-call r puts (enqueue x) = refl
begun-call r puts dequeue = refl
begun-call r puts close = elim (Bool-cases r.linked) [ inl l ↦ rw l refl | inr u ↦ rw u refl ]

module _ {r : Ring} (ring : IsRing r) where
  IsMove-next :
      {k : ℕ} {s : System} (e : Event)
      → k + r.size + 1 < 2 ^ 63
      → Inv r k s
      → IsMove r e s (next r e s)
  IsMove-next (run i weak) small inv = next_refines i weak ring small inv
  IsMove-next {s = s} (invoke i c) small inv =
      unfold next in
      elim (Bool-cases (resting (s.pc i))) [
        | inl rest ↦ rw rest (
          refl,
          ap (status s.puts) (update_self s.pc i (call r c)) ∙ begun-call r s.puts c,
          λ j ne. ap (status s.puts) (update_ne s.pc i j (call r c) ne),
        )
        | inr busy ↦ rw busy (refl, refl, λ j ne. refl)
      ]

  AllMoves-run_all :
      (k : ℕ) {s : System} (es : List Event)
      → k + length es + r.size < 2 ^ 63
      → Inv r k s
      → AllMoves r es s
  AllMoves-run_all k [] small inv = tt
  AllMoves-run_all k (e ∷ es) small inv = (
    IsMove-next e (omega arith) inv,
    AllMoves-run_all (k + 1) es (omega arith) (next-Inv ring k e (omega arith) inv),
  )

starts_empty : (r : Ring) (m : Shared) → m.head ≡ tail_index m → contents (begin m) ≡ []
unfolding begin
starts_empty r m e = let n : tail_index m - m.head ≡ 0 = omega arith in rw n refl

-- The run of a schedule from the constructor.
module _ (pow2 linked : Bool) (size' first : ℕ) {r : Ring} {m : Shared} (es : List Event)
    (nonzero : size' ≢ 0) (fits : size' ≤ 2 ^ 63)
    (made : construct pow2 linked size' first ≡ some (r, m)) (two : 2 ≤ r.size)
    (few : first + length es + r.size < 2 ^ 63) where
  begun_right : IsRing r × Inv r first (begin m)
  begun_right = construct-Inv pow2 linked size' first nonzero fits (omega arith) made two

  at_start : m.head ≡ tail_index m
  at_start = let (h, t) = construct-start pow2 linked size' first made in omega arith

  -- Let `CASLoopQueue` be constructed with at least two cells, and let any threads call `enqueue`,
  -- `dequeue` and `close` in any interleaving whose events, with the start ticket and the size, stay
  -- below `2 ^ 63`. Then every event of the run is a move of the bounded first-in first-out queue of
  -- `Spec` by its thread, from the empty queue on, and an invocation begins the operation that was
  -- called. The items that went in are, in this order, those that came out followed by the queue at
  -- the end: no item is lost, doubled or overtaken.
  pub run_refines :
      (contents (begin m) ≡ [])
      × AllMoves r es (begin m)
      × (went_in r es (begin m) ≡ went_out r es (begin m) ++ contents (run_all r es (begin m)))
  run_refines =
      let (ring, inv) = begun_right in
      let none_in = starts_empty r m at_start in
      let moves = AllMoves-run_all ring first es few inv in
      (
        none_in,
        moves,
        ap (λ (l : List ℕ). l ++ went_in r es (begin m)) (sym none_in)
            ∙ balance r es (begin m) moves,
      )

  -- In every such run the queue holds at most `size` items, and `size()`, read at any one moment,
  -- is their number, closed or not.
  pub size-contents :
      (length (contents (run_all r es (begin m))) ≤ r.size)
      × (size (run_all r es (begin m)).mem ≡ length (contents (run_all r es (begin m))))
  size-contents =
      let (ring, inv) = begun_right in
      let ok = (run_all-Inv ring first es few inv).ok in
      let s = run_all r es (begin m) in
      let n = length-window s.puts (tail_index s.mem - s.mem.head) s.mem.head in
      (omega (arith, n, ok.room), size_lem s.mem ok.order ∙ sym n)
