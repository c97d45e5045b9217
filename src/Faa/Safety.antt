-- ===== src/Faa/Safety.antt =====
-- No schedule of `LinkedFAAArray` loses an item or hands one out twice.
use mpmc_queues.Base.{
  ℕ, zero, suc, ◌+◌, ◌^◌, ◌≤◌, ◌<◌, ◌≡◌, refl, ◌∙◌, arith, List, [], ◌∷◌, length, count, update_ne,
  ℕ_discrete, eq→==,
}
use mpmc_queues.Faa.{construct, init_buffer_slots, empty, seen}
use mpmc_queues.Faa.System.{System, Event, next, run_all, begin}
use mpmc_queues.Faa.Counts.{listing, count-listing_all}
use mpmc_queues.Faa.Inv.{Inv, HasTicket}
use mpmc_queues.Faa.Steps.{Inv-next}

slots_before :
    (rounds i t : ℕ) (cells : ℕ → ℕ) → t < i → init_buffer_slots rounds i cells t ≡ cells t
unfolding init_buffer_slots
slots_before zero i t cells lt = refl
slots_before (suc n) i t cells lt =
    slots_before n (i + 1) t _ (omega arith) ∙ update_ne cells i t empty (omega arith)

pub slots_empty :
    (rounds i t : ℕ) (cells : ℕ → ℕ)
    → i ≤ t
    → t < i + rounds
    → init_buffer_slots rounds i cells t ≡ empty
unfolding init_buffer_slots
slots_empty zero i t cells le lt = absurd (omega arith)
slots_empty (suc n) i t cells le lt = elim (ℕ_discrete i t) [
  | yes e ↦ slots_before n (i + 1) t _ (omega arith) ∙ rw (eq→== i t e) refl
  | no ne ↦ slots_empty n (i + 1) t _ (omega arith) (omega arith)
]

module _ (size : ℕ) (raw : ℕ → ℕ) where
  begin-Inv : Inv size 0 (begin (construct size raw))
  unfolding begin construct
  begin-Inv =
      let blank : (t : ℕ) → t < size → init_buffer_slots size 0 raw t ≡ empty =
        λ t lt. slots_empty size 0 t raw (omega arith) (omega arith) in
      record {
        counts = λ x lx. omega (arith, count-listing_all x empty size _ (omega arith) blank);
        items = (refl, refl);
        small = omega arith;
        mine = λ i t h. absurd h;
        alone = λ i j t ne h. absurd h;
        unseen = λ t le lt. rw (blank t lt) (omega arith);
        owned = λ t lt below. absurd (omega arith);
        proper = λ i. tt;
      }

Inv-run_all :
    (size k : ℕ) (es : List Event) (s : System)
    → k + length es < 2 ^ 64
    → Inv size k s
    → Inv size (k + length es) (run_all size es s)
unfolding run_all
Inv-run_all size k [] s bound inv = let e : k + 0 ≡ k = omega arith in rw e inv
Inv-run_all size k (e ∷ es) s bound inv =
    let shift : k + suc (length es) ≡ suc k + length es = omega arith in
    rw shift
      (Inv-run_all size (suc k) es (next size e s) (omega arith) (Inv-next s inv (omega arith) e))

module _ (size : ℕ) (raw : ℕ → ℕ) (es : List Event) (bound : length es < 2 ^ 64) where
  final : Inv size (0 + length es) (run_all size es (begin (construct size raw)))
  final = Inv-run_all size 0 es _ (omega arith) (begin-Inv size raw)

  -- After any schedule of fewer than `2 ^ 64` events on a fresh array, however its threads enqueue,
  -- dequeue and close: for every item, the calls of enqueue that returned true with it are as many as
  -- the calls of dequeue that returned it and its copies in the cells together, and no dequeue
  -- returned one of the two reserved values as an item.
  pub items_conserved :
      let s = run_all size es (begin (construct size raw)) in
      ((x : ℕ)
        → 1 < x
        → count x s.accepted ≡ count x s.returned + count x (listing s.mem.cells size))
      × (count 0 s.returned ≡ 0)
      × (count 1 s.returned ≡ 0)
  items_conserved = (final.counts, final.items.0, final.items.1)

  -- Once the tickets of `dequeue` are used up and no thread stands inside a `dequeue` with a ticket:
  -- every item was returned by as many calls of dequeue as calls of enqueue returned true with it.
  pub drained_is_empty :
      let s = run_all size es (begin (construct size raw)) in
      size ≤ s.mem.head
      → ((i t : ℕ) → HasTicket (s.pc i) t → ⊥)
      → (x : ℕ) → 1 < x
      → count x s.accepted ≡ count x s.returned
  drained_is_empty over nobody x lx =
      let s = run_all size es (begin (construct size raw)) in
      let gone : (t : ℕ) → t < size → s.mem.cells t ≡ seen = λ t lt.
        elim (ℕ_discrete (s.mem.cells t) seen) [
          | yes e ↦ e
          | no ne ↦ let (i, h) = final.owned t lt (omega arith) ne in absurd (nobody i t h)
        ] in
      omega (arith, final.counts x lx, count-listing_all x seen size s.mem.cells (omega arith) gone)
