-- ===== src/Hq/Safety.antt =====
-- No schedule of `LinkedHQ` hands an item out twice, or one that was not accepted.
use mpmc_queues.Base.{
  ℕ, zero, suc, ◌+◌, ◌*◌, ◌^◌, ◌≤◌, ◌<◌, ◌≡◌, refl, ◌∙◌, arith, List, [], ◌∷◌, length, count,
  update_ne, ℕ_discrete, eq→==, Option, none,
}
use mpmc_queues.Hq.{construct, init_buffer_slots, empty, dequeued}
use mpmc_queues.Hq.System.{System, Event, next, run_all, begin, took_all}
use mpmc_queues.Faa.Counts.{listing, count-listing_all}
use mpmc_queues.Hq.Inv.{Inv}
use mpmc_queues.Hq.Steps.{Inv-next}
use mpmc_queues.Hq.Returns.{AllOwn-run_all, AllOwn-begin, took-dequeued}

slots_before : (slots i t : ℕ) (cells : ℕ → ℕ) → t < i → init_buffer_slots slots i cells t ≡ cells t
unfolding init_buffer_slots
slots_before zero i t cells lt = refl
slots_before (suc n) i t cells lt =
    slots_before n (i + 1) t _ (omega arith) ∙ update_ne cells i t empty (omega arith)

pub slots_empty :
    (slots i t : ℕ) (cells : ℕ → ℕ)
    → i ≤ t
    → t < i + slots
    → init_buffer_slots slots i cells t ≡ empty
unfolding init_buffer_slots
slots_empty zero i t cells le lt = absurd (omega arith)
slots_empty (suc n) i t cells le lt = elim (ℕ_discrete i t) [
  | yes e ↦ slots_before n (i + 1) t _ (omega arith) ∙ rw (eq→== i t e) refl
  | no ne ↦ slots_empty n (i + 1) t _ (omega arith) (omega arith)
]

Inv-begin : (size : ℕ) (raw : ℕ → ℕ) → Inv size 0 (begin (construct size raw))
unfolding begin construct
Inv-begin size raw =
    let blank : (t : ℕ) → t < size → init_buffer_slots size 0 raw t ≡ empty =
      λ t lt. slots_empty size 0 t raw (omega arith) (omega arith) in
    record {
      counts = λ x lx. omega (arith, count-listing_all x empty size _ (omega arith) blank);
      items = (refl, refl);
      small = omega arith;
      mine = λ i t h. absurd h;
      alone = λ i j t ne h. absurd h;
      fresh = λ t le lt. rw (blank t lt) (omega arith);
      proper = λ i. tt;
    }

Inv-run_all :
    (size w : ℕ) (es : List Event) (s : System)
    → w + length es * suc size < 2 ^ 64
    → Inv size w s
    → Inv size (w + length es * suc size) (run_all size es s)
unfolding run_all
Inv-run_all size w [] s bound inv = let e : w + 0 * suc size ≡ w = grind arith in rw e inv
Inv-run_all size w (e ∷ es) s bound inv =
    let shift : w + suc (length es) * suc size ≡ w + suc size + length es * suc size =
      grind arith in
    rw shift (
      Inv-run_all size (w + suc size) es (next size e s) (omega arith)
        (Inv-next s inv (omega arith) e))

-- After any schedule on a fresh segment, however its threads enqueue, dequeue and close and whenever
-- a next segment is linked, as long as the events times `size + 1` stay below `2 ^ 64`: for every item,
-- the calls of enqueue that returned true with it are as many as the times that it was taken out of a
-- cell by a dequeue or stands in the cells, neither reserved value was ever taken as an item, and a
-- dequeue that has returned has returned what it took out of a cell itself, none if it took nothing.
pub hq_conserves :
    (size : ℕ) (raw : ℕ → ℕ) (es : List Event)
    → length es * suc size < 2 ^ 64
    → let s = run_all size es (begin (construct size raw)) in
      ((x : ℕ) → 1 < x → count x s.accepted ≡ count x s.taken + count x (listing s.mem.cells size))
      × (count 0 s.taken ≡ 0)
      × (count 1 s.taken ≡ 0)
      × ((i : ℕ) (v : Option ℕ)
          → s.pc i ≡ dequeued v
          → took_all size es (begin (construct size raw)) (λ _. none) i ≡ v)
hq_conserves size raw es bound =
    let start = begin (construct size raw) in
    let final = Inv-run_all size 0 es start (omega arith) (Inv-begin size raw) in
    let own = AllOwn-run_all size es start (λ _. none) (AllOwn-begin (construct size raw)) in
    (
      final.counts,
      final.items.0,
      final.items.1,
      λ i v e. took-dequeued (run_all size es start) (took_all size es start (λ _. none)) own i v e,
    )
