-- ===== src/Hq/Returns.antt =====
-- What a `dequeue` of `LinkedHQ` returns is what its exchange took out of a cell.
use mpmc_queues.Base.{
  ℕ, ◌+◌, ◌≡◌, refl, Bool, true, false, Option, none, some, List, [], ◌∷◌, leb, ltb, ◌==◌,
  if◌then◌else◌, ℕ_discrete, eq→==, ne→==, Bool-cases, inl, inr,
}
use mpmc_queues.Hq.{
  Shared, Pc, idle, enq_add, enq_cas, deq_next, fast_add, fast_wait, fast_swap, slow_head,
  slow_item, slow_tail, slow_again, slow_skip, slow_wait, slow_swap, slow_help, closing, enqueued,
  dequeued, closed, empty, seen, Call, enqueue, dequeue, close, call, step, reserved, max_patience,
  slow_result,
}
use mpmc_queues.Hq.System.{
  System, Event, run, invoke, link, next, run_all, begin, resting, took, next_took, took_all,
}

-- What the thread has taken so far, at each place of a dequeue.
abbrev pub Owns : Option ℕ → Pc → Type 0
Owns v deq_next = v ≡ none
Owns v fast_add = v ≡ none
Owns v (fast_wait h n) = v ≡ none
Owns v (fast_swap h) = v ≡ none
Owns v slow_head = v ≡ none
Owns v (slow_item h) = v ≡ none
Owns v (slow_tail h x) = v ≡ none
Owns v (slow_again h x t) = v ≡ none
Owns v (slow_skip h) = v ≡ none
Owns v (slow_wait h n) = v ≡ none
Owns v (slow_swap h) = v ≡ none
Owns v (slow_help h x) = v ≡ (if leb x 1 then none else some x)
Owns v (dequeued w) = v ≡ w
Owns v _ = Unit {0}

-- A choice between two places with the same debt.
either : (v : Option ℕ) (b : Bool) (p q : Pc) → Owns v p → Owns v q → Owns v (if b then p else q)
either v true p q a c = a
either v false p q a c = c

Owns-step :
    (size : ℕ) (weak : Bool) (m : Shared) (p : Pc) (v : Option ℕ)
    → Owns v p
    → Owns (took m p v) (step size weak m p).1
unfolding step reserved slow_result
Owns-step size weak m idle v o = tt
Owns-step size weak m (enq_add x e) v o = either v _ (enqueued false) (enq_cas x e m.tail) tt tt
Owns-step size weak m (enq_cas x e t) v o = elim (Bool-cases (m.cells t == e)) [
  | inl y ↦ rw y tt
  | inr y ↦ rw y tt
]
Owns-step size weak m deq_next v o = either v _ slow_head fast_add o o
Owns-step size weak m fast_add v o = either v _ (dequeued none) (fast_wait m.head 0) o o
Owns-step size weak m (fast_wait h n) v o = either v _ (fast_wait h (n + 1)) (fast_swap h) o o
Owns-step size weak m (fast_swap h) v o = elim (Bool-cases (leb (m.cells h) 1)) [
  | inl y ↦ rw y o
  | inr y ↦ rw y refl
]
Owns-step size weak m slow_head v o = either v _ (dequeued none) (slow_item m.head) o o
Owns-step size weak m (slow_item h) v o = o
Owns-step size weak m (slow_tail h x) v o = o
Owns-step size weak m (slow_again h x t) v o =
    let by_item =
      if x == seen then slow_skip h else if x == empty then slow_wait h 0 else slow_swap h in
    let empties : Owns v (if x == empty then slow_wait h 0 else slow_swap h) =
      either v (x == empty) (slow_wait h 0) (slow_swap h) o o in
    let skips : Owns v by_item =
      either v (x == seen) (slow_skip h) (if x == empty then slow_wait h 0 else slow_swap h) o
        empties in
    either v (h == m.head) (if h == t then dequeued none else by_item) slow_head
      (either v (h == t) (dequeued none) by_item o skips) o
Owns-step size weak m (slow_skip h) v o = o
Owns-step size weak m (slow_wait h n) v o =
    let again = if m.cells h == empty then slow_wait h (n + 1) else slow_swap h in
    let waits : Owns v again =
      either v (m.cells h == empty) (slow_wait h (n + 1)) (slow_swap h) o o in
    either v (ltb n max_patience) (if m.cells h == seen then slow_skip h else again) (slow_swap h)
      (either v (m.cells h == seen) (slow_skip h) again o waits) o
Owns-step size weak m (slow_swap h) v o = elim (Bool-cases (leb (m.cells h) 1)) [
  | inl y ↦ rw y o
  | inr y ↦ rw y refl
]
Owns-step size weak m (slow_help h x) v o = elim (Bool-cases (leb x 1)) [
  | inl y ↦ rw y (rw y at o)
  | inr y ↦ rw y (rw y at o)
]
Owns-step size weak m closing v o = tt
Owns-step size weak m (enqueued b) v o = tt
Owns-step size weak m (dequeued w) v o = o
Owns-step size weak m closed v o = tt

Owns-call : (c : Call) → Owns none (call c)
unfolding call
Owns-call (enqueue x) = either none _ idle (enq_add x empty) tt tt
Owns-call dequeue = refl
Owns-call close = tt

abbrev pub AllOwn : System → (ℕ → Option ℕ) → Type 0
AllOwn s f = (i : ℕ) → Owns (f i) (s.pc i)

AllOwn-next :
    (size : ℕ) (e : Event) (s : System) (f : ℕ → Option ℕ)
    → AllOwn s f
    → AllOwn (next size e s) (next_took e s f)
unfolding next
AllOwn-next size (run i weak) s f own j = elim (ℕ_discrete i j) [
  | yes e ↦ rw (eq→== i j e) (Owns-step size weak s.mem (s.pc i) (f i) (own i))
  | no n ↦ rw (ne→== i j n) (own j)
]
AllOwn-next size (invoke i c) s f own j = elim (Bool-cases (resting (s.pc i))) [
  | inl y ↦ rw y (elim (ℕ_discrete i j) [
    | yes e ↦ rw (eq→== i j e) (Owns-call c)
    | no n ↦ rw (ne→== i j n) (own j)
  ])
  | inr y ↦ rw y (own j)
]
AllOwn-next size (link n) s f own j = own j

pub AllOwn-run_all :
    (size : ℕ) (es : List Event) (s : System) (f : ℕ → Option ℕ)
    → AllOwn s f
    → AllOwn (run_all size es s) (took_all size es s f)
unfolding run_all took_all
AllOwn-run_all size [] s f own = own
AllOwn-run_all size (e ∷ es) s f own =
    AllOwn-run_all size es (next size e s) (next_took e s f) (AllOwn-next size e s f own)

pub AllOwn-begin : (m : Shared) → AllOwn (begin m) (λ _. none)
unfolding begin
AllOwn-begin m i = tt

-- The result of a dequeue that has returned.
pub took-dequeued :
    (s : System) (f : ℕ → Option ℕ)
    → AllOwn s f
    → (i : ℕ) (v : Option ℕ) → s.pc i ≡ dequeued v
    → f i ≡ v
took-dequeued s f own i v e = let o = own i in rw e at o
