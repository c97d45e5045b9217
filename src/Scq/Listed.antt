-- ===== src/Scq/Listed.antt =====
-- A ring that is a list and a flag, to run `SCQueue`.
use native.Mathlib.Nat.{pow-le-pow_right}
use mpmc_queues.Base.{
  ℕ, zero, suc, ◌^◌, ◌≤◌, ◌≡◌, refl, arith, Bool, true, false, List, [], ◌∷◌, ◌++◌, count, length,
  count-append, ltb, if◌then◌else◌, ℕ_discrete, eq→==, ne→==,
}
use mpmc_queues.Ring.Raw.{HasPlace, lfring_empty}
use mpmc_queues.Ring.Listed.{
  index, indices, indices-append, list_dequeue, list_enqueue_items, list_dequeue_empty,
  list_dequeue_left, list_dequeue_item,
}
use mpmc_queues.Scq.Raw.{Rings}

abbrev pub Flagged : Type 0
Flagged = Bool × List ℕ

abbrev pub upto : ℕ → List ℕ
upto zero = []
upto (suc n) = upto n ++ (n ∷ [])

pub count-upto :
    (n x : ℕ) → n ≤ lfring_empty → count x (indices (upto n)) ≡ (if ltb x n then 1 else 0)
count-upto zero x le = ground arith
count-upto (suc n) x le =
    let rest = count-upto n x (omega arith) in
    let here : index n ≡ n = rw (ne→== n lfring_empty (omega (arith, le))) refl in
    let split = count-append x (indices (upto n)) (n ∷ []) in
    rw (indices-append (upto n) n, here, split, rest)
      (elim (ℕ_discrete x n) [
        | yes e ↦ rw (eq→== x n e) (ground arith)
        | no ne ↦ rw (ne→== x n ne) (ground arith)
      ])

abbrev pub flagged_enqueue : ℕ → Flagged → Flagged × Bool
flagged_enqueue x (true, ks) = ((true, ks), false)
flagged_enqueue x (false, ks) = ((false, ks ++ (x ∷ [])), true)

pub flagged_opens :
    (x : ℕ) (b : Bool) (ks : List ℕ)
    → b ≡ false
    → ((flagged_enqueue x (b, ks)).1 ≡ true) × ((flagged_enqueue x (b, ks)).0.0 ≡ false)
flagged_opens x false ks o = (refl, refl)
flagged_opens x true ks o = absurd cc

pub flagged_appends :
    (n x : ℕ) (b : Bool) (ks : List ℕ)
    → HasPlace n x (indices ks)
    → (flagged_enqueue x (b, ks)).1 ≡ true
    → indices (flagged_enqueue x (b, ks)).0.1 ≡ indices ks ++ (x ∷ [])
flagged_appends n x false ks h took = list_enqueue_items n x ks h
flagged_appends n x true ks h took = absurd cc

pub flagged_refuses :
    (x : ℕ) (b : Bool) (ks : List ℕ)
    → (flagged_enqueue x (b, ks)).1 ≡ false
    → indices (flagged_enqueue x (b, ks)).0.1 ≡ indices ks
flagged_refuses x true ks denied = refl
flagged_refuses x false ks denied = absurd cc

abbrev pub flagged : Rings Flagged
flagged = record {
  lfring_init_empty = λ _. (false, []);
  lfring_init_full = λ n. (false, upto (2 ^ n));
  lfring_enqueue = λ _. flagged_enqueue;
  lfring_dequeue = λ _ r. ((r.0, (list_dequeue r.1).0), (list_dequeue r.1).1);
  lfring_close = λ r. (true, r.1);
  lfring_open = λ r. (false, r.1);
  lfring_is_closed = λ r. r.0;
  lfring_reset_threshold = λ _ r. r;
  lfring_get_head = λ _. 0;
  lfring_get_tail = λ r. length r.1;
  items = λ r. indices r.1;
  init_empty_items = λ _. refl;
  init_empty_open = λ _. refl;
  init_full_items = λ n x small.
      let le = pow-le-pow_right {n = 2} (omega arith) {i = n} {j = 63} (omega arith) in
      count-upto (2 ^ n) x (omega (arith, le));
  enqueue_open = λ _ x (b, ks) o h. flagged_opens x b ks o;
  enqueue_ok = λ n x (b, ks) h took. flagged_appends n x b ks h took;
  enqueue_refused = λ _ x (b, ks) denied. flagged_refuses x b ks denied;
  dequeue_empty = λ _ r z. (list_dequeue_empty r.1 z, list_dequeue_left r.1 z);
  dequeue_index = λ _ r ne. list_dequeue_item r.1 ne;
  close_items = λ _. refl;
  close_closed = λ _. refl;
}
