-- ===== src/Ring/Listed.antt =====
-- A ring that is a list, to run `LFring` and what stands on it.
use native.Mathlib.Nat.{pow-le-pow_right}
use mpmc_queues.Base.{
  ℕ, suc, ◌^◌, ◌<◌, ◌≡◌, ◌≢◌, refl, ap, ◌∙◌, arith, true, List, [], ◌∷◌, ◌++◌, ◌==◌, if◌then◌else◌,
  ne→==,
}
use mpmc_queues.Ring.Raw.{RawRing, HasPlace, lfring_empty}

-- Every stored number stands for an index other than `lfring_empty`.
abbrev pub index : ℕ → ℕ
index k = if k == lfring_empty then suc k else k

index_ne : (k : ℕ) → index k ≢ lfring_empty
index_ne k = ground arith

pub index_same : (order x : ℕ) → order < 64 → x < 2 ^ order → index x ≡ x
index_same order x small lt =
    let le = pow-le-pow_right {n = 2} (omega arith) {i = order} {j = 63} (omega arith) in
    rw (ne→== x lfring_empty (omega (arith, le))) refl

abbrev pub indices : List ℕ → List ℕ
indices [] = []
indices (k ∷ ks) = index k ∷ indices ks

pub indices-append : (ks : List ℕ) (k : ℕ) → indices (ks ++ (k ∷ [])) ≡ indices ks ++ (index k ∷ [])
indices-append [] k = refl
indices-append (j ∷ ks) k = ap (λ (l : List ℕ). index j ∷ l) (indices-append ks k)

abbrev pub list_dequeue : List ℕ → List ℕ × ℕ
list_dequeue [] = ([], lfring_empty)
list_dequeue (k ∷ ks) = (ks, index k)

pub list_enqueue_items :
    (order x : ℕ) (ks : List ℕ)
    → HasPlace order x (indices ks)
    → indices (ks ++ (x ∷ [])) ≡ indices ks ++ (x ∷ [])
list_enqueue_items order x ks h =
    indices-append ks x
    ∙ ap (λ (y : ℕ). indices ks ++ (y ∷ [])) (index_same order x h.small h.in_range)

pub list_dequeue_empty : (ks : List ℕ) → (list_dequeue ks).1 ≡ lfring_empty → indices ks ≡ []
list_dequeue_empty [] e = refl
list_dequeue_empty (k ∷ ks) e = absurd (index_ne k e)

pub list_dequeue_left :
    (ks : List ℕ) → (list_dequeue ks).1 ≡ lfring_empty → indices (list_dequeue ks).0 ≡ []
list_dequeue_left [] e = refl
list_dequeue_left (k ∷ ks) e = absurd (index_ne k e)

pub list_dequeue_item :
    (ks : List ℕ)
    → (list_dequeue ks).1 ≢ lfring_empty
    → indices ks ≡ (list_dequeue ks).1 ∷ indices (list_dequeue ks).0
list_dequeue_item [] ne = absurd (ne refl)
list_dequeue_item (k ∷ ks) ne = refl

abbrev pub list_ring : RawRing (List ℕ)
list_ring = record {
  init_empty = λ _. [];
  ring_enqueue = λ _ x ks. (ks ++ (x ∷ []), true);
  ring_dequeue = λ _ ks. list_dequeue ks;
  items = indices;
  init_items = λ _. refl;
  enqueue_ok = λ _ _ _ _. refl;
  enqueue_items = list_enqueue_items;
  dequeue_empty = λ _. list_dequeue_empty;
  dequeue_empty_left = λ _. list_dequeue_left;
  dequeue_item = λ _. list_dequeue_item;
}
