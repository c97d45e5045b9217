-- ===== src/Unbounded/Segment.antt =====
-- What the proxy asks of a segment (include/queue/base/ILinkedSegment.hpp), each call being one
-- moment: a queue that, once it has refused an item, refuses every later one. `info` is the second
-- argument of `enqueue`, false by default. `prepare` is `prepareDequeueAfterNextLinked`, the identity for
-- a segment that does not have it. CasLoop/Linked fills the record with `LinkedCASLoop`. `LinkedFAAArray`,
-- `LinkedHQ` and `LinkedPRQ` reserve some pointers, so that they do not take every item; `LinkedSCQ` may
-- take items after it has refused one; `LinkedHQ` may lose one (Hq/Lost).
use mpmc_queues.Base.{ℕ, ◌≡◌, Bool, true, false, Option, none, some, List, [], ◌∷◌, ◌++◌}

pub record SegmentOps (S : Type 0) : Type 1 where
  pub fresh : S
  pub put : (info : Bool) → ℕ → S → S × Bool
  pub get : S → S × Option ℕ
  pub prepare : S → S
  pub items : S → List ℕ
  pub IsClosed : S → Type 0
  pub fresh_empty : items fresh ≡ []
  pub fresh_takes : (info : Bool) (x : ℕ) → (put info x fresh).1 ≡ true
  pub put_items :
      (info : Bool) (x : ℕ) (s : S)
      → (put info x s).1 ≡ true
      → items (put info x s).0 ≡ items s ++ (x ∷ [])
  pub put_refused :
      (info : Bool) (x : ℕ) (s : S) → (put info x s).1 ≡ false → items (put info x s).0 ≡ items s
  pub refused_closed :
      (info : Bool) (x : ℕ) (s : S) → (put info x s).1 ≡ false → IsClosed (put info x s).0
  pub closed_refuses : (info : Bool) (x : ℕ) (s : S) → IsClosed s → (put info x s).1 ≡ false
  pub get_some : (s : S) (x : ℕ) → (get s).1 ≡ some x → items s ≡ x ∷ items (get s).0
  pub get_none : (s : S) → (get s).1 ≡ none → items s ≡ []
  pub get_none_left : (s : S) → (get s).1 ≡ none → items (get s).0 ≡ []
  pub get_closed : (s : S) → IsClosed s → IsClosed (get s).0
  pub prepare_items : (s : S) → items (prepare s) ≡ items s
  pub prepare_closed : (s : S) → IsClosed s → IsClosed (prepare s)
