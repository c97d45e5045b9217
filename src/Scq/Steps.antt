-- ===== src/Scq/Steps.antt =====
-- Every access of `SCQueue` keeps the invariant and is a move of the abstract queue.
use mpmc_queues.Base.{
  ℕ, ◌^◌, ◌<◌, ◌≡◌, ◌≢◌, refl, sym, ap, ◌∙◌, arith, none, some, List, [], ◌∷◌, ◌++◌, count, tally,
  update, update_self, ℕ_discrete, eq→==, ne→==,
}
use mpmc_queues.Scq.Raw.{Rings}
use mpmc_queues.Scq.{Pc, enq_write, enq_put, deq_read, dequeued}
use mpmc_queues.Scq.System.{
  System, Place, held, lost, Move, stay, putting, status, contents, read_all, view,
}
use mpmc_queues.Scq.Inv.{
  Inv, Holds, Knows, in_free, in_filled, Counted, Inv-same, Inv-place, apart_from,
}

pub read_all-append :
    (d : ℕ → ℕ) (l : List ℕ) (e : ℕ) → read_all d (l ++ (e ∷ [])) ≡ read_all d l ++ (d e ∷ [])
read_all-append d [] e = refl
read_all-append d (x ∷ l) e = ap (λ (q : List ℕ). d x ∷ q) (read_all-append d l e)

-- A write to a slot whose index is not in the list.
pub read_all-update :
    (d : ℕ → ℕ) (l : List ℕ) (e v : ℕ) → count e l ≡ 0 → read_all (update d e v) l ≡ read_all d l
read_all-update d [] e v z = refl
read_all-update d (x ∷ l) e v z = elim (ℕ_discrete e x) [
  | yes f ↦ let one : tally e x ≡ 1 = rw (eq→== e x f) refl in absurd (omega arith)
  | no n ↦ rw (ne→== e x n) (ap (λ (q : List ℕ). d x ∷ q) (read_all-update d l e v (omega arith)))
]

Knows-update :
    (d : ℕ → ℕ) (e v : ℕ) (q : Pc)
    → ((u : ℕ) → Holds q u → e ≢ u)
    → Knows d q
    → Knows (update d e v) q
Knows-update d e v (enq_put x u) ne k = rw (ne→== e u (ne u refl)) k
Knows-update d e v _ ne k = tt

status-update :
    (d : ℕ → ℕ) (e v : ℕ) (q : Pc)
    → ((u : ℕ) → Holds q u → e ≢ u)
    → status (update d e v) q ≡ status d q
status-update d e v (deq_read u) ne = rw (ne→== e u (ne u refl)) refl
status-update d e v (dequeued (some x)) ne = refl
status-update d e v (dequeued none) ne = refl
status-update d e v _ ne = refl

module _ {R : Type 0} (rings : Rings R) (order : ℕ) where
  open rings use {
    lfring_enqueue, lfring_dequeue, lfring_close, lfring_is_closed, items, enqueue_ok,
    enqueue_refused, dequeue_empty, dequeue_index, close_items,
  }

  -- What an access of thread `i` does.
  pub record Did (s s' : System R) (i : ℕ) : Type 0 where
    pub inv : Inv rings order s'
    pub move :
        Move
          (contents rings order s.mem)
          (view rings order s i)
          (contents rings order s'.mem)
          (view rings order s' i)
    pub others : (j : ℕ) → i ≢ j → view rings order s' j ≡ view rings order s j

  module _ (s : System R) (inv : Inv rings order s) (i : ℕ) (p : Pc) (at : s.pc i ≡ p) where
    open inv use {frees, fills, named, mine, known, small}

    abbrev d : ℕ → ℕ
    d = s.mem.underlying

    abbrev q : List ℕ
    q = contents rings order s.mem

    -- The rings hold what they held.
    pub same :
        (aq' fq' : R) (p' : Pc)
        → items aq' ≡ items s.mem.aq
        → items fq' ≡ items s.mem.fq
        → ((e : ℕ) → Holds p' e → Holds p e)
        → Knows d p'
        → Move q (status d p) q (status d p')
        → Did s (record s { mem = record s.mem { aq = aq'; fq = fq' }; pc = update s.pc i p' }) i
    same aq' fq' p' a f back k mv = record {
      inv = Inv-same rings order s inv i aq' fq' p' a f (λ e h. rw at (back e h)) k;
      move = rw (at, eq→== i i refl, a) mv;
      others = λ j n. rw (ne→== i j n) refl;
    }

    pub looks :
        (p' : Pc)
        → ((e : ℕ) → Holds p' e → Holds p e)
        → Knows d p'
        → Move q (status d p) q (status d p')
        → Did s (record s { pc = update s.pc i p' }) i
    looks p' back k mv = same s.mem.aq s.mem.fq p' refl refl back k mv

    -- One index changes its place.
    pub places :
        (aq' fq' : R) (p' : Pc) (e : ℕ) (w : Place)
        → Counted in_free (update s.place e w) (items fq')
        → Counted in_filled (update s.place e w) (items aq')
        → (w ≢ lost → e < 2 ^ order)
        → ((j : ℕ) → i ≢ j → s.place e ≢ held j)
        → ((x : ℕ) → Holds p' x → (e ≡ x) × (w ≡ held i))
        → Knows d p'
        → Move q (status d p) (read_all d (items aq')) (status d p')
        → Did s
            (record s {
              mem = record s.mem { aq = aq'; fq = fq' };
              pc = update s.pc i p';
              place = update s.place e w;
            })
            i
    places aq' fq' p' e w f a range apart own k mv = record {
      inv =
          Inv-place rings order s inv i aq' fq' p' e w f a range
            (apart_from rings order s inv i e apart) own k;
      move = rw (at, eq→== i i refl) mv;
      others = λ j n. rw (ne→== i j n) refl;
    }

    -- The write to a slot that the thread has.
    pub writes :
        (x e : ℕ)
        → p ≡ enq_write x e
        → Did s
            (record s {
              mem = record s.mem { underlying = update s.mem.underlying e x };
              pc = update s.pc i (enq_put x e);
            })
            i
    writes x e here =
        let has : s.place e ≡ held i = mine i e (rw (at, here) refl) in
        let apart : (j u : ℕ) → i ≢ j → Holds (s.pc j) u → e ≢ u =
          apart_from rings order s inv i e
            (λ j n z. n (let g : held i ≡ held j = sym has ∙ z in cc)) in
        let out : count e (items s.mem.aq) ≡ 0 = fills e ∙ ap in_filled has in
        record {
          inv = record {
            frees = frees;
            fills = fills;
            named = named;
            mine = λ j u h. elim (ℕ_discrete i j) [
              | yes z ↦ let this : e ≡ u = rw (eq→== i j z) at h in rw (← this, ← z) has
              | no n ↦ mine j u (rw (ne→== i j n) at h)
            ];
            known = λ j. elim (ℕ_discrete i j) [
              | yes z ↦ rw (eq→== i j z) (update_self s.mem.underlying e x)
              | no n ↦
                  rw (ne→== i j n)
                    (Knows-update s.mem.underlying e x (s.pc j) (λ u h. apart j u n h) (known j))
            ];
            small = small;
          };
          move =
              rw
                (
                  at,
                  here,
                  eq→== i i refl,
                  read_all-update s.mem.underlying (items s.mem.aq) e x out,
                )
                (stay _ (putting x));
          others = λ j n.
              rw (ne→== i j n) (status-update s.mem.underlying e x (s.pc j) (λ u h. apart j u n h));
        }
