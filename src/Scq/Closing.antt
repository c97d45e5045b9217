-- ===== src/Scq/Closing.antt =====
-- The closed flag of `LinkedSCQ`: `close` and `isClosed` use the ring of free indices, from which an
-- enqueue only dequeues.
use mpmc_queues.Base.{
  ℕ, zero, suc, ◌<◌, ◌≡◌, ◌≢◌, refl, sym, ap, ◌∙◌, Bool, true, false, [], ◌∷◌, ◌++◌, count, ne→==,
  update, update_self,
}
use mpmc_queues.Ring.Raw.{HasPlace, lfring_empty}
use mpmc_queues.Scq.Raw.{Rings}
use mpmc_queues.Scq.{Shared, Pc, enqueue, close, call, step, is_closed, enqueued}
use mpmc_queues.Scq.System.{read_all, contents}
use mpmc_queues.Scq.Steps.{read_all-append, read_all-update}
use mpmc_queues.Scq.Refine.{first_counted}

module _ {R : Type 0} (rings : Rings R) (order : ℕ) where
  open rings use {
    lfring_enqueue, lfring_dequeue, lfring_close, lfring_is_closed, items, enqueue_ok, enqueue_open,
    dequeue_empty, dequeue_index, close_items, close_closed,
  }

  -- `n` accesses of one thread.
  abbrev pub solo : (auto_close : Bool) → ℕ → Shared R × Pc → Shared R × Pc
  solo auto_close zero r = r
  solo auto_close (suc n) r = solo auto_close n (step rings order auto_close r.0 r.1)

  module _ (m : Shared R) where
    abbrev pub after_close : (auto_close : Bool) → Shared R
    after_close auto_close = (solo auto_close 1 (m, call close)).0

    -- When the ring of filled indices is open and a free index is left, each free one with a place in that
    -- ring: `isClosed` holds when `close` has returned, and an enqueue without `info` that is then called is
    -- accepted and appends its item.
    pub close_accepts :
        (auto_close : Bool) (x : ℕ)
        → lfring_is_closed m.aq ≡ false
        → items m.fq ≢ []
        → ((e : ℕ) → 0 < count e (items m.fq) → HasPlace order e (items m.aq))
        → let r = solo auto_close 3 (after_close auto_close, call (enqueue false x)) in
          (is_closed rings order (after_close auto_close) ≡ true)
          × (r.1 ≡ enqueued true)
          × (contents rings order r.0 ≡ contents rings order m ++ (x ∷ []))
    unfolding step call is_closed
    close_accepts auto_close x open_ring some_free room =
        let r = lfring_dequeue order (lfring_close m.fq) in
        let ne : r.1 ≢ lfring_empty =
          λ z. some_free (sym (close_items m.fq) ∙ (dequeue_empty order _ z).0) in
        let first = sym (close_items m.fq) ∙ dequeue_index order (lfring_close m.fq) ne in
        let place = room r.1 (first_counted _ _ r.1 first) in
        let (took, _) = enqueue_open order r.1 m.aq open_ring place in
        rw (ne→== r.1 lfring_empty ne, took)
          (
            close_closed m.fq,
            refl,
            ap (read_all (update m.underlying r.1 x)) (enqueue_ok order r.1 m.aq place took)
                ∙ read_all-append (update m.underlying r.1 x) (items m.aq) r.1
                ∙ rw
                    (
                      read_all-update m.underlying (items m.aq) r.1 x place.absent,
                      update_self m.underlying r.1 x,
                    )
                    refl,
          )
