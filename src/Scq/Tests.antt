-- ===== src/Scq/Tests.antt =====
-- `SCQueue` over rings that are lists, on fixed schedules.
use mpmc_queues.Base.{
  ℕ, ◌+◌, ◌*◌, ◌^◌, ◌<◌, ◌≡◌, ◌≢◌, refl, arith, Bool, true, false, some, List, [], ◌∷◌, ◌++◌, count,
}
use mpmc_queues.Ring.Raw.{HasPlace}
use mpmc_queues.Scq.{
  Shared, Pc, enqueue, dequeue, call, step, construct, is_closed, enqueued, dequeued,
}
use mpmc_queues.Scq.System.{Event, run, invoke, next, run_all, begin, contents}
use mpmc_queues.Scq.Safety.{AllMoves, scq_refines}
use mpmc_queues.Scq.Closing.{solo, after_close, close_accepts}
use mpmc_queues.Scq.Listed.{Flagged, flagged}

abbrev raw : ℕ → ℕ
raw _ = 0

abbrev calls : Bool → List Event
calls info =
    invoke 0 (enqueue info 10)
    ∷ invoke 1 (enqueue info 11)
    ∷ run 0
    ∷ run 1
    ∷ run 1
    ∷ run 0
    ∷ run 1
    ∷ run 0
    ∷ run 0
    ∷ run 1
    ∷ []

calls-run_all :
    contents flagged 1 (run_all flagged 1 true (calls false) (begin flagged 1 raw)).mem
    ≡ 11 ∷ 10 ∷ []
unfolding run_all next begin construct step call
calls-run_all = refl

full_refuses :
    (run_all flagged 1 true
        (calls false ++ (invoke 2 (enqueue false 12) ∷ run 2 ∷ run 2 ∷ []))
        (begin flagged 1 raw)).pc
      2
    ≡ enqueued false
unfolding run_all next begin construct step call
full_refuses = refl

takes_oldest :
    (run_all flagged 1 true
        (calls false ++ (invoke 2 dequeue ∷ run 2 ∷ run 2 ∷ run 2 ∷ []))
        (begin flagged 1 raw)).pc
      2
    ≡ dequeued (some 11)
unfolding run_all next begin construct step call
takes_oldest = refl

scq_refines_example :
    (contents flagged 1 (begin flagged 1 raw).mem ≡ [])
    × AllMoves flagged 1 true (calls true) (begin flagged 1 raw)
scq_refines_example = scq_refines flagged 1 raw (omega arith) true (calls true)

opened : flagged.lfring_is_closed (construct flagged 0 raw).aq ≡ false
unfolding construct
opened = refl

one_free : flagged.items (construct flagged 0 raw).fq ≢ []
unfolding construct
one_free z = absurd cc

room :
    (e : ℕ)
    → 0 < count e (flagged.items (construct flagged 0 raw).fq)
    → HasPlace 0 e (flagged.items (construct flagged 0 raw).aq)
unfolding construct
room e pos = record {
  small = omega arith;
  in_range = ground arith;
  absent = refl;
  at_most_once = λ y. omega arith;
  all_in_range = λ y h. absurd (omega arith);
}

abbrev closed_then_put : Shared Flagged × Pc
closed_then_put =
    solo flagged 0 true 3
      (after_close flagged 0 (construct flagged 0 raw) true, call (enqueue false 7))

close_accepts_example :
    (is_closed flagged 0 (after_close flagged 0 (construct flagged 0 raw) true) ≡ true)
    × (closed_then_put.1 ≡ enqueued true)
    × (contents flagged 0 closed_then_put.0
        ≡ contents flagged 0 (construct flagged 0 raw) ++ (7 ∷ []))
close_accepts_example =
    close_accepts flagged 0 (construct flagged 0 raw) true 7 opened one_free room

abbrev words : ℕ → ℕ
words order = 8 * 2 ^ (order + 1) + 24
