-- ===== src/Execution/Services/Submission.antt =====
-- `submit_order_batch` of `src/alpaca_connectors/execution/services.py` never doubles a trade.
use alpaca_connectors.Prelude.{◌≤◌, ◌<◌, ◌≡◌, refl, String, Option, List, [], ◌∷◌, ◌++◌, arith, ap}
use alpaca_connectors.Execution.Orders.Types.{OrderRecord, OrderBatchSubmission}
use alpaca_connectors.Execution.Broker.Identity.{record_ids}
use alpaca_connectors.Execution.Batch.{Checked, check_batch}
use alpaca_connectors.Execution.Batch.Calls.{check_batch-Within}
use alpaca_connectors.Execution.Batch.Records.{occurrences, ChecksLegs, check_batch-Checked}
use alpaca_connectors.Execution.Persist.Calls.{persist-Within}
use alpaca_connectors.Execution.Services.{refuse_failed, complete_submission, submit_order_batch}
use alpaca_connectors.Execution.Services.Calls.{
  load_account_registration-Within, refuse_failed-Within,
}
use alpaca_connectors.Execution.Services.Safety.{PlacesNone, Anything, any_reads}
use alpaca_connectors.Execution.Services.Once.{
  placed_count, absent_count, id_count, placed_count-append, absent_count-append, PlacesZero,
  places_zero,
}
use alpaca_connectors.Execution.Services.Place.{place_batch-count}
use alpaca_connectors.Execution.Effects.{
  Call, Result, ok, ExecutionDependencies, ◌>>=◌, Action, Registration, Batch, Warning, pure,
}
use alpaca_connectors.Execution.Effects.Spec.{Spec, Spec-bind, Spec-weaken}
use alpaca_connectors.Execution.Effects.Within.{within_rules}

id_count-occurrences :
    (id : String) (rs : List OrderRecord) → id_count id rs ≡ occurrences id (record_ids rs)
id_count-occurrences id [] = refl
id_count-occurrences id (r ∷ rs) = omega (arith, id_count-occurrences id rs)

module _ (deps : ExecutionDependencies) (ticks : 0 < deps.poll_interval) (id : String) where
  -- An order is placed under the identifier once at most, and only after Alpaca, asked for it in
  -- the same run, brought none.
  abbrev PlacedOnce : {A : Type 0} → Result A → List Call → Type 0
  PlacedOnce _ cs = (placed_count id cs ≤ 1) × (placed_count id cs ≤ absent_count id cs)

  complete_submission-PlacedOnce :
      (registration : Registration) (submission : OrderBatchSubmission) (batch : Option Batch)
      (records : List OrderRecord) (warnings : List Warning)
      → id_count id records ≤ 1
      → Spec PlacedOnce (complete_submission deps registration submission batch records warnings)
  unfolding complete_submission
  complete_submission-PlacedOnce registration submission batch records warnings once =
      Spec-bind (PlacesZero id) _ _ (places_zero id (search within_rules))
        (λ now cs h.
          Spec-bind _ _ _ (place_batch-count deps id ticks now records)
            (λ final ds k.
              Spec-weaken _
                (places_zero id
                  (persist-Within deps {P = PlacesNone} {E = Anything} (ground arith) _ batch))
                (λ r es l. omega (
                  arith,
                  placed_count-append id cs (ds ++ es),
                  placed_count-append id ds es,
                  absent_count-append id cs (ds ++ es),
                  absent_count-append id ds es,
                )))
            (λ e ds k. omega (arith, placed_count-append id cs ds, absent_count-append id cs ds)))
        (λ e cs h. omega arith)

  -- What a part of the submission adds where the calls before it placed nothing.
  after_none :
      {A : Type 0} (cs : List Call) (m : Action deps.State A)
      → placed_count id cs ≡ 0
      → Spec PlacedOnce m
      → Spec (λ (r : Result A) ds. PlacedOnce r (cs ++ ds)) m
  after_none cs m h k =
      Spec-weaken m k
        (λ r ds l. omega (arith, placed_count-append id cs ds, absent_count-append id cs ds))

  refuse_then-PlacedOnce :
      (registration : Registration) (submission : OrderBatchSubmission) (batch : Option Batch)
      (checked : Checked)
      → ChecksLegs submission.legs (ok checked)
      → Spec PlacedOnce (
          refuse_failed deps checked.1 >>= λ _.
          complete_submission deps registration submission batch checked.0 checked.2)
  unfolding refuse_failed pure ◌>>=◌
  refuse_then-PlacedOnce registration submission batch (records, [], warnings) h = record {
    at = λ s.
        (complete_submission-PlacedOnce registration submission batch records warnings (
            omega
              (arith, id_count-occurrences id records, h.1 id refl, ap (occurrences id) h.0))).at
          s;
  }
  refuse_then-PlacedOnce registration submission batch (records, c ∷ cs, warnings) h = record {
    at = λ s. omega arith;
  }

  submit_order_batch-PlacedOnce :
      (account_uid : String) (submission : OrderBatchSubmission)
      → Spec PlacedOnce (submit_order_batch deps account_uid submission)
  unfolding submit_order_batch
  submit_order_batch-PlacedOnce account_uid submission =
      Spec-bind (PlacesZero id) _ _
        (places_zero id (load_account_registration-Within deps tt tt account_uid))
        (λ registration cs h. after_none cs _ h (
          Spec-bind (PlacesZero id) _ _ (places_zero id (search within_rules depth 8))
            (λ batch ds k. after_none ds _ k (
              Spec-bind (PlacesZero id) _ _
                (places_zero id (refuse_failed-Within deps (λ c l. tt) _))
                (λ _ es l. after_none es _ l (
                  Spec-bind _ _ _ (check_batch-once registration submission)
                    (λ checked fs m.
                      after_none fs _ m.0
                        (refuse_then-PlacedOnce registration submission batch checked m.1))
                    (λ e fs m. omega arith)))
                (λ e es l. omega arith)))
            (λ e ds k. omega arith)))
        (λ e cs h. omega arith)
    where
      check_batch-once :
          (registration : Registration) (submission : OrderBatchSubmission)
          → Spec
              (λ r cs. (placed_count id cs ≡ 0) × ChecksLegs submission.legs r)
              (check_batch deps registration submission)
      check_batch-once registration submission = record {
        at = λ s. (
          (places_zero id
                (check_batch-Within deps (any_reads (λ e h. tt)) registration submission)).at
              s,
          (check_batch-Checked deps registration submission).at s,
        );
      }

-- Under any client_order_id a submission places one order at most, and none unless Alpaca, asked for
-- that identifier in the same run, brought no order; however the run ends, for a poll interval that
-- is positive.
pub submit_order_batch_once :
    (deps : ExecutionDependencies)
    → 0 < deps.poll_interval
    → (id account_uid : String) (submission : OrderBatchSubmission) (s : deps.State)
    → let calls = (submit_order_batch deps account_uid submission s).1 in
      (placed_count id calls ≤ 1) × (placed_count id calls ≤ absent_count id calls)
submit_order_batch_once deps ticks id account_uid submission s =
    (submit_order_batch-PlacedOnce deps ticks id account_uid submission).at s
