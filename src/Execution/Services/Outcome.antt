-- ===== src/Execution/Services/Outcome.antt =====
-- What `submit_order_batch` of `src/alpaca_connectors/execution/services.py` returns: the orders of
-- the legs it was given.
use alpaca_connectors.Prelude.{◌<◌, ◌≡◌, refl, ◌∙◌, ap, String, Option, List, arith}
use alpaca_connectors.Execution.Orders.Types.{OrderRecord, OrderBatchSubmission}
use alpaca_connectors.Execution.Broker.Identity.{record_ids}
use alpaca_connectors.Execution.Batch.{Checked}
use alpaca_connectors.Execution.Batch.Calls.{AllowsReads, check_batch-Within}
use alpaca_connectors.Execution.Batch.Records.{leg_ids, ChecksLegs, check_batch-Checked}
use alpaca_connectors.Execution.Persist.{Saving, OrderBatchResult, persist, close_batch}
use alpaca_connectors.Execution.Persist.Calls.{AllowsWrites, persist-Within}
use alpaca_connectors.Execution.Services.{complete_submission, submit_order_batch}
use alpaca_connectors.Execution.Services.Calls.{
  load_account_registration-Within, refuse_failed-Within,
}
use alpaca_connectors.Execution.Services.Safety.{Anything}
use alpaca_connectors.Execution.Services.Complete.{NotLost, AndNotLost, ended, place_batch_complete}
use alpaca_connectors.Execution.Effects.{
  Call, Result, ok, raise, Batch, Registration, Warning, ExecutionDependencies, Action,
}
use alpaca_connectors.Execution.Effects.Spec.{
  Spec, Spec-bind, Spec-pure, Spec-weaken, Anyhow, Spec-any,
}
use alpaca_connectors.Execution.Effects.Within.{Within, Ends, within_rules}

-- What holds of a value that is returned.
abbrev WhenOk : {A : Type 0} → (A → Type 0) → Result A → List Call → Type 0
WhenOk Q (ok a) _ = Q a
WhenOk Q (raise _) _ = Unit

with_end :
    {A : Type 0} (Q : A → Type 0) (r : Result A) (cs : List Call)
    → WhenOk Q r cs
    → Ends NotLost r
    → AndNotLost Q r cs
with_end Q (ok a) cs h k = h
with_end Q (raise e) cs h k = k

both :
    {S A : Type 0} (Q : A → Type 0) (m : Action S A)
    → Spec (WhenOk Q) m
    → Within Anything NotLost m
    → Spec (AndNotLost Q) m
both Q m h k = record { at = λ s. with_end Q (m s).0 (m s).1 (h.at s) (k.ends s) }

when_checked :
    (submission : OrderBatchSubmission) (r : Result Checked) (cs : List Call)
    → ChecksLegs submission.legs r
    → WhenOk (λ c. record_ids c.0 ≡ leg_ids submission.legs) r cs
when_checked submission (ok checked) cs h = h.0
when_checked submission (raise e) cs h = tt

with_ids :
    (ids names : List String) (r : Result OrderBatchResult) (cs ds : List Call)
    → ids ≡ names
    → AndNotLost (λ result. record_ids result.orders ≡ ids) r cs
    → AndNotLost (λ result. record_ids result.orders ≡ names) r ds
with_ids ids names (ok result) cs ds e h = h ∙ e
with_ids ids names (raise f) cs ds e h = h

module _ (deps : ExecutionDependencies) (ticks : 0 < deps.poll_interval) where
  reads : AllowsReads NotLost
  reads = ground arith

  writes : AllowsWrites Anything NotLost
  writes = ground arith

  persist-orders :
      (s : Saving) (found : Option Batch)
      → Spec (WhenOk (λ result. result.orders ≡ s.records)) (persist deps s found)
  unfolding persist close_batch
  persist-orders s found =
      Spec-bind Anyhow _ _ Spec-any
        (λ batch cs h.
          Spec-bind Anyhow _ _ Spec-any
            (λ _ ds k.
              Spec-bind Anyhow _ _ Spec-any
                (λ published es l.
                  Spec-bind Anyhow _ _ Spec-any (λ _ fs m. Spec-pure _ refl) (λ e fs m. tt))
                (λ e es l. tt))
            (λ e ds k. tt))
        (λ e cs h. tt)

  persist_complete :
      (s : Saving) (found : Option Batch)
      → Spec
          (AndNotLost (λ result. record_ids result.orders ≡ record_ids s.records))
          (persist deps s found)
  persist_complete s found =
      both _ _ (Spec-weaken _ (persist-orders s found) λ r cs h. with_records s r cs h)
        (persist-Within deps writes s found)
    where
      with_records :
          (s : Saving) (r : Result OrderBatchResult) (cs : List Call)
          → WhenOk (λ result. result.orders ≡ s.records) r cs
          → WhenOk (λ result. record_ids result.orders ≡ record_ids s.records) r cs
      with_records s (ok result) cs h = ap record_ids h
      with_records s (raise e) cs h = tt

  complete_submission_complete :
      (registration : Registration) (submission : OrderBatchSubmission) (batch : Option Batch)
      (records : List OrderRecord) (warnings : List Warning)
      → Spec
          (AndNotLost (λ result. record_ids result.orders ≡ record_ids records))
          (complete_submission deps registration submission batch records warnings)
  unfolding complete_submission
  complete_submission_complete registration submission batch records warnings =
      Spec-bind (AndNotLost Anything) _ _ (ended _ (search within_rules))
        (λ now cs h.
          Spec-bind _ _ _ (place_batch_complete deps ticks now records)
            (λ final ds k.
              Spec-weaken _ (persist_complete _ batch) (λ r es l. with_ids _ _ r es _ k l))
            (λ e ds k. k))
        (λ e cs h. h)

  submission_complete :
      (account_uid : String) (submission : OrderBatchSubmission)
      → Spec
          (AndNotLost (λ result. record_ids result.orders ≡ leg_ids submission.legs))
          (submit_order_batch deps account_uid submission)
  unfolding submit_order_batch
  submission_complete account_uid submission =
      Spec-bind (AndNotLost Anything) _ _
        (ended _ (load_account_registration-Within deps tt tt account_uid))
        (λ registration cs h.
          Spec-bind (AndNotLost Anything) _ _ (ended _ (search within_rules depth 8))
            (λ batch ds k.
              Spec-bind (AndNotLost Anything) _ _
                (ended _ (refuse_failed-Within deps (λ c l. tt) _))
                (λ _ es l.
                  Spec-bind _ _ _
                    (both _ _
                      (Spec-weaken _ (check_batch-Checked deps registration submission)
                        (when_checked submission))
                      (check_batch-Within deps reads registration submission))
                    (λ checked fs m.
                      Spec-bind (AndNotLost Anything) _ _
                        (ended _ (refuse_failed-Within deps (λ c l. tt) _))
                        (λ _ gs n.
                          Spec-weaken _
                            (complete_submission_complete registration submission batch checked.0
                              checked.2)
                            (λ r hs o. with_ids _ _ r hs _ m o))
                        (λ e gs n. n))
                    (λ e fs m. m))
                (λ e es l. l))
            (λ e ds k. k))
        (λ e cs h. h)

-- A submission that ends without an exception returns one order for each leg, in the order of the
-- legs and under their client_order_ids. One that ends with an exception does not end with a
-- missing key of `placed`, and its wait for the sells stops by itself: for a poll interval that is
-- positive.
pub submit_order_batch_complete :
    (deps : ExecutionDependencies)
    → 0 < deps.poll_interval
    → (account_uid : String) (submission : OrderBatchSubmission) (s : deps.State)
    → let (result, calls, _) = submit_order_batch deps account_uid submission s in
      AndNotLost (λ r. record_ids r.orders ≡ leg_ids submission.legs) result calls
submit_order_batch_complete deps ticks account_uid submission s =
    (submission_complete deps ticks account_uid submission).at s
