-- ===== src/Execution/Services/Refusal.antt =====
-- When `submit_order_batch` of `src/alpaca_connectors/execution/services.py` refuses a batch.
use alpaca_connectors.Prelude.{
  ◌<◌, ◌≡◌, refl, String, Bool, true, false, not, Option, List, [], ◌∷◌, if◌then◌else◌, arith,
}
use alpaca_connectors.Execution.Orders.Types.{
  OrderRecord, OrderBatchSubmission, PreTradeCheck, batch_id_in_use,
}
use alpaca_connectors.Execution.Batch.{check_batch}
use alpaca_connectors.Execution.Batch.Calls.{check_batch-Within}
use alpaca_connectors.Execution.Checks.{of_batch}
use alpaca_connectors.Execution.Persist.Calls.{persist-Within}
use alpaca_connectors.Execution.Services.{
  preflight_order_batch, submit_order_batch, refuse_failed, complete_submission, allowed,
  OrderBatchPreflight, preflight_of, is_foreign,
}
use alpaca_connectors.Execution.Services.Calls.{
  load_account_registration-Within, place_batch-Within,
}
use alpaca_connectors.Execution.Services.Safety.{Anything, Nothing, NotRefusal, silent, any_reads}
use alpaca_connectors.Execution.Effects.{
  Call, Result, ok, raise, Action, Batch, Registration, Warning, pre_trade_check_error,
  ExecutionDependencies, ◌>>=◌, ◌>>◌, continue, pure, throw, try_ask,
}
use alpaca_connectors.Execution.Effects.Within.{Within, Ends, within_rules}

-- Did the run end with `PreTradeCheckError`?
abbrev pub is_refusal : {A : Type 0} → Result A → Bool
is_refusal (ok _) = false
is_refusal (raise (pre_trade_check_error _ _)) = true
is_refusal (raise _) = false

not_refusal : {A : Type 0} (r : Result A) → Ends NotRefusal r → is_refusal r ≡ false
not_refusal (ok _) h = refl
not_refusal (raise (pre_trade_check_error _ _)) h = absurd h
not_refusal (raise _) h = refl

-- An operation that has made no call when it ends with a refusal.
record RefusesSilently {S A : Type 0} (m : Action S A) : Type 0 where
  at : (s : S) → is_refusal (m s).0 ≡ true → (m s).1 ≡ []

RefusesSilently-last :
    {S A : Type 0} (m : Action S A) → Within Anything NotRefusal m → RefusesSilently m
RefusesSilently-last m h = record { at = λ s e. cc (not_refusal (m s).0 (h.ends s)) }

RefusesSilently-refuse :
    (deps : ExecutionDependencies) (checks : List PreTradeCheck)
    → RefusesSilently (refuse_failed deps checks)
unfolding refuse_failed pure throw
RefusesSilently-refuse deps [] = record { at = λ s e. refl }
RefusesSilently-refuse deps (_ ∷ _) = record { at = λ s e. refl }

module _ {S A B : Type 0} where
  continue_silently :
      (r : Result A) (cs : List Call) (s : S) (f : A → Action S B)
      → cs ≡ []
      → ((a : A) → RefusesSilently (f a))
      → is_refusal (continue r cs s f).0 ≡ true
      → (continue r cs s f).1 ≡ []
  continue_silently (ok a) cs s f empty k e = rw empty ((k a).at s e)
  continue_silently (raise x) cs s f empty k e = empty

  RefusesSilently-bind :
      (m : Action S A) (f : A → Action S B)
      → ((s : S) → (m s).1 ≡ [])
      → ((a : A) → RefusesSilently (f a))
      → RefusesSilently (m >>= f)
  unfolding ◌>>=◌
  RefusesSilently-bind m f h k = record {
    at = λ s. continue_silently (m s).0 (m s).1 (m s).2 f (h s) k;
  }

quiet : {S A : Type 0} (m : Action S A) → Within Nothing Anything m → (s : S) → (m s).1 ≡ []
quiet m h s = silent _ (h.calls s)

try_ask_quiet : {S A : Type 0} (f : S → Option A × S) → Within Nothing Anything (try_ask f)
try_ask_quiet f = search within_rules depth 8

module _ (deps : ExecutionDependencies) (ticks : 0 < deps.poll_interval) where
  complete_submission-NotRefusal :
      (registration : Registration) (submission : OrderBatchSubmission) (batch : Option Batch)
      (records : List OrderRecord) (warnings : List Warning)
      → Within Anything NotRefusal
          (complete_submission deps registration submission batch records warnings)
  unfolding complete_submission
  complete_submission-NotRefusal registration submission batch records warnings = search (
    within_rules,
    place_batch-Within deps {P = Anything} {E = NotRefusal} (ground arith) tt tt ticks (λ q. tt),
    persist-Within deps {P = Anything} {E = NotRefusal} (ground arith),
  )

  refuse_failed_quiet :
      (checks : List PreTradeCheck) → Within Nothing Anything (refuse_failed deps checks)
  unfolding refuse_failed
  refuse_failed_quiet [] = search within_rules
  refuse_failed_quiet (c ∷ cs) = search within_rules

  -- If the submission is refused by the pre-trade checks, it has placed no order, cancelled none and
  -- written nothing; the poll interval is positive.
  pub submit_order_batch_refused :
      (account_uid : String) (submission : OrderBatchSubmission) (s : deps.State)
      → is_refusal (submit_order_batch deps account_uid submission s).0 ≡ true
      → (submit_order_batch deps account_uid submission s).1 ≡ []
  unfolding submit_order_batch
  submit_order_batch_refused account_uid submission s = refuses.at s
    where
      refuses : RefusesSilently (submit_order_batch deps account_uid submission)
      refuses =
          RefusesSilently-bind _ _
            (quiet _ (load_account_registration-Within deps tt tt account_uid))
            λ registration.
              RefusesSilently-bind _ _
                (quiet _ (try_ask_quiet (deps.get_batch submission.batch_id)))
                λ batch. RefusesSilently-bind _ _ (quiet _ (refuse_failed_quiet _)) λ _.
                  RefusesSilently-bind _ _
                    (quiet _
                      (check_batch-Within deps (any_reads (λ e h. tt)) registration submission))
                    λ checked.
                      RefusesSilently-bind _ _ (quiet _ (refuse_failed_quiet _))
                        λ _. RefusesSilently-last _ (complete_submission-NotRefusal _ _ _ _ _)

-- A normal end of the one run tells whether the other is refused.
record Foretells {S : Type 0} {A : Type 0} (m : Action S OrderBatchPreflight) (n : Action S A)
    : Type 0 where
  at : (s : S) (p : OrderBatchPreflight) → (m s).0 ≡ ok p → is_refusal (n s).0 ≡ not (allowed p)

module _ {S A B : Type 0} where
  continue-Foretells :
      (r : Result A) (cs : List Call) (s : S) (f : A → Action S OrderBatchPreflight)
      (g : A → Action S B)
      → ((a : A) → Foretells (f a) (g a))
      → (p : OrderBatchPreflight) → (continue r cs s f).0 ≡ ok p
      → is_refusal (continue r cs s g).0 ≡ not (allowed p)
  continue-Foretells (ok a) cs s f g k p e = (k a).at s p e
  continue-Foretells (raise x) cs s f g k p e = cc

  Foretells-bind :
      (m : Action S A) (f : A → Action S OrderBatchPreflight) (g : A → Action S B)
      → ((a : A) → Foretells (f a) (g a))
      → Foretells (m >>= f) (m >>= g)
  unfolding ◌>>=◌
  Foretells-bind m f g k = record { at = λ s. continue-Foretells (m s).0 (m s).1 (m s).2 f g k }

module _ {S A : Type 0} where
  continue-ends :
      (r : Result A) (cs : List Call) (s : S) (f : A → OrderBatchPreflight)
      (p : OrderBatchPreflight)
      → ((a : A) → allowed (f a) ≡ false)
      → (continue r cs s (λ a. pure (f a))).0 ≡ ok p
      → allowed p ≡ false
  unfolding pure
  continue-ends (ok a) cs s f p k e = ground (arith, k a)
  continue-ends (raise x) cs s f p k e = cc

module _ (deps : ExecutionDependencies) (ticks : 0 < deps.poll_interval) where
  checked-Foretells :
      (registration : Registration) (submission : OrderBatchSubmission) (batch : Option Batch)
      (records : List OrderRecord) (checks : List PreTradeCheck) (warnings : List Warning)
      → Foretells (pure (preflight_of registration submission false records checks warnings)) (
          refuse_failed deps checks
          >> complete_submission deps registration submission batch records warnings)
  unfolding refuse_failed ◌>>=◌
  checked-Foretells registration submission batch records [] warnings = record {
    at = λ s p e. ground (
      arith,
      not_refusal _ (
          (complete_submission-NotRefusal deps ticks registration submission batch records
              warnings).ends
            s),
    );
  }
  checked-Foretells registration submission batch records (_ ∷ _) warnings = record {
    at = λ s p e. ground arith;
  }

  foreign-Foretells :
      (registration : Registration) (submission : OrderBatchSubmission) (batch : Option Batch)
      (foreign : Bool)
      → Foretells
          (check_batch deps registration submission >>= λ (records, checks, warnings).
            pure (preflight_of registration submission foreign records checks warnings))
          (refuse_failed deps (if foreign then of_batch batch_id_in_use ∷ [] else [])
            >> (check_batch deps registration submission >>= λ (records, checks, warnings).
                refuse_failed deps checks
                >> complete_submission deps registration submission batch records warnings))
  unfolding refuse_failed ◌>>=◌
  foreign-Foretells registration submission batch true = record {
    at = λ s p e. ground (
      arith,
      continue-ends (check_batch deps registration submission s).0
          (check_batch deps registration submission s).1
          (check_batch deps registration submission s).2
          (λ c. preflight_of registration submission true c.0 c.1 c.2) p (λ c. refl) e,
    );
  }
  foreign-Foretells registration submission batch false = record {
    at = λ s p e.
        (Foretells-bind (check_batch deps registration submission) _ _
            (λ c. checked-Foretells registration submission batch c.0 c.1 c.2)).at
          s p e;
  }

  -- A preflight that ends normally foretells the submission: from the same state, the submission is
  -- refused by the pre-trade checks exactly if the preflight does not allow the batch; the poll
  -- interval is positive.
  pub submit_order_batch-preflight_order_batch :
      (account_uid : String) (submission : OrderBatchSubmission) (s : deps.State)
      {p : OrderBatchPreflight}
      → (preflight_order_batch deps account_uid submission s).0 ≡ ok p
      → is_refusal (submit_order_batch deps account_uid submission s).0 ≡ not (allowed p)
  unfolding preflight_order_batch submit_order_batch
  submit_order_batch-preflight_order_batch account_uid submission s {p} h = foretells.at s p h
    where
      foretells :
          Foretells
            (preflight_order_batch deps account_uid submission)
            (submit_order_batch deps account_uid submission)
      foretells = Foretells-bind _ _ _ λ registration.
          Foretells-bind _ _ _
            λ batch. foreign-Foretells registration submission batch (is_foreign account_uid batch)
