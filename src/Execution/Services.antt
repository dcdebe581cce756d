-- ===== src/Execution/Services.antt =====
-- `src/alpaca_connectors/execution/services.py`: the public operations.
pub mod Calls
pub mod Safety
pub mod Refusal
pub mod Once
pub mod Place
pub mod Submission
pub mod Complete
pub mod Outcome
pub mod Listing
use alpaca_connectors.Prelude.{
  ℕ, ◌+◌, String, Bool, true, false, ◌||◌, not, Option, none, some, List, [], ◌∷◌, ◌++◌,
  if◌then◌else◌, get_or_else, is_empty, length, select, ◌==◌, Dict, lookup, insert,
}
use alpaca_connectors.Execution.Orders.Types.{
  Time, OrderRecord, OrderBatchSubmission, terminal, PreTradeCheck, AlpacaOrder, batch_id_in_use,
}
use alpaca_connectors.Execution.Orders.Status.{order_record_from_alpaca}
use alpaca_connectors.Execution.Broker.{
  find_alpaca_order, place_order, refresh, wait_for_terminal, refused, has_status_code,
  alpaca_error_message,
}
use alpaca_connectors.Execution.Checks.{of_batch, buys_of, sells_of}
use alpaca_connectors.Execution.Batch.{check_batch}
use alpaca_connectors.Execution.Persist.{
  Note, refused_at_submission, cancellation_requested, OrderBatchResult, same_uid,
  records_from_batch, require_batch, persist,
}
use alpaca_connectors.Execution.Effects.{
  Reply, answer, api_error, Warning, cancellation_refused, Batch, Registration,
  ExecutionDependencies, cancelled_order, lookup_error, key_error, pre_trade_check_error,
  credentials_rejected, Action, pure, throw, ask, tell, try_ask, or_raise, ◌>>=◌, ◌>>◌,
}

pub record OrderBatchPreflight : Type 0 where
  pub batch_id : String
  pub account_uid : String
  pub orders : List OrderRecord
  pub blockers : List PreTradeCheck
  pub warnings : List Warning

-- `OrderBatchPreflight.allowed`
abbrev pub allowed : OrderBatchPreflight → Bool
allowed p = elim (p.blockers) [ [] ↦ true | _ ∷ _ ↦ false ]

-- The batch exists and belongs to another account.
abbrev pub is_foreign : String → Option Batch → Bool
is_foreign account_uid none = false
is_foreign account_uid (some batch) = not (same_uid batch.target_account_uid account_uid)

-- The result of `preflight_order_batch`.
abbrev pub preflight_of :
    Registration
    → OrderBatchSubmission
    → Bool
    → List OrderRecord
    → List PreTradeCheck
    → List Warning
    → OrderBatchPreflight
preflight_of registration submission foreign records checks warnings = record {
  batch_id = submission.batch_id;
  account_uid = registration.account_uid;
  orders = records;
  blockers = if foreign then of_batch batch_id_in_use ∷ checks else checks;
  warnings = warnings;
}

-- The orders of a batch by client_order_id, as `placed` holds them.
abbrev pub Placed : Type 0
Placed = Dict OrderRecord

-- `placed[record.client_order_id] = record`
abbrev pub put : OrderRecord → Placed → Placed
put r placed = insert r.client_order_id r placed

unfoldable pub put_all : List OrderRecord → Placed → Placed
put_all [] placed = placed
put_all (r ∷ rs) placed = put_all rs (put r placed)

-- `_records_from_batch(batch) if batch is not None else []`
abbrev pub previous_records : Option Batch → List OrderRecord
previous_records none = []
previous_records (some batch) = records_from_batch batch

-- `message` of `submit_order_batch`
abbrev pub refusal_note : List OrderRecord → Option Note
refusal_note final = elim (select refused final) [
  | [] ↦ none
  | r ∷ rs ↦ some (refused_at_submission (length (r ∷ rs)) (length final))
]

-- One round of the first loop of `submit_order_batch`, ahead of the rounds that follow.
abbrev pub sort_order :
    OrderRecord
    → Option AlpacaOrder
    → List OrderRecord
    → List OrderRecord
    → List OrderRecord × List OrderRecord
sort_order r none held pending = (held, r ∷ pending)
sort_order r (some order) held pending = (order_record_from_alpaca r order ∷ held, pending)

module _ (deps : ExecutionDependencies) where
  open deps use {State}

  -- `load_account_registration`
  unfoldable pub load_account_registration : String → Action State Registration
  load_account_registration account_uid = do
    found ← try_ask (deps.get_account_registration account_uid)
    or_raise lookup_error found

  -- `preflight_order_batch`
  unfoldable pub preflight_order_batch :
      String → OrderBatchSubmission → Action State OrderBatchPreflight
  preflight_order_batch account_uid submission = do
    registration ← load_account_registration account_uid
    existing ← try_ask (deps.get_batch submission.batch_id)
    (records, checks, warnings) ← check_batch deps registration submission
    pure (
        preflight_of registration submission (is_foreign account_uid existing) records checks
          warnings)

  -- `if checks: raise PreTradeCheckError(checks)`
  unfoldable pub refuse_failed : List PreTradeCheck → Action State (Unit {0})
  refuse_failed [] = pure tt
  refuse_failed (check ∷ checks) = throw (pre_trade_check_error check checks)

  -- The first loop of `submit_order_batch`: the orders that Alpaca holds, and those still to place.
  unfoldable pub look_up_all : List OrderRecord → Action State (List OrderRecord × List OrderRecord)
  look_up_all [] = pure ([], [])
  look_up_all (r ∷ rs) = do
    existing ← find_alpaca_order deps r.client_order_id
    (held, pending) ← look_up_all rs
    pure (sort_order r existing held pending)

  -- The loops that place the sells and the buys.
  unfoldable pub place_all : Time → List OrderRecord → Action State (List OrderRecord)
  place_all now [] = pure []
  place_all now (r ∷ rs) = do r' ← place_order deps now r; rest ← place_all now rs; pure (r' ∷ rest)

  -- `[placed[record.client_order_id] for record in records]`
  unfoldable pub get_all : Placed → List OrderRecord → Action State (List OrderRecord)
  get_all placed [] = pure []
  get_all placed (r ∷ rs) = do
    found ← or_raise key_error (lookup r.client_order_id placed)
    rest ← get_all placed rs
    pure (found ∷ rest)

  -- `if sells and buys:` the buys wait for the sells to settle.
  unfoldable pub settle_sells : List OrderRecord → List OrderRecord → Placed → Action State Placed
  settle_sells [] buys placed = pure placed
  settle_sells (s ∷ sells) [] placed = pure placed
  settle_sells (s ∷ sells) (b ∷ buys) placed = do
    current ← get_all placed (s ∷ sells)
    settled ← wait_for_terminal deps current
    pure (put_all settled placed)

  -- `submit_order_batch` from the placing of the sells to `final`.
  unfoldable pub place_pending :
      Time
      → List OrderRecord
      → List OrderRecord × List OrderRecord
      → Action State (List OrderRecord)
  place_pending now records (held, pending) = do
    sold ← place_all now (sells_of pending)
    settled ← settle_sells (sells_of pending) (buys_of pending) (put_all sold (put_all held []))
    bought ← place_all now (buys_of pending)
    final ← get_all (put_all bought settled) records
    refresh deps final

  -- `submit_order_batch` from the first loop to `final`.
  unfoldable pub place_batch : Time → List OrderRecord → Action State (List OrderRecord)
  place_batch now records = look_up_all records >>= place_pending now records

  -- `submit_order_batch` once the checks have passed.
  unfoldable pub complete_submission :
      Registration
      → OrderBatchSubmission
      → Option Batch
      → List OrderRecord
      → List Warning
      → Action State OrderBatchResult
  complete_submission registration submission batch records warnings = do
    now ← ask deps.now
    final ← place_batch now records
    persist deps
        (record {
          registration = registration;
          batch_id = submission.batch_id;
          previous = previous_records batch;
          records = final;
          time = now;
          warnings = warnings;
          message = refusal_note final;
        })
        batch

  -- `submit_order_batch`
  unfoldable pub submit_order_batch : String → OrderBatchSubmission → Action State OrderBatchResult
  submit_order_batch account_uid submission = do
    registration ← load_account_registration account_uid
    batch ← try_ask (deps.get_batch submission.batch_id)
    refuse_failed (if is_foreign account_uid batch then of_batch batch_id_in_use ∷ [] else [])
    (records, checks, warnings) ← check_batch deps registration submission
    refuse_failed checks
    complete_submission registration submission batch records warnings

  -- `sync_order_batch`
  unfoldable pub sync_order_batch : String → String → Action State OrderBatchResult
  sync_order_batch account_uid batch_id = do
    registration ← load_account_registration account_uid
    batch ← require_batch deps account_uid batch_id
    records ← refresh deps (records_from_batch batch)
    now ← ask deps.now
    persist deps
        (record {
          registration = registration;
          batch_id = batch_id;
          previous = records_from_batch batch;
          records = records;
          time = now;
          warnings = [];
          message = none;
        })
        (some batch)

  -- The `try` of the loop in `cancel_order_batch`: was the request taken, and what was warned of.
  unfoldable pub read_cancellation :
      OrderRecord → Reply (Unit {0}) → Action State (ℕ × List Warning)
  read_cancellation r (answer _) = pure (1, [])
  read_cancellation r (api_error e) =
      if has_status_code e 401
      then throw credentials_rejected
      else pure (
        0,
        cancellation_refused r.client_order_id
              (alpaca_error_message e "Alpaca did not accept the cancellation.")
            ∷ [],
      )

  -- One round of it; a finished order and one without a broker order are passed over.
  unfoldable pub cancel_one : OrderRecord → Action State (ℕ × List Warning)
  cancel_one r =
      let id = get_or_else r.broker_order_id "" in
      if terminal r || is_empty id then pure (0, []) else (do
        reply ← tell (λ _. cancelled_order id) (deps.cancel_order_by_id id)
        read_cancellation r reply)

  -- The loop of `cancel_order_batch`: how many requests were taken, and the warnings.
  unfoldable pub cancel_all : List OrderRecord → Action State (ℕ × List Warning)
  cancel_all [] = pure (0, [])
  cancel_all (r ∷ rs) = do
    (n, warned) ← cancel_one r
    (requested, warnings) ← cancel_all rs
    pure (n + requested, warned ++ warnings)

  -- `cancel_order_batch`
  unfoldable pub cancel_order_batch : String → String → Action State OrderBatchResult
  cancel_order_batch account_uid batch_id = do
    registration ← load_account_registration account_uid
    batch ← require_batch deps account_uid batch_id
    current ← refresh deps (records_from_batch batch)
    (requested, warnings) ← cancel_all current
    records ← if requested == 0 then pure current else refresh deps current
    now ← ask deps.now
    persist deps
        (record {
          registration = registration;
          batch_id = batch_id;
          previous = records_from_batch batch;
          records = records;
          time = now;
          warnings = warnings;
          message = if requested == 0 then none else some (cancellation_requested requested);
        })
        (some batch)
