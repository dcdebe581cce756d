-- ===== src/Execution/Persist.antt =====
-- `src/alpaca_connectors/execution/services.py`: what an operation writes to the execution ledger.
pub mod Calls
pub mod Stored
use alpaca_connectors.Prelude.{
  ℕ, String, Bool, false, Option, none, some, List, [], ◌∷◌, ◌++◌, if◌then◌else◌, or_else, is_empty,
  all, parse_uuid, str_eq, ◌==◌,
}
use alpaca_connectors.Execution.Orders.Types.{Time, OrderStatus, submitted, OrderRecord, terminal}
use alpaca_connectors.Execution.Orders.Status.{batch_status, new_fills}
use alpaca_connectors.Execution.Orders.Rows.{TradeRow, orders_ledger_rows, trades_ledger_rows}
use alpaca_connectors.Execution.Effects.{
  Warning, holdings_not_published, BatchMetadata, Batch, Registration, ExecutionDependencies,
  created_batch, updated_batch, wrote_orders, ensured_cash, wrote_trades, captured_holdings,
  lookup_error, Action, pure, throw, tell, try_tell, try_ask, ◌>>=◌, ◌>>◌,
}

-- DEFAULT_CASH_ASSET_IDENTIFIER
abbrev pub default_cash_asset_identifier : String
default_cash_asset_identifier = "USD"

-- The note that goes with a result, in place of its English text.
pub data Note : Type 0 where
  refused_at_submission : ℕ → ℕ → Note
  cancellation_requested : ℕ → Note

pub record OrderBatchResult : Type 0 where
  pub batch_id : String
  pub account_uid : String
  pub status : OrderStatus
  pub orders : List OrderRecord
  pub message : Option Note
  pub warnings : List Warning
  pub holdings_set_uid : Option String

-- `_same_uid`: equal as UUIDs where both are, and equal as texts otherwise.
unfoldable pub same_uid : String → String → Bool
same_uid left right = elim (parse_uuid left) [
  | none ↦ str_eq left right
  | some a ↦ elim (parse_uuid right) [ none ↦ str_eq left right | some b ↦ a == b ]
]

-- `_records_from_batch`
unfoldable pub records_from_batch : Batch → List OrderRecord
records_from_batch batch = elim (batch.metadata) [ none ↦ [] | some m ↦ m.orders ]

-- The `holdings_set_uid` that a batch's metadata has.
abbrev pub stored_holdings : Option BatchMetadata → Option String
stored_holdings none = none
stored_holdings (some m) = m.holdings_set_uid

-- `_batch_metadata`
unfoldable pub batch_metadata :
    Registration
    → List OrderRecord
    → List Warning
    → Time
    → Option String
    → Option BatchMetadata
    → BatchMetadata
batch_metadata registration records warnings now holdings previous = record {
  account_uid = registration.account_uid;
  account_identifier = registration.unique_identifier;
  is_paper = registration.is_paper;
  orders = records;
  warnings = warnings;
  last_sync_at = some now;
  holdings_set_uid = or_else holdings (stored_holdings previous);
}

-- `bool(records) and all(record.terminal for record in records)`
abbrev pub all_done : List OrderRecord → Bool
all_done [] = false
all_done (r ∷ rs) = all terminal (r ∷ rs)

-- What one `_persist` works on.
pub record Saving : Type 0 where
  pub registration : Registration
  pub batch_id : String
  pub previous : List OrderRecord
  pub records : List OrderRecord
  pub time : Time
  pub warnings : List Warning
  pub message : Option Note

-- `str(uid or "") or None`
abbrev nonempty : Option String → Option String
nonempty none = none
nonempty (some uid) = if is_empty uid then none else some uid

-- The `try` around `capture_holdings`: a failure is a warning.
unfoldable pub after_capture :
    Option String → List Warning → Option (Option String) → Option String × List Warning
after_capture stored warnings none = (stored, warnings ++ (holdings_not_published ∷ []))
after_capture stored warnings (some uid) = (nonempty uid, warnings)

-- `batch.metadata_json` before this run.
abbrev pub stored_metadata : Option Batch → Option BatchMetadata
stored_metadata none = none
stored_metadata (some batch) = batch.metadata

module _ (deps : ExecutionDependencies) where
  open deps use {State}

  unfoldable pub own_batch : String → Option Batch → Action State Batch
  own_batch account_uid none = throw lookup_error
  own_batch account_uid (some batch) =
      if same_uid batch.target_account_uid account_uid then pure batch else throw lookup_error

  -- `_require_batch`
  unfoldable pub require_batch : String → String → Action State Batch
  require_batch account_uid batch_id = do
    found ← try_ask (deps.get_batch batch_id)
    own_batch account_uid found

  -- The batch row, created where there is none.
  unfoldable pub ensure_batch : Saving → Option Batch → Action State Batch
  ensure_batch s (some batch) = pure batch
  ensure_batch s none =
      let metadata = batch_metadata s.registration s.records s.warnings s.time none none in
      try_tell (created_batch s.batch_id s.registration.account_uid metadata)
        (deps.create_batch s.batch_id s.registration.account_uid s.time submitted metadata)

  unfoldable pub write_trade_rows : List TradeRow → Action State (Unit {0})
  write_trade_rows [] = pure tt
  write_trade_rows (row ∷ rows) = do
    try_tell ensured_cash deps.ensure_cash_asset
    try_tell (wrote_trades (row ∷ rows)) (deps.write_trades (row ∷ rows))

  -- The order rows, then the trade rows.
  unfoldable pub write_ledger : Saving → Action State (Unit {0})
  write_ledger s = do
    let account = s.registration.unique_identifier
    let rows = orders_ledger_rows account s.batch_id s.records
    try_tell (wrote_orders rows) (deps.write_orders rows)
    write_trade_rows (trades_ledger_rows account s.batch_id default_cash_asset_identifier s.records)

  -- Holdings are captured if the records carry new fills.
  unfoldable pub publish_holdings :
      Saving → Option String → Action State (Option String × List Warning)
  publish_holdings s stored =
      if new_fills s.previous s.records
      then (do
        capture ← tell (λ _. captured_holdings) deps.capture_holdings
        pure (after_capture stored s.warnings capture))
      else pure (stored, s.warnings)

  -- The last write and the result.
  unfoldable pub close_batch :
      Saving
      → Option BatchMetadata
      → String
      → Option String × List Warning
      → Action State OrderBatchResult
  close_batch s stored uid (holdings, warnings) = do
    let status = batch_status s.records
    let finished : Option Time = if all_done s.records then some s.time else none
    let metadata = batch_metadata s.registration s.records warnings s.time holdings stored
    try_tell (updated_batch uid status finished metadata)
        (deps.update_batch uid status finished metadata)
    pure (record {
      batch_id = s.batch_id;
      account_uid = s.registration.account_uid;
      status = status;
      orders = s.records;
      message = s.message;
      warnings = warnings;
      holdings_set_uid = holdings;
    })

  -- `_persist`
  unfoldable pub persist : Saving → Option Batch → Action State OrderBatchResult
  persist s found = do
    batch ← ensure_batch s found
    write_ledger s
    published ← publish_holdings s (stored_holdings (stored_metadata found))
    close_batch s (stored_metadata found) batch.uid published
