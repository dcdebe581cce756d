-- ===== src/Execution/Batch.antt =====
-- `src/alpaca_connectors/execution/services.py`: the pre-trade checks of a batch as they run, with
-- the reads of the account, the assets, the clock and the prices.
pub mod Calls
pub mod Records
use alpaca_connectors.Prelude.{
  String, Bool, true, false, ◌&&◌, ◌||◌, not, Option, none, some, List, [], ◌∷◌, ◌++◌, map,
  if◌then◌else◌, get_or_else, str_eq, Dict, insert, Uuid,
}
use alpaca_connectors.Execution.Orders.Types.{
  OrderRecord, OrderBatchSubmission, PreTradeCheck, market_closed,
}
use alpaca_connectors.Execution.Broker.{has_status_code}
use alpaca_connectors.Execution.Effects.{
  Reply, answer, api_error, AlpacaAccount, AlpacaAsset, Warning, Registration,
  ExecutionDependencies, Fault, credentials_rejected, value_error, api_fault, Action, pure, throw,
  ask, try_ask, raise_if, ◌>>=◌, ◌>>◌,
}
use alpaca_connectors.Execution.Checks.{
  of_batch, validate_legs, account_checks, asset_ids, known_identifiers, resolve_legs, Findings,
  buys_of, venue_name, estimate_power,
}

-- `tuple[list[OrderRecord], list[PreTradeCheck], list[str]]`
abbrev pub Checked : Type 0
Checked = List OrderRecord × List PreTradeCheck × List Warning

module _ (deps : ExecutionDependencies) where
  open deps use {State}

  unfoldable pub read_live : Reply AlpacaAsset → Action State (Option AlpacaAsset)
  read_live (answer asset) = pure (some asset)
  read_live (api_error e) = if has_status_code e 401 then throw credentials_rejected else pure none

  -- `_live_alpaca_asset`
  unfoldable pub live_alpaca_asset : Uuid → Action State (Option AlpacaAsset)
  live_alpaca_asset id = do reply ← ask (deps.get_asset id); read_live reply

  -- `live_assets`: one request for each distinct identifier that has an Alpaca id.
  unfoldable pub live_assets : Dict (Option Uuid) → Action State (Dict (Option AlpacaAsset))
  live_assets [] = pure []
  live_assets ((name, none) ∷ ids) = live_assets ids
  live_assets ((name, some id) ∷ ids) = do
    asset ← live_alpaca_asset id
    rest ← live_assets ids
    pure ((name, asset) ∷ rest)

  -- `_resolve_assets`
  unfoldable pub resolve_assets : OrderBatchSubmission → Action State Checked
  resolve_assets submission = do
    let ids = asset_ids [] submission.legs
    registered ← try_ask (deps.registered_asset_identifiers (known_identifiers ids))
    live ← live_assets ids
    pure (resolve_legs registered ids live submission.legs)

  unfoldable pub read_clock : Reply Bool → Action State Bool
  read_clock (answer is_open) = pure is_open
  read_clock (api_error e) = throw (api_fault e)

  -- `_market_hours_check`
  unfoldable pub market_hours_check : OrderBatchSubmission → Action State (List PreTradeCheck)
  market_hours_check submission = do
    reply ← ask deps.get_clock
    is_open ← read_clock reply
    pure (if is_open || submission.queue_when_closed then [] else of_batch market_closed ∷ [])

  unfoldable pub estimate_buys :
      AlpacaAccount → List OrderRecord → List OrderRecord → Action State Findings
  estimate_buys account records [] = pure ([], [])
  estimate_buys account records (_ ∷ _) = do
    prices ← ask (deps.price_reader (map venue_name records))
    pure (estimate_power account records (get_or_else prices []))

  -- `_buying_power_check`; prices that cannot be read count as none at all.
  unfoldable pub buying_power_check : AlpacaAccount → List OrderRecord → Action State Findings
  buying_power_check account records = estimate_buys account records (buys_of records)

  -- `read_alpaca_account_or_reject` of `src/alpaca_connectors/account/credentials.py`
  unfoldable pub read_alpaca_account : Reply AlpacaAccount → Action State AlpacaAccount
  read_alpaca_account (answer account) = pure account
  read_alpaca_account (api_error e) =
      if has_status_code e 401 || has_status_code e 403
      then throw credentials_rejected
      else throw (api_fault e)

  -- `_read_account`
  unfoldable pub read_account : Registration → Action State AlpacaAccount
  read_account registration = do
    reply ← ask deps.get_account
    account ← read_alpaca_account reply
    raise_if (not (str_eq account.id registration.alpaca_account_id)) value_error
    pure account

  -- The last step of `_check_batch`: buying power is looked at only if nothing failed so far.
  unfoldable pub finish_checks :
      AlpacaAccount → List OrderRecord → List PreTradeCheck → List Warning → Action State Checked
  finish_checks account records (check ∷ checks) warnings = pure (records, check ∷ checks, warnings)
  finish_checks account records [] warnings = do
    (power_checks, power_warnings) ← buying_power_check account records
    pure (records, power_checks, warnings ++ power_warnings)

  -- `_check_batch`
  unfoldable pub check_batch : Registration → OrderBatchSubmission → Action State Checked
  check_batch registration submission = do
    let leg_checks = validate_legs [] submission.legs
    account ← read_account registration
    (records, asset_checks, warnings) ← resolve_assets submission
    hours_checks ← market_hours_check submission
    finish_checks account records
        (leg_checks ++ (account_checks registration account ++ (asset_checks ++ hours_checks)))
        warnings
