-- ===== src/Execution/Batch/Calls.antt =====
-- The pre-trade checks of `src/alpaca_connectors/execution/services.py` make no call that changes
-- anything: which exceptions they may end with.
use alpaca_connectors.Prelude.{Bool, Option, none, some, List, [], ◌∷◌, Dict, Uuid}
use alpaca_connectors.Execution.Orders.Types.{OrderRecord, OrderBatchSubmission, PreTradeCheck}
use alpaca_connectors.Execution.Batch.{
  read_live, live_alpaca_asset, live_assets, resolve_assets, read_clock, market_hours_check,
  estimate_buys, buying_power_check, read_alpaca_account, read_account, finish_checks, check_batch,
}
use alpaca_connectors.Execution.Effects.{
  Call, Fault, ApiError, Reply, answer, api_error, AlpacaAccount, AlpacaAsset, Warning,
  Registration, credentials_rejected, value_error, ledger_error, api_fault, ExecutionDependencies,
}
use alpaca_connectors.Execution.Effects.Within.{Within, Within-pure, Within-bind, within_rules}

-- The exceptions that the reads may end with.
pub record AllowsReads (E : Fault → Type 0) : Type 0 where
  pub rejected : E credentials_rejected
  pub fault : (e : ApiError) → E (api_fault e)
  pub mismatch : E value_error
  pub ledger : E ledger_error

module _ (deps : ExecutionDependencies) {P : Call → Type 0} {E : Fault → Type 0} where
  read_live-Within : AllowsReads E → (r : Reply AlpacaAsset) → Within P E (read_live deps r)
  unfolding read_live
  read_live-Within h (answer a) = search within_rules
  read_live-Within h (api_error e) = search (within_rules, h.rejected)

  live_alpaca_asset-Within : AllowsReads E → (id : Uuid) → Within P E (live_alpaca_asset deps id)
  unfolding live_alpaca_asset
  live_alpaca_asset-Within h id = search (within_rules, read_live-Within h)

  live_assets-Within :
      AllowsReads E → (ids : Dict (Option Uuid)) → Within P E (live_assets deps ids)
  unfolding live_assets
  live_assets-Within h [] = search within_rules
  live_assets-Within h ((name, none) ∷ ids) = live_assets-Within h ids
  live_assets-Within h ((name, some id) ∷ ids) =
      Within-bind _ _ (live_alpaca_asset-Within h id)
        λ asset. Within-bind _ _ (live_assets-Within h ids) λ rest. Within-pure _

  resolve_assets-Within :
      AllowsReads E
      → (submission : OrderBatchSubmission) → Within P E (resolve_assets deps submission)
  unfolding resolve_assets
  resolve_assets-Within h submission = search (within_rules, live_assets-Within h, h.ledger) depth 8

  read_clock-Within : AllowsReads E → (r : Reply Bool) → Within P E (read_clock deps r)
  unfolding read_clock
  read_clock-Within h (answer b) = search within_rules
  read_clock-Within h (api_error e) = search (within_rules, h.fault)

  market_hours_check-Within :
      AllowsReads E
      → (submission : OrderBatchSubmission) → Within P E (market_hours_check deps submission)
  unfolding market_hours_check
  market_hours_check-Within h submission = search (within_rules, read_clock-Within h)

  estimate_buys-Within :
      (account : AlpacaAccount) (records buys : List OrderRecord)
      → Within P E (estimate_buys deps account records buys)
  unfolding estimate_buys
  estimate_buys-Within account records [] = search within_rules
  estimate_buys-Within account records (_ ∷ _) = search within_rules

  buying_power_check-Within :
      (account : AlpacaAccount) (records : List OrderRecord)
      → Within P E (buying_power_check deps account records)
  unfolding buying_power_check
  buying_power_check-Within account records = estimate_buys-Within account records _

  read_alpaca_account-Within :
      AllowsReads E → (r : Reply AlpacaAccount) → Within P E (read_alpaca_account deps r)
  unfolding read_alpaca_account
  read_alpaca_account-Within h (answer a) = search within_rules
  read_alpaca_account-Within h (api_error e) = search (within_rules, h.rejected, h.fault)

  read_account-Within :
      AllowsReads E → (registration : Registration) → Within P E (read_account deps registration)
  unfolding read_account
  read_account-Within h registration =
      search (within_rules, read_alpaca_account-Within h, h.mismatch)

  finish_checks-Within :
      (account : AlpacaAccount) (records : List OrderRecord) (checks : List PreTradeCheck)
      (warnings : List Warning)
      → Within P E (finish_checks deps account records checks warnings)
  unfolding finish_checks
  finish_checks-Within account records [] warnings =
      search (within_rules, buying_power_check-Within)
  finish_checks-Within account records (_ ∷ _) warnings = search within_rules

  pub check_batch-Within :
      AllowsReads E
      → (registration : Registration) (submission : OrderBatchSubmission)
      → Within P E (check_batch deps registration submission)
  unfolding check_batch
  check_batch-Within h registration submission =
      search
        (
          within_rules,
          read_account-Within h,
          resolve_assets-Within h,
          market_hours_check-Within h,
          finish_checks-Within,
        )
        depth 10
