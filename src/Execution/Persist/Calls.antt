-- ===== src/Execution/Persist/Calls.antt =====
-- Which calls and exceptions the ledger writes of
-- `src/alpaca_connectors/execution/services.py` come to, from those that are allowed.
use alpaca_connectors.Prelude.{String, Option, none, some, List, [], ◌∷◌}
use alpaca_connectors.Execution.Orders.Types.{Time, OrderStatus}
use alpaca_connectors.Execution.Orders.Rows.{OrderRow, TradeRow}
use alpaca_connectors.Execution.Persist.{
  own_batch, require_batch, Saving, ensure_batch, write_trade_rows, write_ledger, publish_holdings,
  close_batch, persist,
}
use alpaca_connectors.Execution.Effects.{
  Call, Fault, BatchMetadata, Batch, Warning, created_batch, updated_batch, wrote_orders,
  ensured_cash, wrote_trades, captured_holdings, ledger_error, lookup_error, ExecutionDependencies,
}
use alpaca_connectors.Execution.Effects.Within.{Within, within_rules}

-- Every write to the ledger is allowed, and that one fails.
pub record AllowsWrites (P : Call → Type 0) (E : Fault → Type 0) : Type 0 where
  pub ledger : E ledger_error
  pub creates : (batch account : String) (m : BatchMetadata) → P (created_batch batch account m)
  pub updates :
      (uid : String) (s : OrderStatus) (t : Option Time) (m : BatchMetadata)
      → P (updated_batch uid s t m)
  pub orders : (rows : List OrderRow) → P (wrote_orders rows)
  pub cash : P ensured_cash
  pub trades : (rows : List TradeRow) → P (wrote_trades rows)
  pub captures : P captured_holdings

module _ (deps : ExecutionDependencies) {P : Call → Type 0} {E : Fault → Type 0} where
  own_batch-Within :
      E lookup_error
      → (account_uid : String) (found : Option Batch)
      → Within P E (own_batch deps account_uid found)
  unfolding own_batch
  own_batch-Within h account_uid none = search within_rules
  own_batch-Within h account_uid (some batch) = search within_rules

  pub require_batch-Within :
      E lookup_error
      → E ledger_error
      → (account_uid batch_id : String) → Within P E (require_batch deps account_uid batch_id)
  unfolding require_batch
  require_batch-Within h l account_uid batch_id = search (within_rules, own_batch-Within h) depth 8

  ensure_batch-Within :
      AllowsWrites P E
      → (s : Saving) (found : Option Batch) → Within P E (ensure_batch deps s found)
  unfolding ensure_batch
  ensure_batch-Within h s none = search (within_rules, h.creates, h.ledger) depth 8
  ensure_batch-Within h s (some batch) = search within_rules

  write_trade_rows-Within :
      AllowsWrites P E → (rows : List TradeRow) → Within P E (write_trade_rows deps rows)
  unfolding write_trade_rows
  write_trade_rows-Within h [] = search within_rules
  write_trade_rows-Within h (row ∷ rows) = search (within_rules, h.cash, h.trades, h.ledger) depth 8

  write_ledger-Within : AllowsWrites P E → (s : Saving) → Within P E (write_ledger deps s)
  unfolding write_ledger
  write_ledger-Within h s =
      search (within_rules, write_trade_rows-Within h, h.orders, h.ledger) depth 8

  publish_holdings-Within :
      AllowsWrites P E
      → (s : Saving) (stored : Option String) → Within P E (publish_holdings deps s stored)
  unfolding publish_holdings
  publish_holdings-Within h s stored = search (within_rules, h.captures)

  close_batch-Within :
      AllowsWrites P E
      → (s : Saving) (stored : Option BatchMetadata) (uid : String)
        (published : Option String × List Warning)
      → Within P E (close_batch deps s stored uid published)
  unfolding close_batch
  close_batch-Within h s stored uid published = search (within_rules, h.updates, h.ledger) depth 8

  pub persist-Within :
      AllowsWrites P E → (s : Saving) (found : Option Batch) → Within P E (persist deps s found)
  unfolding persist
  persist-Within h s found =
      search
        (
          within_rules,
          ensure_batch-Within h,
          write_ledger-Within h,
          publish_holdings-Within h,
          close_batch-Within h,
        )
        depth 8
