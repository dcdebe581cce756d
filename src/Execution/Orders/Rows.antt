-- ===== src/Execution/Orders/Rows.antt =====
-- `src/alpaca_connectors/execution/orders.py`: the rows of the execution ledger.
use alpaca_connectors.Prelude.{
  String, ◌<>◌, Bool, not, ◌||◌, Option, none, some, List, [], ◌∷◌, ℤ, pos, ◌*ℤ◌, leb_ℤ,
  if◌then◌else◌, or_else, get_or_else, is_some, Uuid,
}
use alpaca_connectors.Execution.Orders.Types.{
  Time, Quantity, Price, OrderStatus, OrderRecord, terminal, order_side_sign,
}

-- A row of `OrdersTS`. Its venue is always "alpaca", its limit price always 0.
pub record OrderRow : Type 0 where
  pub order_time : Time
  pub order_identifier : String
  pub account_identifier : String
  pub order_manager_identifier : String
  pub asset_identifier : String
  pub order_remote_id : String
  pub client_order_id : String
  pub order_type : String
  pub order_side : ℤ
  pub quantity : Quantity
  pub status : OrderStatus
  pub filled_quantity : Quantity
  pub filled_price : Price
  pub expires_time : Time
  pub time_in_force : String
  pub comments : String
  pub venue_symbol : String
  pub venue_status : Option String
  pub alpaca_asset_id : Option Uuid

-- A row of `TradesTS`. Its commission is always 0; its cost is in units of 10⁻¹⁸.
pub record TradeRow : Type 0 where
  pub trade_time : Time
  pub trade_identifier : String
  pub account_identifier : String
  pub order_identifier : String
  pub asset_identifier : String
  pub trade_side : ℤ
  pub quantity : Quantity
  pub price : Price
  pub commission_asset_identifier : String
  pub settlement_cost : ℤ
  pub settlement_asset_identifier : String
  pub comments : String
  pub venue_symbol : String
  pub broker_order_id : Option String

order_row : String → String → OrderRecord → Time → OrderRow
order_row account batch r time = record {
  order_time = time;
  order_identifier = r.client_order_id;
  account_identifier = account;
  order_manager_identifier = batch;
  asset_identifier = r.asset_identifier;
  order_remote_id = get_or_else r.broker_order_id "";
  client_order_id = r.client_order_id;
  order_type = r.order_type;
  order_side = order_side_sign r.side;
  quantity = r.quantity;
  status = r.status;
  filled_quantity = r.filled_quantity;
  filled_price = get_or_else r.average_fill_price (pos 0);
  expires_time = time;
  time_in_force = r.time_in_force;
  comments = get_or_else r.message "";
  venue_symbol = get_or_else r.venue_symbol r.symbol;
  venue_status = r.venue_status;
  alpaca_asset_id = r.alpaca_asset_id;
}

-- The loop of `orders_ledger_rows`: a record with no time is passed over.
unfoldable pub orders_ledger_rows : String → String → List OrderRecord → List OrderRow
unfolding order_row
orders_ledger_rows account batch [] = []
orders_ledger_rows account batch (r ∷ rs) =
    let rest = orders_ledger_rows account batch rs in
    elim (or_else r.submitted_at r.updated_at) [
      | none ↦ rest
      | some time ↦ order_row account batch r time ∷ rest
    ]

trade_row : String → String → String → OrderRecord → Time → TradeRow
trade_row account batch cash r time =
    let price = get_or_else r.average_fill_price (pos 0) in
    record {
      trade_time = time;
      trade_identifier = r.client_order_id <> ":fill";
      account_identifier = account;
      order_identifier = r.client_order_id;
      asset_identifier = r.asset_identifier;
      trade_side = order_side_sign r.side;
      quantity = r.filled_quantity;
      price = price;
      commission_asset_identifier = cash;
      settlement_cost = r.filled_quantity *ℤ price;
      settlement_asset_identifier = cash;
      comments = batch;
      venue_symbol = get_or_else r.venue_symbol r.symbol;
      broker_order_id = r.broker_order_id;
    }

-- The test of `trades_ledger_rows` that passes a record over.
abbrev pub no_trade : OrderRecord → Bool
no_trade r = not (terminal r) || (leb_ℤ r.filled_quantity (pos 0) || not (is_some r.terminal_at))

-- The loop of `trades_ledger_rows`.
unfoldable pub trades_ledger_rows : String → String → String → List OrderRecord → List TradeRow
unfolding trade_row
trades_ledger_rows account batch cash [] = []
trades_ledger_rows account batch cash (r ∷ rs) =
    let rest = trades_ledger_rows account batch cash rs in
    if no_trade r then rest else trade_row account batch cash r (get_or_else r.terminal_at 0) ∷ rest
