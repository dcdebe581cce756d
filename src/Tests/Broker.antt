-- ===== src/Tests/Broker.antt =====
-- An Alpaca account with a ledger, small enough to run the operations of
-- `src/alpaca_connectors/execution` on: orders fill at once, and the state holds the orders.
use alpaca_connectors.Prelude.{
  String, true, false, none, some, [], ◌∷◌, pos, Dict, lookup, insert, str_eq, if◌then◌else◌,
}
use alpaca_connectors.Execution.Orders.Types.{
  Side, buy, sell, submitted, AlpacaOrder, OrderLegSpec, OrderBatchSubmission,
}
use alpaca_connectors.Execution.Effects.{
  ApiError, Reply, answer, api_error, AlpacaAccount, AlpacaAsset, OrderRequest, BatchMetadata,
  Batch, Registration, ExecutionDependencies,
}

abbrev pub not_found : ApiError
not_found = record { status_code = some 404; message = none }

abbrev pub filled_order : OrderRequest → AlpacaOrder
filled_order q = record {
  id = "broker-1";
  status = some "filled";
  qty = some q.qty;
  filled_qty = some q.qty;
  filled_avg_price = some (pos 200000000000);
  submitted_at = some 5;
  updated_at = some 6;
  filled_at = some 7;
  canceled_at = none;
  expired_at = none;
  failed_at = none;
  symbol = q.symbol;
  asset_id = some 7;
}

abbrev pub registration : Registration
registration = record {
  account_uid = "account";
  unique_identifier = "ACCOUNT";
  alpaca_account_id = "alpaca";
  is_paper = true;
  account_is_active = true;
}

abbrev pub metadata : BatchMetadata
metadata = record {
  account_uid = "account";
  account_identifier = "ACCOUNT";
  is_paper = true;
  orders = [];
  warnings = [];
  last_sync_at = none;
  holdings_set_uid = none;
}

abbrev pub batch : Batch
batch = record {
  uid = "batch-row";
  unique_identifier = "batch";
  target_account_uid = "account";
  target_time = 1;
  status = submitted;
  metadata = some metadata;
}

abbrev pub Orders : Type 0
Orders = Dict AlpacaOrder

abbrev pub find_order : String → Orders → Reply AlpacaOrder × Orders
find_order id orders = elim (lookup id orders) [
  | none ↦ (api_error not_found, orders)
  | some o ↦ (answer o, orders)
]

abbrev pub asset_identifier : String
asset_identifier = "ALPACA::00000000-0000-0000-0000-000000000007"

abbrev pub account : AlpacaAccount
account = record {
  id = "alpaca";
  status = some "ACTIVE";
  trading_blocked = false;
  account_blocked = false;
  trade_suspended_by_user = false;
  buying_power = some (pos 1000000000000000000000000);
  cash = none;
}

abbrev pub asset : AlpacaAsset
asset = record { symbol = "AAPL"; tradable = true; status = some "active"; fractionable = true }

-- The account knows one asset and one stored batch, under the identifier "stored".
abbrev pub fake : ExecutionDependencies
fake = record {
  State = Orders;
  get_account = λ s. (answer account, s);
  get_clock = λ s. (answer true, s);
  get_asset = λ id s. (answer asset, s);
  get_order_by_client_id = find_order;
  submit_order = λ q s. (answer (filled_order q), insert q.client_order_id (filled_order q) s);
  cancel_order_by_id = λ id s. (answer tt, s);
  price_reader = λ names s. (some (("AAPL", pos 200000000000) ∷ []), s);
  capture_holdings = λ s. (some (some "holdings"), s);
  now = λ s. (9, s);
  sleep = λ n s. s;
  get_batch = λ id s. (some (if str_eq id "stored" then some batch else none), s);
  list_batches = λ id s. (some (batch ∷ []), s);
  create_batch = λ id account time status m s. (some batch, s);
  update_batch = λ uid status time m s. (some tt, s);
  registered_asset_identifiers = λ names s. (some names, s);
  ensure_cash_asset = λ s. (some "USD", s);
  write_orders = λ rows s. (some tt, s);
  write_trades = λ rows s. (some tt, s);
  get_account_registration = λ id s. (some (some registration), s);
  settle_timeout = 10000;
  poll_interval = 500;
}

abbrev pub leg : String → Side → OrderLegSpec
leg id side = record {
  client_order_id = id;
  asset_identifier = asset_identifier;
  symbol = "AAPL";
  side = side;
  quantity = pos 2000000000;
  order_type = "market";
  time_in_force = "day";
}

-- One buy and one sell.
abbrev pub two_legs : OrderBatchSubmission
two_legs = record {
  batch_id = "fresh";
  legs = leg "b" buy ∷ leg "s" sell ∷ [];
  queue_when_closed = false;
}

-- The same identifier twice.
abbrev pub repeated_legs : OrderBatchSubmission
repeated_legs = record {
  batch_id = "fresh";
  legs = leg "b" buy ∷ leg "b" sell ∷ [];
  queue_when_closed = false;
}
