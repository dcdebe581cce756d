-- ===== src/Execution/Orders/Types.antt =====
-- The records of `src/alpaca_connectors/execution/orders.py`.
use alpaca_connectors.Prelude.{
  ℕ, String, Bool, true, false, Option, none, List, [], ◌∷◌, ℤ, pos, Uuid, ◌==◌,
}

-- Microseconds since the epoch, UTC.
abbrev pub Time : Type 0
Time = ℕ

-- Shares, and dollars for each share, as whole numbers of 10⁻⁹.
abbrev pub Quantity : Type 0
Quantity = ℤ

abbrev pub Price : Type 0
Price = ℤ

pub data Side : Type 0 where
  buy sell : Side

abbrev pub is_buy : Side → Bool
is_buy buy = true
is_buy sell = false

abbrev pub is_sell : Side → Bool
is_sell buy = false
is_sell sell = true

-- ORDER_STATUSES
pub data OrderStatus : Type 0 where
  submitted partially_filled filled cancelled rejected expired failed : OrderStatus

-- The position of a status in ORDER_STATUSES, by which two of them are compared.
abbrev pub status_index : OrderStatus → ℕ
status_index submitted = 0
status_index partially_filled = 1
status_index filled = 2
status_index cancelled = 3
status_index rejected = 4
status_index expired = 5
status_index failed = 6

abbrev pub same_status : OrderStatus → OrderStatus → Bool
same_status a b = status_index a == status_index b

-- `status in TERMINAL_ORDER_STATUSES`
abbrev pub is_terminal_status : OrderStatus → Bool
is_terminal_status submitted = false
is_terminal_status partially_filled = false
is_terminal_status _ = true

abbrev pub supported_order_types : List String
supported_order_types = "market" ∷ []

abbrev pub supported_time_in_force : List String
supported_time_in_force = "day" ∷ []

-- The codes of the pre-trade checks, of orders.py and services.py.
pub data CheckCode : Type 0 where
  duplicate_client_order_id unsupported_order_type unsupported_time_in_force invalid_quantity :
      CheckCode
  account_inactive account_not_tradable unknown_asset asset_not_registered : CheckCode
  asset_not_tradable fractional_quantity_not_allowed market_closed : CheckCode
  insufficient_buying_power batch_id_in_use pre_trade_checks_failed : CheckCode

pub record PreTradeCheck : Type 0 where
  pub code : CheckCode
  pub client_order_id : Option String

-- `PreTradeCheckError.code`; an error is built from one check at least.
abbrev pub error_code : PreTradeCheck → List PreTradeCheck → CheckCode
error_code check [] = check.code
error_code check (_ ∷ _) = pre_trade_checks_failed

pub record OrderLegSpec : Type 0 where
  pub client_order_id : String
  pub asset_identifier : String
  pub symbol : String
  pub side : Side
  pub quantity : Quantity
  pub order_type : String
  pub time_in_force : String

pub record OrderBatchSubmission : Type 0 where
  pub batch_id : String
  pub legs : List OrderLegSpec
  pub queue_when_closed : Bool

pub record OrderRecord : Type 0 where
  pub client_order_id : String
  pub asset_identifier : String
  pub symbol : String
  pub side : Side
  pub quantity : Quantity
  pub status : OrderStatus
  pub broker_order_id : Option String
  pub venue_status : Option String
  pub filled_quantity : Quantity
  pub average_fill_price : Option Price
  pub submitted_at : Option Time
  pub updated_at : Option Time
  pub terminal_at : Option Time
  pub message : Option String
  pub order_type : String
  pub time_in_force : String
  pub alpaca_asset_id : Option Uuid
  pub venue_symbol : Option String

-- `OrderRecord.terminal`
abbrev pub terminal : OrderRecord → Bool
terminal r = is_terminal_status r.status

-- ORDER_SIDE_SIGN and `OrderRecord.side_sign`
abbrev pub order_side_sign : Side → ℤ
order_side_sign buy = pos 1
order_side_sign sell = ℤ.negsuc 0

-- `OrderRecord.from_leg`
unfoldable pub from_leg : OrderLegSpec → OrderRecord
from_leg leg = record {
  client_order_id = leg.client_order_id;
  asset_identifier = leg.asset_identifier;
  symbol = leg.symbol;
  side = leg.side;
  quantity = leg.quantity;
  status = submitted;
  broker_order_id = none;
  venue_status = none;
  filled_quantity = pos 0;
  average_fill_price = none;
  submitted_at = none;
  updated_at = none;
  terminal_at = none;
  message = none;
  order_type = leg.order_type;
  time_in_force = leg.time_in_force;
  alpaca_asset_id = none;
  venue_symbol = none;
}

-- An order as alpaca-py returns it. A number is absent where Alpaca sends none or the code cannot
-- read it; an empty text stands for an absent one, as the code takes it.
pub record AlpacaOrder : Type 0 where
  pub id : String
  pub status : Option String
  pub qty : Option Quantity
  pub filled_qty : Option Quantity
  pub filled_avg_price : Option Price
  pub submitted_at : Option Time
  pub updated_at : Option Time
  pub filled_at : Option Time
  pub canceled_at : Option Time
  pub expired_at : Option Time
  pub failed_at : Option Time
  pub symbol : String
  pub asset_id : Option Uuid
