-- ===== src/Execution/Effects.antt =====
-- `src/alpaca_connectors/execution/services.py`: what the execution touches outside its own logic
-- (`ExecutionDependencies`), and the calls, failures and state that an operation threads.
-- The collaborators are parameters. Each answers from a hidden state and leaves a new one, so an
-- order may fill between two reads.
pub mod Within
pub mod Spec
use alpaca_connectors.Prelude.{
  ℕ, String, Bool, true, false, Option, none, some, List, [], ◌∷◌, ◌++◌, if◌then◌else◌, Uuid, ℤ,
  Dict,
}
use alpaca_connectors.Execution.Orders.Types.{
  Time, Price, Side, OrderStatus, OrderRecord, PreTradeCheck, AlpacaOrder,
}
use alpaca_connectors.Execution.Orders.Rows.{OrderRow, TradeRow}

-- alpaca-py's `APIError`: either part may be missing.
pub record ApiError : Type 0 where
  pub status_code : Option ℕ
  pub message : Option String

-- How a call of the Alpaca client ends.
pub data Reply (A : Type 0) : Type 0 where
  answer : A → Reply A
  api_error : ApiError → Reply A

-- Dollars as a whole number of 10⁻¹⁸: a quantity times a price.
abbrev pub Money : Type 0
Money = ℤ

pub record AlpacaAccount : Type 0 where
  pub id : String
  pub status : Option String
  pub trading_blocked : Bool
  pub account_blocked : Bool
  pub trade_suspended_by_user : Bool
  pub buying_power : Option Money
  pub cash : Option Money

pub record AlpacaAsset : Type 0 where
  pub symbol : String
  pub tradable : Bool
  pub status : Option String
  pub fractionable : Bool

-- `MarketOrderRequest`; its time in force is always DAY.
pub record OrderRequest : Type 0 where
  pub symbol : String
  pub qty : ℤ
  pub side : Side
  pub client_order_id : String

-- The warnings that go into a result, in place of their English text.
pub data Warning : Type 0 where
  listed_under : String → String → Warning
  buying_power_not_estimated : List String → Warning
  no_buying_power_reported : Warning
  holdings_not_published : Warning
  cancellation_refused : String → String → Warning

-- `metadata_json` of a batch; its source and venue are constants.
pub record BatchMetadata : Type 0 where
  pub account_uid : String
  pub account_identifier : String
  pub is_paper : Bool
  pub orders : List OrderRecord
  pub warnings : List Warning
  pub last_sync_at : Option Time
  pub holdings_set_uid : Option String

-- A row of `OrderManager`.
pub record Batch : Type 0 where
  pub uid : String
  pub unique_identifier : String
  pub target_account_uid : String
  pub target_time : Time
  pub status : OrderStatus
  pub metadata : Option BatchMetadata

-- The fields of an account registration that the execution reads.
pub record Registration : Type 0 where
  pub account_uid : String
  pub unique_identifier : String
  pub alpaca_account_id : String
  pub is_paper : Bool
  pub account_is_active : Bool

-- `ExecutionDependencies`. `none` is an exception that a collaborator raises. Durations are in
-- milliseconds.
pub record ExecutionDependencies : Type 1 where
  pub State : Type 0
  pub get_account : State → Reply AlpacaAccount × State
  pub get_clock : State → Reply Bool × State
  pub get_asset : Uuid → State → Reply AlpacaAsset × State
  pub get_order_by_client_id : String → State → Reply AlpacaOrder × State
  pub submit_order : OrderRequest → State → Reply AlpacaOrder × State
  pub cancel_order_by_id : String → State → Reply (Unit {0}) × State
  pub price_reader : List String → State → Option (Dict Price) × State
  pub capture_holdings : State → Option (Option String) × State
  pub now : State → Time × State
  pub sleep : ℕ → State → State
  pub get_batch : String → State → Option (Option Batch) × State
  pub list_batches : String → State → Option (List Batch) × State
  pub create_batch :
      String → String → Time → OrderStatus → BatchMetadata → State → Option Batch × State
  pub update_batch :
      String → OrderStatus → Option Time → BatchMetadata → State → Option (Unit {0}) × State
  pub registered_asset_identifiers : List String → State → Option (List String) × State
  pub ensure_cash_asset : State → Option String × State
  pub write_orders : List OrderRow → State → Option (Unit {0}) × State
  pub write_trades : List TradeRow → State → Option (Unit {0}) × State
  pub get_account_registration : String → State → Option (Option Registration) × State
  pub settle_timeout : ℕ
  pub poll_interval : ℕ

-- What an operation has asked of its collaborators, in order. `looked_up` has Alpaca's answer: does
-- it hold an order under that identifier? Plain reads of accounts, assets, the clock, prices, the
-- time and batches leave no entry.
pub data Call : Type 0 where
  looked_up : String → Bool → Call
  submitted_order : OrderRequest → Call
  cancelled_order : String → Call
  slept : ℕ → Call
  created_batch : String → String → BatchMetadata → Call
  updated_batch : String → OrderStatus → Option Time → BatchMetadata → Call
  wrote_orders : List OrderRow → Call
  ensured_cash : Call
  wrote_trades : List TradeRow → Call
  captured_holdings : Call

-- The exceptions that leave an operation; `out_of_fuel` stands for a loop that the model cut short.
pub data Fault : Type 0 where
  lookup_error value_error key_error ledger_error credentials_rejected out_of_fuel : Fault
  pre_trade_check_error : PreTradeCheck → List PreTradeCheck → Fault
  api_fault : ApiError → Fault

pub data Result (A : Type 0) : Type 0 where
  ok : A → Result A
  raise : Fault → Result A

-- A run from a state: how it ended, the calls made, the state left. Calls made before a raise stay
-- made.
abbrev pub Action : Type 0 → Type 0 → Type 0
Action S A = S → Result A × List Call × S

module _ {S A : Type 0} where
  unfoldable pub pure : A → Action S A
  pure a s = (ok a, [], s)

  unfoldable pub throw : Fault → Action S A
  throw e s = (raise e, [], s)

  -- A call that leaves no entry.
  unfoldable pub ask : (S → A × S) → Action S A
  ask f s = let (a, s') = f s in (ok a, [], s')

  -- A call that leaves the entry that its answer gives.
  unfoldable pub tell : (A → Call) → (S → A × S) → Action S A
  tell c f s = let (a, s') = f s in (ok a, c a ∷ [], s')

module _ {S A B : Type 0} where
  abbrev pub continue : Result A → List Call → S → (A → Action S B) → Result B × List Call × S
  continue (raise e) cs s f = (raise e, cs, s)
  continue (ok a) cs s f = let (r, ds, t) = f a s in (r, cs ++ ds, t)

  infixl 5 ◌>>=◌ ◌>>◌
  unfoldable pub ◌>>=◌ : Action S A → (A → Action S B) → Action S B
  unfolding pure throw ask tell
  ◌>>=◌ m f s = let (r, cs, s') = m s in continue r cs s' f

  abbrev pub ◌>>◌ : Action S A → Action S B → Action S B
  m >> k = m >>= λ _. k

module _ {S A : Type 0} where
  abbrev pub or_raise : Fault → Option A → Action S A
  or_raise e none = throw e
  or_raise e (some a) = pure a

  -- A collaborator that may raise, with the entry that the call leaves, and with none.
  abbrev pub try_tell : Call → (S → Option A × S) → Action S A
  try_tell c f = tell (λ _. c) f >>= or_raise ledger_error

  abbrev pub try_ask : (S → Option A × S) → Action S A
  try_ask f = ask f >>= or_raise ledger_error

module _ {S : Type 0} where
  abbrev pub raise_if : Bool → Fault → Action S (Unit {0})
  raise_if true e = throw e
  raise_if false e = pure tt
