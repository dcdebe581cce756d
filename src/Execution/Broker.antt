-- ===== src/Execution/Broker.antt =====
-- `src/alpaca_connectors/execution/services.py`: the orders at Alpaca. An order is looked up under
-- its client_order_id, placed, re-read, and waited for.
pub mod Calls
pub mod Identity
use alpaca_connectors.Prelude.{
  ℕ, zero, suc, ◌+◌, String, Bool, true, false, ◌&&◌, ◌||◌, Option, none, some, List, [], ◌∷◌,
  if◌then◌else◌, ◌==◌, leb, get_or_else, is_empty, all, join_words, head_chars,
}
use alpaca_connectors.Execution.Orders.Types.{Time, OrderRecord, terminal, AlpacaOrder}
use alpaca_connectors.Execution.Orders.Status.{order_record_from_alpaca, rejected_record}
use alpaca_connectors.Execution.Effects.{
  ApiError, Reply, answer, api_error, OrderRequest, ExecutionDependencies, looked_up,
  submitted_order, slept, credentials_rejected, out_of_fuel, api_fault, Action, pure, throw, tell,
  ◌>>=◌, ◌>>◌,
}

-- ALPACA_MESSAGE_LIMIT
abbrev pub alpaca_message_limit : ℕ
alpaca_message_limit = 240

-- `_alpaca_error_message`
unfoldable pub alpaca_error_message : ApiError → String → String
alpaca_error_message e default = elim (e.message) [
  | none ↦ default
  | some text ↦
      let message = head_chars alpaca_message_limit (join_words text) in
      if is_empty message then default else message
]

-- `_alpaca_status_code(exc) == code`
abbrev pub has_status_code : ApiError → ℕ → Bool
has_status_code e code = elim (e.status_code) [ none ↦ false | some c ↦ c == code ]

-- Did the reply bring an order?
abbrev pub found : {A : Type 0} → Reply A → Bool
found (answer _) = true
found (api_error _) = false

-- `record.terminal and not record.broker_order_id`: refused at submission.
abbrev pub refused : OrderRecord → Bool
refused r = terminal r && is_empty (get_or_else r.broker_order_id "")

abbrev pub order_request : OrderRecord → OrderRequest
order_request r = record {
  symbol = get_or_else r.venue_symbol r.symbol;
  qty = r.quantity;
  side = r.side;
  client_order_id = r.client_order_id;
}

-- The last return of the handler in `_place_order`.
abbrev pub refuse : OrderRecord → Time → ApiError → OrderRecord
refuse r now e = rejected_record r (alpaca_error_message e "Alpaca refused the order.") now

-- The handler's answer to a 422: the order that Alpaca already holds, if it holds one.
abbrev pub held_or_refused : OrderRecord → Time → ApiError → Option AlpacaOrder → OrderRecord
held_or_refused r now e none = refuse r now e
held_or_refused r now e (some order) = order_record_from_alpaca r order

-- What `_refresh` makes of a look-up.
abbrev pub updated_from : OrderRecord → Option AlpacaOrder → OrderRecord
updated_from r none = r
updated_from r (some order) = order_record_from_alpaca r order

module _ (deps : ExecutionDependencies) where
  open deps use {State, settle_timeout}

  -- The handler of `_find_alpaca_order`: 401 is a fixed error, 404 and 422 mean "none".
  unfoldable pub read_lookup : Reply AlpacaOrder → Action State (Option AlpacaOrder)
  read_lookup (answer order) = pure (some order)
  read_lookup (api_error e) =
      if has_status_code e 401
      then throw credentials_rejected
      else if has_status_code e 404 || has_status_code e 422
      then pure none
      else throw (api_fault e)

  -- `_find_alpaca_order`
  unfoldable pub find_alpaca_order : String → Action State (Option AlpacaOrder)
  find_alpaca_order id = do
    reply ← tell (λ r. looked_up id (found r)) (deps.get_order_by_client_id id)
    read_lookup reply

  -- After a 422 the order may be there already, placed by an earlier run.
  unfoldable pub read_back : OrderRecord → Time → ApiError → Action State OrderRecord
  read_back r now e = do
    existing ← find_alpaca_order r.client_order_id
    pure (held_or_refused r now e existing)

  -- The `try` of `_place_order` and its handler.
  unfoldable pub read_placement : OrderRecord → Time → Reply AlpacaOrder → Action State OrderRecord
  read_placement r now (answer order) = pure (order_record_from_alpaca r order)
  read_placement r now (api_error e) =
      if has_status_code e 401
      then throw credentials_rejected
      else if has_status_code e 422
      then read_back r now e
      else pure (refuse r now e)

  -- `_place_order`
  unfoldable pub place_order : Time → OrderRecord → Action State OrderRecord
  place_order now r = do
    reply ← tell (λ _. submitted_order (order_request r)) (deps.submit_order (order_request r))
    read_placement r now reply

  unfoldable pub reread : OrderRecord → Action State OrderRecord
  reread r = do order ← find_alpaca_order r.client_order_id; pure (updated_from r order)

  -- One round of the loop in `_refresh`.
  unfoldable pub refresh_one : OrderRecord → Action State OrderRecord
  refresh_one r = if refused r then pure r else reread r

  -- `_refresh`
  unfoldable pub refresh : List OrderRecord → Action State (List OrderRecord)
  refresh [] = pure []
  refresh (r ∷ rs) = do r' ← refresh_one r; rest ← refresh rs; pure (r' ∷ rest)

  abbrev pub pause : Action State (Unit {0})
  pause = tell (λ _. slept deps.poll_interval) (λ s. (tt, deps.sleep deps.poll_interval s))

  -- The loop of `_wait_for_terminal` after `waited` milliseconds.
  unfoldable pub wait_from : ℕ → ℕ → List OrderRecord → Action State (List OrderRecord)
  wait_from zero waited rs = throw out_of_fuel
  wait_from (suc fuel) waited rs = do
    current ← refresh rs
    elim (all terminal current || leb settle_timeout waited) [
      | true ↦ pure current
      | false ↦ pause >> wait_from fuel (waited + deps.poll_interval) current
    ]

  -- `_wait_for_terminal`. The fuel is enough where the poll interval is positive.
  unfoldable pub wait_for_terminal : List OrderRecord → Action State (List OrderRecord)
  wait_for_terminal rs = wait_from (settle_timeout + 1) 0 rs
