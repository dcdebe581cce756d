-- ===== src/Execution/Orders/Status.antt =====
-- `src/alpaca_connectors/execution/orders.py`: Alpaca's order states in the contract's vocabulary,
-- for one order and for a batch.
pub mod Laws
use alpaca_connectors.Prelude.{
  ℕ, ◌+◌, ◌-◌, ◌*◌, ◌/◌, ◌%◌, ◌^◌, max, String, Bool, true, false, not, ◌&&◌, ◌||◌, Option, none,
  some, List, [], ◌∷◌, map, ℤ, pos, ◌+ℤ◌, abs, ltb_ℤ, leb_ℤ, ltb, leb, ◌==◌, if◌then◌else◌, or_else,
  get_or_else, any, all, is_empty, folded, str_eq, Dict, lookup, insert,
}
use alpaca_connectors.Execution.Orders.Types.{
  Time, Quantity, OrderStatus, submitted, partially_filled, filled, cancelled, rejected, expired,
  failed, same_status, is_terminal_status, OrderRecord, terminal, AlpacaOrder,
}

-- One share, and QUANTITY_TOLERANCE, in units of 10⁻⁹.
abbrev pub share : ℕ
share = 1000000000

abbrev pub quantity_tolerance : ℕ
quantity_tolerance = 1

-- `round(quantity)` of a quantity that is not negative: to the nearest share, ties to even.
round_shares : ℕ → ℕ
round_shares n =
    let shares = n / share in
    let rest = n % share in
    if ltb (2 * rest) share
    then shares * share
    else if ltb share (2 * rest)
    then (shares + 1) * share
    else if shares % 2 == 0
    then shares * share
    else (shares + 1) * share

distance : ℕ → ℕ → ℕ
distance a b = (a - b) + (b - a)

-- `math.isclose(quantity, round(quantity), abs_tol=QUANTITY_TOLERANCE)`. Its relative tolerance is
-- the default, 10⁻⁹ of the larger of the two; the test is even in the sign.
unfoldable pub is_whole_quantity : Quantity → Bool
unfolding round_shares distance
is_whole_quantity q =
    let n = abs q in
    let whole = round_shares n in
    leb (distance n whole * share) (max n whole) || leb (distance n whole) quantity_tolerance

-- _ALPACA_STATUS_MAP
abbrev pub alpaca_status_map : Dict OrderStatus
alpaca_status_map =
    ("new", submitted)
    ∷ ("accepted", submitted)
    ∷ ("pending_new", submitted)
    ∷ ("accepted_for_bidding", submitted)
    ∷ ("pending_review", submitted)
    ∷ ("held", submitted)
    ∷ ("calculated", submitted)
    ∷ ("stopped", submitted)
    ∷ ("pending_cancel", submitted)
    ∷ ("pending_replace", submitted)
    ∷ ("partially_filled", partially_filled)
    ∷ ("filled", filled)
    ∷ ("canceled", cancelled)
    ∷ ("cancelled", cancelled)
    ∷ ("replaced", cancelled)
    ∷ ("expired", expired)
    ∷ ("rejected", rejected)
    ∷ ("suspended", failed)
    ∷ []

-- `_ALPACA_STATUS_MAP.get(normalized, "submitted")`
unfoldable pub listed_status : String → OrderStatus
listed_status name = get_or_else (lookup name alpaca_status_map) submitted

unfoldable pub map_alpaca_order_status : Option String → Quantity → Quantity → OrderStatus
unfolding listed_status
map_alpaca_order_status status filled_quantity quantity =
    let normalized = folded (get_or_else status "") in
    if str_eq normalized "done_for_day"
    then if leb_ℤ quantity (filled_quantity +ℤ pos quantity_tolerance) then filled else expired
    else listed_status normalized

-- `_terminal_time`
unfoldable pub terminal_time : AlpacaOrder → OrderStatus → Option Time
terminal_time order status =
    if is_terminal_status status
    then or_else order.filled_at (
        or_else order.canceled_at
          (or_else order.expired_at (or_else order.failed_at order.updated_at)))
    else none

-- `str(value or "") or old`
abbrev pub text_or : String → Option String → Option String
text_or new old = if is_empty new then old else some new

-- `a or b` on numbers, where zero counts as nothing.
abbrev pub nonzero_or : ℤ → ℤ → ℤ
nonzero_or a b = if abs a == 0 then b else a

unfoldable pub order_record_from_alpaca : OrderRecord → AlpacaOrder → OrderRecord
unfolding terminal_time
order_record_from_alpaca r order =
    let quantity = nonzero_or (get_or_else order.qty r.quantity) r.quantity in
    let filled_quantity = get_or_else order.filled_qty (pos 0) in
    let status = map_alpaca_order_status order.status filled_quantity quantity in
    record r {
      status = status;
      broker_order_id = text_or order.id r.broker_order_id;
      venue_status = order.status;
      filled_quantity = filled_quantity;
      average_fill_price = if ltb_ℤ (pos 0) filled_quantity then order.filled_avg_price else none;
      submitted_at = or_else order.submitted_at r.submitted_at;
      updated_at = or_else order.updated_at r.updated_at;
      terminal_at = or_else r.terminal_at (terminal_time order status);
      venue_symbol = text_or order.symbol r.venue_symbol;
      alpaca_asset_id = or_else order.asset_id r.alpaca_asset_id;
    }

-- An order that Alpaca refused at submission, with the default status "rejected".
unfoldable pub rejected_record : OrderRecord → String → Time → OrderRecord
rejected_record r message when = record r {
  status = rejected;
  message = some message;
  submitted_at = or_else r.submitted_at (some when);
  updated_at = some when;
  terminal_at = some when;
}

-- `{record.status for record in records}`, each status once.
abbrev pub add_status : OrderStatus → List OrderStatus → List OrderStatus
add_status s seen = if any (same_status s) seen then seen else s ∷ seen

unfoldable pub statuses : List OrderRecord → List OrderStatus
statuses [] = []
statuses (r ∷ rs) = add_status r.status (statuses rs)

-- `record.filled_quantity > 0`
abbrev pub has_fill : OrderRecord → Bool
has_fill r = ltb_ℤ (pos 0) r.filled_quantity

-- The last four returns of `batch_status`, on the set of statuses.
settled_status : List OrderStatus → Bool → OrderStatus
settled_status (filled ∷ []) _ = filled
settled_status _ true = partially_filled
settled_status (s ∷ []) false = s
settled_status _ false = failed

unfoldable pub batch_status : List OrderRecord → OrderStatus
unfolding statuses settled_status
batch_status [] = failed
batch_status (r ∷ rs) =
    if not (all terminal (r ∷ rs))
    then if any has_fill (r ∷ rs) then partially_filled else submitted
    else settled_status (statuses (r ∷ rs)) (any has_fill (r ∷ rs))

-- `{record.client_order_id: record.filled_quantity for record in before}`
unfoldable pub filled_by_id : Dict Quantity → List OrderRecord → Dict Quantity
filled_by_id d [] = d
filled_by_id d (r ∷ rs) = filled_by_id (insert r.client_order_id r.filled_quantity d) rs

-- The record carries more than the dict knew of it.
abbrev pub fill_grew : Dict Quantity → OrderRecord → Bool
fill_grew previous r =
    ltb_ℤ (get_or_else (lookup r.client_order_id previous) (pos 0) +ℤ pos quantity_tolerance)
      r.filled_quantity

unfoldable pub new_fills : List OrderRecord → List OrderRecord → Bool
unfolding filled_by_id
new_fills before after = any (fill_grew (filled_by_id [] before)) after
