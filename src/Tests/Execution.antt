-- ===== src/Tests/Execution.antt =====
-- Runs of the operations of `src/alpaca_connectors/execution`, and their theorems at inputs that
-- meet the conditions.
use alpaca_connectors.Prelude.{
  any, false, ◌≤◌, ◌≡◌, refl, String, true, not, none, some, List, [], ◌∷◌, arith, All, lower,
  upper, strip, folded, parse_uuid, drop_chars, ◌+ℤ◌, ◌-ℤ◌, ◌*ℤ◌, pos,
}
use alpaca_connectors.Execution.Orders.Types.{buy, from_leg}
use alpaca_connectors.Execution.Orders.Status.{
  is_whole_quantity, order_record_from_alpaca, batch_status, new_fills, map_alpaca_order_status,
  rejected_record, terminal_time,
}
use alpaca_connectors.Execution.Orders.Rows.{orders_ledger_rows, trades_ledger_rows}
use alpaca_connectors.Execution.Effects.{Call, Result, ok, raise, submitted_order, ◌>>=◌}
use alpaca_connectors.Execution.Broker.{
  read_lookup, find_alpaca_order, read_placement, place_order, reread, refresh_one, refresh,
  wait_from, wait_for_terminal,
}
use alpaca_connectors.Execution.Checks.{
  validate_legs, account_checks, parse_alpaca_asset_identifier, asset_ids, resolve_leg,
  resolve_legs, estimate_power,
}
use alpaca_connectors.Execution.Batch.{
  check_batch, read_account, read_alpaca_account, resolve_assets, live_assets, live_alpaca_asset,
  read_live, market_hours_check, read_clock, finish_checks, buying_power_check, estimate_buys,
}
use alpaca_connectors.Execution.Persist.{
  persist, ensure_batch, write_ledger, write_trade_rows, publish_holdings, after_capture,
  close_batch, batch_metadata, same_uid, OrderBatchResult,
}
use alpaca_connectors.Execution.Services.{
  submit_order_batch, complete_submission, place_batch, place_pending, look_up_all, place_all,
  settle_sells, get_all, put_all, refuse_failed, load_account_registration, preflight_order_batch,
  allowed, OrderBatchPreflight,
}
use alpaca_connectors.Execution.Services.Once.{placed_count, absent_count}
use alpaca_connectors.Execution.Services.Refusal.{
  is_refusal, submit_order_batch_refused, submit_order_batch-preflight_order_batch,
}
use alpaca_connectors.Execution.Services.Submission.{submit_order_batch_once}
use alpaca_connectors.Execution.Services.{sync_order_batch, cancel_order_batch}
use alpaca_connectors.Execution.Services.Outcome.{submit_order_batch_complete}
use alpaca_connectors.Execution.Services.Complete.{AndNotLost}
use alpaca_connectors.Execution.Services.Safety.{
  preflight_order_batch_silent, sync_order_batch-KeepsOrders, cancel_order_batch-PlacesNone,
  KeepsOrders, PlacesNone,
}
use alpaca_connectors.Execution.Broker.Identity.{record_ids}
use alpaca_connectors.Execution.Persist.{Saving}
use alpaca_connectors.Execution.Persist.Stored.{Stores, created_row, persist-Stores}
use alpaca_connectors.Execution.Orders.Types.{
  filled, OrderRecord, OrderBatchSubmission, AlpacaOrder,
}
use alpaca_connectors.Execution.Orders.Status.Laws.{
  not_filled, batch_status_filled, order_record_from_alpaca_twice, is_whole_quantity_large,
}
use alpaca_connectors.Tests.Broker.{
  Orders, fake, leg, two_legs, repeated_legs, registration, filled_order,
}

submit : OrderBatchSubmission → Orders → Result OrderBatchResult × List Call × Orders
unfolding submit_order_batch complete_submission place_batch place_pending look_up_all place_all
    settle_sells get_all put_all refuse_failed load_account_registration ◌>>=◌ persist ensure_batch
    write_ledger write_trade_rows publish_holdings after_capture close_batch batch_metadata same_uid
    check_batch read_account read_alpaca_account resolve_assets live_assets live_alpaca_asset
    read_live market_hours_check read_clock finish_checks buying_power_check estimate_buys
    validate_legs account_checks parse_alpaca_asset_identifier asset_ids resolve_leg resolve_legs
    estimate_power read_lookup find_alpaca_order read_placement place_order reread refresh_one
    refresh wait_from wait_for_terminal order_record_from_alpaca batch_status new_fills
    map_alpaca_order_status rejected_record terminal_time orders_ledger_rows trades_ledger_rows
    drop_chars ◌+ℤ◌ ◌-ℤ◌ ◌*ℤ◌ upper lower strip folded parse_uuid from_leg is_whole_quantity
submit = submit_order_batch fake "account"

preflight : OrderBatchSubmission → Orders → Result OrderBatchPreflight × List Call × Orders
unfolding preflight_order_batch submit_order_batch complete_submission place_batch place_pending
    look_up_all place_all settle_sells get_all put_all refuse_failed load_account_registration ◌>>=◌
    persist ensure_batch write_ledger write_trade_rows publish_holdings after_capture close_batch
    batch_metadata same_uid check_batch read_account read_alpaca_account resolve_assets live_assets
    live_alpaca_asset read_live market_hours_check read_clock finish_checks buying_power_check
    estimate_buys validate_legs account_checks parse_alpaca_asset_identifier asset_ids resolve_leg
    resolve_legs estimate_power read_lookup find_alpaca_order read_placement place_order reread
    refresh_one refresh wait_from wait_for_terminal order_record_from_alpaca batch_status new_fills
    map_alpaca_order_status rejected_record terminal_time orders_ledger_rows trades_ledger_rows
    drop_chars ◌+ℤ◌ ◌-ℤ◌ ◌*ℤ◌ upper lower strip folded parse_uuid from_leg is_whole_quantity
preflight = preflight_order_batch fake "account"

abbrev submissions : List Call → List String
submissions [] = []
submissions (submitted_order q ∷ cs) = q.client_order_id ∷ submissions cs
submissions (_ ∷ cs) = submissions cs

-- The sell goes before the buy.
submits_sells_first : submissions (submit two_legs []).1 ≡ "s" ∷ "b" ∷ []
unfolding submit
submits_sells_first = refl

submit_order_batch_once_example :
    let calls = (submit_order_batch fake "account" two_legs []).1 in
    (placed_count "b" calls ≤ 1) × (placed_count "b" calls ≤ absent_count "b" calls)
submit_order_batch_once_example =
    submit_order_batch_once fake (omega arith) "b" "account" two_legs []

-- Its result has the orders of the legs, in their order.
submit_order_batch_complete_example :
    let (result, calls, _) = submit_order_batch fake "account" two_legs [] in
    AndNotLost (λ r. record_ids r.orders ≡ "b" ∷ "s" ∷ []) result calls
submit_order_batch_complete_example =
    submit_order_batch_complete fake (omega arith) "account" two_legs []

repeated_is_refused : is_refusal (submit_order_batch fake "account" repeated_legs []).0 ≡ true
unfolding submit
repeated_is_refused = refl

submit_order_batch_refused_example : (submit_order_batch fake "account" repeated_legs []).1 ≡ []
submit_order_batch_refused_example =
    submit_order_batch_refused fake (omega arith) "account" repeated_legs [] repeated_is_refused

abbrev preflight_in : Result OrderBatchPreflight → OrderBatchPreflight
preflight_in (ok p) = p
preflight_in (raise _) = record {
  batch_id = "";
  account_uid = "";
  orders = [];
  blockers = [];
  warnings = [];
}

abbrev two_legs_preflight : OrderBatchPreflight
two_legs_preflight = preflight_in (preflight_order_batch fake "account" two_legs []).0

preflight_ends : (preflight_order_batch fake "account" two_legs []).0 ≡ ok two_legs_preflight
unfolding preflight
preflight_ends = refl

submit_order_batch-preflight_order_batch_example :
    is_refusal (submit_order_batch fake "account" two_legs []).0 ≡ not (allowed two_legs_preflight)
submit_order_batch-preflight_order_batch_example =
    submit_order_batch-preflight_order_batch fake (omega arith) "account" two_legs [] preflight_ends

preflight_order_batch_silent_example : (preflight_order_batch fake "account" two_legs []).1 ≡ []
preflight_order_batch_silent_example = preflight_order_batch_silent fake "account" two_legs []

sync_order_batch-KeepsOrders_example :
    All KeepsOrders (sync_order_batch fake "account" "stored" []).1
sync_order_batch-KeepsOrders_example = sync_order_batch-KeepsOrders fake "account" "stored" []

cancel_order_batch-PlacesNone_example :
    All PlacesNone (cancel_order_batch fake "account" "stored" []).1
cancel_order_batch-PlacesNone_example = cancel_order_batch-PlacesNone fake "account" "stored" []

-- A batch that was not there, with one order.
abbrev saving : Saving
saving = record {
  registration = registration;
  batch_id = "fresh";
  previous = [];
  records = from_leg (leg "b" buy) ∷ [];
  time = 9;
  warnings = [];
  message = none;
}

persist-Stores_example :
    let (result, calls, _) = persist fake saving none [] in
    Stores saving none (created_row fake saving []) result calls
persist-Stores_example = persist-Stores fake saving none []

abbrev half_filled : AlpacaOrder
half_filled =
    record (filled_order
      (record { symbol = "AAPL"; qty = pos 2000000000; side = buy; client_order_id = "b" })) {
        status = some "partially_filled";
        filled_qty = some (pos 1000000000);
      }

order_record_from_alpaca_twice_example :
    let once = order_record_from_alpaca (from_leg (leg "b" buy)) half_filled in
    order_record_from_alpaca once half_filled ≡ once
order_record_from_alpaca_twice_example =
    order_record_from_alpaca_twice (from_leg (leg "b" buy)) half_filled

-- 500,000,000.4 shares.
is_whole_quantity_large_example : is_whole_quantity (pos 500000000400000000) ≡ true
is_whole_quantity_large_example = is_whole_quantity_large 500000000400000000 (omega arith)

abbrev filled_leg : OrderRecord
filled_leg = record (from_leg (leg "b" buy)) { status = filled; filled_quantity = pos 2000000000 }

is_filled_batch : batch_status (filled_leg ∷ []) ≡ filled
unfolding batch_status from_leg
is_filled_batch = refl

batch_status_filled_example : any (λ q. not_filled q.status) (filled_leg ∷ []) ≡ false
batch_status_filled_example = batch_status_filled filled_leg [] is_filled_batch
