-- ===== src/Execution/Checks.antt =====
-- `src/alpaca_connectors/execution/services.py`: the pre-trade checks.
use Prim.Native.String.{count}
use alpaca_connectors.Prelude.{
  String, Bool, ◌&&◌, ◌||◌, not, Option, none, some, List, [], ◌∷◌, ◌++◌, map, pos, ◌+ℤ◌, ◌-ℤ◌,
  ◌*ℤ◌, ltb_ℤ, leb_ℤ, if◌then◌else◌, or_else, get_or_else, is_some, is_empty, contains, select,
  upper, lower, strip, str_eq, Dict, lookup, insert, Uuid, parse_uuid, starts_with, drop_chars,
}
use alpaca_connectors.Execution.Orders.Types.{
  Price, OrderRecord, OrderLegSpec, from_leg, is_buy, is_sell, supported_order_types,
  supported_time_in_force, PreTradeCheck, CheckCode, unknown_asset, duplicate_client_order_id,
  unsupported_order_type, unsupported_time_in_force, invalid_quantity, account_inactive,
  account_not_tradable, asset_not_registered, asset_not_tradable, fractional_quantity_not_allowed,
  insufficient_buying_power,
}
use alpaca_connectors.Execution.Orders.Status.{is_whole_quantity}
use alpaca_connectors.Execution.Effects.{
  Money, AlpacaAccount, AlpacaAsset, Warning, listed_under, buying_power_not_estimated,
  no_buying_power_reported, Registration,
}

abbrev pub of_leg : CheckCode → OrderLegSpec → PreTradeCheck
of_leg code leg = record { code = code; client_order_id = some leg.client_order_id }

abbrev pub of_batch : CheckCode → PreTradeCheck
of_batch code = record { code = code; client_order_id = none }

-- `if failed: checks.append(check)`
abbrev pub check_if : Bool → PreTradeCheck → List PreTradeCheck
check_if failed check = if failed then check ∷ [] else []

-- The loop of `_validate_legs`; `seen` holds the client_order_ids so far.
unfoldable pub validate_legs : List String → List OrderLegSpec → List PreTradeCheck
validate_legs seen [] = []
validate_legs seen (leg ∷ legs) =
    check_if (contains seen leg.client_order_id) (of_leg duplicate_client_order_id leg)
    ++ (check_if (not (contains supported_order_types leg.order_type))
          (of_leg unsupported_order_type leg)
        ++ (check_if (not (contains supported_time_in_force leg.time_in_force))
              (of_leg unsupported_time_in_force leg)
            ++ (check_if (leb_ℤ leg.quantity (pos 0)) (of_leg invalid_quantity leg)
                ++ validate_legs (leg.client_order_id ∷ seen) legs)))

-- `_account_checks`
unfoldable pub account_checks : Registration → AlpacaAccount → List PreTradeCheck
account_checks registration account =
    check_if (not registration.account_is_active) (of_batch account_inactive)
    ++ (check_if (not (str_eq (upper (get_or_else account.status "")) "ACTIVE"))
          (of_batch account_not_tradable)
        ++ (check_if account.trading_blocked (of_batch account_not_tradable)
            ++ (check_if account.account_blocked (of_batch account_not_tradable)
                ++ check_if account.trade_suspended_by_user (of_batch account_not_tradable))))

abbrev pub alpaca_identifier_prefix : String
alpaca_identifier_prefix = "ALPACA::"

-- `parse_alpaca_asset_identifier`, with `parse_alpaca_unique_identifier` of
-- `src/alpaca_connectors/assets/alpaca_asset_details.py`.
unfoldable pub parse_alpaca_asset_identifier : String → Option Uuid
parse_alpaca_asset_identifier identifier =
    if starts_with identifier alpaca_identifier_prefix
    then parse_uuid (strip (drop_chars (count alpaca_identifier_prefix) identifier))
    else none

-- `asset_ids`: the Alpaca identity behind each distinct identifier of the batch.
unfoldable pub asset_ids : Dict (Option Uuid) → List OrderLegSpec → Dict (Option Uuid)
asset_ids ids [] = ids
asset_ids ids (leg ∷ legs) =
    asset_ids (insert leg.asset_identifier (parse_alpaca_asset_identifier leg.asset_identifier) ids)
      legs

-- The identifiers that have one.
abbrev pub known_identifiers : Dict (Option Uuid) → List String
known_identifiers ids = map (λ (name, _). name) (select (λ (_, id). is_some id) ids)

-- `str(value or "") or default`
abbrev pub nonempty_or : String → String → String
nonempty_or text default = if is_empty text then default else text

-- What one leg came to: its record, its failed checks, its warnings.
pub record Resolved : Type 0 where
  pub order : OrderRecord
  pub checks : List PreTradeCheck
  pub warnings : List Warning

abbrev asset_is_active : AlpacaAsset → Bool
asset_is_active asset = str_eq (lower (nonempty_or (get_or_else asset.status "") "active")) "active"

-- The rest of the loop body of `_resolve_assets`, once the live asset is there.
unfoldable pub resolve_live : OrderLegSpec → Uuid → List PreTradeCheck → AlpacaAsset → Resolved
resolve_live leg asset_id before asset =
    let venue_symbol = nonempty_or (upper asset.symbol) leg.symbol in
    record {
      order = record (from_leg leg) {
        venue_symbol = some venue_symbol;
        alpaca_asset_id = some asset_id;
      };
      checks =
          before
          ++ (check_if (not asset.tradable || not (asset_is_active asset))
                (of_leg asset_not_tradable leg)
              ++ check_if (not (is_whole_quantity leg.quantity) && not asset.fractionable)
                  (of_leg fractional_quantity_not_allowed leg));
      warnings =
          if str_eq venue_symbol (upper leg.symbol)
          then []
          else listed_under leg.client_order_id venue_symbol ∷ [];
    }

-- The loop body of `_resolve_assets`, by the leg's asset id and its live asset.
unfoldable pub resolve_leg :
    List String → OrderLegSpec → Option Uuid → Option AlpacaAsset → Resolved
unfolding resolve_live
resolve_leg registered leg none live = record {
  order = from_leg leg;
  checks = of_leg unknown_asset leg ∷ [];
  warnings = [];
}
resolve_leg registered leg (some id) none = record {
  order = from_leg leg;
  checks =
      check_if (not (contains registered leg.asset_identifier)) (of_leg asset_not_registered leg)
      ++ (of_leg unknown_asset leg ∷ []);
  warnings = [];
}
resolve_leg registered leg (some id) (some asset) =
    resolve_live leg id
      (check_if (not (contains registered leg.asset_identifier)) (of_leg asset_not_registered leg))
      asset

-- A dict of optional values, read at a key that may be missing.
abbrev pub get_flat : {V : Type 0} → String → Dict (Option V) → Option V
get_flat k d = get_or_else (lookup k d) none

-- The loop of `_resolve_assets`: the records, the checks and the warnings.
unfoldable pub resolve_legs :
    List String
    → Dict (Option Uuid)
    → Dict (Option AlpacaAsset)
    → List OrderLegSpec
    → List OrderRecord × List PreTradeCheck × List Warning
unfolding resolve_leg
resolve_legs registered ids live [] = ([], [], [])
resolve_legs registered ids live (leg ∷ legs) =
    let one =
      resolve_leg registered leg (get_flat leg.asset_identifier ids)
        (get_flat leg.asset_identifier live) in
    let (records, checks, warnings) = resolve_legs registered ids live legs in
    (one.order ∷ records, one.checks ++ checks, one.warnings ++ warnings)

-- `record.venue_symbol or record.symbol`
abbrev pub venue_name : OrderRecord → String
venue_name r = get_or_else r.venue_symbol r.symbol

-- The sum of quantity times price; a price that is missing counts as 0.
unfoldable pub value_of : Dict Price → List OrderRecord → Money
value_of prices [] = pos 0
value_of prices (r ∷ rs) =
    r.quantity *ℤ get_or_else (lookup (venue_name r) prices) (pos 0) +ℤ value_of prices rs

-- BUYING_POWER_TOLERANCE, 0.01, in units of 10⁻¹⁸.
abbrev pub buying_power_tolerance : Money
buying_power_tolerance = pos 10000000000000000

abbrev pub Findings : Type 0
Findings = List PreTradeCheck × List Warning

-- `_buying_power_check` once the prices are there and every buy has one.
unfoldable pub power_verdict : Option Money → Money → Findings
power_verdict none required = ([], no_buying_power_reported ∷ [])
power_verdict (some available) required = (
  check_if (ltb_ℤ (available +ℤ buying_power_tolerance) required)
      (of_batch insufficient_buying_power),
  [],
)

abbrev pub buys_of : List OrderRecord → List OrderRecord
buys_of = select (λ r. is_buy r.side)

abbrev pub sells_of : List OrderRecord → List OrderRecord
sells_of = select (λ r. is_sell r.side)

-- `unpriced`: the buys that have no price.
abbrev pub unpriced : Dict Price → List OrderRecord → List OrderRecord
unpriced prices = select (λ r. not (is_some (lookup (venue_name r) prices)))

-- `required`
abbrev pub required_cash : Dict Price → List OrderRecord → Money
required_cash prices records =
    value_of prices (buys_of records) -ℤ value_of prices (sells_of records)

-- `_buying_power_check` from the prices on.
unfoldable pub estimate_power : AlpacaAccount → List OrderRecord → Dict Price → Findings
unfolding value_of power_verdict
estimate_power account records prices = elim (unpriced prices (buys_of records)) [
  | r ∷ rs ↦ ([], buying_power_not_estimated (map (λ o. o.client_order_id) (r ∷ rs)) ∷ [])
  | [] ↦ power_verdict (or_else account.buying_power account.cash) (required_cash prices records)
]
