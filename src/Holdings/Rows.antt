-- ===== src/Holdings/Rows.antt =====
-- `src/alpaca_connectors/holdings/account.py`: positions and cash as rows of holdings. Quantities are
-- whole numbers of 10⁻⁹, read before.
use Prim.Native.String.{compare}
use Prim.Native.Nat.{Ordering}
use alpaca_connectors.Prelude.{
  ℕ, String, Bool, true, false, ◌||◌, Option, none, some, List, [], ◌∷◌, ◌++◌, if◌then◌else◌,
  is_empty, str_eq, ℤ, pos, abs, ltb_ℤ, ◌==◌,
}

-- DEFAULT_CASH_ASSET_IDENTIFIER
abbrev pub default_cash_asset_identifier : String
default_cash_asset_identifier = "USD"

-- Alpaca's `Position`; the values that are copied are texts.
pub record Position : Type 0 where
  pub asset_id : Option String
  pub symbol : Option String
  pub asset_class : Option String
  pub exchange : Option String
  pub side : Option String
  pub qty : Option ℤ
  pub avg_entry_price : Option String
  pub market_value : Option String
  pub cost_basis : Option String
  pub unrealized_pl : Option String
  pub current_price : Option String

-- `direction`, 1 or -1.
pub data Direction : Type 0 where
  long short : Direction

-- `extra_details`
pub data ExtraDetails : Type 0 where
  cash_details : ExtraDetails
  position_details : Position → ExtraDetails

pub record HoldingsRow : Type 0 where
  pub asset_identifier : String
  pub quantity : ℕ
  pub direction : Direction
  pub extra_details : ExtraDetails

-- `_to_decimal(...) or Decimal(0)`
abbrev pub quantity_of : Position → ℤ
quantity_of p = elim p.qty [ none ↦ pos 0 | some q ↦ q ]

abbrev pub is_zero : ℤ → Bool
is_zero q = abs q == 0

-- The identifier, where an empty one is none.
abbrev pub filled : Option String → Option String
filled none = none
filled (some text) = if is_empty text then none else some text

abbrev pub is_short : Option String → Bool
is_short none = false
is_short (some side) = str_eq side "short"

abbrev pub direction_of : Position → ℤ → Direction
direction_of p q = if is_short p.side || ltb_ℤ q (pos 0) then short else long

abbrev pub position_row : Position → String → HoldingsRow
position_row p identifier = record {
  asset_identifier = identifier;
  quantity = abs (quantity_of p);
  direction = direction_of p (quantity_of p);
  extra_details = position_details p;
}

-- `asset_id or symbol or "unknown"`
abbrev name_of_both : Option String → Option String → String
name_of_both (some id) symbol = id
name_of_both none (some symbol) = symbol
name_of_both none none = "unknown"

abbrev pub unresolved_name : Position → String
unresolved_name p = name_of_both (filled p.asset_id) (filled p.symbol)

abbrev pub add_position :
    Position → Option String → List HoldingsRow × List String → List HoldingsRow × List String
add_position p (some identifier) (rows, unresolved) = (position_row p identifier ∷ rows, unresolved)
add_position p none (rows, unresolved) = (rows, unresolved_name p ∷ unresolved)

-- The loop over the positions, and the resolver that it is given.
unfoldable pub position_rows :
    (Position → Option String) → List Position → List HoldingsRow × List String
position_rows resolve_asset [] = ([], [])
position_rows resolve_asset (p ∷ ps) =
    let rest = position_rows resolve_asset ps in
    if is_zero (quantity_of p) then rest else add_position p (filled (resolve_asset p)) rest

-- Order of texts by their characters.
abbrev pub text_before : String → String → Bool
text_before a b = elim (compare a b) [ Ordering.lt ↦ true | _ ↦ false ]

abbrev pub insert_text : String → List String → List String
insert_text t [] = t ∷ []
insert_text t (u ∷ us) =
    if str_eq t u then u ∷ us else if text_before t u then t ∷ u ∷ us else u ∷ insert_text t us

-- `sorted(set(texts))`
unfoldable pub sorted_set : List String → List String
sorted_set [] = []
sorted_set (t ∷ ts) = insert_text t (sorted_set ts)

-- A row for the cash, unless there is no currency, no amount or an amount of zero.
abbrev pub cash_row : String → ℤ → HoldingsRow
cash_row currency amount = record {
  asset_identifier = currency;
  quantity = abs amount;
  direction = if ltb_ℤ amount (pos 0) then short else long;
  extra_details = cash_details;
}

abbrev pub cash_rows : Option String → Option ℤ → List HoldingsRow
cash_rows (some currency) (some amount) =
    if is_zero amount then [] else cash_row currency amount ∷ []
cash_rows _ _ = []

-- `build_account_holdings_rows`
unfoldable pub build_account_holdings_rows :
    (Position → Option String)
    → List Position
    → Option ℤ
    → Option String
    → List HoldingsRow × List String
build_account_holdings_rows resolve_asset positions cash currency =
    let (rows, unresolved) = position_rows resolve_asset positions in
    (rows ++ cash_rows (filled currency) cash, sorted_set unresolved)
