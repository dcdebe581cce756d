-- ===== src/Portfolios/Checks.antt =====
-- `src/alpaca_connectors/portfolios/configurations.py`: the checks of single values.
use alpaca_connectors.Prelude.{
  true, false, ℕ, String, Bool, not, ◌&&◌, Option, none, some, List, [], ◌∷◌, if◌then◌else◌,
  is_empty, strip, folded, contains, leb, str_eq, text_length, ℤ, pos, leb_ℤ, ltb_ℤ,
}
use alpaca_connectors.Actions.{Result, ok, raise}
use alpaca_connectors.Actions.Checked.{◌>>?◌}

-- The exceptions, in place of their text.
pub data Fault : Type 0 where
  lookup_error value_error runtime_error platform_error : Fault

-- REBALANCE_STRATEGIES, REBALANCE_EVENTS, REBALANCE_CADENCES
abbrev pub rebalance_strategies : List String
rebalance_strategies = "calendar_event_signal" ∷ []

abbrev pub rebalance_events : List String
rebalance_events = "market_open" ∷ "market_close" ∷ []

abbrev pub rebalance_cadences : List String
rebalance_cadences = "every_session" ∷ "weekly" ∷ []

-- `_nonempty`, and `_name` with 255 as the maximum.
abbrev pub fits : ℕ → String → Bool
fits maximum text = not (is_empty text) && leb (text_length text) maximum

unfoldable pub nonempty : ℕ → String → Result Fault String
nonempty maximum value =
    let normalized = strip value in
    if fits maximum normalized then ok normalized else raise value_error

-- `_description`
unfoldable pub description_of : Option String → Option String
description_of none = none
description_of (some value) =
    let normalized = strip value in if is_empty normalized then none else some normalized

-- `_phase_one_value`
unfoldable pub phase_one_value : String → ℕ → String → Result Fault String
phase_one_value expected maximum value = nonempty maximum value >>? λ normalized.
    if str_eq normalized expected then ok normalized else raise value_error

abbrev pub one_of : List String → String → Result Fault String
one_of values text = if contains values text then ok text else raise value_error

-- `normalize_rebalance_strategy`
unfoldable pub normalize_rebalance_strategy : String → Result Fault String
normalize_rebalance_strategy value = one_of rebalance_strategies (folded value)

-- `normalize_rebalance_event`
unfoldable pub normalize_rebalance_event : String → Result Fault String
normalize_rebalance_event value = one_of rebalance_events (folded value)

-- `normalize_rebalance_cadence`
unfoldable pub normalize_rebalance_cadence : String → Result Fault String
normalize_rebalance_cadence value = one_of rebalance_cadences (folded value)

-- `_rebalance_weekday`
abbrev pub is_weekday : ℤ → Bool
is_weekday day = leb_ℤ (pos 0) day && leb_ℤ day (pos 6)

unfoldable pub rebalance_weekday : ℤ → Result Fault ℤ
rebalance_weekday value = if is_weekday value then ok value else raise value_error

-- `_positive_seconds`
unfoldable pub positive_seconds : ℤ → Result Fault ℤ
positive_seconds value = if ltb_ℤ (pos 0) value then ok value else raise value_error

-- A Python float: finite ones are whole numbers of 10⁻⁹ here.
pub data Float : Type 0 where
  nan infinity minus_infinity : Float
  finite : ℤ → Float

-- `fee < 0`, which is false of NaN.
abbrev pub below_zero : Float → Bool
below_zero nan = false
below_zero infinity = false
below_zero minus_infinity = true
below_zero (finite amount) = ltb_ℤ amount (pos 0)

-- The check of `commission_fee`.
unfoldable pub commission : Float → Result Fault Float
commission fee = if below_zero fee then raise value_error else ok fee
