-- ===== src/MarketData/Bars.antt =====
-- `src/alpaca_connectors/market_data/alpaca_bars_support.py`: the names of frequencies, feeds and
-- symbols, the start of the current period, and the Alpaca symbols of assets. Alpaca's catalogue of
-- assets is a parameter, as the list of its symbols.
pub mod Periods
pub mod Symbols
pub mod Groups
use Prim.Native.Char.{Char, code}
use Prim.Native.String.{char_at, count}
use alpaca_connectors.Prelude.{
  ℕ, ◌+◌, ◌-◌, ◌*◌, ◌/◌, ◌%◌, String, ◌<>◌, Bool, true, false, not, ◌&&◌, ◌||◌, Option, none, some,
  List, [], ◌∷◌, ◌++◌, if◌then◌else◌, get_or_else, is_empty, contains, upper, lower, strip, folded,
  head_chars, drop_chars, leb, ltb, ◌==◌, str_eq, starts_with, parse_uuid, is_some, Dict, lookup,
  insert,
}

-- Microseconds since the epoch, UTC, and lengths of time.
abbrev pub Time : Type 0
Time = ℕ

abbrev pub minute : ℕ
minute = 60000000

abbrev pub hour : ℕ
hour = 3600000000

abbrev pub day : ℕ
day = 86400000000

-- SUPPORTED_ALPACA_BAR_FREQUENCIES
abbrev pub supported_alpaca_bar_frequencies : List String
supported_alpaca_bar_frequencies = "1m" ∷ "5m" ∷ "15m" ∷ "30m" ∷ "1h" ∷ "1d" ∷ []

-- `aliases`
abbrev pub frequency_aliases : Dict String
frequency_aliases =
    ("1min", "1m")
    ∷ ("1mins", "1m")
    ∷ ("5min", "5m")
    ∷ ("5mins", "5m")
    ∷ ("15min", "15m")
    ∷ ("15mins", "15m")
    ∷ ("30min", "30m")
    ∷ ("30mins", "30m")
    ∷ ("60m", "1h")
    ∷ ("1hr", "1h")
    ∷ ("1hour", "1h")
    ∷ ("1day", "1d")
    ∷ ("1days", "1d")
    ∷ []

abbrev pub supported_only : List String → String → Option String
supported_only supported name = if contains supported name then some name else none

-- `normalize_frequency_id`; `none` is its ValueError.
unfoldable pub normalize_frequency_id : String → Option String
normalize_frequency_id frequency =
    let name = folded frequency in
    supported_only supported_alpaca_bar_frequencies
      (get_or_else (lookup name frequency_aliases) name)

-- `mapping` of `frequency_id_to_timedelta`
abbrev pub timedeltas : Dict ℕ
timedeltas =
    ("1m", minute)
    ∷ ("5m", 5 * minute)
    ∷ ("15m", 15 * minute)
    ∷ ("30m", 30 * minute)
    ∷ ("1h", hour)
    ∷ ("1d", day)
    ∷ []

abbrev pub timedelta_of : Option String → Option ℕ
timedelta_of none = none
timedelta_of (some name) = lookup name timedeltas

-- `frequency_id_to_timedelta`
unfoldable pub frequency_id_to_timedelta : String → Option ℕ
frequency_id_to_timedelta frequency = timedelta_of (normalize_frequency_id frequency)

-- `minutes` of `current_period_start`
abbrev pub period_minutes : Dict ℕ
period_minutes = ("1m", 1) ∷ ("5m", 5) ∷ ("15m", 15) ∷ ("30m", 30) ∷ []

-- `now_utc.replace(minute=(now_utc.minute // minutes) * minutes, second=0, microsecond=0)`
abbrev pub floored_minutes : Time → Option ℕ → Option Time
floored_minutes now none = none
floored_minutes now (some minutes) =
    some (now / hour * hour + now % hour / minute / minutes * minutes * minute)

abbrev pub period_start : Time → Option String → Option Time
period_start now none = none
period_start now (some name) =
    if str_eq name "1d"
    then some (now / day * day)
    else if str_eq name "1h"
    then some (now / hour * hour)
    else floored_minutes now (lookup name period_minutes)

-- `current_period_start`
unfoldable pub current_period_start : Time → String → Option Time
current_period_start now frequency = period_start now (normalize_frequency_id frequency)

-- `text.replace(old, new)` of one character, which is given by its code.
unfoldable pub replace : ℕ → Char → String → String
replace old new String.[] = String.[]
replace old new (String.◌∷◌ c text) =
    String.◌∷◌ (if code c == old then new else c) (replace old new text)

-- `separator in text`
unfoldable pub has_char : ℕ → String → Bool
has_char wanted String.[] = false
has_char wanted (String.◌∷◌ c text) = code c == wanted || has_char wanted text

abbrev pub dots : String → String
dots text = replace b'-' (char_at "." 0) (replace b'/' (char_at "." 0) text)

abbrev pub slashes : String → String
slashes text = replace b'-' (char_at "/" 0) (replace b'.' (char_at "/" 0) text)

abbrev pub dashes : String → String
dashes text = replace b'/' (char_at "-" 0) (replace b'.' (char_at "-" 0) text)

-- The last letter taken for a share class.
abbrev pub share_classes : String → List String
share_classes symbol =
    let n = count symbol - 1 in
    let base = head_chars n symbol in
    let suffix = drop_chars n symbol in
    (base <> ("." <> suffix)) ∷ (base <> ("/" <> suffix)) ∷ (base <> ("-" <> suffix)) ∷ []

abbrev pub has_separator : String → Bool
has_separator symbol = has_char b'.' symbol || (has_char b'/' symbol || has_char b'-' symbol)

abbrev pub alias_candidates : String → List String
alias_candidates symbol =
    dots symbol
    ∷ slashes symbol
    ∷ dashes symbol
    ∷ (if not (has_separator symbol) && leb 3 (count symbol) then share_classes symbol else [])

-- The last loop of `_build_symbol_alias_candidates`.
unfoldable pub add_candidates : List String → List String → List String
add_candidates candidates [] = candidates
add_candidates candidates (alias ∷ aliases) =
    if not (is_empty alias) && not (contains candidates alias)
    then add_candidates (candidates ++ (alias ∷ [])) aliases
    else add_candidates candidates aliases

-- `_build_symbol_alias_candidates`
unfoldable pub build_symbol_alias_candidates : String → List String
build_symbol_alias_candidates symbol =
    let normalized = upper (strip symbol) in
    if is_empty normalized
    then []
    else add_candidates (normalized ∷ []) (alias_candidates normalized)

-- The inner loop of `build_alpaca_symbol_lookup`.
unfoldable pub put_candidates : String → List String → Dict String → Dict String
put_candidates symbol [] d = d
put_candidates symbol (candidate ∷ candidates) d =
    put_candidates symbol candidates (insert candidate symbol d)

-- `build_alpaca_symbol_lookup`, from the symbols of the catalogue.
unfoldable pub symbol_lookup_from : Dict String → List String → Dict String
symbol_lookup_from d [] = d
symbol_lookup_from d (symbol ∷ symbols) =
    symbol_lookup_from (put_candidates symbol (build_symbol_alias_candidates symbol) d) symbols

abbrev pub build_alpaca_symbol_lookup : List String → Dict String
build_alpaca_symbol_lookup symbols = symbol_lookup_from [] symbols

-- `_is_canonical_alpaca_asset_identifier`
unfoldable pub is_canonical_alpaca_asset_identifier : String → Bool
is_canonical_alpaca_asset_identifier identifier =
    starts_with identifier "ALPACA::" && is_some (parse_uuid (drop_chars 8 identifier))

-- `AssetTickerFigi`, without the reference that nothing here reads.
pub record AssetTicker : Type 0 where
  pub unique_identifier : String
  pub ticker : Option String

-- `AlpacaBarAssetBinding`
pub record AlpacaBarAssetBinding : Type 0 where
  pub asset : AssetTicker
  pub unique_identifier : String
  pub alpaca_symbol : String

-- The first candidate that the lookup has.
unfoldable pub first_symbol : Dict String → List String → Option String
first_symbol d [] = none
first_symbol d (candidate ∷ candidates) = elim (lookup candidate d) [
  | none ↦ first_symbol d candidates
  | some symbol ↦ some symbol
]

abbrev pub or_stored : AssetTicker → String → Option String → Option String
or_stored asset ticker (some symbol) = some symbol
or_stored asset ticker none =
    if is_canonical_alpaca_asset_identifier asset.unique_identifier
    then some (upper (strip ticker))
    else none

-- The Alpaca symbol of one asset.
unfoldable pub resolve_symbol : Dict String → AssetTicker → Option String → Option String
resolve_symbol d asset none = none
resolve_symbol d asset (some ticker) =
    if is_empty ticker
    then none
    else or_stored asset ticker (first_symbol d (build_symbol_alias_candidates ticker))

-- A round of the loop: one more binding or one more asset that is not resolved.
abbrev pub add_resolution :
    AssetTicker
    → Option String
    → List AlpacaBarAssetBinding × List AssetTicker
    → List AlpacaBarAssetBinding × List AssetTicker
add_resolution asset none (bindings, unresolved) = (bindings, asset ∷ unresolved)
add_resolution asset (some symbol) (bindings, unresolved) = (
  record { asset = asset; unique_identifier = asset.unique_identifier; alpaca_symbol = symbol }
      ∷ bindings,
  unresolved,
)

unfoldable pub resolve_all :
    Dict String → List AssetTicker → List AlpacaBarAssetBinding × List AssetTicker
resolve_all d [] = ([], [])
resolve_all d (asset ∷ assets) =
    add_resolution asset (resolve_symbol d asset asset.ticker) (resolve_all d assets)

abbrev pub all_resolved :
    List AlpacaBarAssetBinding × List AssetTicker → Option (List AlpacaBarAssetBinding)
all_resolved (bindings, []) = some bindings
all_resolved (bindings, _ ∷ _) = none

-- `resolve_asset_bindings_from_category_assets`; `none` is its ValueError.
unfoldable pub resolve_asset_bindings :
    List String → List AssetTicker → Option (List AlpacaBarAssetBinding)
resolve_asset_bindings catalogue assets =
    all_resolved (resolve_all (build_alpaca_symbol_lookup catalogue) assets)
