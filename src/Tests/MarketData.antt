-- ===== src/Tests/MarketData.antt =====
-- The helpers of `src/alpaca_connectors/market_data/alpaca_bars_support.py` at a few inputs.
use alpaca_connectors.Prelude.{
  String, ◌*◌, ◌≤◌, ◌≡◌, refl, arith, All, length, Option, none, some, List, [], ◌∷◌, lookup, upper,
  lower, strip, folded, head_chars, drop_chars, parse_uuid,
}
use alpaca_connectors.MarketData.Bars.{
  Time, minute, normalize_frequency_id, frequency_id_to_timedelta, current_period_start,
  build_symbol_alias_candidates, add_candidates, replace, has_char, put_candidates,
  symbol_lookup_from, build_alpaca_symbol_lookup, AssetTicker, AlpacaBarAssetBinding,
  resolve_asset_bindings, resolve_all, resolve_symbol, first_symbol,
  is_canonical_alpaca_asset_identifier,
}
use alpaca_connectors.MarketsApi.{
  read_all_pages, page_of, read_all_pages_lem, batches, concat, unique_from, batches_lem,
}
use alpaca_connectors.MarketData.Bars.Groups.{
  group_bindings_by_last_update, group_from, add_binding, IsRising, size,
  group_bindings_by_last_update-IsRising,
}
use alpaca_connectors.MarketData.Bars.Periods.{StartsPeriod, current_period_start_lem}
use alpaca_connectors.MarketData.Bars.Symbols.{
  times, last_with, binding_ids, asset_identifiers, build_symbol_alias_candidates_once,
  build_alpaca_symbol_lookup_last, resolve_asset_bindings_all,
}

five_minutes : frequency_id_to_timedelta " 5Mins" ≡ some (5 * minute)
unfolding frequency_id_to_timedelta normalize_frequency_id folded strip lower
five_minutes = refl

current_period_start_lem_example :
    (start : Time) × (current_period_start 1700000000000000 " 5Mins" ≡ some start)
    × StartsPeriod 1700000000000000 (5 * minute) start
current_period_start_lem_example =
    current_period_start_lem 1700000000000000 " 5Mins" (5 * minute) five_minutes

build_symbol_alias_candidates_once_example :
    times "BRK.B" (build_symbol_alias_candidates "brk/b") ≤ 1
build_symbol_alias_candidates_once_example = build_symbol_alias_candidates_once "brk/b" "BRK.B"

build_alpaca_symbol_lookup_last_example :
    lookup "BRK.B" (build_alpaca_symbol_lookup ("BRK.B" ∷ "BRKB" ∷ []))
    ≡ last_with "BRK.B" none ("BRK.B" ∷ "BRKB" ∷ [])
build_alpaca_symbol_lookup_last_example =
    build_alpaca_symbol_lookup_last "BRK.B" ("BRK.B" ∷ "BRKB" ∷ [])

abbrev brk : AssetTicker
brk = record {
  unique_identifier = "ALPACA::00000000-0000-0000-0000-000000000007";
  ticker = some "BRK.B";
}

bind : List AssetTicker → Option (List AlpacaBarAssetBinding)
unfolding resolve_asset_bindings resolve_all resolve_symbol first_symbol
    is_canonical_alpaca_asset_identifier symbol_lookup_from put_candidates
    build_symbol_alias_candidates add_candidates replace has_char head_chars drop_chars upper strip
    parse_uuid
bind = resolve_asset_bindings ("BRK.B" ∷ "BRKB" ∷ [])

-- A symbol listed later takes over the spelling of another one.
binds_later_symbol :
    bind (brk ∷ [])
    ≡ some (
        record { asset = brk; unique_identifier = brk.unique_identifier; alpaca_symbol = "BRKB" }
        ∷ [])
unfolding bind
binds_later_symbol = refl

is_bound :
    resolve_asset_bindings ("BRK.B" ∷ "BRKB" ∷ []) (brk ∷ [])
    ≡ some (
        record { asset = brk; unique_identifier = brk.unique_identifier; alpaca_symbol = "BRKB" }
        ∷ [])
unfolding bind
is_bound = refl

resolve_asset_bindings_all_example :
    binding_ids (
      record { asset = brk; unique_identifier = brk.unique_identifier; alpaca_symbol = "BRKB" }
      ∷ [])
    ≡ asset_identifiers (brk ∷ [])
resolve_asset_bindings_all_example =
    resolve_asset_bindings_all ("BRK.B" ∷ "BRKB" ∷ []) (brk ∷ [])
      (record { asset = brk; unique_identifier = brk.unique_identifier; alpaca_symbol = "BRKB" }
        ∷ [])
      is_bound

abbrev bound_brk : AlpacaBarAssetBinding
bound_brk = record {
  asset = brk;
  unique_identifier = brk.unique_identifier;
  alpaca_symbol = "BRKB";
}

is_grouped :
    group_bindings_by_last_update (bound_brk ∷ []) ((brk.unique_identifier, 5) ∷ [])
    ≡ some ((5, bound_brk ∷ []) ∷ [])
unfolding group_bindings_by_last_update group_from add_binding
is_grouped = refl

group_bindings_by_last_update-IsRising_example :
    IsRising ((5, bound_brk ∷ []) ∷ []) × (size ((5, bound_brk ∷ []) ∷ []) ≡ 1)
group_bindings_by_last_update-IsRising_example =
    group_bindings_by_last_update-IsRising (bound_brk ∷ []) ((brk.unique_identifier, 5) ∷ [])
      ((5, bound_brk ∷ []) ∷ []) is_grouped

batches_lem_example :
    (concat (batches ("a" ∷ "b" ∷ "a" ∷ []) 1) ≡ unique_from [] ("a" ∷ "b" ∷ "a" ∷ []))
    × All (λ batch. length batch ≤ 1) (batches ("a" ∷ "b" ∷ "a" ∷ []) 1)
batches_lem_example = batches_lem ("a" ∷ "b" ∷ "a" ∷ []) 1 (omega arith)

read_all_pages_lem_example :
    read_all_pages {A = String} (page_of ("a" ∷ "b" ∷ [])) 2 ≡ "a" ∷ "b" ∷ []
read_all_pages_lem_example = read_all_pages_lem {A = String} ("a" ∷ "b" ∷ [])
