-- ===== src/Universes/Calls.antt =====
-- Which calls the reads and the updates of `src/alpaca_connectors/universes` may make.
use alpaca_connectors.Prelude.{
  ℕ, String, Bool, true, false, Option, none, some, List, [], ◌∷◌, Uuid,
}
use alpaca_connectors.Actions.Within.{Within, Within-bind, Within-lift, Ends, within_rules}
use alpaca_connectors.Actions.{Result, ok, raise}
use alpaca_connectors.Universes.Effects.{
  UniverseSource, UniverseRow, AssetCategory, AssetUniverse, Markets, Row, Call, updated, Fault,
}
use alpaca_connectors.Universes.Registry.{
  get_asset_universe, get_asset_universe_by_source_uid, at_most_one,
}
use alpaca_connectors.Universes.Sources.{
  get_universe_source, list_universe_sources, update_universe_source, check_symbol,
}
use alpaca_connectors.Universes.Materialized.{
  get_asset_universe_view, view_of_rows, view_with, read_back, enabled_source,
}

abbrev pub AnyFault : Fault → Type 0
AnyFault _ = Unit

pub AnyFault-Ends : {A : Type 0} (r : Result Fault A) → Ends AnyFault r
AnyFault-Ends (ok _) = tt
AnyFault-Ends (raise _) = tt

module _ (markets : Markets) {P : Call → Type 0} where
  at_most_one-Within : (rows : List AssetUniverse) → Within P AnyFault (at_most_one markets rows)
  at_most_one-Within [] = search within_rules
  at_most_one-Within (r ∷ []) = search within_rules
  at_most_one-Within (_ ∷ _ ∷ _) = search within_rules

  pub by_source-Within :
      (uid : Uuid) → Within P AnyFault (get_asset_universe_by_source_uid markets uid)
  unfolding get_asset_universe_by_source_uid
  by_source-Within uid = search (within_rules, at_most_one-Within) depth 8

  pub get_universe_source-Within :
      (uid : Uuid) → Within P AnyFault (get_universe_source markets uid)
  unfolding get_universe_source
  get_universe_source-Within uid = search within_rules depth 8

  pub get_asset_universe-Within : (uid : Uuid) → Within P AnyFault (get_asset_universe markets uid)
  unfolding get_asset_universe
  get_asset_universe-Within uid = search within_rules depth 8

  view_with-Within :
      (row : UniverseRow) (category : Option AssetCategory)
      → Within P AnyFault (view_with markets row category)
  view_with-Within row none = search within_rules
  view_with-Within row (some c) = search within_rules depth 8

  view_of_rows-Within : (rows : List UniverseRow) → Within P AnyFault (view_of_rows markets rows)
  view_of_rows-Within [] = search within_rules
  view_of_rows-Within (row ∷ rows) = search (within_rules, view_with-Within) depth 8

  pub get_asset_universe_view-Within :
      (uid : Uuid) → Within P AnyFault (get_asset_universe_view markets uid)
  unfolding get_asset_universe_view
  get_asset_universe_view-Within uid = search (within_rules, view_of_rows-Within) depth 8

  pub read_back-Within : (uid : Uuid) → Within P AnyFault (read_back markets uid)
  unfolding read_back
  read_back-Within uid = search (within_rules, get_asset_universe_view-Within) depth 8

  pub list_universe_sources-Within :
      (limit offset : ℕ) (search_text : Option String) (enabled : Option Bool) (ordering : String)
      → Within P AnyFault (list_universe_sources markets limit offset search_text enabled ordering)
  unfolding list_universe_sources
  list_universe_sources-Within limit offset search_text enabled ordering =
      Within-bind _ _ (Within-lift _ (AnyFault-Ends _)) (λ column. search within_rules depth 8)

  check_symbol-Within :
      (uid : Uuid) (changes : Bool) → Within P AnyFault (check_symbol markets uid changes)
  unfolding check_symbol
  check_symbol-Within uid true = search (within_rules, by_source-Within) depth 8
  check_symbol-Within uid false = search within_rules

  pub update_universe_source-Within :
      (uid : Uuid) (name symbol source_url : Option String) (enabled : Option Bool)
      → ((r : Row) (b : Bool) → P (updated r b))
      → Within P AnyFault (update_universe_source markets uid name symbol source_url enabled)
  unfolding update_universe_source
  update_universe_source-Within uid name symbol source_url enabled h =
      search (within_rules, get_universe_source-Within, check_symbol-Within, AnyFault-Ends, h) depth
        12

  pub enabled_source-Within :
      (source : UniverseSource)
      → ((r : Row) (b : Bool) → P (updated r b))
      → Within P AnyFault (enabled_source markets source)
  enabled_source-Within source h = search (within_rules, update_universe_source-Within, h) depth 8
