-- ===== src/Universes/Registry.antt =====
-- `src/alpaca_connectors/universes/registry.py`: the universes, each with its source and category.
use alpaca_connectors.Prelude.{Bool, not, Option, none, some, List, [], ◌∷◌, is_some, Uuid}
use alpaca_connectors.Actions.{pure, throw, ask, or_raise, raise_if, try_ask, try_tell, ◌>>=◌, ◌>>◌}
use alpaca_connectors.Universes.Effects.{
  AssetUniverse, Markets, universe_row, created, deleted, updated, lookup_error, runtime_error,
  platform_error, Run, row_of,
}

module _ (markets : Markets) where
  -- `create_asset_universe`, with a new UID.
  unfoldable pub create_asset_universe : Uuid → Uuid → Bool → Run markets AssetUniverse
  create_asset_universe source_uid asset_category_uid is_active = do
    now ← ask markets.now
    row ←
        try_tell platform_error (λ o. created (row_of (λ r. universe_row r.uid) o))
          (markets.create_universe source_uid asset_category_uid is_active now)
    or_raise runtime_error row

  -- `get_asset_universe`
  unfoldable pub get_asset_universe : Uuid → Run markets (Option AssetUniverse)
  get_asset_universe uid = try_ask platform_error (markets.universe_by_uid uid)

  -- `rows[0] if rows else None`, where two rows are an error.
  abbrev pub at_most_one : List AssetUniverse → Run markets (Option AssetUniverse)
  at_most_one [] = pure none
  at_most_one (r ∷ []) = pure (some r)
  at_most_one (_ ∷ _ ∷ _) = throw runtime_error

  -- `get_asset_universe_by_source_uid`
  unfoldable pub get_asset_universe_by_source_uid : Uuid → Run markets (Option AssetUniverse)
  get_asset_universe_by_source_uid source_uid =
      try_ask platform_error (markets.universes_of_source source_uid) >>= at_most_one

  -- `get_asset_universe_by_category_uid`
  unfoldable pub get_asset_universe_by_category_uid : Uuid → Run markets (Option AssetUniverse)
  get_asset_universe_by_category_uid category_uid =
      try_ask platform_error (markets.universes_of_category category_uid) >>= at_most_one

  -- `update_asset_universe_state`
  unfoldable pub update_asset_universe_state : Uuid → Bool → Run markets AssetUniverse
  update_asset_universe_state uid is_active = do
    universe ← get_asset_universe uid
    raise_if (not (is_some universe)) lookup_error
    now ← ask markets.now
    try_tell platform_error (λ o. updated (universe_row uid) (is_some o))
        (markets.update_universe uid is_active now)

  -- `delete_asset_universe_row`
  unfoldable pub delete_asset_universe_row : Uuid → Run markets (Unit {0})
  delete_asset_universe_row uid = do
    universe ← get_asset_universe uid
    raise_if (not (is_some universe)) lookup_error
    try_tell platform_error (λ o. deleted (universe_row uid) (is_some o))
        (markets.delete_universe uid)
