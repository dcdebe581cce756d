-- ===== src/Universes/Materialized.antt =====
-- `src/alpaca_connectors/universes/materialized.py`: the universes with their categories. The texts
-- of descriptions are those of the source.
use alpaca_connectors.Prelude.{
  ℕ, String, Bool, true, false, not, ◌&&◌, ◌<>◌, Option, none, some, List, [], ◌∷◌, if◌then◌else◌,
  is_some, str_eq, Uuid,
}
use alpaca_connectors.Actions.{
  Result, ok, raise, pure, throw, lift, attempt, or_raise, raise_if, try_ask, try_tell, ◌>>=◌, ◌>>◌,
}
use alpaca_connectors.Universes.Effects.{
  Time, UniverseSource, SourceValues, AssetUniverse, UniverseRow, AssetCategory, Markets, Row,
  source_row, category_row, universe_row, created, deleted, updated, replaced_memberships, Fault,
  lookup_error, value_error, runtime_error, platform_error, Run,
}
use alpaca_connectors.Universes.Registry.{
  create_asset_universe, get_asset_universe, get_asset_universe_by_source_uid,
  update_asset_universe_state,
}
use alpaca_connectors.Universes.Sources.{
  normalize_source_values, create_universe_source, get_universe_source, list_universe_sources,
  update_universe_source,
}

-- `_universe_view`; `asset_category` repeats its fields and the unique identifier.
pub record UniverseView : Type 0 where
  pub uid : Uuid
  pub source_uid : Uuid
  pub asset_category_uid : Uuid
  pub unique_identifier : Option String
  pub display_name : Option String
  pub symbol : String
  pub source_url : String
  pub description : Option String
  pub is_active : Bool
  pub asset_count : ℕ
  pub created_at : Time
  pub updated_at : Time

-- `getattr(category, name, None)`, where the category may be None.
abbrev field_of : (AssetCategory → Option String) → Option AssetCategory → Option String
field_of f none = none
field_of f (some category) = f category

unfoldable pub universe_view : UniverseRow → Option AssetCategory → ℕ → UniverseView
universe_view row category asset_count = record {
  uid = row.uid;
  source_uid = row.source_uid;
  asset_category_uid = row.asset_category_uid;
  unique_identifier = field_of (λ c. some c.unique_identifier) category;
  display_name = field_of (λ c. c.display_name) category;
  symbol = row.symbol;
  source_url = row.source_url;
  description = field_of (λ c. c.description) category;
  is_active = row.is_active;
  asset_count = asset_count;
  created_at = row.created_at;
  updated_at = row.updated_at;
}

-- The source with this symbol and URL, the first of those listed.
unfoldable pub find_source : SourceValues → List UniverseSource → Option UniverseSource
find_source values [] = none
find_source values (candidate ∷ candidates) =
    if str_eq candidate.symbol values.symbol && str_eq candidate.source_url values.source_url
    then some candidate
    else find_source values candidates

abbrev pub category_made : Option AssetCategory → Option Row
category_made none = none
category_made (some c) = some (category_row c.uid)

-- The source is undone only if it is new.
abbrev pub made_if : Bool → Row → Option Row
made_if true row = some row
made_if false row = none

abbrev pub is_nil : {A : Type 0} → List A → Bool
is_nil [] = true
is_nil (_ ∷ _) = false

-- What a deletion reports.
pub record Deletion : Type 0 where
  pub universe_uid : Uuid
  pub source_uid : Uuid
  pub asset_category_uid : Uuid
  pub deleted_memberships : ℕ

module _ (markets : Markets) where
  -- `require_asset_universe_links`
  unfoldable pub require_asset_universe_links :
      Uuid → Run markets (AssetUniverse × UniverseSource × AssetCategory)
  require_asset_universe_links uid = do
    found ← get_asset_universe markets uid
    universe ← or_raise lookup_error found
    source ← get_universe_source markets universe.source_uid
    source ← or_raise runtime_error source
    category ← try_ask platform_error (markets.category_by_uid universe.asset_category_uid)
    category ← or_raise runtime_error category
    pure (universe, source, category)

  -- The rest of `get_asset_universe_view`, from the category of the row on.
  abbrev pub view_with : UniverseRow → Option AssetCategory → Run markets (Option UniverseView)
  view_with row none = pure none
  view_with row (some category) = do
    count ← try_ask platform_error (markets.count_memberships row.asset_category_uid)
    pure (some (universe_view row (some category) count))

  abbrev pub view_of_rows : List UniverseRow → Run markets (Option UniverseView)
  view_of_rows [] = pure none
  view_of_rows (row ∷ _) =
      try_ask platform_error (markets.category_by_uid row.asset_category_uid) >>= view_with row

  -- `get_asset_universe_view`
  unfoldable pub get_asset_universe_view : Uuid → Run markets (Option UniverseView)
  get_asset_universe_view uid =
      try_ask platform_error (markets.universe_rows (some uid)) >>= view_of_rows

  -- `AssetUniverse.delete`, `AssetCategory.delete`, `UniverseSource.delete`
  unfoldable pub delete_row : Row → Run markets (Unit {0})
  delete_row (universe_row uid) =
      try_tell platform_error (λ o. deleted (universe_row uid) (is_some o))
        (markets.delete_universe uid)
  delete_row (category_row uid) =
      try_tell platform_error (λ o. deleted (category_row uid) (is_some o))
        (markets.delete_category uid)
  delete_row (source_row uid) =
      try_tell platform_error (λ o. deleted (source_row uid) (is_some o))
        (markets.delete_source uid)

  abbrev pub delete_if_made : Option Row → Run markets (Unit {0})
  delete_if_made none = pure tt
  delete_if_made (some row) = delete_row row

  -- The handler of `create_asset_universe_configuration`.
  unfoldable pub undo_creation :
      Option Row → Option Row → Option Row → Fault → Run markets UniverseView
  undo_creation universe category source e = do
    delete_if_made universe
    delete_if_made category
    delete_if_made source
    throw e

  -- Its `try`, step by step: the read-back, the universe, the category. The source is given if
  -- it has just been made.
  unfoldable pub or_undo_view :
      Uuid → Uuid → Option Row → Result Fault UniverseView → Run markets UniverseView
  or_undo_view universe category made (raise e) =
      undo_creation (some (universe_row universe)) (some (category_row category)) made e
  or_undo_view universe category made (ok view) = pure view

  unfoldable pub read_back : Uuid → Run markets UniverseView
  read_back uid = get_asset_universe_view uid >>= or_raise runtime_error

  unfoldable pub or_undo_universe :
      Uuid → Option Row → Result Fault AssetUniverse → Run markets UniverseView
  or_undo_universe category made (raise e) =
      undo_creation none (some (category_row category)) made e
  or_undo_universe category made (ok universe) =
      attempt (read_back universe.uid) >>= or_undo_view universe.uid category made

  unfoldable pub or_undo_category :
      UniverseSource → Option Row → Result Fault AssetCategory → Run markets UniverseView
  or_undo_category source made (raise e) = undo_creation none none made e
  or_undo_category source made (ok category) =
      attempt (create_asset_universe markets source.uid category.uid true)
      >>= or_undo_universe category.uid made

  unfoldable pub create_links :
      String → SourceValues → UniverseSource × Bool → Run markets UniverseView
  create_links category_identifier values (source, created_source) =
      attempt (
        try_tell platform_error (λ o. created (category_made o))
          (markets.create_category category_identifier values.name
            ("Configured holdings universe for ETF " <> values.symbol <> ".")))
      >>= or_undo_category source (made_if created_source (source_row source.uid))

  abbrev pub enabled_source : UniverseSource → Run markets UniverseSource
  enabled_source source =
      if source.enabled
      then pure source
      else update_universe_source markets source.uid none none none (some true)

  -- The source to link, and whether it has just been made.
  unfoldable pub source_to_link :
      SourceValues → Option UniverseSource → Run markets (UniverseSource × Bool)
  source_to_link values none = do
    source ← create_universe_source markets values.name values.symbol values.source_url true none
    pure (source, true)
  source_to_link values (some source) = do
    linked ← get_asset_universe_by_source_uid markets source.uid
    raise_if (is_some linked) value_error
    source ← enabled_source source
    pure (source, false)

  -- `create_asset_universe_configuration`
  unfoldable pub create_asset_universe_configuration :
      String → String → String → Run markets UniverseView
  create_asset_universe_configuration name symbol source_url = do
    values ← lift (normalize_source_values markets name symbol source_url)
    let category_identifier = markets.category_unique_identifier values.symbol
    existing ← try_ask platform_error (markets.category_by_identifier category_identifier)
    raise_if (is_some existing) value_error
    (sources, _) ← list_universe_sources markets 100 0 (some values.symbol) none "name"
    linked ← source_to_link values (find_source values sources)
    create_links category_identifier values linked

  abbrev pub update_category_if : Uuid → Option String → Option String → Run markets (Unit {0})
  update_category_if uid none none = pure tt
  update_category_if uid display_name description =
      try_tell platform_error (λ o. updated (category_row uid) (is_some o))
        (markets.update_category uid display_name description)

  abbrev pub update_state_if : Uuid → Option Bool → Run markets (Unit {0})
  update_state_if uid none = pure tt
  update_state_if uid (some is_active) =
      update_asset_universe_state markets uid is_active >> pure tt

  -- `update_asset_universe`
  unfoldable pub update_asset_universe :
      Uuid → Option String → Option String → Option Bool → Run markets UniverseView
  update_asset_universe uid display_name description is_active = do
    found ← get_asset_universe_view uid
    existing ← or_raise lookup_error found
    update_category_if existing.asset_category_uid display_name description
    update_state_if uid is_active
    read_back uid

  -- `delete_asset_universe`
  unfoldable pub delete_asset_universe : Uuid → Run markets Deletion
  delete_asset_universe uid = do
    found ← get_asset_universe_view uid
    universe ← or_raise lookup_error found
    bars ← try_ask platform_error (markets.bar_configurations_for_universe uid)
    raise_if (not (is_nil bars)) value_error
    signals ← try_ask platform_error (markets.signal_configurations_for_universe uid)
    raise_if (not (is_nil signals)) value_error
    let category_uid = universe.asset_category_uid
    try_tell platform_error (λ o. replaced_memberships category_uid [] (is_some o))
        (markets.replace_memberships category_uid [])
    delete_row (universe_row uid)
    delete_row (category_row category_uid)
    pure (record {
      universe_uid = uid;
      source_uid = universe.source_uid;
      asset_category_uid = category_uid;
      deleted_memberships = universe.asset_count;
    })
