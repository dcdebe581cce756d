-- ===== src/Universes/Sources.antt =====
-- `src/alpaca_connectors/universes/sources.py`: the sources of holdings, kept by hand; and of
-- `registry.py` the universe that a source is linked to.
use alpaca_connectors.Prelude.{
  ℕ, String, Bool, true, false, not, ◌&&◌, Option, none, some, List, [], ◌∷◌, if◌then◌else◌,
  is_empty, is_some, contains, strip, upper, starts_with, drop_chars, str_eq, Uuid,
}
use alpaca_connectors.Actions.{
  Result, ok, raise, pure, ask, lift, or_raise, raise_if, try_ask, try_tell, ◌>>=◌, ◌>>◌,
}
use alpaca_connectors.Universes.Registry.{get_asset_universe_by_source_uid}
use alpaca_connectors.Universes.Effects.{
  UniverseSource, SourceValues, SourceOrdering, by_name, by_symbol, by_updated_at, Markets,
  source_row, created, deleted, updated, Fault, lookup_error, value_error, runtime_error,
  platform_error, Run, row_of,
}

-- A scheme and a place: an absolute HTTP or HTTPS URL.
abbrev pub is_absolute : Option (String × String) → Bool
is_absolute none = false
is_absolute (some (scheme, netloc)) =
    contains ("http" ∷ "https" ∷ []) scheme && not (is_empty netloc)

module _ (markets : Markets) where
  -- `normalize_source_values`
  unfoldable pub normalize_source_values : String → String → String → Result Fault SourceValues
  normalize_source_values name symbol source_url =
      let normalized_name = strip name in
      let normalized_symbol = upper (strip symbol) in
      let normalized_url = strip source_url in
      if is_empty normalized_name
      then raise value_error
      else if is_empty normalized_symbol
      then raise value_error
      else if not (is_absolute (markets.urlparse normalized_url))
      then raise value_error
      else ok (record {
        name = normalized_name;
        symbol = normalized_symbol;
        source_url = normalized_url;
      })

  -- `create_universe_source`
  unfoldable pub create_universe_source :
      String → String → String → Bool → Option Uuid → Run markets UniverseSource
  create_universe_source name symbol source_url enabled uid = do
    values ← lift (normalize_source_values name symbol source_url)
    now ← ask markets.now
    row ←
        try_tell platform_error (λ o. created (row_of (λ r. source_row r.uid) o))
          (markets.create_source uid values enabled now)
    or_raise runtime_error row

  -- `get_universe_source`
  unfoldable pub get_universe_source : Uuid → Run markets (Option UniverseSource)
  get_universe_source uid = try_ask platform_error (markets.source_by_uid uid)

  -- The column that an ordering names.
  abbrev pub source_ordering : String → Result Fault SourceOrdering
  source_ordering key =
      if str_eq key "name"
      then ok by_name
      else if str_eq key "symbol"
      then ok by_symbol
      else if str_eq key "updated_at"
      then ok by_updated_at
      else raise value_error

  -- `list_universe_sources`; a search that is empty is none.
  unfoldable pub list_universe_sources :
      ℕ → ℕ → Option String → Option Bool → String → Run markets (List UniverseSource × ℕ)
  list_universe_sources limit offset search enabled ordering = do
    let descending = starts_with ordering "-"
    column ← lift (source_ordering (if descending then drop_chars 1 ordering else ordering))
    try_ask platform_error (
        markets.select_sources (record {
          enabled = enabled;
          pattern = search_pattern search;
          ordering = column;
          descending = descending;
          limit = limit;
          offset = offset;
        }))
    where
      search_pattern : Option String → Option String
      search_pattern none = none
      search_pattern (some text) = if is_empty text then none else some (strip text)

  -- `value if value is not None else current`
  abbrev given_or : Option String → String → String
  given_or none current = current
  given_or (some value) current = value

  abbrev pub changes_symbol : Option String → String → Bool
  changes_symbol none current = false
  changes_symbol (some symbol) current = not (str_eq (upper (strip symbol)) current)

  -- The symbol of a source that is linked to a universe stays.
  unfoldable pub check_symbol : Uuid → Bool → Run markets (Unit {0})
  check_symbol uid false = pure tt
  check_symbol uid true = get_asset_universe_by_source_uid markets uid >>= λ universe.
      raise_if (is_some universe) value_error

  -- `update_universe_source`
  unfoldable pub update_universe_source :
      Uuid
      → Option String
      → Option String
      → Option String
      → Option Bool
      → Run markets UniverseSource
  update_universe_source uid name symbol source_url enabled = do
    found ← get_universe_source uid
    current ← or_raise lookup_error found
    check_symbol uid (changes_symbol symbol current.symbol)
    values ← lift (
        normalize_source_values (given_or name current.name) (given_or symbol current.symbol)
          (given_or source_url current.source_url))
    now ← ask markets.now
    try_tell platform_error (λ o. updated (source_row uid) (is_some o))
        (markets.update_source uid values enabled now)

  -- `delete_universe_source`
  unfoldable pub delete_universe_source : Uuid → Run markets (Unit {0})
  delete_universe_source uid = do
    found ← get_universe_source uid
    raise_if (not (is_some found)) lookup_error
    universe ← get_asset_universe_by_source_uid markets uid
    raise_if (is_some universe) value_error
    try_tell platform_error (λ o. deleted (source_row uid) (is_some o)) (markets.delete_source uid)
