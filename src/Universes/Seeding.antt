-- ===== src/Universes/Seeding.antt =====
-- `src/alpaca_connectors/universes/sources.py`: the packaged sources and their reconciliation with
-- the table.
use alpaca_connectors.Prelude.{
  String, Bool, true, false, ◌&&◌, Option, none, some, List, [], ◌∷◌, if◌then◌else◌, str_eq, Uuid,
}
use alpaca_connectors.Actions.{Result, ok, raise, pure, lift, ◌>>=◌}
use alpaca_connectors.Universes.Effects.{
  UniverseSource, SourceValues, Markets, Fault, value_error, Run,
}
use alpaca_connectors.Universes.Sources.{
  normalize_source_values, create_universe_source, get_universe_source, update_universe_source,
}

-- An object of the packaged JSON list, with the defaults of its missing keys filled in.
pub record DefaultSource : Type 0 where
  pub uid : Uuid
  pub name : String
  pub symbol : String
  pub source_url : String
  pub enabled : Bool

abbrev pub same_bool : Bool → Bool → Bool
same_bool true true = true
same_bool false false = true
same_bool _ _ = false

-- The four fields that a reconciliation compares.
abbrev pub has_values : DefaultSource → UniverseSource → Bool
has_values v existing =
    str_eq existing.name v.name
    && (str_eq existing.symbol v.symbol
        && (str_eq existing.source_url v.source_url && same_bool existing.enabled v.enabled))

module _ (markets : Markets) where
  abbrev with_values : DefaultSource → Result Fault SourceValues → Result Fault DefaultSource
  with_values item (raise e) = raise e
  with_values item (ok values) = ok (record {
    uid = item.uid;
    name = values.name;
    symbol = values.symbol;
    source_url = values.source_url;
    enabled = item.enabled;
  })

  abbrev normalize_default : DefaultSource → Result Fault DefaultSource
  normalize_default item =
      with_values item (normalize_source_values markets item.name item.symbol item.source_url)

  abbrev and_then :
      Result Fault DefaultSource
      → Result Fault (List DefaultSource)
      → Result Fault (List DefaultSource)
  and_then (raise e) rest = raise e
  and_then (ok v) (raise e) = raise e
  and_then (ok v) (ok vs) = ok (v ∷ vs)

  abbrev normalize_defaults : List DefaultSource → Result Fault (List DefaultSource)
  normalize_defaults [] = ok []
  normalize_defaults (item ∷ items) = and_then (normalize_default item) (normalize_defaults items)

  -- `load_default_universe_sources`, of the list in the packaged file.
  unfoldable pub load_default_universe_sources :
      List DefaultSource → Result Fault (List DefaultSource)
  load_default_universe_sources [] = raise value_error
  load_default_universe_sources (item ∷ items) = normalize_defaults (item ∷ items)

  -- The body of the loop, for a row that is missing and for one that exists.
  unfoldable pub reconcile : DefaultSource → Option UniverseSource → Run markets UniverseSource
  reconcile v none =
      create_universe_source markets v.name v.symbol v.source_url v.enabled (some v.uid)
  reconcile v (some existing) =
      if has_values v existing
      then pure existing
      else update_universe_source markets v.uid (some v.name) (some v.symbol) (some v.source_url)
          (some v.enabled)

  -- The loop of `seed_default_universe_sources`.
  unfoldable pub seed_sources : List DefaultSource → Run markets (List UniverseSource)
  seed_sources [] = pure []
  seed_sources (v ∷ vs) = do
    existing ← get_universe_source markets v.uid
    source ← reconcile v existing
    rest ← seed_sources vs
    pure (source ∷ rest)

  -- `seed_default_universe_sources`
  unfoldable pub seed_default_universe_sources :
      List DefaultSource → Run markets (List UniverseSource)
  seed_default_universe_sources items = lift (load_default_universe_sources items) >>= seed_sources
