-- ===== src/Universes/Effects.antt =====
-- What `src/alpaca_connectors/universes/sources.py`, `registry.py` and `materialized.py` call: the
-- project's two tables, the categories and memberships of Markets, the extractor's naming of
-- categories, URL parsing, and the dependent configurations. They are parameters over a hidden
-- state, and `none` is an exception that a call raises. Starting the engine is left out.
use alpaca_connectors.Prelude.{ℕ, String, Bool, Option, none, some, List, Uuid}
use alpaca_connectors.Actions

-- Seconds since the epoch, UTC (`utc_now`).
abbrev pub Time : Type 0
Time = ℕ

-- A row of `UniverseSource`.
pub record UniverseSource : Type 0 where
  pub uid : Uuid
  pub name : String
  pub symbol : String
  pub source_url : String
  pub enabled : Bool
  pub created_at : Time
  pub updated_at : Time

-- What `normalize_source_values` returns.
pub record SourceValues : Type 0 where
  pub name : String
  pub symbol : String
  pub source_url : String

-- A row of `AssetUniverse`.
pub record AssetUniverse : Type 0 where
  pub uid : Uuid
  pub source_uid : Uuid
  pub asset_category_uid : Uuid
  pub is_active : Bool
  pub created_at : Time
  pub updated_at : Time

-- A row of `_universe_rows`: a universe joined with its source.
pub record UniverseRow : Type 0 where
  pub uid : Uuid
  pub source_uid : Uuid
  pub asset_category_uid : Uuid
  pub is_active : Bool
  pub created_at : Time
  pub updated_at : Time
  pub source_name : String
  pub symbol : String
  pub source_url : String

-- An `AssetCategory` of Markets.
pub record AssetCategory : Type 0 where
  pub uid : Uuid
  pub unique_identifier : String
  pub display_name : Option String
  pub description : Option String

-- A configuration that refers to a universe.
pub record Dependent : Type 0 where
  pub uid : Uuid
  pub name : String

-- The columns that sources are ordered by.
pub data SourceOrdering : Type 0 where
  by_name by_symbol by_updated_at : SourceOrdering

-- The select of `list_universe_sources`; the texts of the ordering are read before.
pub record SourceQuery : Type 0 where
  pub enabled : Option Bool
  pub pattern : Option String
  pub ordering : SourceOrdering
  pub descending : Bool
  pub limit : ℕ
  pub offset : ℕ

pub record Markets : Type 1 where
  pub State : Type 0
  pub now : State → Time × State
  pub urlparse : String → Option (String × String)
  pub category_unique_identifier : String → String
  pub source_by_uid : Uuid → State → Option (Option UniverseSource) × State
  pub select_sources : SourceQuery → State → Option (List UniverseSource × ℕ) × State
  pub create_source :
      Option Uuid → SourceValues → Bool → Time → State → Option (Option UniverseSource) × State
  pub update_source :
      Uuid → SourceValues → Option Bool → Time → State → Option UniverseSource × State
  pub delete_source : Uuid → State → Option (Unit {0}) × State
  pub universe_by_uid : Uuid → State → Option (Option AssetUniverse) × State
  pub universes_of_source : Uuid → State → Option (List AssetUniverse) × State
  pub universes_of_category : Uuid → State → Option (List AssetUniverse) × State
  pub universe_rows : Option Uuid → State → Option (List UniverseRow) × State
  pub create_universe : Uuid → Uuid → Bool → Time → State → Option (Option AssetUniverse) × State
  pub update_universe : Uuid → Bool → Time → State → Option AssetUniverse × State
  pub delete_universe : Uuid → State → Option (Unit {0}) × State
  pub category_by_uid : Uuid → State → Option (Option AssetCategory) × State
  pub category_by_identifier : String → State → Option (Option AssetCategory) × State
  pub create_category : String → String → String → State → Option AssetCategory × State
  pub update_category : Uuid → Option String → Option String → State → Option (Unit {0}) × State
  pub delete_category : Uuid → State → Option (Unit {0}) × State
  pub replace_memberships : Uuid → List Uuid → State → Option (Unit {0}) × State
  pub count_memberships : Uuid → State → Option ℕ × State
  pub bar_configurations_for_universe : Uuid → State → Option (List Dependent) × State
  pub signal_configurations_for_universe : Uuid → State → Option (List Dependent) × State

-- The rows that the operations create and delete.
pub data Row : Type 0 where
  source_row category_row universe_row : Uuid → Row

-- The writes, in order; reads leave no entry. A creation has the row, or `none` if it raised or
-- brought none; the others say whether they came back without an exception.
pub data Call : Type 0 where
  created : Option Row → Call
  deleted : Row → Bool → Call
  updated : Row → Bool → Call
  replaced_memberships : Uuid → List Uuid → Bool → Call

-- The exceptions, in place of their text; `platform_error` is one that a call raises.
pub data Fault : Type 0 where
  lookup_error value_error runtime_error platform_error : Fault

-- An operation over the state of Markets.
abbrev pub Run : Markets → Type 0 → Type 0
Run markets A = Actions.Action Fault Call markets.State A

-- The row that a creation has made.
abbrev pub row_of : {A : Type 0} → (A → Row) → Option (Option A) → Option Row
row_of row none = none
row_of row (some none) = none
row_of row (some (some a)) = some (row a)
