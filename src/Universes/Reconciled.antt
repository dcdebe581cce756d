-- ===== src/Universes/Reconciled.antt =====
-- What `seed_default_universe_sources` of `src/alpaca_connectors/universes/sources.py` leaves in a
-- table that keeps what is written.
pub mod Kept
pub mod Stored
use alpaca_connectors.Prelude.{
  ◌≡◌, ◌≢◌, refl, sym, ap, ◌∙◌, String, Bool, true, false, ◌&&◌, Option, none, some, List, [], ◌∷◌,
  ◌++◌, All, arith, is_some, str_eq, eq_refl, eq_iff, both_true, Uuid,
}
use alpaca_connectors.Actions.{
  Result, ok, raise, pure, ask, lift, or_raise, raise_if, try_ask, try_tell, ◌>>=◌, ◌>>◌,
}
use alpaca_connectors.Actions.Hoare.{
  Hoare, Then, Then-bind, Then-try_ask, Then-try_tell, Then-lift, Then-or_raise, Hoare-pure,
  Hoare-ask, Hoare-bind, Hoare-throw, Hoare-given, Hoare-weaken,
}
use alpaca_connectors.Universes.Effects.{
  Time, UniverseSource, SourceValues, AssetUniverse, Markets, Call, Fault, platform_error, Run,
}
use alpaca_connectors.Universes.Registry.{get_asset_universe_by_source_uid, at_most_one}
use alpaca_connectors.Universes.Sources.{
  normalize_source_values, create_universe_source, get_universe_source, update_universe_source,
  check_symbol, changes_symbol,
}
use alpaca_connectors.Universes.Seeding.{
  DefaultSource, has_values, same_bool, reconcile, seed_sources,
}

abbrev pub values_of : DefaultSource → SourceValues
values_of v = record { name = v.name; symbol = v.symbol; source_url = v.source_url }

-- The row has the values that were written.
abbrev pub Holds : SourceValues → Bool → UniverseSource → Type 0
Holds values enabled row =
    (row.name ≡ values.name)
    × (row.symbol ≡ values.symbol)
    × (row.source_url ≡ values.source_url)
    × (row.enabled ≡ enabled)

-- The table of sources: what is stored under a UID, and that reads show it, writes set it, and
-- neither touches the rows of other UIDs.
pub record SourceTable (markets : Markets) : Type 0 where
  pub stored : Uuid → markets.State → Option UniverseSource
  pub read :
      (u : Uuid) (s : markets.State) (r : Option UniverseSource)
      → (markets.source_by_uid u s).0 ≡ some r
      → r ≡ stored u s
  pub read_keeps :
      (u v : Uuid) (s : markets.State) → stored v (markets.source_by_uid u s).1 ≡ stored v s
  pub now_keeps : (v : Uuid) (s : markets.State) → stored v (markets.now s).1 ≡ stored v s
  pub linked_keeps :
      (u v : Uuid) (s : markets.State) → stored v (markets.universes_of_source u s).1 ≡ stored v s
  pub created :
      (u : Uuid) (values : SourceValues) (enabled : Bool) (now : Time) (s : markets.State)
      (row : UniverseSource)
      → (markets.create_source (some u) values enabled now s).0 ≡ some (some row)
      → (stored u (markets.create_source (some u) values enabled now s).1 ≡ some row)
        × Holds values enabled row
  pub created_keeps :
      (u v : Uuid) (values : SourceValues) (enabled : Bool) (now : Time) (s : markets.State)
      → u ≢ v
      → stored v (markets.create_source (some u) values enabled now s).1 ≡ stored v s
  pub updated :
      (u : Uuid) (values : SourceValues) (enabled : Bool) (now : Time) (s : markets.State)
      (row : UniverseSource)
      → (markets.update_source u values (some enabled) now s).0 ≡ some row
      → (stored u (markets.update_source u values (some enabled) now s).1 ≡ some row)
        × Holds values enabled row
  pub updated_keeps :
      (u v : Uuid) (values : SourceValues) (enabled : Bool) (now : Time) (s : markets.State)
      → u ≢ v
      → stored v (markets.update_source u values (some enabled) now s).1 ≡ stored v s

same_bool_refl : (b : Bool) → same_bool b b ≡ true
same_bool_refl true = refl
same_bool_refl false = refl

pub Holds-has_values :
    (v : DefaultSource) (row : UniverseSource)
    → Holds (values_of v) v.enabled row
    → has_values v row ≡ true
Holds-has_values v row (n, y, u, e) =
    rw
      (n, y, u, e, eq_refl v.name, eq_refl v.symbol, eq_refl v.source_url, same_bool_refl v.enabled)
      refl

same_bool-eq : (a b : Bool) → same_bool a b ≡ true → a ≡ b
same_bool-eq true true h = refl
same_bool-eq true false h = cc
same_bool-eq false true h = cc
same_bool-eq false false h = refl

pub has_values-Holds :
    (v : DefaultSource) (row : UniverseSource)
    → has_values v row ≡ true
    → Holds (values_of v) v.enabled row
has_values-Holds v row h =
    let (n, rest) = both_true _ _ h in
    let (y, others) = both_true _ _ rest in
    let (u, e) = both_true _ _ others in
    ((eq_iff _ _).0 n, (eq_iff _ _).0 y, (eq_iff _ _).0 u, same_bool-eq _ _ e)

module _ (markets : Markets) (table : SourceTable markets) where
  -- The row of the packaged source is stored with its values.
  abbrev pub Seeded : markets.State → DefaultSource → Type 0
  Seeded s v =
      (row : UniverseSource) × (table.stored v.uid s ≡ some row) × Holds (values_of v) v.enabled row

  -- Normalization leaves the values as they are.
  abbrev pub IsNormal : DefaultSource → Type 0
  IsNormal v = normalize_source_values markets v.name v.symbol v.source_url ≡ ok (values_of v)

  -- No source is packaged twice.
  abbrev pub Apart : List DefaultSource → Type 0
  Apart [] = Unit
  Apart (v ∷ vs) = All (λ w. w.uid ≢ v.uid) vs × Apart vs

  abbrev pub Stays : Uuid → Option UniverseSource → markets.State → Type 0
  Stays u row s = table.stored u s ≡ row

  abbrev pub KeepsRow : {A : Type 0} → Uuid → Run markets A → Type 0
  KeepsRow u m = (row : Option UniverseSource) → Hoare (Stays u row) (Then (λ _ t. Stays u row t)) m
