-- ===== src/Tests/Universes.antt =====
-- A table of sources and a Markets as `src/alpaca_connectors/universes` uses them, and the theorems
-- about universes at inputs that meet their conditions.
use alpaca_connectors.Prelude.{
  ◌≡◌, ◌≢◌, refl, sym, subst, Bool, true, false, Option, none, some, List, [], ◌∷◌, length,
  if◌then◌else◌, arith, All, ◌==◌, inl, Uuid, strip, upper,
}
use alpaca_connectors.Actions.Hoare.{Then}
use alpaca_connectors.Universes.Effects.{
  Time, UniverseSource, SourceValues, AssetUniverse, UniverseRow, AssetCategory, Markets,
}
use alpaca_connectors.Universes.Sources.{normalize_source_values}
use alpaca_connectors.Universes.Seeding.{DefaultSource, seed_sources}
use alpaca_connectors.Universes.Materialized.{
  create_asset_universe_configuration, delete_asset_universe,
}
use alpaca_connectors.Universes.Rollback.{Settled}
use alpaca_connectors.Universes.Rollback.Steps.{create_asset_universe_configuration-Settled}
use alpaca_connectors.Universes.Removal.{
  InOrder, Refuses, delete_asset_universe-InOrder, delete_asset_universe_referenced,
}
use alpaca_connectors.Universes.Reconciled.{SourceTable, Holds, Seeded, IsNormal}
use alpaca_connectors.Universes.Reconciled.Stored.{seed_sources_idempotent}

abbrev Sources : Type 0
Sources = List UniverseSource

abbrev find_row : Uuid → Sources → Option UniverseSource
find_row u [] = none
find_row u (r ∷ rs) = if r.uid == u then some r else find_row u rs

abbrev new_row : Uuid → SourceValues → Bool → Time → UniverseSource
new_row u values enabled now = record {
  uid = u;
  name = values.name;
  symbol = values.symbol;
  source_url = values.source_url;
  enabled = enabled;
  created_at = now;
  updated_at = now;
}

abbrev uid_or_new : Option Uuid → Sources → Uuid
uid_or_new none s = length s
uid_or_new (some u) s = u

abbrev enabled_or_true : Option Bool → Bool
enabled_or_true none = true
enabled_or_true (some b) = b

abbrev a_category : AssetCategory
a_category = record {
  uid = 20;
  unique_identifier = "HOLDINGS__QQQ";
  display_name = some "Fund";
  description = none;
}

abbrev a_universe : AssetUniverse
a_universe = record {
  uid = 30;
  source_uid = 0;
  asset_category_uid = 20;
  is_active = true;
  created_at = 100;
  updated_at = 100;
}

abbrev a_row : UniverseRow
a_row = record {
  uid = 30;
  source_uid = 0;
  asset_category_uid = 20;
  is_active = true;
  created_at = 100;
  updated_at = 100;
  source_name = "Fund";
  symbol = "QQQ";
  source_url = "https://fund";
}

abbrev markets : Markets
markets = record {
  State = Sources;
  now = λ s. (100, s);
  urlparse = λ url. some ("https", "fund");
  category_unique_identifier = λ symbol. symbol;
  source_by_uid = λ u s. (some (find_row u s), s);
  select_sources = λ q s. (some (s, length s), s);
  create_source = λ u values enabled now s. (
    some (some (new_row (uid_or_new u s) values enabled now)),
    new_row (uid_or_new u s) values enabled now ∷ s,
  );
  update_source = λ u values enabled now s. (
    some (new_row u values (enabled_or_true enabled) now),
    new_row u values (enabled_or_true enabled) now ∷ s,
  );
  delete_source = λ u s. (some tt, s);
  universe_by_uid = λ u s. (some (some a_universe), s);
  universes_of_source = λ u s. (some [], s);
  universes_of_category = λ u s. (some [], s);
  universe_rows = λ u s. (some (a_row ∷ []), s);
  create_universe = λ source category active now s. (none, s);
  update_universe = λ u active now s. (some a_universe, s);
  delete_universe = λ u s. (some tt, s);
  category_by_uid = λ u s. (some (some a_category), s);
  category_by_identifier = λ text s. (some none, s);
  create_category = λ identifier name description s. (some a_category, s);
  update_category = λ u name description s. (some tt, s);
  delete_category = λ u s. (some tt, s);
  replace_memberships = λ u us s. (some tt, s);
  count_memberships = λ u s. (some 2, s);
  bar_configurations_for_universe = λ u s. (some (record { uid = 40; name = "bars" } ∷ []), s);
  signal_configurations_for_universe = λ u s. (some [], s);
}

-- Here the universe cannot be created, so the category and the source are deleted again.
create_asset_universe_configuration-Settled_example :
    let (r, cs, _) = create_asset_universe_configuration markets "Fund" "qqq" "https://fund" [] in
    Settled r cs
create_asset_universe_configuration-Settled_example =
    create_asset_universe_configuration-Settled markets "Fund" "qqq" "https://fund" []

delete_asset_universe-InOrder_example :
    let (r, cs, _) = delete_asset_universe markets 30 [] in InOrder 30 r cs
delete_asset_universe-InOrder_example = delete_asset_universe-InOrder markets 30 []

a_bar_configuration : (t : Sources) → (markets.bar_configurations_for_universe 30 t).0 ≢ some []
a_bar_configuration t h = cc

delete_asset_universe_referenced_example :
    let (r, cs, _) = delete_asset_universe markets 30 [] in Refuses r cs
delete_asset_universe_referenced_example =
    delete_asset_universe_referenced markets 30 [] (inl a_bar_configuration)

found :
    (u : Uuid) (values : SourceValues) (enabled : Bool) (now : Time) (s : Sources)
    → find_row u (new_row u values enabled now ∷ s) ≡ some (new_row u values enabled now)
found u values enabled now s = ground arith

others :
    (u v : Uuid) (values : SourceValues) (enabled : Bool) (now : Time) (s : Sources)
    → u ≢ v
    → find_row v (new_row u values enabled now ∷ s) ≡ find_row v s
others u v values enabled now s h = ground arith

some_eq : {A : Type 0} (a b : A) → some a ≡ some b → a ≡ b
some_eq a b h = cc

made :
    (u : Uuid) (values : SourceValues) (enabled : Bool) (now : Time) (s : Sources)
    (row : UniverseSource)
    → new_row u values enabled now ≡ row
    → (find_row u (new_row u values enabled now ∷ s) ≡ some row) × Holds values enabled row
made u values enabled now s row e =
    subst (λ r. (find_row u (new_row u values enabled now ∷ s) ≡ some r) × Holds values enabled r) e
      (found u values enabled now s, (refl, refl, refl, refl))

table : SourceTable markets
table = record {
  stored = find_row;
  read = λ u s r h. sym (some_eq _ _ h);
  read_keeps = λ u v s. refl;
  now_keeps = λ v s. refl;
  linked_keeps = λ u v s. refl;
  created =
      λ u values enabled now s row h. made u values enabled now s row (some_eq _ _ (some_eq _ _ h));
  created_keeps = others;
  updated = λ u values enabled now s row h. made u values enabled now s row (some_eq _ _ h);
  updated_keeps = others;
}

abbrev packaged : List DefaultSource
packaged =
    record { uid = 1; name = "One"; symbol = "QQQ"; source_url = "https://one"; enabled = true }
    ∷ record { uid = 2; name = "Two"; symbol = "SPY"; source_url = "https://two"; enabled = false }
    ∷ []

packaged-IsNormal : All (IsNormal markets table) packaged
unfolding normalize_source_values strip upper
packaged-IsNormal = (refl, (refl, tt))

seed_sources_idempotent_example :
    let (r, cs, t) = seed_sources markets packaged [] in
    Then
      (λ _ t. All (Seeded markets table t) packaged × ((seed_sources markets packaged t).1 ≡ []))
      r
      cs
      t
seed_sources_idempotent_example =
    seed_sources_idempotent markets table packaged [] ((λ h. omega arith, tt), (tt, tt))
      packaged-IsNormal
