-- ===== src/Universes/Reconciled/Kept.antt =====
-- The reconciliation of a source in `src/alpaca_connectors/universes/sources.py` touches no other row.
use alpaca_connectors.Prelude.{
  ◌≢◌, ◌∙◌, Bool, true, false, Option, none, some, List, [], ◌∷◌, if◌then◌else◌, All, is_some, Uuid,
}
use alpaca_connectors.Actions.{pure, raise_if}
use alpaca_connectors.Actions.Hoare.{
  Hoare, Then, Then-bind, Then-try_ask, Then-try_tell, Then-lift, Then-or_raise, Hoare-pure,
  Hoare-ask, Hoare-throw,
}
use alpaca_connectors.Universes.Effects.{UniverseSource, AssetUniverse, Markets, Fault}
use alpaca_connectors.Universes.Registry.{get_asset_universe_by_source_uid, at_most_one}
use alpaca_connectors.Universes.Sources.{
  create_universe_source, get_universe_source, update_universe_source, check_symbol,
}
use alpaca_connectors.Universes.Seeding.{DefaultSource, has_values, reconcile, seed_sources}
use alpaca_connectors.Universes.Reconciled.{SourceTable, KeepsRow, Stays}

module _ (markets : Markets) (table : SourceTable markets) where
  pub get_universe_source-KeepsRow :
      (u v : Uuid) → KeepsRow markets table v (get_universe_source markets u)
  unfolding get_universe_source
  get_universe_source-KeepsRow u v row = Then-try_ask _ _ (λ s a h q. table.read_keeps u v s ∙ h)

  create-KeepsRow :
      (w : DefaultSource) (v : Uuid)
      → w.uid ≢ v
      → KeepsRow markets table v
          (create_universe_source markets w.name w.symbol w.source_url w.enabled (some w.uid))
  unfolding create_universe_source
  create-KeepsRow w v apart row =
      Then-bind (λ _ t. Stays markets table v row t) _ _ (Then-lift _ (λ s a h q. h))
        (λ values.
          Then-bind (λ _ t. Stays markets table v row t) _ _
            (Hoare-ask _ (λ s h. table.now_keeps v s ∙ h))
            (λ now.
              Then-bind (λ _ t. Stays markets table v row t) _ _
                (Then-try_tell _ _ _
                  (λ s a h q. table.created_keeps w.uid v values w.enabled now s apart ∙ h))
                (λ o. Then-or_raise _ o (λ s a h q. h))))

  at_most_one-KeepsRow :
      (v : Uuid) (rows : List AssetUniverse) → KeepsRow markets table v (at_most_one markets rows)
  at_most_one-KeepsRow v [] row = Hoare-pure _ (λ s h. h)
  at_most_one-KeepsRow v (r ∷ []) row = Hoare-pure _ (λ s h. h)
  at_most_one-KeepsRow v (_ ∷ _ ∷ _) row = Hoare-throw _ (λ s h. tt)

  raise_if-KeepsRow : (v : Uuid) (b : Bool) (e : Fault) → KeepsRow markets table v (raise_if b e)
  raise_if-KeepsRow v true e row = Hoare-throw _ (λ s h. tt)
  raise_if-KeepsRow v false e row = Hoare-pure _ (λ s h. h)

  pub check_symbol-KeepsRow :
      (u v : Uuid) (b : Bool) → KeepsRow markets table v (check_symbol markets u b)
  unfolding check_symbol get_asset_universe_by_source_uid
  check_symbol-KeepsRow u v false row = Hoare-pure _ (λ s h. h)
  check_symbol-KeepsRow u v true row =
      Then-bind (λ _ t. Stays markets table v row t) _ _
        (Then-bind (λ _ t. Stays markets table v row t) _ _
          (Then-try_ask _ _ (λ s a h q. table.linked_keeps u v s ∙ h))
          (λ rows. at_most_one-KeepsRow v rows row))
        (λ o. raise_if-KeepsRow v (is_some o) _ row)

  update-KeepsRow :
      (w : DefaultSource) (v : Uuid)
      → w.uid ≢ v
      → KeepsRow markets table v (
          update_universe_source markets w.uid
            (some w.name)
            (some w.symbol)
            (some w.source_url)
            (some w.enabled))
  unfolding update_universe_source
  update-KeepsRow w v apart row =
      Then-bind (λ _ t. Stays markets table v row t) _ _ (get_universe_source-KeepsRow w.uid v row)
        (λ found.
          Then-bind (λ _ t. Stays markets table v row t) _ _ (Then-or_raise _ found (λ s a h q. h))
            (λ current.
              Then-bind (λ _ t. Stays markets table v row t) _ _
                (check_symbol-KeepsRow w.uid v _ row)
                (λ _.
                  Then-bind (λ _ t. Stays markets table v row t) _ _ (Then-lift _ (λ s a h q. h))
                    (λ values.
                      Then-bind (λ _ t. Stays markets table v row t) _ _
                        (Hoare-ask _ (λ s h. table.now_keeps v s ∙ h))
                        (λ now. Then-try_tell _ _ _ (λ s a h q.
                          table.updated_keeps w.uid v values w.enabled now s apart ∙ h))))))

  pub reconcile-KeepsRow :
      (w : DefaultSource) (v : Uuid) (existing : Option UniverseSource)
      → w.uid ≢ v
      → KeepsRow markets table v (reconcile markets w existing)
  unfolding reconcile
  reconcile-KeepsRow w v none apart row = create-KeepsRow w v apart row
  reconcile-KeepsRow w v (some existing) apart row = kept_either (has_values w existing)
    where
      kept_either :
          (b : Bool)
          → Hoare (Stays markets table v row) (Then (λ _ t. Stays markets table v row t)) (
              if b
              then pure existing
              else update_universe_source markets w.uid
                  (some w.name)
                  (some w.symbol)
                  (some w.source_url)
                  (some w.enabled))
      kept_either true = Hoare-pure _ (λ s h. h)
      kept_either false = update-KeepsRow w v apart row

  pub seed_sources-KeepsRow :
      (v : Uuid) (vs : List DefaultSource)
      → All (λ w. w.uid ≢ v) vs
      → KeepsRow markets table v (seed_sources markets vs)
  unfolding seed_sources
  seed_sources-KeepsRow v [] apart row = Hoare-pure _ (λ s h. h)
  seed_sources-KeepsRow v (w ∷ vs) apart row =
      Then-bind (λ _ t. Stays markets table v row t) _ _ (get_universe_source-KeepsRow w.uid v row)
        (λ existing.
          Then-bind (λ _ t. Stays markets table v row t) _ _
            (reconcile-KeepsRow w v existing apart.0 row)
            (λ source.
              Then-bind (λ _ t. Stays markets table v row t) _ _
                (seed_sources-KeepsRow v vs apart.1 row) (λ rest. Hoare-pure _ (λ s h. h))))
