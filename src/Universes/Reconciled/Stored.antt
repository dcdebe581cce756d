-- ===== src/Universes/Reconciled/Stored.antt =====
-- A run of `seed_default_universe_sources` of `src/alpaca_connectors/universes/sources.py` that ends
-- normally, and the run after it.
use alpaca_connectors.Prelude.{
  ◌≡◌, refl, sym, ap, subst, ◌∙◌, Bool, true, false, Option, none, some, List, [], ◌∷◌, ◌++◌,
  if◌then◌else◌, All, Uuid,
}
use alpaca_connectors.Actions.{Action, Result, ok, raise, pure, ◌>>=◌}
use alpaca_connectors.Actions.Hoare.{
  Hoare, Hoare-try_ask, Then, Then-bind, Then-try_ask, Then-try_tell, Then-lift, Then-or_raise,
  Hoare-pure, Hoare-ask, Hoare-bind, Hoare-given, Hoare-weaken,
}
use alpaca_connectors.Universes.Effects.{Time, UniverseSource, SourceValues, Markets, Call, Fault}
use alpaca_connectors.Universes.Sources.{
  create_universe_source, get_universe_source, update_universe_source,
}
use alpaca_connectors.Universes.Seeding.{DefaultSource, has_values, reconcile, seed_sources}
use alpaca_connectors.Universes.Reconciled.Kept.{seed_sources-KeepsRow}
use alpaca_connectors.Universes.Reconciled.{
  SourceTable, Stays, Seeded, IsNormal, Apart, values_of, Holds, Holds-has_values, has_values-Holds,
}

anything : {E C S A : Type 0} {P : S → Type 0} {m : Action E C S A} → Hoare P (Then (λ _ _. Unit)) m
anything {m} = record { at = λ s _. any_end (m s).0 (m s).1 (m s).2 }
  where
    any_end : {E C S A : Type 0} (r : Result E A) (cs : List C) (t : S) → Then (λ _ _. Unit) r cs t
    any_end (ok _) cs t = tt
    any_end (raise _) cs t = tt

ok_eq : {A : Type 0} (a b : A) → ◌≡◌ {A = Result Fault A} (ok a) (ok b) → a ≡ b
ok_eq a b h = cc

module _ (markets : Markets) (table : SourceTable markets) where
  create-Seeded :
      (v : DefaultSource)
      → IsNormal markets table v
      → Hoare
          (λ _. Unit)
          (Then (λ _ t. Seeded markets table t v))
          (create_universe_source markets v.name v.symbol v.source_url v.enabled (some v.uid))
  unfolding create_universe_source
  create-Seeded v normal =
      Then-bind (λ values _. values ≡ values_of v) _ _
        (Then-lift _ (λ s values h q. ok_eq _ _ (sym q ∙ normal)))
        (λ values.
          Then-bind (λ now _. values ≡ values_of v) _ _ (Hoare-ask _ (λ s h. h))
            (λ now.
              Then-bind (λ o t. (row : UniverseSource) → o ≡ some row → Seeded markets table t v) _
                _
                (Then-try_tell _ _ _
                  (λ s o h q row e. stored_row s values now h row (q ∙ ap some e)))
                (λ o. Then-or_raise _ o (λ s row h q. h row q))))
    where
      stored_row :
          (s : markets.State) (values : SourceValues) (now : Time)
          → values ≡ values_of v
          → (row : UniverseSource)
          → (markets.create_source (some v.uid) values v.enabled now s).0 ≡ some (some row)
          → Seeded markets table (markets.create_source (some v.uid) values v.enabled now s).1 v
      stored_row s values now e row q =
          let h = table.created v.uid values v.enabled now s row q in
          (row, h.0, subst (λ w. Holds w v.enabled row) e h.1)

  update-Seeded :
      (v : DefaultSource)
      → IsNormal markets table v
      → Hoare
          (λ _. Unit)
          (Then (λ _ t. Seeded markets table t v))
          (update_universe_source markets v.uid
            (some v.name)
            (some v.symbol)
            (some v.source_url)
            (some v.enabled))
  unfolding update_universe_source
  update-Seeded v normal =
      Then-bind (λ _ _. Unit) _ _ anything
        (λ found.
          Then-bind (λ _ _. Unit) _ _ anything
            (λ current.
              Then-bind (λ _ _. Unit) _ _ anything
                (λ _.
                  Then-bind (λ values _. values ≡ values_of v) _ _
                    (Then-lift _ (λ s values h q. ok_eq _ _ (sym q ∙ normal)))
                    (λ values.
                      Then-bind (λ now _. values ≡ values_of v) _ _ (Hoare-ask _ (λ s h. h))
                        (λ now.
                          Then-try_tell _ _ _ (λ s row e q. stored_row s values now e row q))))))
    where
      stored_row :
          (s : markets.State) (values : SourceValues) (now : Time)
          → values ≡ values_of v
          → (row : UniverseSource)
          → (markets.update_source v.uid values (some v.enabled) now s).0 ≡ some row
          → Seeded markets table (markets.update_source v.uid values (some v.enabled) now s).1 v
      stored_row s values now e row q =
          let h = table.updated v.uid values v.enabled now s row q in
          (row, h.0, subst (λ w. Holds w v.enabled row) e h.1)

  reconcile-Seeded :
      (v : DefaultSource) (existing : Option UniverseSource)
      → IsNormal markets table v
      → Hoare
          (λ s. existing ≡ table.stored v.uid s)
          (Then (λ _ t. Seeded markets table t v))
          (reconcile markets v existing)
  unfolding reconcile
  reconcile-Seeded v none normal = Hoare-weaken (λ _. Unit) _ (create-Seeded v normal) (λ s h. tt)
  reconcile-Seeded v (some existing) normal = either (has_values v existing) refl
    where
      either :
          (b : Bool)
          → has_values v existing ≡ b
          → Hoare
              (λ s. some existing ≡ table.stored v.uid s)
              (Then (λ _ t. Seeded markets table t v))
              (if b
                then pure existing
                else update_universe_source markets v.uid
                    (some v.name)
                    (some v.symbol)
                    (some v.source_url)
                    (some v.enabled))
      either true e = Hoare-pure _ (λ s h. (existing, sym h, has_values-Holds v existing e))
      either false e = Hoare-weaken (λ _. Unit) _ (update-Seeded v normal) (λ s h. tt)

  get-stored :
      (u : Uuid)
      → Hoare
          (λ _. Unit)
          (Then (λ existing t. existing ≡ table.stored u t))
          (get_universe_source markets u)
  unfolding get_universe_source
  get-stored u = Then-try_ask _ _ (λ s a h q. table.read u s a q ∙ sym (table.read_keeps u u s))

  -- A row that has been stored stays while the rest of the packaged sources is seeded.
  rest-Seeded :
      (v : DefaultSource) (vs : List DefaultSource)
      → Apart markets table (v ∷ vs)
      → Hoare (λ _. Unit) (Then (λ _ t. All (Seeded markets table t) vs)) (seed_sources markets vs)
      → Hoare
          (λ s. Seeded markets table s v)
          (Then (λ _ t. All (Seeded markets table t) (v ∷ vs)))
          (seed_sources markets vs)
  rest-Seeded v vs apart ih = record {
    at = λ s (row, stays, e).
        with_row row e _ _ _
          ((seed_sources-KeepsRow markets table v.uid vs apart.0 (some row)).at s stays)
          (ih.at s tt);
  }
    where
      with_row :
          (row : UniverseSource)
          → Holds (values_of v) v.enabled row
          → (r : Result Fault (List UniverseSource)) (cs : List Call) (t : markets.State)
          → Then (λ _ t. Stays markets table v.uid (some row) t) r cs t
          → Then (λ _ t. All (Seeded markets table t) vs) r cs t
          → Then (λ _ t. All (Seeded markets table t) (v ∷ vs)) r cs t
      with_row row e (ok a) cs t h k = ((row, h, e), k)
      with_row row e (raise x) cs t h k = tt

  pub seed_sources-Seeded :
      (vs : List DefaultSource)
      → Apart markets table vs
      → All (IsNormal markets table) vs
      → Hoare (λ _. Unit) (Then (λ _ t. All (Seeded markets table t) vs)) (seed_sources markets vs)
  unfolding seed_sources
  seed_sources-Seeded [] apart normal = Hoare-pure _ (λ s h. tt)
  seed_sources-Seeded (v ∷ vs) apart normal =
      Then-bind (λ existing t. existing ≡ table.stored v.uid t) _ _ (get-stored v.uid)
        (λ existing.
          Then-bind (λ _ t. Seeded markets table t v) _ _ (reconcile-Seeded v existing normal.0)
            (λ source.
              Then-bind (λ _ t. All (Seeded markets table t) (v ∷ vs)) _ _
                (rest-Seeded v vs apart (seed_sources-Seeded vs apart.1 normal.1))
                (λ rest. Hoare-pure _ (λ s h. h))))

  -- A read shows what is stored and changes nothing.
  All-Seeded-read :
      (u : Uuid) (vs : List DefaultSource) (s : markets.State)
      → All (Seeded markets table s) vs
      → All (Seeded markets table (markets.source_by_uid u s).1) vs
  All-Seeded-read u [] s h = tt
  All-Seeded-read u (v ∷ vs) s (h, hs) =
      ((h.0, table.read_keeps u v.uid s ∙ h.1, h.2), All-Seeded-read u vs s hs)

  abbrev Shows :
      DefaultSource
      → List DefaultSource
      → Result Fault (Option UniverseSource)
      → List Call
      → markets.State
      → Type 0
  Shows v vs (ok existing) cs t =
      (cs ≡ [])
      × ((row : UniverseSource) × (existing ≡ some row) × Holds (values_of v) v.enabled row)
      × All (Seeded markets table t) vs
  Shows v vs (raise _) cs t = cs ≡ []

  reconcile-pure :
      (v : DefaultSource) (existing : Option UniverseSource) (row : UniverseSource)
      → existing ≡ some row
      → has_values v row ≡ true
      → reconcile markets v existing ≡ pure row
  unfolding reconcile
  reconcile-pure v existing row e h = rw (e, h) refl

  get-silent :
      (v : DefaultSource) (vs : List DefaultSource)
      → Hoare
          (λ s. All (Seeded markets table s) (v ∷ vs))
          (Shows v vs)
          (get_universe_source markets v.uid)
  unfolding get_universe_source
  get-silent v vs =
      Hoare-try_ask _ _ (λ s h q. refl)
        (λ s a (h, hs) q.
          (refl, (h.0, table.read v.uid s a q ∙ h.1, h.2), All-Seeded-read v.uid vs s hs))

  -- The rest of a round, after a read that shows a row with the values.
  left_alone :
      (v : DefaultSource) (vs : List DefaultSource) (row : UniverseSource) (cs : List Call)
      → cs ≡ []
      → Hoare (λ s. All (Seeded markets table s) vs) (λ r ds t. ds ≡ []) (seed_sources markets vs)
      → Hoare
          (λ t. All (Seeded markets table t) vs)
          (λ r ds t. cs ++ ds ≡ [])
          (pure row >>= λ source. seed_sources markets vs >>= λ more. pure (source ∷ more))
  left_alone v vs row cs empty ih =
      Hoare-bind (λ r ds t. (ds ≡ []) × All (Seeded markets table t) vs) _ _
        (Hoare-pure row (λ t all. (refl, all)))
        (λ source ds. Hoare-given _ (λ t known.
          Hoare-bind (λ r es t. es ≡ []) _ _
            (Hoare-weaken (λ s. All (Seeded markets table s) vs) _ ih (λ s h. h.1))
            (λ more es. Hoare-pure _ (λ t h. rw (empty, known.0, h) refl))
            (λ e es t h. rw (empty, known.0, h) refl)))
        (λ e ds t h. rw (empty, h.0) refl)

  round_silent :
      (v : DefaultSource) (vs : List DefaultSource) (existing : Option UniverseSource)
      (cs : List Call)
      → Hoare (λ s. All (Seeded markets table s) vs) (λ r ds t. ds ≡ []) (seed_sources markets vs)
      → Hoare
          (λ t. Shows v vs (ok existing) cs t)
          (λ r ds t. cs ++ ds ≡ [])
          (reconcile markets v existing >>= λ source.
            seed_sources markets vs >>= λ more. pure (source ∷ more))
  round_silent v vs existing cs ih = Hoare-given _ (λ t (empty, (row, e, h), all).
      subst
        (λ m.
          Hoare (λ t. Shows v vs (ok existing) cs t) (λ r ds t. cs ++ ds ≡ [])
            (m >>= λ source. seed_sources markets vs >>= λ more. pure (source ∷ more)))
        (sym (reconcile-pure v existing row e (Holds-has_values v row h)))
        (Hoare-weaken (λ t. All (Seeded markets table t) vs) _ (left_alone v vs row cs empty ih)
          (λ s shown. shown.2)))

  pub seed_sources_silent :
      (vs : List DefaultSource)
      → Hoare (λ s. All (Seeded markets table s) vs) (λ r cs t. cs ≡ []) (seed_sources markets vs)
  unfolding seed_sources
  seed_sources_silent [] = Hoare-pure _ (λ s h. refl)
  seed_sources_silent (v ∷ vs) =
      Hoare-bind (Shows v vs) _ _ (get-silent v vs)
        (λ existing cs. round_silent v vs existing cs (seed_sources_silent vs)) (λ e cs t h. h)

  -- Of packaged sources that have different UIDs and values that the normalization keeps, in a
  -- table that keeps what is written: if the seeding ends normally, every one of them is stored
  -- with its values, and a further seeding writes nothing, however it ends.
  pub seed_sources_idempotent :
      (vs : List DefaultSource) (s : markets.State)
      → Apart markets table vs
      → All (IsNormal markets table) vs
      → let (r, cs, t) = seed_sources markets vs s in
        Then (λ _ t. All (Seeded markets table t) vs × ((seed_sources markets vs t).1 ≡ [])) r cs t
  seed_sources_idempotent vs s apart normal =
      ended _ _ _ ((seed_sources-Seeded vs apart normal).at s tt)
    where
      ended :
          (r : Result Fault (List UniverseSource)) (cs : List Call) (t : markets.State)
          → Then (λ _ t. All (Seeded markets table t) vs) r cs t
          → Then
              (λ _ t. All (Seeded markets table t) vs × ((seed_sources markets vs t).1 ≡ []))
              r
              cs
              t
      ended (ok a) cs t h = (h, (seed_sources_silent vs).at t h)
      ended (raise e) cs t h = tt
