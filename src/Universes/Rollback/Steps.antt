-- ===== src/Universes/Rollback/Steps.antt =====
-- The steps of `create_asset_universe_configuration` of
-- `src/alpaca_connectors/universes/materialized.py`, and what each makes and deletes.
use alpaca_connectors.Prelude.{
  ◌≡◌, refl, sym, subst, ◌∙◌, inl, inr, String, Bool, true, Option, none, some, List, [], ◌∷◌, ◌++◌,
  arith, Uuid,
}
use alpaca_connectors.Actions.{Result, ok, raise, attempt, or_raise, try_tell, ◌>>=◌}
use alpaca_connectors.Actions.Spec.{
  Spec, Spec-bind, Spec-pure, Spec-throw, Spec-weaken, Spec-attempt, Spec-try_tell,
}
use alpaca_connectors.Actions.Within.{
  Within, Within-ask, Within-lift, Within-raise_if, within_rules,
}
use alpaca_connectors.Universes.Effects.{
  UniverseSource, SourceValues, AssetUniverse, AssetCategory, Markets, Row, source_row,
  category_row, universe_row, Call, created, Fault, platform_error, runtime_error, row_of, Run,
}
use alpaca_connectors.Universes.Registry.{create_asset_universe}
use alpaca_connectors.Universes.Sources.{create_universe_source}
use alpaca_connectors.Universes.Calls.{
  AnyFault, AnyFault-Ends, by_source-Within, enabled_source-Within, list_universe_sources-Within,
  read_back-Within,
}
use alpaca_connectors.Universes.Materialized.{
  UniverseView, create_asset_universe_configuration, create_links, source_to_link, or_undo_category,
  or_undo_universe, or_undo_view, undo_creation, delete_if_made, delete_row, read_back,
  category_made, made_if, find_source,
}
use alpaca_connectors.Universes.Rollback.{
  left_behind, lost_deletion, rows_of, left_behind-append, any-append, KeepsRows, left_behind_kept,
  Makes, MakesNone, Makes-later, Brings, Tried, universe_made, category_of, Finishes,
  Finishes-append, new_source, Settled, Settled-later, Settled-made, makes_none, Deletes, undone,
}

module _ (markets : Markets) where
  delete_row-Deletes : (r : Row) → Spec (Deletes (some r)) (delete_row markets r)
  unfolding delete_row
  delete_row-Deletes (source_row _) = Spec-try_tell _ _ _ refl (λ _. refl)
  delete_row-Deletes (category_row _) = Spec-try_tell _ _ _ refl (λ _. refl)
  delete_row-Deletes (universe_row _) = Spec-try_tell _ _ _ refl (λ _. refl)

  delete_if_made-Deletes : (o : Option Row) → Spec (Deletes o) (delete_if_made markets o)
  delete_if_made-Deletes none = Spec-pure tt refl
  delete_if_made-Deletes (some r) = delete_row-Deletes r

  undo_creation-Finishes :
      (u c s : Option Row) (made : List Row) (e : Fault)
      → Spec (Finishes made (rows_of u ++ (rows_of c ++ rows_of s))) (undo_creation markets u c s e)
  unfolding undo_creation
  undo_creation-Finishes u c s made e =
      Spec-bind (Deletes u) _ _ (delete_if_made-Deletes u)
        (λ _ cs hu.
          Spec-bind (Deletes c) _ _ (delete_if_made-Deletes c)
            (λ _ ds hc.
              Spec-bind (Deletes s) _ _ (delete_if_made-Deletes s)
                (λ _ es hs. Spec-throw e (inl (undone u c s cs ds es hu hc hs)))
                (λ _ es hs. inr (
                  ground (
                    arith,
                    any-append lost_deletion cs (ds ++ es),
                    any-append lost_deletion ds es,
                  ))))
            (λ _ ds hc. inr (ground (arith, any-append lost_deletion cs ds))))
        (λ _ cs hu. inr hu)

  -- A read, and every operation that makes and deletes no row, keeps what there is.
  kept : {A : Type 0} {m : Run markets A} → Within KeepsRows AnyFault m → Spec MakesNone m
  kept h = record { at = λ s rows. left_behind_kept rows _ (h.calls s) }

  -- What follows a read.
  Makes-read :
      {A B : Type 0} (row : B → Option Row) (m : Run markets A) (f : A → Run markets B)
      → Within KeepsRows AnyFault m
      → ((a : A) → Spec (Makes row) (f a))
      → Spec (Makes row) (m >>= f)
  Makes-read row m f h k =
      Spec-bind MakesNone m f (kept h)
        (λ a cs still. Spec-weaken (Makes row) (f a) (k a) (Makes-later row cs still))
        (λ e cs still. still)

  -- A creation whose row is handed on, or an exception where there is none.
  hand_on :
      {A : Type 0} (row : A → Row) (o : Option A) (cs : List Call)
      → cs ≡ created (row_of row (some o)) ∷ []
      → Spec {S = markets.State}
          (λ r ds. Makes (λ a. some (row a)) r (cs ++ ds))
          (or_raise runtime_error o)
  unfolding left_behind
  hand_on row none cs e = Spec-throw _ (λ rows. rw e refl)
  hand_on row (some a) cs e = Spec-pure a (λ rows. rw e refl)

  Makes-row :
      {A : Type 0} (row : A → Row) (f : markets.State → Option (Option A) × markets.State)
      → Spec
          (Makes (λ a. some (row a)))
          (try_tell platform_error (λ o. created (row_of row o)) f >>= or_raise runtime_error)
  unfolding left_behind
  Makes-row {A} row f =
      Spec-bind (Brings row) _ _ (Spec-try_tell _ _ _ refl (λ o. refl)) (hand_on row)
        (λ e cs h rows. rw h refl)

  after_attempt :
      {A B : Type 0} (row : A → Option Row) (made rows : List Row) (m : Run markets A)
      (f : Result Fault A → Run markets B)
      → Spec (Makes row) m
      → ((e : Fault) → Spec (Finishes made rows) (f (raise e)))
      → ((a : A) → Spec (Finishes made (rows_of (row a) ++ rows)) (f (ok a)))
      → Spec (Finishes made rows) (attempt m >>= f)
  after_attempt {A} row made rows m f h k l =
      Spec-bind (Tried row) _ f (Spec-attempt m h) rest (λ e cs never. absurd never)
    where
      rest :
          (r : Result Fault A) (cs : List Call)
          → Makes row r cs
          → Spec (λ q ds. Finishes made rows q (cs ++ ds)) (f r)
      rest (ok a) cs made_a = Spec-weaken _ _ (l a) (λ r ds fin.
          Finishes-append made rows r cs ds
            (subst (λ left. Finishes made left r ds) (sym (made_a rows)) fin))
      rest (raise e) cs nothing = Spec-weaken _ _ (k e) (λ r ds fin.
          Finishes-append made rows r cs ds
            (subst (λ left. Finishes made left r ds) (sym (nothing rows)) fin))

  -- A creation that brings a row or none.
  create_category-Makes :
      (identifier name description : String)
      → Spec (Makes (λ c. some (category_row c.uid))) (
          try_tell platform_error
            (λ o. created (category_made o))
            (markets.create_category identifier name description))
  unfolding left_behind
  create_category-Makes identifier name description =
      Spec-try_tell _ _ _ (λ rows. refl) (λ a rows. refl)

  create_asset_universe-Makes :
      (source category : Uuid) (active : Bool)
      → Spec
          (Makes (λ u. some (universe_row u.uid)))
          (create_asset_universe markets source category active)
  unfolding create_asset_universe left_behind
  create_asset_universe-Makes source category active =
      Makes-read (λ u. some (universe_row u.uid)) _ _ (Within-ask _)
        (λ now. Makes-row (λ r. universe_row r.uid) _)

  read_back-Makes : (uid : Uuid) → Spec (Makes (λ _. none)) (read_back markets uid)
  read_back-Makes uid = Spec-weaken MakesNone _ (kept (read_back-Within markets uid)) makes_none

  or_undo_view-Finishes :
      (u c : Uuid) (s : Option Row) (r : Result Fault UniverseView)
      → Spec
          (Finishes (rows_of s) (universe_row u ∷ category_row c ∷ rows_of s))
          (or_undo_view markets u c s r)
  unfolding or_undo_view left_behind
  or_undo_view-Finishes u c s (ok view) = Spec-pure view (u, c, refl)
  or_undo_view-Finishes u c s (raise e) =
      undo_creation-Finishes (some (universe_row u)) (some (category_row c)) s (rows_of s) e

  or_undo_universe-Finishes :
      (c : Uuid) (s : Option Row) (r : Result Fault AssetUniverse)
      → Spec
          (Finishes (rows_of s) (rows_of (universe_made r) ++ (category_row c ∷ rows_of s)))
          (or_undo_universe markets c s r)
  unfolding or_undo_universe
  or_undo_universe-Finishes c s (raise e) =
      undo_creation-Finishes none (some (category_row c)) s (rows_of s) e
  or_undo_universe-Finishes c s (ok u) =
      after_attempt (λ _. none) _ _ _ _ (read_back-Makes u.uid)
        (λ e. or_undo_view-Finishes u.uid c s (raise e))
        (λ v. or_undo_view-Finishes u.uid c s (ok v))

  or_undo_category-Finishes :
      (source : UniverseSource) (s : Option Row) (r : Result Fault AssetCategory)
      → Spec
          (Finishes (rows_of s) (rows_of (category_of r) ++ rows_of s))
          (or_undo_category markets source s r)
  unfolding or_undo_category
  or_undo_category-Finishes source s (raise e) = undo_creation-Finishes none none s (rows_of s) e
  or_undo_category-Finishes source s (ok c) =
      after_attempt (λ u. some (universe_row u.uid)) _ _ _ _ (create_asset_universe-Makes _ _ _)
        (λ e. or_undo_universe-Finishes c.uid s (raise e))
        (λ u. or_undo_universe-Finishes c.uid s (ok u))

  create_links-Finishes :
      (identifier : String) (values : SourceValues) (source : UniverseSource) (new : Bool)
      → let s = made_if new (source_row source.uid) in
        Spec
          (Finishes (rows_of s) (rows_of s))
          (create_links markets identifier values (source, new))
  unfolding create_links
  create_links-Finishes identifier values source new =
      after_attempt (λ c. some (category_row c.uid)) _ _ _ _ (create_category-Makes _ _ _)
        (λ e. or_undo_category-Finishes source _ (raise e))
        (λ c. or_undo_category-Finishes source _ (ok c))

  create_universe_source-Makes :
      (name symbol source_url : String) (enabled : Bool) (uid : Option Uuid)
      → Spec
          (Makes (λ s. some (source_row s.uid)))
          (create_universe_source markets name symbol source_url enabled uid)
  unfolding create_universe_source
  create_universe_source-Makes name symbol source_url enabled uid =
      Makes-read (λ s. some (source_row s.uid)) _ _ (Within-lift _ (AnyFault-Ends _))
        (λ values.
          Makes-read (λ s. some (source_row s.uid)) _ _ (Within-ask _)
            (λ now. Makes-row (λ s. source_row s.uid) _))

  source_to_link-Makes :
      (values : SourceValues) (found : Option UniverseSource)
      → Spec (Makes new_source) (source_to_link markets values found)
  unfolding source_to_link left_behind
  source_to_link-Makes values none =
      Spec-bind (Makes (λ s. some (source_row s.uid))) _ _
        (create_universe_source-Makes values.name values.symbol values.source_url true none)
        (λ s cs h. Spec-pure _ (λ rows. left_behind-append rows cs [] ∙ h rows)) (λ e cs h. h)
  source_to_link-Makes values (some source) =
      Makes-read new_source _ _ (by_source-Within markets source.uid) (λ linked.
        Makes-read new_source _ _ (Within-raise_if _ _ tt) (λ _.
          Makes-read new_source _ _ (enabled_source-Within markets source (λ r b. tt))
            (λ s. Spec-pure _ (λ rows. refl))))

  linked-Settled :
      (identifier : String) (values : SourceValues) (found : Option UniverseSource)
      → Spec Settled
          (source_to_link markets values found >>= create_links markets identifier values)
  linked-Settled identifier values found =
      Spec-bind (Makes new_source) _ _ (source_to_link-Makes values found)
        (λ (source, new) cs h.
          Spec-weaken _ _ (create_links-Finishes identifier values source new)
            (Settled-made source new cs h))
        (λ e cs h. inl (h []))

  Settled-read :
      {A B : Type 0} (m : Run markets A) (f : A → Run markets B)
      → Within KeepsRows AnyFault m
      → ((a : A) → Spec Settled (f a))
      → Spec Settled (m >>= f)
  Settled-read m f h k =
      Spec-bind MakesNone m f (kept h)
        (λ a cs still. Spec-weaken Settled (f a) (k a) (Settled-later cs still))
        (λ e cs still. inl (still []))

  -- A creation that ends normally has made a universe, a category and at most a source, and
  -- one that ends with an exception leaves none of the rows that it has made, unless a deletion
  -- raised.
  pub create_asset_universe_configuration-Settled :
      (name symbol source_url : String) (s : markets.State)
      → let (r, cs, _) = create_asset_universe_configuration markets name symbol source_url s in
        Settled r cs
  unfolding create_asset_universe_configuration
  create_asset_universe_configuration-Settled name symbol source_url s = settled.at s
    where
      settled : Spec Settled (create_asset_universe_configuration markets name symbol source_url)
      settled = Settled-read _ _ (Within-lift _ (AnyFault-Ends _)) (λ values.
          Settled-read _ _ (search within_rules depth 8) (λ existing.
            Settled-read _ _ (Within-raise_if _ _ tt) (λ _.
              Settled-read _ _ (list_universe_sources-Within markets _ _ _ _ _)
                (λ (sources, total). linked-Settled _ values (find_source values sources)))))
