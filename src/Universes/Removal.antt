-- ===== src/Universes/Removal.antt =====
-- What the deletions of `src/alpaca_connectors/universes` leave alone.
use alpaca_connectors.Prelude.{
  ◌≡◌, refl, ap, ◌∙◌, ◌⊎◌, inl, inr, Bool, true, false, not, Option, some, List, [], ◌∷◌, ◌++◌,
  is_some, All, ◌≢◌, Uuid,
}
use alpaca_connectors.Actions.{Result, ok, raise, ◌>>=◌, ◌>>◌, try_ask, try_tell, raise_if, pure}
use alpaca_connectors.Actions.Spec.{
  Spec, Spec-bind, Spec-pure, Spec-throw, Spec-weaken, Spec-try_tell, Spec-try_ask_from,
}
use alpaca_connectors.Actions.Within.{Within, Within-raise_if, within_rules}
use alpaca_connectors.Universes.Effects.{
  Dependent, Markets, Call, category_row, universe_row, deleted, replaced_memberships, Fault,
  platform_error, value_error, Run,
}
use alpaca_connectors.Universes.Calls.{AnyFault, get_asset_universe_view-Within}
use alpaca_connectors.Universes.Materialized.{
  Deletion, delete_asset_universe, delete_row, is_nil, UniverseView,
}

-- Only an exception that a call raised comes after a write, and a deletion that ends normally has
-- emptied the category, deleted the universe and deleted the category, in this order.
abbrev pub InOrder : Uuid → Result Fault Deletion → List Call → Type 0
InOrder uid (ok report) cs =
    (report.universe_uid ≡ uid)
    × (cs
        ≡ replaced_memberships report.asset_category_uid [] true
          ∷ deleted (universe_row uid) true
          ∷ deleted (category_row report.asset_category_uid) true
          ∷ [])
InOrder uid (raise e) cs = (cs ≡ []) ⊎ (e ≡ platform_error)

abbrev Wrote : Call → Result Fault (Unit {0}) → List Call → Type 0
Wrote c (ok _) cs = cs ≡ c ∷ []
Wrote c (raise e) cs = e ≡ platform_error

abbrev pub is_ok : {A : Type 0} → Result Fault A → Bool
is_ok (ok _) = true
is_ok (raise _) = false

abbrev SomeFound : Result Fault (List Dependent) → List Call → Type 0
SomeFound (ok found) cs = (cs ≡ []) × (found ≢ [])
SomeFound (raise _) cs = cs ≡ []

abbrev SilentFault : {A : Type 0} → Result Fault A → List Call → Type 0
SilentFault r cs = cs ≡ []

abbrev pub Refuses : {A : Type 0} → Result Fault A → List Call → Type 0
Refuses r cs = (is_ok r ≡ false) × (cs ≡ [])

module _ (markets : Markets) where
  quietly : {A : Type 0} {m : Run markets A} → Within (λ _. ⊥) AnyFault m → Spec SilentFault m
  quietly h = record { at = λ s. nothing _ (h.calls s) }
    where
      nothing : (cs : List Call) → All (λ _. ⊥) cs → cs ≡ []
      nothing [] h = refl
      nothing (c ∷ cs) h = absurd h.0

  InOrder-read :
      {A : Type 0} (uid : Uuid) (m : Run markets A) (f : A → Run markets Deletion)
      → Within (λ _. ⊥) AnyFault m
      → ((a : A) → Spec (InOrder uid) (f a))
      → Spec (InOrder uid) (m >>= f)
  InOrder-read uid m f h k =
      Spec-bind SilentFault m f (quietly h)
        (λ a cs empty. Spec-weaken (InOrder uid) (f a) (k a) (λ r ds fin. rw empty fin))
        (λ e cs empty. inl empty)

  delete_row-Wrote :
      (uid category : Uuid)
      → Spec (Wrote (deleted (universe_row uid) true)) (delete_row markets (universe_row uid))
        × Spec
            (Wrote (deleted (category_row category) true))
            (delete_row markets (category_row category))
  unfolding delete_row
  delete_row-Wrote uid category =
      (Spec-try_tell _ _ _ refl (λ _. refl), Spec-try_tell _ _ _ refl (λ _. refl))

  -- The writes, from the emptying of the category on.
  writes-InOrder :
      (uid : Uuid) (view : UniverseView)
      → Spec (InOrder uid) (
          try_tell platform_error
            (λ o. replaced_memberships view.asset_category_uid [] (is_some o))
            (markets.replace_memberships view.asset_category_uid [])
          >> (delete_row markets (universe_row uid)
              >> (delete_row markets (category_row view.asset_category_uid)
                  >> pure (record {
                    universe_uid = uid;
                    source_uid = view.source_uid;
                    asset_category_uid = view.asset_category_uid;
                    deleted_memberships = view.asset_count;
                  }))))
  writes-InOrder uid view =
      let category = view.asset_category_uid in
      let deletes = delete_row-Wrote uid category in
      Spec-bind (Wrote (replaced_memberships category [] true)) _ _
        (Spec-try_tell _ _ _ refl (λ _. refl))
        (λ _ cs h.
          Spec-bind (Wrote (deleted (universe_row uid) true)) _ _ deletes.0
            (λ _ ds k.
              Spec-bind (Wrote (deleted (category_row category) true)) _ _ deletes.1
                (λ _ es l. Spec-pure _ (refl, rw (h, k, l) refl)) (λ e es l. inr l))
            (λ e ds k. inr k))
        (λ e cs h. inr h)

  -- Whether a deletion is refused or not: one that ends normally has emptied the category, deleted
  -- the universe and deleted the category, in this order, and one that ends with an exception has
  -- written nothing, unless a call raised.
  pub delete_asset_universe-InOrder :
      (uid : Uuid) (s : markets.State)
      → let (r, cs, _) = delete_asset_universe markets uid s in InOrder uid r cs
  unfolding delete_asset_universe
  delete_asset_universe-InOrder uid s = in_order.at s
    where
      in_order : Spec (InOrder uid) (delete_asset_universe markets uid)
      in_order = InOrder-read uid _ _ (get_asset_universe_view-Within markets uid) (λ found.
          InOrder-read uid _ _ (search within_rules) (λ view.
            InOrder-read uid _ _ (search within_rules depth 8) (λ bars.
              InOrder-read uid _ _ (Within-raise_if _ _ tt) (λ _.
                InOrder-read uid _ _ (search within_rules depth 8) (λ signals.
                  InOrder-read uid _ _ (Within-raise_if _ _ tt) (λ _. writes-InOrder uid view))))))

  -- A refusal: an exception and no write.
  refused_after :
      {A B : Type 0} (m : Run markets A) (f : A → Run markets B)
      → Within (λ _. ⊥) AnyFault m
      → ((a : A) → Spec Refuses (f a))
      → Spec Refuses (m >>= f)
  refused_after m f h k =
      Spec-bind SilentFault m f (quietly h)
        (λ a cs empty. Spec-weaken Refuses (f a) (k a) (λ r ds fin. rw empty fin))
        (λ e cs empty. (refl, empty))

  -- A read whose answer is never an empty list, and the check of it.
  refused_by :
      {B : Type 0} (f : markets.State → Option (List Dependent) × markets.State) (m : Run markets B)
      → ((s : markets.State) → (f s).0 ≢ some [])
      → Spec Refuses
          (try_ask platform_error f >>= λ found. raise_if (not (is_nil found)) value_error >> m)
  refused_by {B} f m never =
      Spec-bind SomeFound _ _
        (Spec-try_ask_from _ _ refl (λ s found e. (refl, λ empty. never s (e ∙ ap some empty))))
        rest (λ e cs empty. (refl, empty))
    where
      rest :
          (found : List Dependent) (cs : List Call)
          → (cs ≡ []) × (found ≢ [])
          → Spec {S = markets.State}
              (λ r ds. Refuses r (cs ++ ds))
              (raise_if (not (is_nil found)) value_error >> m)
      rest [] cs h = absurd (h.1 refl)
      rest (_ ∷ _) cs h =
          Spec-bind {A = Unit {0}} (λ r ds. (is_ok r ≡ false) × (ds ≡ [])) _ _
            (Spec-throw _ (refl, refl)) (λ a ds k. cc) (λ e ds k. (refl, rw (h.0, k.1) refl))

  -- While a bar configuration refers to the universe, or a signal configuration does, whatever the
  -- state, a deletion ends with an exception and writes nothing.
  pub delete_asset_universe_referenced :
      (uid : Uuid) (s : markets.State)
      → ((t : markets.State) → (markets.bar_configurations_for_universe uid t).0 ≢ some [])
        ⊎ ((t : markets.State) → (markets.signal_configurations_for_universe uid t).0 ≢ some [])
      → let (r, cs, _) = delete_asset_universe markets uid s in Refuses r cs
  unfolding delete_asset_universe
  delete_asset_universe_referenced uid s h = refused.at s
    where
      refused : Spec Refuses (delete_asset_universe markets uid)
      refused = refused_after _ _ (get_asset_universe_view-Within markets uid) (λ found.
          refused_after _ _ (search within_rules) (λ view. elim h [
            | inl bars ↦ refused_by _ _ bars
            | inr signals ↦
                refused_after _ _ (search within_rules depth 8)
                  (λ bars. refused_after _ _ (Within-raise_if _ _ tt) (λ _. refused_by _ _ signals))
          ]))
