-- ===== src/Universes/Rollback.antt =====
-- What `create_asset_universe_configuration` of `src/alpaca_connectors/universes/materialized.py`
-- leaves behind.
pub mod Steps
use alpaca_connectors.Prelude.{
  ℕ, ◌≡◌, refl, sym, ap, subst, ◌∙◌, ◌||◌, ◌⊎◌, inl, inr, String, Bool, true, false, Option, none,
  some, List, [], ◌∷◌, ◌++◌, All, any, if◌then◌else◌, arith, ◌==◌, Uuid,
}
use alpaca_connectors.Actions.{
  Result, ok, raise, pure, throw, lift, attempt, or_raise, raise_if, try_ask, try_tell, ◌>>=◌, ◌>>◌,
}
use alpaca_connectors.Actions.Spec.{
  Spec, Spec-bind, Spec-pure, Spec-throw, Spec-if, Spec-or_raise, Spec-weaken, Spec-attempt,
  Spec-try_tell, Spec-try_ask, Spec-ask, Spec-lift,
}
use alpaca_connectors.Actions.Within.{
  Within, Within-ask, Within-lift, Within-raise_if, within_rules,
}
use alpaca_connectors.Universes.Effects.{
  UniverseSource, SourceValues, AssetUniverse, AssetCategory, Markets, Row, source_row,
  category_row, universe_row, Call, created, deleted, updated, replaced_memberships, Fault,
  platform_error, runtime_error, row_of, Run,
}
use alpaca_connectors.Universes.Registry.{create_asset_universe}
use alpaca_connectors.Universes.Sources.{create_universe_source}
use alpaca_connectors.Universes.Calls.{
  AnyFault, AnyFault-Ends, by_source-Within, enabled_source-Within, list_universe_sources-Within,
  read_back-Within,
}
use alpaca_connectors.Universes.Materialized.{
  UniverseView, create_asset_universe_configuration, create_links, source_to_link, or_undo_category,
  or_undo_universe, or_undo_view, undo_creation, delete_if_made, delete_row, read_back,
  category_made, made_if, find_source,
}

abbrev same_row : Row → Row → Bool
same_row (source_row a) (source_row b) = a == b
same_row (category_row a) (category_row b) = a == b
same_row (universe_row a) (universe_row b) = a == b
same_row _ _ = false

abbrev remove : Row → List Row → List Row
remove r [] = []
remove r (q ∷ qs) = if same_row q r then qs else q ∷ remove r qs

-- The rows that a list of calls has made and not deleted again, the last made first. A deletion
-- that raised has deleted nothing.
unfoldable pub left_behind : List Row → List Call → List Row
left_behind rows [] = rows
left_behind rows (created (some r) ∷ cs) = left_behind (r ∷ rows) cs
left_behind rows (deleted r true ∷ cs) = left_behind (remove r rows) cs
left_behind rows (_ ∷ cs) = left_behind rows cs

-- A deletion among the calls raised.
abbrev pub lost_deletion : Call → Bool
lost_deletion (deleted _ false) = true
lost_deletion _ = false

abbrev pub rows_of : Option Row → List Row
rows_of none = []
rows_of (some r) = r ∷ []

pub left_behind-append :
    (rows : List Row) (cs ds : List Call)
    → left_behind rows (cs ++ ds) ≡ left_behind (left_behind rows cs) ds
unfolding left_behind
left_behind-append rows [] ds = refl
left_behind-append rows (created (some r) ∷ cs) ds = left_behind-append (r ∷ rows) cs ds
left_behind-append rows (created none ∷ cs) ds = left_behind-append rows cs ds
left_behind-append rows (deleted r true ∷ cs) ds = left_behind-append (remove r rows) cs ds
left_behind-append rows (deleted r false ∷ cs) ds = left_behind-append rows cs ds
left_behind-append rows (updated r b ∷ cs) ds = left_behind-append rows cs ds
left_behind-append rows (replaced_memberships u us b ∷ cs) ds = left_behind-append rows cs ds

pub any-append :
    {A : Type 0} (p : A → Bool) (xs ys : List A) → any p (xs ++ ys) ≡ any p xs || any p ys
any-append p [] ys = refl
any-append p (x ∷ xs) ys = ground (arith, any-append p xs ys)

remove_first : (r : Row) (rows : List Row) → remove r (r ∷ rows) ≡ rows
remove_first (source_row a) rows = ground arith
remove_first (category_row a) rows = ground arith
remove_first (universe_row a) rows = ground arith

-- A call that makes no row and deletes none.
abbrev pub KeepsRows : Call → Type 0
KeepsRows (created (some _)) = ⊥
KeepsRows (deleted _ _) = ⊥
KeepsRows _ = Unit

pub left_behind_kept :
    (rows : List Row) (cs : List Call) → All KeepsRows cs → left_behind rows cs ≡ rows
unfolding left_behind
left_behind_kept rows [] h = refl
left_behind_kept rows (created (some r) ∷ cs) h = absurd h.0
left_behind_kept rows (created none ∷ cs) h = left_behind_kept rows cs h.1
left_behind_kept rows (deleted r b ∷ cs) h = absurd h.0
left_behind_kept rows (updated r b ∷ cs) h = left_behind_kept rows cs h.1
left_behind_kept rows (replaced_memberships u us b ∷ cs) h = left_behind_kept rows cs h.1

-- The operation makes the row of its result and no other, and none if it raises.
abbrev pub Makes : {A : Type 0} → (A → Option Row) → Result Fault A → List Call → Type 0
Makes row (ok a) cs = (rows : List Row) → left_behind rows cs ≡ rows_of (row a) ++ rows
Makes row (raise e) cs = (rows : List Row) → left_behind rows cs ≡ rows

abbrev pub MakesNone : {A : Type 0} → Result Fault A → List Call → Type 0
MakesNone r cs = (rows : List Row) → left_behind rows cs ≡ rows

pub Makes-later :
    {A : Type 0} (row : A → Option Row) (cs : List Call)
    → ((rows : List Row) → left_behind rows cs ≡ rows)
    → (r : Result Fault A) (ds : List Call) → Makes row r ds
    → Makes row r (cs ++ ds)
Makes-later row cs still (ok a) ds h =
    λ rows. left_behind-append rows cs ds ∙ ap (λ left. left_behind left ds) (still rows) ∙ h rows
Makes-later row cs still (raise e) ds h =
    λ rows. left_behind-append rows cs ds ∙ ap (λ left. left_behind left ds) (still rows) ∙ h rows

-- The call is a creation that left the row of its answer.
abbrev pub Brings : {A : Type 0} → (A → Row) → Result Fault (Option A) → List Call → Type 0
Brings row (ok o) cs = cs ≡ created (row_of row (some o)) ∷ []
Brings row (raise _) cs = cs ≡ created none ∷ []

-- The body of a `try` that makes the row of its result.
abbrev pub Tried :
    {A : Type 0} → (A → Option Row) → Result Fault (Result Fault A) → List Call → Type 0
Tried row (ok r) cs = Makes row r cs
Tried row (raise e) cs = ⊥

abbrev pub universe_made : Result Fault AssetUniverse → Option Row
universe_made (ok u) = some (universe_row u.uid)
universe_made (raise _) = none

abbrev pub category_of : Result Fault AssetCategory → Option Row
category_of (ok c) = some (category_row c.uid)
category_of (raise _) = none

-- What is left of `rows` is, at a normal end, with a universe and a category more, and nothing at
-- an exception, unless a deletion raised.
abbrev pub Finishes : List Row → List Row → {A : Type 0} → Result Fault A → List Call → Type 0
Finishes made rows (ok _) cs =
    (u : Uuid) × (c : Uuid) × (left_behind rows cs ≡ universe_row u ∷ category_row c ∷ made)
Finishes made rows (raise _) cs = (left_behind rows cs ≡ []) ⊎ (any lost_deletion cs ≡ true)

pub Finishes-append :
    {A : Type 0} (made rows : List Row) (r : Result Fault A) (cs ds : List Call)
    → Finishes made (left_behind rows cs) r ds
    → Finishes made rows r (cs ++ ds)
Finishes-append made rows (ok a) cs ds (u, c, h) = (u, c, left_behind-append rows cs ds ∙ h)
Finishes-append made rows (raise e) cs ds (inl h) = inl (left_behind-append rows cs ds ∙ h)
Finishes-append made rows (raise e) cs ds (inr h) =
    inr (ground (arith, any-append lost_deletion cs ds))

abbrev pub new_source : UniverseSource × Bool → Option Row
new_source (source, new) = made_if new (source_row source.uid)

-- `Finishes` from the start of a creation, where the source is new or not.
abbrev pub Settled : {A : Type 0} → Result Fault A → List Call → Type 0
Settled (ok _) cs =
    (u : Uuid) × (c : Uuid) × (source : Uuid) × (new : Bool) × (left_behind [] cs
      ≡ universe_row u ∷ category_row c ∷ rows_of (made_if new (source_row source)))
Settled (raise _) cs = (left_behind [] cs ≡ []) ⊎ (any lost_deletion cs ≡ true)

pub Settled-later :
    {A : Type 0} (cs : List Call)
    → ((rows : List Row) → left_behind rows cs ≡ rows)
    → (r : Result Fault A) (ds : List Call) → Settled r ds
    → Settled r (cs ++ ds)
Settled-later cs still (ok a) ds (u, c, s, new, h) =
    (u, c, s, new, left_behind-append [] cs ds ∙ ap (λ left. left_behind left ds) (still []) ∙ h)
Settled-later cs still (raise e) ds (inl h) =
    inl (left_behind-append [] cs ds ∙ ap (λ left. left_behind left ds) (still []) ∙ h)
Settled-later cs still (raise e) ds (inr h) = inr (ground (arith, any-append lost_deletion cs ds))

rows_of-nil : (o : Option Row) → rows_of o ++ [] ≡ rows_of o
rows_of-nil none = refl
rows_of-nil (some r) = refl

settle :
    {A : Type 0} (source : Uuid) (new : Bool) (r : Result Fault A) (cs : List Call)
    → Finishes (rows_of (made_if new (source_row source))) [] r cs
    → Settled r cs
settle source new (ok a) cs (u, c, h) = (u, c, source, new, h)
settle source new (raise e) cs h = h

pub Settled-made :
    {A : Type 0} (source : UniverseSource) (new : Bool) (cs : List Call)
    → ((rows : List Row) → left_behind rows cs ≡ rows_of (new_source (source, new)) ++ rows)
    → (r : Result Fault A) (ds : List Call)
    → Finishes (rows_of (new_source (source, new))) (rows_of (new_source (source, new))) r ds
    → Settled r (cs ++ ds)
Settled-made source new cs made r ds h = settle source.uid new r (cs ++ ds) (
    Finishes-append (rows_of (new_source (source, new))) [] r cs ds (
      subst (λ left. Finishes (rows_of (new_source (source, new))) left r ds)
        (sym (made [] ∙ rows_of-nil (new_source (source, new)))) h))

pub makes_none :
    {A : Type 0} (r : Result Fault A) (cs : List Call) → MakesNone r cs → Makes (λ _. none) r cs
makes_none (ok a) cs h = h
makes_none (raise e) cs h = h

abbrev deletion_of : Option Row → List Call
deletion_of none = []
deletion_of (some r) = deleted r true ∷ []

-- A deletion that comes back has deleted its row.
abbrev pub Deletes : Option Row → Result Fault (Unit {0}) → List Call → Type 0
Deletes o (ok _) cs = cs ≡ deletion_of o
Deletes o (raise _) cs = any lost_deletion cs ≡ true

undone_one :
    (o : Option Row) (rows : List Row) (cs : List Call)
    → left_behind (rows_of o ++ rows) (deletion_of o ++ cs) ≡ left_behind rows cs
unfolding left_behind
undone_one none rows cs = refl
undone_one (some r) rows cs = ap (λ left. left_behind left cs) (remove_first r rows)

undone_last : (o : Option Row) → left_behind (rows_of o) (deletion_of o ++ []) ≡ []
unfolding left_behind
undone_last none = refl
undone_last (some r) = remove_first r []

pub undone :
    (u c s : Option Row) (cs ds es : List Call)
    → cs ≡ deletion_of u
    → ds ≡ deletion_of c
    → es ≡ deletion_of s
    → left_behind (rows_of u ++ (rows_of c ++ rows_of s)) (cs ++ (ds ++ (es ++ []))) ≡ []
undone u c s cs ds es hu hc hs =
    rw (hu, hc, hs) (undone_one u _ _ ∙ undone_one c _ _ ∙ undone_last s)
