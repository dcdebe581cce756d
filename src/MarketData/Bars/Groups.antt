-- ===== src/MarketData/Bars/Groups.antt =====
-- `group_bindings_by_last_update` of `src/alpaca_connectors/market_data/alpaca_bars_support.py`.
use alpaca_connectors.Prelude.{
  ℕ, ◌+◌, ◌<◌, ◌≡◌, refl, sym, ap, subst, ◌∙◌, Option, none, some, List, [], ◌∷◌, ◌++◌,
  if◌then◌else◌, arith, length, ltb, ◌==◌, Dict, lookup, length-append,
}
use alpaca_connectors.MarketData.Bars.{Time, AlpacaBarAssetBinding}

-- The buckets by time, kept in rising order.
abbrev pub Groups : Type 0
Groups = List (Time × List AlpacaBarAssetBinding)

-- A binding goes to the end of the bucket of its time.
unfoldable pub add_binding : Time → AlpacaBarAssetBinding → Groups → Groups
add_binding time b [] = (time, b ∷ []) ∷ []
add_binding time b ((other, bindings) ∷ groups) =
    if time == other
    then (other, bindings ++ (b ∷ [])) ∷ groups
    else if ltb time other
    then (time, b ∷ []) ∷ (other, bindings) ∷ groups
    else (other, bindings) ∷ add_binding time b groups

abbrev pub add_at : Option Time → AlpacaBarAssetBinding → Groups → Option Groups
add_at none b groups = none
add_at (some time) b groups = some (add_binding time b groups)

abbrev pub then_group : Option Groups → (Groups → Option Groups) → Option Groups
then_group none rest = none
then_group (some groups) rest = rest groups

-- The loop; `none` is the KeyError of an asset that has no last update.
unfoldable pub group_from : Dict Time → Groups → List AlpacaBarAssetBinding → Option Groups
group_from last groups [] = some groups
group_from last groups (b ∷ bindings) =
    then_group (add_at (lookup b.unique_identifier last) b groups)
      λ more. group_from last more bindings

-- `group_bindings_by_last_update`
unfoldable pub group_bindings_by_last_update :
    List AlpacaBarAssetBinding → Dict Time → Option Groups
group_bindings_by_last_update bindings last = group_from last [] bindings

-- The times of the buckets rise.
abbrev pub IsRising : Groups → Type 0
IsRising [] = Unit
IsRising (g ∷ []) = Unit
IsRising ((t, _) ∷ (u, bs) ∷ groups) = (t < u) × IsRising ((u, bs) ∷ groups)

abbrev pub size : Groups → ℕ
size [] = 0
size ((_, bindings) ∷ groups) = length bindings + size groups

add_binding-IsRising :
    (time : Time) (b : AlpacaBarAssetBinding) (groups : Groups)
    → IsRising groups
    → IsRising (add_binding time b groups)
unfolding add_binding
add_binding-IsRising time b [] h = tt
add_binding-IsRising time b ((t, bs) ∷ []) h = ground arith
add_binding-IsRising time b ((t, bs) ∷ (u, cs) ∷ groups) h =
    ground (arith, add_binding-IsRising time b ((u, cs) ∷ groups))

size-add_binding :
    (time : Time) (b : AlpacaBarAssetBinding) (groups : Groups)
    → size (add_binding time b groups) ≡ size groups + 1
unfolding add_binding
size-add_binding time b [] = refl
size-add_binding time b ((t, bs) ∷ groups) =
    ground (arith, length-append bs (b ∷ []), size-add_binding time b groups)

abbrev get_or : Groups → Option Groups → Groups
get_or groups none = groups
get_or groups (some found) = found

group_from-IsRising :
    (last : Dict Time) (groups : Groups) (bindings : List AlpacaBarAssetBinding) (found : Groups)
    → IsRising groups
    → group_from last groups bindings ≡ some found
    → IsRising found × (size found ≡ size groups + length bindings)
unfolding group_from
group_from-IsRising last groups [] found h k =
    (subst IsRising same h, ap size (sym same) ∙ omega arith)
  where
    same : groups ≡ found
    same = ap (get_or groups) k
group_from-IsRising last groups (b ∷ bindings) found h k =
    go (lookup b.unique_identifier last)
      (λ time.
        group_from-IsRising last (add_binding time b groups) bindings found
          (add_binding-IsRising time b groups h))
      k
  where
    go :
        (o : Option Time)
        → ((time : Time)
            → group_from last (add_binding time b groups) bindings ≡ some found
            → IsRising found × (size found ≡ size (add_binding time b groups) + length bindings))
        → then_group (add_at o b groups) (λ more. group_from last more bindings) ≡ some found
        → IsRising found × (size found ≡ size groups + length (b ∷ bindings))
    go none rest k = absurd (ground arith)
    go (some time) rest k =
        let (rising, counted) = rest time k in
        (rising, omega (arith, counted, size-add_binding time b groups))

-- If every binding has a last update, the buckets stand in strictly rising order of their times and
-- have as many bindings together as were given.
pub group_bindings_by_last_update-IsRising :
    (bindings : List AlpacaBarAssetBinding) (last : Dict Time) (groups : Groups)
    → group_bindings_by_last_update bindings last ≡ some groups
    → IsRising groups × (size groups ≡ length bindings)
unfolding group_bindings_by_last_update
group_bindings_by_last_update-IsRising bindings last groups h =
    let (rising, counted) = group_from-IsRising last [] bindings groups tt h in
    (rising, omega (arith, counted))
