-- ===== src/MarketData/Bars/Symbols.antt =====
-- The candidates, the lookup and the bindings of symbols of
-- `src/alpaca_connectors/market_data/alpaca_bars_support.py`.
use alpaca_connectors.Prelude.{
  ℕ, ◌+◌, ◌≤◌, ◌≡◌, refl, sym, ap, String, false, not, ◌&&◌, Option, none, some, List, [], ◌∷◌,
  ◌++◌, map, if◌then◌else◌, arith, is_empty, contains, str_eq, eq_iff, lookup, insert,
  lookup-insert, get_or_else, ◌∙◌, Dict, Bool-cases, inl, inr, upper, strip,
}
use alpaca_connectors.MarketData.Bars.{
  add_candidates, build_symbol_alias_candidates, alias_candidates, put_candidates,
  symbol_lookup_from, build_alpaca_symbol_lookup, AssetTicker, AlpacaBarAssetBinding, resolve_all,
  resolve_asset_bindings, add_resolution, all_resolved,
}

-- How often a text stands in a list.
abbrev pub times : String → List String → ℕ
times text [] = 0
times text (x ∷ xs) = (if str_eq x text then 1 else 0) + times text xs

times-append :
    (text : String) (xs ys : List String) → times text (xs ++ ys) ≡ times text xs + times text ys
times-append text [] ys = omega arith
times-append text (x ∷ xs) ys = omega (arith, times-append text xs ys)

times-absent : (text : String) (xs : List String) → contains xs text ≡ false → times text xs ≡ 0
times-absent text [] h = refl
times-absent text (x ∷ xs) h = ground (arith, eq_iff x text, eq_iff text x, times-absent text xs)

times-add :
    (text : String) (candidates aliases : List String)
    → times text candidates ≤ 1
    → times text (add_candidates candidates aliases) ≤ 1
unfolding add_candidates
times-add text candidates [] h = h
times-add text candidates (alias ∷ aliases) h =
    elim (Bool-cases (not (is_empty alias) && not (contains candidates alias))) [
      | inl e ↦ rw e (
          times-add text (candidates ++ (alias ∷ [])) aliases (
            ground (
              arith,
              times-append text candidates (alias ∷ []),
              times-absent text candidates,
              eq_iff alias text,
            )))
      | inr e ↦ rw e (times-add text candidates aliases h)
    ]

-- No candidate for a symbol comes twice.
pub build_symbol_alias_candidates_once :
    (symbol text : String) → times text (build_symbol_alias_candidates symbol) ≤ 1
unfolding build_symbol_alias_candidates
build_symbol_alias_candidates_once symbol text =
    elim (Bool-cases (is_empty (upper (strip symbol)))) [
      | inl e ↦ rw e (omega arith)
      | inr e ↦ rw e (
          times-add text (upper (strip symbol) ∷ []) (alias_candidates (upper (strip symbol)))
            (ground arith))
    ]

-- The last symbol of the catalogue that has the candidate, or the one before all of them.
abbrev pub last_with : String → Option String → List String → Option String
last_with candidate found [] = found
last_with candidate found (symbol ∷ symbols) =
    last_with candidate
      (if contains (build_symbol_alias_candidates symbol) candidate then some symbol else found)
      symbols

put_candidates-lookup :
    (candidate symbol : String) (candidates : List String) (d : Dict String)
    → lookup candidate (put_candidates symbol candidates d)
      ≡ (if contains candidates candidate then some symbol else lookup candidate d)
unfolding put_candidates
put_candidates-lookup candidate symbol [] d = refl
put_candidates-lookup candidate symbol (c ∷ cs) d = ground (
  arith,
  put_candidates-lookup candidate symbol cs (insert c symbol d),
  lookup-insert c candidate symbol d,
  eq_iff c candidate,
  eq_iff candidate c,
)

symbol_lookup_from-lookup :
    (candidate : String) (d : Dict String) (symbols : List String)
    → lookup candidate (symbol_lookup_from d symbols)
      ≡ last_with candidate (lookup candidate d) symbols
unfolding symbol_lookup_from
symbol_lookup_from-lookup candidate d [] = refl
symbol_lookup_from-lookup candidate d (symbol ∷ symbols) =
    symbol_lookup_from-lookup candidate
      (put_candidates symbol (build_symbol_alias_candidates symbol) d) symbols
    ∙ ap (λ found. last_with candidate found symbols)
        (put_candidates-lookup candidate symbol (build_symbol_alias_candidates symbol) d)

-- The lookup gives a spelling the last symbol of the catalogue that has it among its candidates,
-- whether or not another symbol is spelled so.
pub build_alpaca_symbol_lookup_last :
    (candidate : String) (symbols : List String)
    → lookup candidate (build_alpaca_symbol_lookup symbols) ≡ last_with candidate none symbols
build_alpaca_symbol_lookup_last candidate symbols = symbol_lookup_from-lookup candidate [] symbols

abbrev pub binding_ids : List AlpacaBarAssetBinding → List String
binding_ids = map (λ b. b.unique_identifier)

abbrev pub asset_identifiers : List AssetTicker → List String
asset_identifiers = map (λ a. a.unique_identifier)

-- Nothing unresolved means a binding for each.
abbrev Bound : List AssetTicker → List AlpacaBarAssetBinding × List AssetTicker → Type 0
Bound assets (bindings, []) = binding_ids bindings ≡ asset_identifiers assets
Bound assets (bindings, _ ∷ _) = Unit

add_resolution-Bound :
    (asset : AssetTicker) (assets : List AssetTicker) (symbol : Option String)
    (sorted : List AlpacaBarAssetBinding × List AssetTicker)
    → Bound assets sorted
    → Bound (asset ∷ assets) (add_resolution asset symbol sorted)
add_resolution-Bound asset assets none (bindings, unresolved) h = tt
add_resolution-Bound asset assets (some symbol) (bindings, []) h =
    ap (◌∷◌ asset.unique_identifier) h
add_resolution-Bound asset assets (some symbol) (bindings, _ ∷ _) h = tt

resolve_all-Bound :
    (d : Dict String) (assets : List AssetTicker) → Bound assets (resolve_all d assets)
unfolding resolve_all
resolve_all-Bound d [] = refl
resolve_all-Bound d (asset ∷ assets) =
    add_resolution-Bound asset assets _ (resolve_all d assets) (resolve_all-Bound d assets)

-- If the assets can be bound, every asset has one binding, in the order of the assets.
pub resolve_asset_bindings_all :
    (catalogue : List String) (assets : List AssetTicker) (bindings : List AlpacaBarAssetBinding)
    → resolve_asset_bindings catalogue assets ≡ some bindings
    → binding_ids bindings ≡ asset_identifiers assets
unfolding resolve_asset_bindings
resolve_asset_bindings_all catalogue assets bindings h =
    bound (resolve_all (build_alpaca_symbol_lookup catalogue) assets) (resolve_all-Bound _ assets) h
  where
    bound :
        (sorted : List AlpacaBarAssetBinding × List AssetTicker)
        → Bound assets sorted
        → all_resolved sorted ≡ some bindings
        → binding_ids bindings ≡ asset_identifiers assets
    bound (found, []) k h = ap (λ o. binding_ids (get_or_else o [])) (sym h) ∙ k
    bound (found, _ ∷ _) k h = absurd (ground arith)
