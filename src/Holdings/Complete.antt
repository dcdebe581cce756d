-- ===== src/Holdings/Complete.antt =====
-- A snapshot that `src/alpaca_connectors/holdings/services.py` publishes is complete.
pub mod Rows
use alpaca_connectors.Prelude.{
  ℕ, ◌≡◌, refl, ◌⊎◌, inl, inr, String, Bool, true, false, Option, none, some, List, [], ◌∷◌, ◌++◌,
  if◌then◌else◌, length, arith, ℤ, pos, abs, ltb_ℤ, is_empty, ◌≢◌, ◌||◌, Bool-cases, ◌==◌,
}
use alpaca_connectors.Actions.{Result, ok, raise}
use alpaca_connectors.Actions.Spec.{
  Spec, Spec-bind, Spec-pure, Spec-throw, Spec-weaken, Spec-try_tell, Spec-or_raise,
}
use alpaca_connectors.Holdings.Rows.{
  Position, HoldingsRow, is_short, quantity_of, is_zero, filled, position_rows, cash_rows,
  add_position, long, short, position_details, cash_details, position_row, cash_row, sorted_set,
  insert_text, build_account_holdings_rows,
}
use alpaca_connectors.Holdings.Capture.{
  HoldingsPlatform, Call, ensured_cash, published, Fault, registry_error, platform_error,
  runtime_error, AccountHoldingsCaptureResult, resolve_complete_account_holdings_rows,
  publish_resolved_account_holdings_snapshot, publish_account_holdings_snapshot, complete_rows,
}
use alpaca_connectors.Holdings.Complete.Rows.{
  IsComplete, HasUnresolved, built-IsComplete, built-HasUnresolved,
}

-- What a publication writes: nothing for no rows, and otherwise one snapshot.
abbrev pub publication : String → ℕ → List HoldingsRow → List Call
publication account_uid time [] = []
publication account_uid time (row ∷ rows) = published account_uid time (row ∷ rows) ∷ []

-- The cash asset was answered, all positions have an asset, and the rows of all are published.
abbrev pub PublishesAll :
    String
    → (Position → Option String)
    → List Position
    → Option ℤ
    → ℕ
    → String
    → List HoldingsRow
    → List Call
    → Type 0
PublishesAll account_uid resolve_asset positions cash time cash_asset rows cs =
    (currency : String) × IsComplete resolve_asset positions cash currency rows
    × (cs ≡ ensured_cash cash_asset (some currency) ∷ publication account_uid time rows)

-- A normal end has published the complete rows. An exception comes from the cash asset, from a
-- position without an asset, before which nothing is published, or from the publication of the
-- complete rows.
abbrev pub PublishesComplete :
    String
    → (Position → Option String)
    → List Position
    → Option ℤ
    → ℕ
    → String
    → Result Fault AccountHoldingsCaptureResult
    → List Call
    → Type 0
PublishesComplete account_uid resolve_asset positions cash time cash_asset (ok result) cs =
    (rows : List HoldingsRow) × PublishesAll account_uid resolve_asset positions cash time
      cash_asset rows cs
    × (result.holdings_rows ≡ length rows)
PublishesComplete account_uid resolve_asset positions cash time cash_asset
      (raise (registry_error names)) cs =
    HasUnresolved resolve_asset positions
    × ((currency : String) × (cs ≡ ensured_cash cash_asset (some currency) ∷ []))
PublishesComplete account_uid resolve_asset positions cash time cash_asset (raise _) cs =
    (cs ≡ ensured_cash cash_asset none ∷ [])
    ⊎ ((rows : List HoldingsRow) × PublishesAll account_uid resolve_asset positions cash time
          cash_asset rows cs)

-- The end of the first part: rows that are complete, or an exception.
abbrev Resolves :
    (Position → Option String)
    → List Position
    → Option ℤ
    → String
    → Result Fault (List HoldingsRow)
    → List Call
    → Type 0
Resolves resolve_asset positions cash cash_asset (ok rows) cs =
    (currency : String) × IsComplete resolve_asset positions cash currency rows
    × (cs ≡ ensured_cash cash_asset (some currency) ∷ [])
Resolves resolve_asset positions cash cash_asset (raise (registry_error names)) cs =
    HasUnresolved resolve_asset positions
    × ((currency : String) × (cs ≡ ensured_cash cash_asset (some currency) ∷ []))
Resolves resolve_asset positions cash cash_asset (raise _) cs =
    cs ≡ ensured_cash cash_asset none ∷ []

abbrev Publishes :
    String → ℕ → List HoldingsRow → Result Fault AccountHoldingsCaptureResult → List Call → Type 0
Publishes account_uid time rows (ok result) cs =
    (result.holdings_rows ≡ length rows) × (cs ≡ publication account_uid time rows)
Publishes account_uid time rows (raise (registry_error names)) cs = ⊥
Publishes account_uid time rows (raise _) cs = cs ≡ publication account_uid time rows

abbrev Told : {A : Type 0} → Call → Result Fault A → List Call → Type 0
Told c (ok _) cs = cs ≡ c ∷ []
Told c (raise e) cs = (e ≡ platform_error) × (cs ≡ c ∷ [])

abbrev Answered : {A : Type 0} → Result Fault A → List Call → Type 0
Answered (ok _) cs = cs ≡ []
Answered (raise e) cs = (e ≡ runtime_error) × (cs ≡ [])

-- The cash asset with the identifier that is answered.
abbrev Asked : String → Result Fault String → List Call → Type 0
Asked cash_asset (ok currency) cs = cs ≡ ensured_cash cash_asset (some currency) ∷ []
Asked cash_asset (raise e) cs = (e ≡ platform_error) × (cs ≡ ensured_cash cash_asset none ∷ [])

module _ (platform : HoldingsPlatform) where
  publish-Publishes :
      (account_uid : String) (rows : List HoldingsRow) (time : ℕ)
      → Spec
          (Publishes account_uid time rows)
          (publish_resolved_account_holdings_snapshot platform account_uid rows time)
  unfolding publish_resolved_account_holdings_snapshot
  publish-Publishes account_uid [] time = Spec-pure _ (refl, refl)
  publish-Publishes account_uid (row ∷ rows) time =
      Spec-bind (Told (published account_uid time (row ∷ rows))) _ _
        (Spec-try_tell _ _ _ (refl, refl) (λ _. refl))
        (λ snapshot cs e.
          Spec-bind Answered _ _ (Spec-or_raise _ snapshot (refl, refl) (λ _. refl))
            (λ set_uid ds k. Spec-pure _ (refl, rw (e, k) refl))
            (λ x ds (same, k). rw (same, e, k) refl))
        (λ x cs (same, h). rw (same, h) refl)

  resolve-Resolves :
      (positions : List Position) (cash : Option ℤ) (resolver : Position → Option String)
      (cash_asset : String)
      → Spec
          (Resolves resolver positions cash cash_asset)
          (resolve_complete_account_holdings_rows platform positions cash resolver cash_asset)
  unfolding resolve_complete_account_holdings_rows
  resolve-Resolves positions cash resolver cash_asset =
      Spec-bind (Asked cash_asset) _ _ (Spec-try_tell _ _ _ (refl, refl) (λ _. refl))
        (λ currency cs e.
          completed currency cs e _ (built-IsComplete resolver positions cash currency)
            (built-HasUnresolved resolver positions cash currency))
        (λ e cs (same, h). rw (same, h) refl)
    where
      completed :
          (currency : String) (cs : List Call)
          → cs ≡ ensured_cash cash_asset (some currency) ∷ []
          → (built : List HoldingsRow × List String)
          → (built.1 ≡ [] → IsComplete resolver positions cash currency built.0)
          → (built.1 ≢ [] → HasUnresolved resolver positions)
          → Spec
              (λ r ds. Resolves resolver positions cash cash_asset r (cs ++ ds))
              (complete_rows platform built)
      completed currency cs e (rows, []) h k = Spec-pure rows (currency, h refl, rw e refl)
      completed currency cs e (rows, name ∷ names) h k =
          Spec-throw _ (k (λ x. cc), (currency, rw e refl))

  -- If a publication ends normally, it has made the cash asset and published, as one snapshot, exactly
  -- the rows of the positions with a quantity, each with its asset, quantity and direction, in order,
  -- and then the row of the cash under the identifier that was answered; no rows are not published.
  -- If an exception names unresolved assets, some position has a quantity and no asset, and nothing was
  -- published. After any other exception nothing was published, or exactly those rows.
  pub publish_account_holdings_snapshot-PublishesComplete :
      (account_uid : String) (positions : List Position) (cash : Option ℤ) (time : ℕ)
      (resolver : Position → Option String) (cash_asset : String) (s : platform.State)
      → let (r, cs, _) =
          publish_account_holdings_snapshot platform account_uid positions cash time resolver
            cash_asset s in
        PublishesComplete account_uid resolver positions cash time cash_asset r cs
  unfolding publish_account_holdings_snapshot
  publish_account_holdings_snapshot-PublishesComplete account_uid positions cash time resolver
        cash_asset s =
      whole.at s
    where
      joined :
          (rows : List HoldingsRow) (cs : List Call) (currency : String)
          → IsComplete resolver positions cash currency rows
          → cs ≡ ensured_cash cash_asset (some currency) ∷ []
          → (r : Result Fault AccountHoldingsCaptureResult) (ds : List Call)
          → Publishes account_uid time rows r ds
          → PublishesComplete account_uid resolver positions cash time cash_asset r (cs ++ ds)
      joined rows cs currency complete e (ok result) ds h =
          (rows, (currency, complete, rw (e, h.1) refl), h.0)
      joined rows cs currency complete e (raise (registry_error names)) ds h = absurd h
      joined rows cs currency complete e (raise _) ds h =
          inr (rows, (currency, complete, rw (e, h) refl))

      refused :
          (e : Fault) (cs : List Call)
          → Resolves resolver positions cash cash_asset (raise e) cs
          → PublishesComplete account_uid resolver positions cash time cash_asset (raise e) cs
      refused (registry_error names) cs h = h
      refused _ cs h = inl h

      whole : Spec (PublishesComplete account_uid resolver positions cash time cash_asset) (
          publish_account_holdings_snapshot platform account_uid positions cash time resolver
            cash_asset)
      whole =
          Spec-bind (Resolves resolver positions cash cash_asset) _ _
            (resolve-Resolves positions cash resolver cash_asset)
            (λ rows cs (currency, complete, e).
              Spec-weaken _ _ (publish-Publishes account_uid rows time)
                (joined rows cs currency complete e))
            refused
