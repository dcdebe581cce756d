-- ===== src/Holdings/Capture.antt =====
-- `src/alpaca_connectors/holdings/services.py`: the publication and the capture of a snapshot. The
-- registration, the Alpaca client, the registration of assets and Markets are parameters.
use alpaca_connectors.Prelude.{ℕ, String, not, Option, none, some, List, [], ◌∷◌, str_eq, length, ℤ}
use alpaca_connectors.Actions.{
  Action, pure, throw, ask, or_raise, raise_if, try_ask, try_tell, ◌>>=◌, ◌>>◌,
}
use alpaca_connectors.Holdings.Rows.{
  Position, HoldingsRow, default_cash_asset_identifier, build_account_holdings_rows,
}

-- The exceptions; `registry_error` is `AccountHoldingsRegistryError` with the assets that it names.
pub data Fault : Type 0 where
  lookup_error value_error runtime_error platform_error : Fault
  registry_error : List String → Fault

-- What `read_alpaca_account` brings: the account's id and cash, and its positions.
pub record AccountSnapshot : Type 0 where
  pub id : String
  pub cash : Option ℤ
  pub positions : List Position

-- The fields of a registration that a capture reads.
pub record RegisteredAccount : Type 0 where
  pub alpaca_account_id : String

-- What a capture calls; to read an account is to build its client and to read through it.
pub record HoldingsPlatform : Type 1 where
  pub State : Type 0
  pub now : State → ℕ × State
  pub get_account_registration : String → State → Option (Option RegisteredAccount) × State
  pub read_alpaca_account : String → State → Option AccountSnapshot × State
  pub prepare_alpaca_position_assets :
      List Position → State → Option (Position → Option String) × State
  pub ensure_cash_currency_asset : String → State → Option String × State
  pub publish : String → ℕ → List HoldingsRow → State → Option (Option String) × State

-- The writes: the assets of the positions, the cash asset with the identifier that is answered, and the snapshot of an account at a
-- time.
pub data Call : Type 0 where
  registered_assets : List Position → Call
  ensured_cash : String → Option String → Call
  published : String → ℕ → List HoldingsRow → Call

abbrev pub Run : HoldingsPlatform → Type 0 → Type 0
Run platform A = Action Fault Call platform.State A

-- `AccountHoldingsCaptureResult`, less the list that stays empty.
pub record AccountHoldingsCaptureResult : Type 0 where
  pub account_uid : String
  pub holdings_set_uid : Option String
  pub time_index : ℕ
  pub holdings_rows : ℕ

module _ (platform : HoldingsPlatform) where
  abbrev pub complete_rows : List HoldingsRow × List String → Run platform (List HoldingsRow)
  complete_rows (rows, []) = pure rows
  complete_rows (rows, name ∷ names) = throw (registry_error (name ∷ names))

  -- `resolve_complete_account_holdings_rows`
  unfoldable pub resolve_complete_account_holdings_rows :
      List Position
      → Option ℤ
      → (Position → Option String)
      → String
      → Run platform (List HoldingsRow)
  resolve_complete_account_holdings_rows positions cash asset_resolver cash_asset = do
    cash_identifier ←
        try_tell platform_error (ensured_cash cash_asset)
          (platform.ensure_cash_currency_asset cash_asset)
    complete_rows (build_account_holdings_rows asset_resolver positions cash (some cash_identifier))

  -- `publish_resolved_account_holdings_snapshot`
  unfoldable pub publish_resolved_account_holdings_snapshot :
      String → List HoldingsRow → ℕ → Run platform AccountHoldingsCaptureResult
  publish_resolved_account_holdings_snapshot account_uid [] time = pure (record {
    account_uid = account_uid;
    holdings_set_uid = none;
    time_index = time;
    holdings_rows = 0;
  })
  publish_resolved_account_holdings_snapshot account_uid (row ∷ rows) time = do
    snapshot ←
        try_tell platform_error (λ _. published account_uid time (row ∷ rows))
          (platform.publish account_uid time (row ∷ rows))
    set_uid ← or_raise runtime_error snapshot
    pure (record {
      account_uid = account_uid;
      holdings_set_uid = some set_uid;
      time_index = time;
      holdings_rows = length (row ∷ rows);
    })

  -- `publish_account_holdings_snapshot`
  unfoldable pub publish_account_holdings_snapshot :
      String
      → List Position
      → Option ℤ
      → ℕ
      → (Position → Option String)
      → String
      → Run platform AccountHoldingsCaptureResult
  publish_account_holdings_snapshot account_uid positions cash time asset_resolver cash_asset =
      resolve_complete_account_holdings_rows positions cash asset_resolver cash_asset >>= λ rows.
      publish_resolved_account_holdings_snapshot account_uid rows time

  -- `snapshot_time or now`
  abbrev pub time_or_now : Option ℕ → Run platform ℕ
  time_or_now (some time) = pure time
  time_or_now none = ask platform.now

  -- `capture_alpaca_account_holdings`
  unfoldable pub capture_alpaca_account_holdings :
      String → Option ℕ → Run platform AccountHoldingsCaptureResult
  capture_alpaca_account_holdings account_uid snapshot_time = do
    found ← try_ask platform_error (platform.get_account_registration account_uid)
    registration ← or_raise lookup_error found
    snapshot ← try_ask platform_error (platform.read_alpaca_account account_uid)
    raise_if (not (str_eq snapshot.id registration.alpaca_account_id)) value_error
    time ← time_or_now snapshot_time
    resolver ←
        try_tell platform_error (λ _. registered_assets snapshot.positions)
          (platform.prepare_alpaca_position_assets snapshot.positions)
    publish_account_holdings_snapshot account_uid snapshot.positions snapshot.cash time resolver
        default_cash_asset_identifier
