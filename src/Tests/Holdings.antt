-- ===== src/Tests/Holdings.antt =====
-- A platform as `src/alpaca_connectors/holdings` uses it, and the theorem about snapshots at an
-- input.
use alpaca_connectors.Prelude.{ℕ, none, some, [], ◌∷◌, pos, negsuc}
use alpaca_connectors.Holdings.Rows.{Position}
use alpaca_connectors.Holdings.Capture.{HoldingsPlatform, publish_account_holdings_snapshot}
use alpaca_connectors.Holdings.Complete.{
  PublishesComplete, publish_account_holdings_snapshot-PublishesComplete,
}

abbrev position : Position
position = record {
  asset_id = some "a1";
  symbol = some "AAPL";
  asset_class = some "us_equity";
  exchange = some "NASDAQ";
  side = some "long";
  qty = some (pos 3000000000);
  avg_entry_price = none;
  market_value = none;
  cost_basis = none;
  unrealized_pl = none;
  current_price = none;
}

abbrev platform : HoldingsPlatform
platform = record {
  State = ℕ;
  now = λ s. (s, s);
  get_account_registration = λ uid s. (some (some (record { alpaca_account_id = "A1" })), s);
  read_alpaca_account =
      λ uid s. (some (record { id = "A1"; cash = some (pos 5); positions = position ∷ [] }), s);
  prepare_alpaca_position_assets = λ positions s. (some (λ p. some "ALPACA::a1"), s);
  ensure_cash_currency_asset = λ identifier s. (some identifier, s);
  publish = λ uid time rows s. (some (some "set"), s);
}

publish_account_holdings_snapshot-PublishesComplete_example :
    let (r, cs, _) =
      publish_account_holdings_snapshot platform "u"
        (position ∷ [])
        (some (negsuc 4))
        7
        (λ p. some "ALPACA::a1")
        "USD"
        0 in
    PublishesComplete "u" (λ p. some "ALPACA::a1") (position ∷ []) (some (negsuc 4)) 7 "USD" r cs
publish_account_holdings_snapshot-PublishesComplete_example =
    publish_account_holdings_snapshot-PublishesComplete platform "u" (position ∷ [])
      (some (negsuc 4)) 7 (λ p. some "ALPACA::a1") "USD" 0
