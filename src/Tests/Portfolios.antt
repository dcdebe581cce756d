-- ===== src/Tests/Portfolios.antt =====
-- Tables as `src/alpaca_connectors/portfolios/configurations.py` uses them, and the theorem about
-- their writes at an input.
use alpaca_connectors.Prelude.{
  folded, lower, length, ℕ, suc, ◌≡◌, refl, strip, true, false, none, some, All, pos, negsuc,
}
use alpaca_connectors.Actions.{ok, raise, ◌>>=◌, pure, ask, tell}
use alpaca_connectors.Portfolios.Checks.{
  value_error, nan, finite, commission, normalize_rebalance_strategy, normalize_rebalance_event,
  normalize_rebalance_cadence, positive_seconds, description_of, nonempty, rebalance_weekday,
  phase_one_value,
}
use alpaca_connectors.Portfolios.Rebalance.{
  rebalance_values, RebalanceValues, RebalanceChanges, RebalanceTable,
  PortfolioRebalanceConfiguration, create_rebalance_configuration, update_rebalance_configuration,
}
use alpaca_connectors.Portfolios.Configurations.{
  portfolio_values, validate_portfolio_references, PortfolioValues, PortfolioTables,
  AlpacaEtfPortfolioConfiguration, create_portfolio_configuration_row,
  update_portfolio_configuration, only_scheduled,
}
use alpaca_connectors.Portfolios.Valid.Writes.{
  KeepsRebalance, KeepsPortfolio, configurations_stay_valid,
}

abbrev values : RebalanceValues
values = record {
  name = " weekly ";
  description = some " ";
  strategy = "calendar_event_signal";
  calendar_identifier = "XNYS";
  session_label = "regular";
  rebalance_event = "market_close";
  event_offset_seconds = negsuc 299;
  rebalance_cadence = "weekly";
  rebalance_weekday = pos 4;
}

abbrev row : PortfolioValues
row = record {
  name = "core";
  description = none;
  signal_configuration_uid = 1;
  bars_configuration_uid = 2;
  rebalance_configuration_uid = 3;
  scheduled = true;
  upsample_frequency_id = "1d";
  intraday_bar_interpolation_rule = "ffill";
  valuation_column = "close";
  valuation_maximum_staleness_seconds = pos 86400;
  fail_on_missing_prices = false;
  commission_fee = finite (pos 180000);
}

abbrev stored_rebalance : PortfolioRebalanceConfiguration
stored_rebalance = record { uid = 3; values = values; created_at = 1; updated_at = 1 }

abbrev stored_portfolio : AlpacaEtfPortfolioConfiguration
stored_portfolio = record {
  uid = 4;
  values = row;
  portfolio_uid = none;
  created_at = 1;
  updated_at = 1;
}

abbrev table : RebalanceTable
table = record {
  State = ℕ;
  now = λ s. (s, s);
  get_by_uid = λ uid s. (some (some stored_rebalance), s);
  create = λ uid v time s. (some (some stored_rebalance), suc s);
  update = λ uid c time s. (some stored_rebalance, suc s);
  delete = λ uid s. (some tt, s);
}

abbrev tables : PortfolioTables
tables = record {
  State = ℕ;
  now = λ s. (s, s);
  signal_exists = λ uid s. (some true, s);
  bars_by_uid = λ uid s. (some (some (record { enabled = true })), s);
  rebalance_by_uid = λ uid s. (some (some stored_rebalance), s);
  get_by_uid = λ uid s. (some (some stored_portfolio), s);
  create = λ uid v time s. (some (some stored_portfolio), suc s);
  update = λ uid c time s. (some stored_portfolio, suc s);
  delete = λ uid s. (some tt, s);
}

abbrev no_change : RebalanceChanges
no_change = record {
  name = none;
  description = none;
  strategy = none;
  calendar_identifier = none;
  session_label = none;
  rebalance_event = none;
  event_offset_seconds = none;
  rebalance_cadence = none;
  rebalance_weekday = some (pos 1);
}

configurations_stay_valid_example :
    All KeepsRebalance (create_rebalance_configuration table none values 0).1
    × All KeepsRebalance (update_rebalance_configuration table 3 no_change 0).1
    × All KeepsPortfolio (create_portfolio_configuration_row tables none row 0).1
    × All KeepsPortfolio (update_portfolio_configuration tables 3 (only_scheduled false) 0).1
configurations_stay_valid_example =
    configurations_stay_valid table tables 3 none values no_change row (only_scheduled false) 0 0

saturday : rebalance_weekday (pos 7) ≡ raise value_error
unfolding rebalance_weekday
saturday = refl

another_frequency : phase_one_value "1d" 16 "1h" ≡ raise value_error
unfolding phase_one_value nonempty strip
another_frequency = refl

-- The witness writes in all four operations.
writes_rebalance : length (create_rebalance_configuration table none values 0).1 ≡ 1
unfolding create_rebalance_configuration rebalance_values nonempty strip folded lower
    normalize_rebalance_strategy normalize_rebalance_event normalize_rebalance_cadence
    rebalance_weekday description_of ◌>>=◌ pure ask tell
writes_rebalance = refl

writes_portfolio : length (create_portfolio_configuration_row tables none row 0).1 ≡ 1
unfolding create_portfolio_configuration_row validate_portfolio_references portfolio_values nonempty
    strip folded lower normalize_rebalance_strategy phase_one_value positive_seconds commission
    description_of ◌>>=◌ pure ask tell
writes_portfolio = refl

-- NaN passes the check of the fee.
accepts_nan : commission nan ≡ ok nan
unfolding commission
accepts_nan = refl
