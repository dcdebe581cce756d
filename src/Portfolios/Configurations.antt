-- ===== src/Portfolios/Configurations.antt =====
-- `src/alpaca_connectors/portfolios/configurations.py`: the configurations of portfolios, over a
-- table, and the configurations that they refer to, which are parameters.
use alpaca_connectors.Prelude.{
  ℕ, String, Bool, not, ◌&&◌, Option, none, some, if◌then◌else◌, is_some, get_or_else, ℤ, Uuid,
}
use alpaca_connectors.Actions.{
  Action, Result, ok, pure, throw, ask, lift, or_raise, raise_if, try_ask, try_tell, ◌>>=◌, ◌>>◌,
}
use alpaca_connectors.Actions.Checked.{◌>>?◌, check_given}
use alpaca_connectors.Portfolios.Checks.{
  Fault, lookup_error, value_error, runtime_error, platform_error, nonempty, description_of,
  phase_one_value, normalize_rebalance_strategy, positive_seconds, Float, commission,
}
use alpaca_connectors.Portfolios.Rebalance.{PortfolioRebalanceConfiguration}

-- The values of a row of `AlpacaETFPortfolioConfiguration` that a caller gives.
pub record PortfolioValues : Type 0 where
  pub name : String
  pub description : Option String
  pub signal_configuration_uid : Uuid
  pub bars_configuration_uid : Uuid
  pub rebalance_configuration_uid : Uuid
  pub scheduled : Bool
  pub upsample_frequency_id : String
  pub intraday_bar_interpolation_rule : String
  pub valuation_column : String
  pub valuation_maximum_staleness_seconds : ℤ
  pub fail_on_missing_prices : Bool
  pub commission_fee : Float

pub record AlpacaEtfPortfolioConfiguration : Type 0 where
  pub uid : Uuid
  pub values : PortfolioValues
  pub portfolio_uid : Option Uuid
  pub created_at : ℕ
  pub updated_at : ℕ

-- What an update gives, and what it writes.
pub record PortfolioChanges : Type 0 where
  pub name : Option String
  pub description : Option (Option String)
  pub signal_configuration_uid : Option Uuid
  pub bars_configuration_uid : Option Uuid
  pub rebalance_configuration_uid : Option Uuid
  pub scheduled : Option Bool
  pub upsample_frequency_id : Option String
  pub intraday_bar_interpolation_rule : Option String
  pub valuation_column : Option String
  pub valuation_maximum_staleness_seconds : Option ℤ
  pub fail_on_missing_prices : Option Bool
  pub commission_fee : Option Float

-- A bars configuration, of which only the flag is read.
pub record BarsConfiguration : Type 0 where
  pub enabled : Bool

pub record PortfolioTables : Type 1 where
  pub State : Type 0
  pub now : State → ℕ × State
  pub signal_exists : Uuid → State → Option Bool × State
  pub bars_by_uid : Uuid → State → Option (Option BarsConfiguration) × State
  pub rebalance_by_uid : Uuid → State → Option (Option PortfolioRebalanceConfiguration) × State
  pub get_by_uid : Uuid → State → Option (Option AlpacaEtfPortfolioConfiguration) × State
  pub create :
      Option Uuid
      → PortfolioValues
      → ℕ
      → State
      → Option (Option AlpacaEtfPortfolioConfiguration) × State
  pub update : Uuid → PortfolioChanges → ℕ → State → Option AlpacaEtfPortfolioConfiguration × State
  pub delete : Uuid → State → Option (Unit {0}) × State

-- The writes, in order.
pub data Call : Type 0 where
  created : PortfolioValues → Call
  updated : Uuid → PortfolioChanges → Call
  deleted : Uuid → Call

abbrev pub Run : PortfolioTables → Type 0 → Type 0
Run tables A = Action Fault Call tables.State A

-- The `values` of `create_portfolio_configuration_row`.
unfoldable pub portfolio_values : PortfolioValues → Result Fault PortfolioValues
portfolio_values v = nonempty 255 v.name >>? λ name.
    phase_one_value "1d" 16 v.upsample_frequency_id >>? λ frequency.
    phase_one_value "ffill" 16 v.intraday_bar_interpolation_rule >>? λ rule.
    nonempty 64 v.valuation_column >>? λ column.
    positive_seconds v.valuation_maximum_staleness_seconds >>? λ seconds. ok (record v {
      name = name;
      description = description_of v.description;
      upsample_frequency_id = frequency;
      intraday_bar_interpolation_rule = rule;
      valuation_column = column;
      valuation_maximum_staleness_seconds = seconds;
    })

abbrev pub map_description : Option (Option String) → Option (Option String)
map_description none = none
map_description (some d) = some (description_of d)

-- The `values` of `update_portfolio_configuration`, with the references that were validated.
unfoldable pub portfolio_changes :
    Uuid → Uuid → Uuid → PortfolioChanges → Result Fault PortfolioChanges
portfolio_changes signal bars rebalance c = check_given (nonempty 255) c.name >>? λ name.
    check_given (phase_one_value "1d" 16) c.upsample_frequency_id >>? λ frequency.
    check_given (phase_one_value "ffill" 16) c.intraday_bar_interpolation_rule >>? λ rule.
    check_given (nonempty 64) c.valuation_column >>? λ column.
    check_given positive_seconds c.valuation_maximum_staleness_seconds >>? λ seconds.
    check_given commission c.commission_fee >>? λ fee. ok (record {
      name = name;
      description = map_description c.description;
      signal_configuration_uid = some signal;
      bars_configuration_uid = some bars;
      rebalance_configuration_uid = some rebalance;
      scheduled = c.scheduled;
      upsample_frequency_id = frequency;
      intraday_bar_interpolation_rule = rule;
      valuation_column = column;
      valuation_maximum_staleness_seconds = seconds;
      fail_on_missing_prices = c.fail_on_missing_prices;
      commission_fee = fee;
    })

-- Only `scheduled` may be given.
abbrev pub keeps_calculation : PortfolioChanges → Bool
keeps_calculation c =
    not (is_some c.description)
    && (not (is_some c.name)
        && (not (is_some c.signal_configuration_uid)
            && (not (is_some c.bars_configuration_uid)
                && (not (is_some c.rebalance_configuration_uid)
                    && (not (is_some c.upsample_frequency_id)
                        && (not (is_some c.intraday_bar_interpolation_rule)
                            && (not (is_some c.valuation_column)
                                && (not (is_some c.valuation_maximum_staleness_seconds)
                                    && (not (is_some c.fail_on_missing_prices)
                                        && not (is_some c.commission_fee))))))))))

-- The flag alone.
abbrev pub only_scheduled : Bool → PortfolioChanges
only_scheduled flag = record {
  name = none;
  description = none;
  signal_configuration_uid = none;
  bars_configuration_uid = none;
  rebalance_configuration_uid = none;
  scheduled = some flag;
  upsample_frequency_id = none;
  intraday_bar_interpolation_rule = none;
  valuation_column = none;
  valuation_maximum_staleness_seconds = none;
  fail_on_missing_prices = none;
  commission_fee = none;
}

module _ (tables : PortfolioTables) where
  -- `validate_portfolio_references`
  unfoldable pub validate_portfolio_references : Uuid → Uuid → Uuid → Run tables (Unit {0})
  validate_portfolio_references signal bars rebalance = do
    signal_found ← try_ask platform_error (tables.signal_exists signal)
    raise_if (not signal_found) lookup_error
    bars_found ← try_ask platform_error (tables.bars_by_uid bars)
    bars_row ← or_raise lookup_error bars_found
    raise_if (not bars_row.enabled) value_error
    rebalance_found ← try_ask platform_error (tables.rebalance_by_uid rebalance)
    rebalance_row ← or_raise lookup_error rebalance_found
    lift (normalize_rebalance_strategy rebalance_row.values.strategy)
    pure tt

  -- `get_portfolio_configuration`
  unfoldable pub get_portfolio_configuration :
      Uuid → Run tables (Option AlpacaEtfPortfolioConfiguration)
  get_portfolio_configuration uid = try_ask platform_error (tables.get_by_uid uid)

  -- `create_portfolio_configuration_row`
  unfoldable pub create_portfolio_configuration_row :
      Option Uuid → PortfolioValues → Run tables AlpacaEtfPortfolioConfiguration
  create_portfolio_configuration_row uid given = do
    lift (commission given.commission_fee)
    validate_portfolio_references given.signal_configuration_uid given.bars_configuration_uid
        given.rebalance_configuration_uid
    now ← ask tables.now
    values ← lift (portfolio_values given)
    row ← try_tell platform_error (λ _. created values) (tables.create uid values now)
    or_raise runtime_error row

  -- `update_portfolio_configuration_row`
  unfoldable pub update_portfolio_configuration_row :
      Uuid → PortfolioChanges → Run tables AlpacaEtfPortfolioConfiguration
  update_portfolio_configuration_row uid changes = do
    found ← get_portfolio_configuration uid
    raise_if (not (is_some found)) lookup_error
    now ← ask tables.now
    try_tell platform_error (λ _. updated uid changes) (tables.update uid changes now)

  -- The update of the flag alone.
  abbrev pub set_scheduled : Uuid → Option Bool → Run tables AlpacaEtfPortfolioConfiguration
  set_scheduled uid none = throw value_error
  set_scheduled uid (some flag) = update_portfolio_configuration_row uid (only_scheduled flag)

  -- The update of the calculation.
  unfoldable pub set_calculation :
      Uuid → PortfolioValues → PortfolioChanges → Run tables AlpacaEtfPortfolioConfiguration
  set_calculation uid current given = do
    let signal = get_or_else given.signal_configuration_uid current.signal_configuration_uid
    let bars = get_or_else given.bars_configuration_uid current.bars_configuration_uid
    let rebalance =
        get_or_else given.rebalance_configuration_uid current.rebalance_configuration_uid
    validate_portfolio_references signal bars rebalance
    changes ← lift (portfolio_changes signal bars rebalance given)
    update_portfolio_configuration_row uid changes

  -- `update_portfolio_configuration`
  unfoldable pub update_portfolio_configuration :
      Uuid → PortfolioChanges → Run tables AlpacaEtfPortfolioConfiguration
  update_portfolio_configuration uid given = do
    found ← get_portfolio_configuration uid
    current ← or_raise lookup_error found
    if keeps_calculation given
        then set_scheduled uid given.scheduled
        else set_calculation uid current.values given

  -- `delete_portfolio_configuration_row`
  unfoldable pub delete_portfolio_configuration_row : Uuid → Run tables (Unit {0})
  delete_portfolio_configuration_row uid = do
    found ← get_portfolio_configuration uid
    raise_if (not (is_some found)) lookup_error
    try_tell platform_error (λ _. deleted uid) (tables.delete uid)
