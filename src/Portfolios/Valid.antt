-- ===== src/Portfolios/Valid.antt =====
-- What the operations of `src/alpaca_connectors/portfolios/configurations.py` write is well formed.
pub mod Values
pub mod Writes
use alpaca_connectors.Prelude.{
  eq_iff, both_true, leb→le, text_length, is_empty, not, negsuc, ◌≤◌, ◌<◌, if◌then◌else◌, ℕ, ◌≡◌,
  refl, String, Bool, true, false, ◌&&◌, Option, none, some, List, get_or_else, str_eq, contains,
  leb_ℤ, ltb_ℤ, ℤ, pos, strip, folded, arith, Uuid,
}
use alpaca_connectors.Actions.{Result, ok, raise}
use alpaca_connectors.Actions.Checked.{
  Passes, Passes-ok, Passes-bind, Passes-test, Passes-raise, Passes-Given, Given, check_given,
  ◌>>?◌,
}
use alpaca_connectors.Portfolios.Checks.{
  Fault, value_error, fits, nonempty, phase_one_value, one_of, rebalance_strategies,
  rebalance_events, rebalance_cadences, normalize_rebalance_strategy, normalize_rebalance_event,
  normalize_rebalance_cadence, is_weekday, rebalance_weekday, positive_seconds, Float, nan,
  infinity, minus_infinity, finite, below_zero, commission,
}
use alpaca_connectors.Portfolios.Rebalance.{
  RebalanceValues, RebalanceChanges, rebalance_values, rebalance_changes,
}
use alpaca_connectors.Portfolios.Configurations.{
  PortfolioValues, PortfolioChanges, portfolio_values, portfolio_changes, only_scheduled,
}
use alpaca_connectors.Portfolios.Valid.Values.{
  Fits, OneOf, IsPhaseOne, IsWeekday, IsPositive, IsNotBelowZero, nonempty-Fits,
  phase_one_value-IsPhaseOne, strategy-OneOf, event-OneOf, cadence-OneOf,
  rebalance_weekday-IsWeekday, seconds-IsPositive, commission-IsNotBelowZero,
}

-- A row of rebalancing: texts that fit, known strategy, event and cadence, a weekday from 0 to 6.
pub record IsRebalance (v : RebalanceValues) : Type 0 where
  pub name : Fits 255 v.name
  pub strategy : OneOf rebalance_strategies v.strategy
  pub calendar : Fits 255 v.calendar_identifier
  pub session : Fits 64 v.session_label
  pub event : OneOf rebalance_events v.rebalance_event
  pub cadence : OneOf rebalance_cadences v.rebalance_cadence
  pub weekday : IsWeekday v.rebalance_weekday

-- A row of a portfolio, of values that the table's columns and the first phase allow.
pub record IsPortfolio (v : PortfolioValues) : Type 0 where
  pub name : Fits 255 v.name
  pub frequency : IsPhaseOne "1d" v.upsample_frequency_id
  pub rule : IsPhaseOne "ffill" v.intraday_bar_interpolation_rule
  pub column : Fits 64 v.valuation_column
  pub seconds : IsPositive v.valuation_maximum_staleness_seconds
  pub commission : IsNotBelowZero v.commission_fee

-- The row after an update.
unfoldable pub apply_rebalance : RebalanceChanges → RebalanceValues → RebalanceValues
apply_rebalance c v = record {
  name = get_or_else c.name v.name;
  description = get_or_else c.description v.description;
  strategy = get_or_else c.strategy v.strategy;
  calendar_identifier = get_or_else c.calendar_identifier v.calendar_identifier;
  session_label = get_or_else c.session_label v.session_label;
  rebalance_event = get_or_else c.rebalance_event v.rebalance_event;
  event_offset_seconds = get_or_else c.event_offset_seconds v.event_offset_seconds;
  rebalance_cadence = get_or_else c.rebalance_cadence v.rebalance_cadence;
  rebalance_weekday = get_or_else c.rebalance_weekday v.rebalance_weekday;
}

unfoldable pub apply_portfolio : PortfolioChanges → PortfolioValues → PortfolioValues
apply_portfolio c v = record {
  name = get_or_else c.name v.name;
  description = get_or_else c.description v.description;
  signal_configuration_uid = get_or_else c.signal_configuration_uid v.signal_configuration_uid;
  bars_configuration_uid = get_or_else c.bars_configuration_uid v.bars_configuration_uid;
  rebalance_configuration_uid =
      get_or_else c.rebalance_configuration_uid v.rebalance_configuration_uid;
  scheduled = get_or_else c.scheduled v.scheduled;
  upsample_frequency_id = get_or_else c.upsample_frequency_id v.upsample_frequency_id;
  intraday_bar_interpolation_rule =
      get_or_else c.intraday_bar_interpolation_rule v.intraday_bar_interpolation_rule;
  valuation_column = get_or_else c.valuation_column v.valuation_column;
  valuation_maximum_staleness_seconds =
      get_or_else c.valuation_maximum_staleness_seconds v.valuation_maximum_staleness_seconds;
  fail_on_missing_prices = get_or_else c.fail_on_missing_prices v.fail_on_missing_prices;
  commission_fee = get_or_else c.commission_fee v.commission_fee;
}

given_or_kept :
    {A : Type 0} (P : A → Type 0) (o : Option A) (old : A)
    → Given P o
    → P old
    → P (get_or_else o old)
given_or_kept P none old h k = k
given_or_kept P (some a) old h k = h

pub rebalance_values-IsRebalance : (v : RebalanceValues) → Passes IsRebalance (rebalance_values v)
unfolding rebalance_values
rebalance_values-IsRebalance v = Passes-bind _ _ (nonempty-Fits 255 v.name) (λ name hn.
    Passes-bind _ _ (strategy-OneOf v.strategy) (λ strategy hs.
      Passes-bind _ _ (nonempty-Fits 255 v.calendar_identifier) (λ calendar hc.
        Passes-bind _ _ (nonempty-Fits 64 v.session_label) (λ session hl.
          Passes-bind _ _ (event-OneOf v.rebalance_event) (λ event he.
            Passes-bind _ _ (cadence-OneOf v.rebalance_cadence) (λ cadence hd.
              Passes-bind _ _ (rebalance_weekday-IsWeekday v.rebalance_weekday) (λ weekday hw.
                Passes-ok _ (record {
                  name = hn;
                  strategy = hs;
                  calendar = hc;
                  session = hl;
                  event = he;
                  cadence = hd;
                  weekday = hw;
                }))))))))

pub rebalance_changes_keep :
    (c : RebalanceChanges) (v : RebalanceValues)
    → IsRebalance v
    → Passes (λ d. IsRebalance (apply_rebalance d v)) (rebalance_changes c)
unfolding rebalance_changes apply_rebalance
rebalance_changes_keep c v ok_v =
    Passes-bind _ _ (Passes-Given (nonempty 255) c.name (nonempty-Fits 255)) (λ name hn.
      Passes-bind _ _ (Passes-Given normalize_rebalance_strategy c.strategy strategy-OneOf)
        (λ strategy hs.
          Passes-bind _ _ (Passes-Given (nonempty 255) c.calendar_identifier (nonempty-Fits 255))
            (λ calendar hc.
              Passes-bind _ _ (Passes-Given (nonempty 64) c.session_label (nonempty-Fits 64))
                (λ session hl.
                  Passes-bind _ _
                    (Passes-Given normalize_rebalance_event c.rebalance_event event-OneOf)
                    (λ event he.
                      Passes-bind _ _
                        (Passes-Given normalize_rebalance_cadence c.rebalance_cadence cadence-OneOf)
                        (λ cadence hd.
                          Passes-bind _ _
                            (Passes-Given rebalance_weekday c.rebalance_weekday
                              rebalance_weekday-IsWeekday)
                            (λ weekday hw. Passes-ok _ (record {
                              name = given_or_kept (Fits 255) name v.name hn ok_v.name;
                              strategy =
                                  given_or_kept (OneOf rebalance_strategies) strategy v.strategy hs
                                    ok_v.strategy;
                              calendar =
                                  given_or_kept (Fits 255) calendar v.calendar_identifier hc
                                    ok_v.calendar;
                              session =
                                  given_or_kept (Fits 64) session v.session_label hl ok_v.session;
                              event =
                                  given_or_kept (OneOf rebalance_events) event v.rebalance_event he
                                    ok_v.event;
                              cadence =
                                  given_or_kept (OneOf rebalance_cadences) cadence
                                    v.rebalance_cadence hd ok_v.cadence;
                              weekday =
                                  given_or_kept IsWeekday weekday v.rebalance_weekday hw
                                    ok_v.weekday;
                            }))))))))

pub portfolio_values-IsPortfolio :
    (v : PortfolioValues)
    → IsNotBelowZero v.commission_fee
    → Passes IsPortfolio (portfolio_values v)
unfolding portfolio_values
portfolio_values-IsPortfolio v fee = Passes-bind _ _ (nonempty-Fits 255 v.name) (λ name hn.
    Passes-bind _ _ (phase_one_value-IsPhaseOne "1d" 16 v.upsample_frequency_id) (λ frequency hf.
      Passes-bind _ _ (phase_one_value-IsPhaseOne "ffill" 16 v.intraday_bar_interpolation_rule)
        (λ rule hr. Passes-bind _ _ (nonempty-Fits 64 v.valuation_column) (λ column hc.
          Passes-bind _ _ (seconds-IsPositive v.valuation_maximum_staleness_seconds) (λ seconds hs.
            Passes-ok _ (record {
              name = hn;
              frequency = hf;
              rule = hr;
              column = hc;
              seconds = hs;
              commission = fee;
            }))))))

pub portfolio_changes_keep :
    (signal bars rebalance : Uuid) (c : PortfolioChanges) (v : PortfolioValues)
    → IsPortfolio v
    → Passes (λ d. IsPortfolio (apply_portfolio d v)) (portfolio_changes signal bars rebalance c)
unfolding portfolio_changes apply_portfolio
portfolio_changes_keep signal bars rebalance c v ok_v =
    Passes-bind _ _ (Passes-Given (nonempty 255) c.name (nonempty-Fits 255)) (λ name hn.
      Passes-bind _ _
        (Passes-Given (phase_one_value "1d" 16) c.upsample_frequency_id
          (phase_one_value-IsPhaseOne "1d" 16))
        (λ frequency hf.
          Passes-bind _ _
            (Passes-Given (phase_one_value "ffill" 16) c.intraday_bar_interpolation_rule
              (phase_one_value-IsPhaseOne "ffill" 16))
            (λ rule hr.
              Passes-bind _ _ (Passes-Given (nonempty 64) c.valuation_column (nonempty-Fits 64))
                (λ column hc.
                  Passes-bind _ _
                    (Passes-Given positive_seconds c.valuation_maximum_staleness_seconds
                      seconds-IsPositive)
                    (λ seconds hs.
                      Passes-bind _ _
                        (Passes-Given commission c.commission_fee commission-IsNotBelowZero)
                        (λ fee hm. Passes-ok _ (record {
                          name = given_or_kept (Fits 255) name v.name hn ok_v.name;
                          frequency =
                              given_or_kept (IsPhaseOne "1d") frequency v.upsample_frequency_id hf
                                ok_v.frequency;
                          rule =
                              given_or_kept (IsPhaseOne "ffill") rule
                                v.intraday_bar_interpolation_rule hr ok_v.rule;
                          column = given_or_kept (Fits 64) column v.valuation_column hc ok_v.column;
                          seconds =
                              given_or_kept IsPositive seconds v.valuation_maximum_staleness_seconds
                                hs ok_v.seconds;
                          commission =
                              given_or_kept IsNotBelowZero fee v.commission_fee hm ok_v.commission;
                        })))))))

pub only_scheduled_keeps :
    (flag : Bool) (v : PortfolioValues)
    → IsPortfolio v
    → IsPortfolio (apply_portfolio (only_scheduled flag) v)
unfolding apply_portfolio
only_scheduled_keeps flag v h = record {
  name = h.name;
  frequency = h.frequency;
  rule = h.rule;
  column = h.column;
  seconds = h.seconds;
  commission = h.commission;
}
