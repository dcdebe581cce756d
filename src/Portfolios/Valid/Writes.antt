-- ===== src/Portfolios/Valid/Writes.antt =====
-- Every write of `src/alpaca_connectors/portfolios/configurations.py` keeps the rows well formed.
use alpaca_connectors.Prelude.{Bool, true, false, Option, none, some, All, if◌then◌else◌, Uuid}
use alpaca_connectors.Actions.{Result, ok, raise}
use alpaca_connectors.Actions.Spec.{Spec}
use alpaca_connectors.Actions.Within.{
  Within, Within-ask, Within-raise_if, Within-or_raise, Ends, within_rules,
}
use alpaca_connectors.Actions.Calls.{Calls, Calls-Within, Calls-bind, Calls-checked}
use alpaca_connectors.Actions.Checked.{Passes}
use alpaca_connectors.Portfolios.Checks.{Fault}
use alpaca_connectors.Portfolios.Rebalance
use alpaca_connectors.Portfolios.Rebalance.{
  RebalanceValues, RebalanceChanges, RebalanceTable, create_rebalance_configuration,
  update_rebalance_configuration, get_rebalance_configuration, rebalance_changes,
}
use alpaca_connectors.Portfolios.Configurations
use alpaca_connectors.Portfolios.Configurations.{
  PortfolioValues, PortfolioChanges, PortfolioTables, validate_portfolio_references,
  get_portfolio_configuration, create_portfolio_configuration_row,
  update_portfolio_configuration_row, set_scheduled, set_calculation,
  update_portfolio_configuration, only_scheduled, keeps_calculation, portfolio_changes,
}
use alpaca_connectors.Portfolios.Valid.Values.{commission_given-IsNotBelowZero}
use alpaca_connectors.Portfolios.Valid.{
  IsRebalance, IsPortfolio, apply_rebalance, apply_portfolio, rebalance_values-IsRebalance,
  rebalance_changes_keep, portfolio_values-IsPortfolio, portfolio_changes_keep,
  only_scheduled_keeps,
}

-- A row that is created is well formed, and an update leaves a well-formed row so.
abbrev pub KeepsRebalance : Rebalance.Call → Type 0
KeepsRebalance (Rebalance.created v) = IsRebalance v
KeepsRebalance (Rebalance.updated uid c) =
    (v : RebalanceValues) → IsRebalance v → IsRebalance (apply_rebalance c v)
KeepsRebalance (Rebalance.deleted uid) = Unit

abbrev pub KeepsPortfolio : Configurations.Call → Type 0
KeepsPortfolio (Configurations.created v) = IsPortfolio v
KeepsPortfolio (Configurations.updated uid c) =
    (v : PortfolioValues) → IsPortfolio v → IsPortfolio (apply_portfolio c v)
KeepsPortfolio (Configurations.deleted uid) = Unit

abbrev AnyFault : Fault → Type 0
AnyFault _ = Unit

AnyFault-Ends : {A : Type 0} (r : Result Fault A) → Ends AnyFault r
AnyFault-Ends (ok _) = tt
AnyFault-Ends (raise _) = tt

module _ (table : RebalanceTable) where
  get_rebalance-Within :
      (uid : Uuid) → Within KeepsRebalance AnyFault (get_rebalance_configuration table uid)
  unfolding get_rebalance_configuration
  get_rebalance-Within uid = search within_rules depth 8

  create_rebalance-Calls :
      (uid : Option Uuid) (given : RebalanceValues)
      → Spec (Calls KeepsRebalance) (create_rebalance_configuration table uid given)
  unfolding create_rebalance_configuration
  create_rebalance-Calls uid given =
      Calls-bind _ _ (Calls-Within (Within-ask {X = AnyFault} _)) (λ now.
        Calls-checked _ _ (rebalance_values-IsRebalance given)
          (λ values valid. Calls-Within {X = AnyFault} (search (within_rules, valid) depth 10)))

  update_rebalance-Calls :
      (uid : Uuid) (given : RebalanceChanges)
      → Spec (Calls KeepsRebalance) (update_rebalance_configuration table uid given)
  unfolding update_rebalance_configuration
  update_rebalance-Calls uid given =
      Calls-bind _ _ (Calls-Within (get_rebalance-Within uid)) (λ found.
        Calls-bind _ _ (Calls-Within (Within-raise_if {X = AnyFault} _ _ tt)) (λ _.
          Calls-bind _ _ (Calls-Within (Within-ask {X = AnyFault} _)) (λ now.
            Calls-checked _ _ keeps (λ changes valid.
              Calls-Within {X = AnyFault} (search (within_rules, valid) depth 10)))))
    where
      keeps :
          Passes
            (λ d. (v : RebalanceValues) → IsRebalance v → IsRebalance (apply_rebalance d v))
            (rebalance_changes given)
      keeps = record { passed = λ d e v h. (rebalance_changes_keep given v h).passed d e }

module _ (tables : PortfolioTables) where
  validate-Within :
      (signal bars rebalance : Uuid)
      → Within KeepsPortfolio AnyFault (validate_portfolio_references tables signal bars rebalance)
  unfolding validate_portfolio_references
  validate-Within signal bars rebalance = search (within_rules, AnyFault-Ends) depth 30

  get_portfolio-Within :
      (uid : Uuid) → Within KeepsPortfolio AnyFault (get_portfolio_configuration tables uid)
  unfolding get_portfolio_configuration
  get_portfolio-Within uid = search within_rules depth 8

  create_portfolio-Calls :
      (uid : Option Uuid) (given : PortfolioValues)
      → Spec (Calls KeepsPortfolio) (create_portfolio_configuration_row tables uid given)
  unfolding create_portfolio_configuration_row
  create_portfolio-Calls uid given =
      Calls-checked _ _ (commission_given-IsNotBelowZero given.commission_fee) (λ fee positive.
        Calls-bind _ _ (Calls-Within (validate-Within _ _ _)) (λ _.
          Calls-bind _ _ (Calls-Within (Within-ask {X = AnyFault} _)) (λ now.
            Calls-checked _ _ (portfolio_values-IsPortfolio given positive) (λ values valid.
              Calls-Within {X = AnyFault} (search (within_rules, valid) depth 10)))))

  update_row-Calls :
      (uid : Uuid) (changes : PortfolioChanges)
      → ((v : PortfolioValues) → IsPortfolio v → IsPortfolio (apply_portfolio changes v))
      → Spec (Calls KeepsPortfolio) (update_portfolio_configuration_row tables uid changes)
  unfolding update_portfolio_configuration_row
  update_row-Calls uid changes keeps =
      Calls-Within {X = AnyFault} (search (within_rules, get_portfolio-Within, keeps) depth 20)

  set_scheduled-Calls :
      (uid : Uuid) (flag : Option Bool)
      → Spec (Calls KeepsPortfolio) (set_scheduled tables uid flag)
  set_scheduled-Calls uid none = Calls-Within {X = AnyFault} (search within_rules)
  set_scheduled-Calls uid (some flag) =
      update_row-Calls uid (only_scheduled flag) (only_scheduled_keeps flag)

  set_calculation-Calls :
      (uid : Uuid) (current : PortfolioValues) (given : PortfolioChanges)
      → Spec (Calls KeepsPortfolio) (set_calculation tables uid current given)
  unfolding set_calculation
  set_calculation-Calls uid current given =
      Calls-bind _ _ (Calls-Within (validate-Within _ _ _))
        (λ _. Calls-checked _ _ (keeps _ _ _) (λ changes valid. update_row-Calls uid changes valid))
    where
      keeps :
          (signal bars rebalance : Uuid)
          → Passes
              (λ d. (v : PortfolioValues) → IsPortfolio v → IsPortfolio (apply_portfolio d v))
              (portfolio_changes signal bars rebalance given)
      keeps signal bars rebalance = record {
        passed = λ d e v h. (portfolio_changes_keep signal bars rebalance given v h).passed d e;
      }

  either-Calls :
      {A : Type 0} (b : Bool) (m n : Configurations.Run tables A)
      → Spec (Calls KeepsPortfolio) m
      → Spec (Calls KeepsPortfolio) n
      → Spec (Calls KeepsPortfolio) (if b then m else n)
  either-Calls true m n hm hn = hm
  either-Calls false m n hm hn = hn

  update_portfolio-Calls :
      (uid : Uuid) (given : PortfolioChanges)
      → Spec (Calls KeepsPortfolio) (update_portfolio_configuration tables uid given)
  unfolding update_portfolio_configuration
  update_portfolio-Calls uid given =
      Calls-bind _ _ (Calls-Within (get_portfolio-Within uid)) (λ found.
        Calls-bind _ _ (Calls-Within (Within-or_raise {X = AnyFault} _ _ tt)) (λ current.
          either-Calls (keeps_calculation given) _ _ (set_scheduled-Calls uid given.scheduled)
            (set_calculation-Calls uid current.values given)))

-- However they end, a creation writes a well-formed row only, and an update writes values only that
-- leave every well-formed row well formed: of rebalancing and of portfolios alike. A commission is
-- well formed if it is not below zero, which holds of NaN too.
pub configurations_stay_valid :
    (table : RebalanceTable) (tables : PortfolioTables) (uid : Uuid) (new_uid : Option Uuid)
    (values : RebalanceValues) (changes : RebalanceChanges) (row : PortfolioValues)
    (update : PortfolioChanges) (s : table.State) (t : tables.State)
    → All KeepsRebalance (create_rebalance_configuration table new_uid values s).1
      × All KeepsRebalance (update_rebalance_configuration table uid changes s).1
      × All KeepsPortfolio (create_portfolio_configuration_row tables new_uid row t).1
      × All KeepsPortfolio (update_portfolio_configuration tables uid update t).1
configurations_stay_valid table tables uid new_uid values changes row update s t = (
  (create_rebalance-Calls table new_uid values).at s,
  (update_rebalance-Calls table uid changes).at s,
  (create_portfolio-Calls tables new_uid row).at t,
  (update_portfolio-Calls tables uid update).at t,
)
