-- ===== src/Portfolios/Rebalance.antt =====
-- `src/alpaca_connectors/portfolios/configurations.py`: the configurations of rebalancing, over a
-- table that is a parameter.
use alpaca_connectors.Prelude.{ℕ, String, not, Option, none, some, is_some, ℤ, Uuid}
use alpaca_connectors.Actions.{
  Action, Result, ok, ask, lift, or_raise, raise_if, try_ask, try_tell, ◌>>=◌, ◌>>◌,
}
use alpaca_connectors.Actions.Checked.{◌>>?◌, check_given}
use alpaca_connectors.Portfolios.Checks.{
  Fault, lookup_error, runtime_error, platform_error, nonempty, description_of,
  normalize_rebalance_strategy, normalize_rebalance_event, normalize_rebalance_cadence,
  rebalance_weekday,
}

-- The values of a row of `PortfolioRebalanceConfiguration`, and what a caller gives for them.
pub record RebalanceValues : Type 0 where
  pub name : String
  pub description : Option String
  pub strategy : String
  pub calendar_identifier : String
  pub session_label : String
  pub rebalance_event : String
  pub event_offset_seconds : ℤ
  pub rebalance_cadence : String
  pub rebalance_weekday : ℤ

pub record PortfolioRebalanceConfiguration : Type 0 where
  pub uid : Uuid
  pub values : RebalanceValues
  pub created_at : ℕ
  pub updated_at : ℕ

-- The values that an update gives; a description that is given may be None.
pub record RebalanceChanges : Type 0 where
  pub name : Option String
  pub description : Option (Option String)
  pub strategy : Option String
  pub calendar_identifier : Option String
  pub session_label : Option String
  pub rebalance_event : Option String
  pub event_offset_seconds : Option ℤ
  pub rebalance_cadence : Option String
  pub rebalance_weekday : Option ℤ

-- The `values` of `create_rebalance_configuration`, in the order of the checks.
unfoldable pub rebalance_values : RebalanceValues → Result Fault RebalanceValues
rebalance_values v = nonempty 255 v.name >>? λ name.
    normalize_rebalance_strategy v.strategy >>? λ strategy.
    nonempty 255 v.calendar_identifier >>? λ calendar. nonempty 64 v.session_label >>? λ session.
    normalize_rebalance_event v.rebalance_event >>? λ event.
    normalize_rebalance_cadence v.rebalance_cadence >>? λ cadence.
    rebalance_weekday v.rebalance_weekday >>? λ weekday. ok (record {
      name = name;
      description = description_of v.description;
      strategy = strategy;
      calendar_identifier = calendar;
      session_label = session;
      rebalance_event = event;
      event_offset_seconds = v.event_offset_seconds;
      rebalance_cadence = cadence;
      rebalance_weekday = weekday;
    })

abbrev map_description : Option (Option String) → Option (Option String)
map_description none = none
map_description (some d) = some (description_of d)

-- The `values` of `update_rebalance_configuration`.
unfoldable pub rebalance_changes : RebalanceChanges → Result Fault RebalanceChanges
rebalance_changes c = check_given (nonempty 255) c.name >>? λ name.
    check_given normalize_rebalance_strategy c.strategy >>? λ strategy.
    check_given (nonempty 255) c.calendar_identifier >>? λ calendar.
    check_given (nonempty 64) c.session_label >>? λ session.
    check_given normalize_rebalance_event c.rebalance_event >>? λ event.
    check_given normalize_rebalance_cadence c.rebalance_cadence >>? λ cadence.
    check_given rebalance_weekday c.rebalance_weekday >>? λ weekday. ok (record {
      name = name;
      description = map_description c.description;
      strategy = strategy;
      calendar_identifier = calendar;
      session_label = session;
      rebalance_event = event;
      event_offset_seconds = c.event_offset_seconds;
      rebalance_cadence = cadence;
      rebalance_weekday = weekday;
    })

-- The table of rebalance configurations.
pub record RebalanceTable : Type 1 where
  pub State : Type 0
  pub now : State → ℕ × State
  pub get_by_uid : Uuid → State → Option (Option PortfolioRebalanceConfiguration) × State
  pub create :
      Option Uuid
      → RebalanceValues
      → ℕ
      → State
      → Option (Option PortfolioRebalanceConfiguration) × State
  pub update : Uuid → RebalanceChanges → ℕ → State → Option PortfolioRebalanceConfiguration × State
  pub delete : Uuid → State → Option (Unit {0}) × State

-- The writes, in order.
pub data Call : Type 0 where
  created : RebalanceValues → Call
  updated : Uuid → RebalanceChanges → Call
  deleted : Uuid → Call

abbrev pub Run : RebalanceTable → Type 0 → Type 0
Run table A = Action Fault Call table.State A

module _ (table : RebalanceTable) where
  -- `create_rebalance_configuration`
  unfoldable pub create_rebalance_configuration :
      Option Uuid → RebalanceValues → Run table PortfolioRebalanceConfiguration
  create_rebalance_configuration uid given = do
    now ← ask table.now
    values ← lift (rebalance_values given)
    row ← try_tell platform_error (λ _. created values) (table.create uid values now)
    or_raise runtime_error row

  -- `get_rebalance_configuration`
  unfoldable pub get_rebalance_configuration :
      Uuid → Run table (Option PortfolioRebalanceConfiguration)
  get_rebalance_configuration uid = try_ask platform_error (table.get_by_uid uid)

  -- `update_rebalance_configuration`
  unfoldable pub update_rebalance_configuration :
      Uuid → RebalanceChanges → Run table PortfolioRebalanceConfiguration
  update_rebalance_configuration uid given = do
    found ← get_rebalance_configuration uid
    raise_if (not (is_some found)) lookup_error
    now ← ask table.now
    changes ← lift (rebalance_changes given)
    try_tell platform_error (λ _. updated uid changes) (table.update uid changes now)

  -- `delete_rebalance_configuration`
  unfoldable pub delete_rebalance_configuration : Uuid → Run table (Unit {0})
  delete_rebalance_configuration uid = do
    found ← get_rebalance_configuration uid
    raise_if (not (is_some found)) lookup_error
    try_tell platform_error (λ _. deleted uid) (table.delete uid)
