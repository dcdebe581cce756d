-- ===== src/Operations/SignalJobs.antt =====
-- `src/alpaca_connectors/operations/signal_job_configurations.py` and `signal_jobs.py`: the
-- configurations of signals, over a platform that is a parameter.
pub mod Guarded
pub mod References
pub mod Changed
use alpaca_connectors.Prelude.{
  ℕ, String, Bool, true, false, not, ◌&&◌, ◌||◌, Option, none, some, List, [], ◌∷◌, if◌then◌else◌,
  is_some, get_or_else, is_empty, strip, Uuid, ◌==◌,
}
use alpaca_connectors.Actions.{
  Action, Result, ok, raise, pure, throw, ask, lift, or_raise, raise_if, try_tell, ◌>>=◌, ◌>>◌,
}
use alpaca_connectors.Actions.Checked.{◌>>?◌, check_given}
use alpaca_connectors.Portfolios.Checks.{
  Fault, lookup_error, value_error, runtime_error, platform_error, nonempty, description_of,
}

-- The values of a row that a caller gives.
pub record SignalValues : Type 0 where
  pub name : String
  pub description : Option String
  pub universe_uid : Uuid
  pub account_uid : Uuid
  pub enabled : Bool

pub record AlpacaEtfSignalJobConfiguration : Type 0 where
  pub uid : Uuid
  pub values : SignalValues
  pub created_at : ℕ
  pub updated_at : ℕ

-- What an update gives, and what it writes; a description that is given may be None.
pub record SignalChanges : Type 0 where
  pub name : Option String
  pub description : Option (Option String)
  pub universe_uid : Option Uuid
  pub account_uid : Option Uuid
  pub enabled : Option Bool

-- The reads of references and of configurations with their answers, where none is an exception, and
-- the writes, in order.
pub data Call : Type 0 where
  looked_up_universe : Uuid → Option (Option Bool) → Call
  looked_up_account : Uuid → Option (Option Bool) → Call
  looked_up_signals : Uuid → Option (List AlpacaEtfSignalJobConfiguration) → Call
  looked_up_signal : Uuid → Option (Option AlpacaEtfSignalJobConfiguration) → Call
  created : SignalValues → Call
  updated : Uuid → SignalChanges → Call
  deleted : Uuid → Call
  ensured_metadata : AlpacaEtfSignalJobConfiguration → Call

-- A universe and an account are known by whether they are active.
pub record SignalPlatform : Type 1 where
  pub State : Type 0
  pub now : State → ℕ × State
  pub universe_is_active : Uuid → State → Option (Option Bool) × State
  pub account_is_active : Uuid → State → Option (Option Bool) × State
  pub filter_universe : Uuid → State → Option (List AlpacaEtfSignalJobConfiguration) × State
  pub get_by_uid : Uuid → State → Option (Option AlpacaEtfSignalJobConfiguration) × State
  pub create :
      Option Uuid
      → SignalValues
      → ℕ
      → State
      → Option (Option AlpacaEtfSignalJobConfiguration) × State
  pub update : Uuid → SignalChanges → ℕ → State → Option AlpacaEtfSignalJobConfiguration × State
  pub delete : Uuid → State → Option (Unit {0}) × State
  pub ensure_metadata : AlpacaEtfSignalJobConfiguration → State → Option (Unit {0}) × State

abbrev pub Run : SignalPlatform → Type 0 → Type 0
Run platform A = Action Fault Call platform.State A

-- The `values` of a creation that its caller decides on.
unfoldable pub signal_values : SignalValues → Result Fault SignalValues
signal_values v = nonempty 255 v.name >>? λ name.
    ok (record v { name = name; description = description_of v.description })

abbrev map_description : Option (Option String) → Option (Option String)
map_description none = none
map_description (some d) = some (description_of d)

-- The name of an update.
unfoldable pub updated_name : String → Result Fault String
updated_name value =
    let normalized = strip value in if is_empty normalized then raise value_error else ok normalized

-- Some field is written.
abbrev pub has_change : SignalChanges → Bool
has_change c =
    is_some c.name
    || (is_some c.description
        || (is_some c.universe_uid || (is_some c.account_uid || is_some c.enabled)))

-- The `values` of an update, with the references that were validated and the name.
abbrev pub written_changes : Option (Uuid × Uuid) → SignalChanges → Option String → SignalChanges
written_changes none c name = record {
  name = name;
  description = map_description c.description;
  universe_uid = none;
  account_uid = none;
  enabled = c.enabled;
}
written_changes (some (universe, account)) c name = record {
  name = name;
  description = map_description c.description;
  universe_uid = some universe;
  account_uid = some account;
  enabled = c.enabled;
}

unfoldable pub signal_changes : Option (Uuid × Uuid) → SignalChanges → Result Fault SignalChanges
signal_changes references c =
    check_given updated_name c.name >>? λ name. ok (written_changes references c name)

abbrev pub is_none_of : List AlpacaEtfSignalJobConfiguration → Bool
is_none_of [] = true
is_none_of (row ∷ rows) = false

-- `any(row.uid != current.uid for row in conflicts)`
abbrev pub has_other : Uuid → List AlpacaEtfSignalJobConfiguration → Bool
has_other uid [] = false
has_other uid (row ∷ rows) = not (row.uid == uid) || has_other uid rows

module _ (platform : SignalPlatform) where
  -- A reference that is looked up must exist and be active.
  unfoldable pub require_active :
      (Option (Option Bool) → Call)
      → (platform.State → Option (Option Bool) × platform.State)
      → Run platform (Unit {0})
  require_active call look = do
    found ← try_tell platform_error call look
    active ← or_raise lookup_error found
    raise_if (not active) value_error

  -- `validate_signal_job_references`
  unfoldable pub validate_signal_job_references : Uuid → Uuid → Run platform (Unit {0})
  validate_signal_job_references universe account =
      require_active (looked_up_universe universe) (platform.universe_is_active universe)
      >> require_active (looked_up_account account) (platform.account_is_active account)

  -- The storing of `create_signal_job_configuration_row`.
  unfoldable pub store_signal :
      Option Uuid → SignalValues → Run platform AlpacaEtfSignalJobConfiguration
  store_signal uid given = do
    now ← ask platform.now
    values ← lift (signal_values given)
    row ← try_tell platform_error (λ _. created values) (platform.create uid values now)
    or_raise runtime_error row

  abbrev pub filter_by_universe : Uuid → Run platform (List AlpacaEtfSignalJobConfiguration)
  filter_by_universe universe =
      try_tell platform_error (looked_up_signals universe) (platform.filter_universe universe)

  -- `create_signal_job_configuration_row`
  unfoldable pub create_signal_job_configuration_row :
      Option Uuid → SignalValues → Run platform AlpacaEtfSignalJobConfiguration
  create_signal_job_configuration_row uid given = do
    validate_signal_job_references given.universe_uid given.account_uid
    existing ← filter_by_universe given.universe_uid
    if is_none_of existing then store_signal uid given else throw value_error

  -- `get_signal_job_configuration`
  abbrev pub get_signal_job_configuration :
      Uuid → Run platform (Option AlpacaEtfSignalJobConfiguration)
  get_signal_job_configuration uid =
      try_tell platform_error (looked_up_signal uid) (platform.get_by_uid uid)

  -- `_require_configuration`
  unfoldable pub require_configuration : Uuid → Run platform AlpacaEtfSignalJobConfiguration
  require_configuration uid = get_signal_job_configuration uid >>= or_raise lookup_error

  -- `update_signal_job_configuration_row`
  unfoldable pub update_signal_job_configuration_row :
      Uuid → SignalChanges → Run platform AlpacaEtfSignalJobConfiguration
  update_signal_job_configuration_row uid changes = do
    require_configuration uid
    now ← ask platform.now
    try_tell platform_error (λ _. updated uid changes) (platform.update uid changes now)

  -- `delete_signal_job_configuration_row`
  unfoldable pub delete_signal_job_configuration_row : Uuid → Run platform (Unit {0})
  delete_signal_job_configuration_row uid = do
    require_configuration uid
    try_tell platform_error (λ _. deleted uid) (platform.delete uid)

  -- `_ensure_signal_metadata`
  unfoldable pub ensure_signal_metadata : AlpacaEtfSignalJobConfiguration → Run platform (Unit {0})
  ensure_signal_metadata configuration =
      try_tell platform_error (λ _. ensured_metadata configuration)
        (platform.ensure_metadata configuration)

  -- `create_signal_job_configuration`
  unfoldable pub create_signal_job_configuration :
      SignalValues → Run platform AlpacaEtfSignalJobConfiguration
  create_signal_job_configuration given = do
    configuration ← create_signal_job_configuration_row none given
    ensure_signal_metadata configuration
    pure configuration

  -- Another universe than the current one must not have a configuration.
  unfoldable pub require_free_universe :
      AlpacaEtfSignalJobConfiguration → Uuid → Run platform (Unit {0})
  require_free_universe current universe =
      if universe == current.values.universe_uid
      then pure tt
      else filter_by_universe universe >>= λ conflicts.
          raise_if (has_other current.uid conflicts) value_error

  -- The references of an update, validated if one of them is given.
  unfoldable pub changed_references :
      AlpacaEtfSignalJobConfiguration → SignalChanges → Run platform (Option (Uuid × Uuid))
  changed_references current given =
      if is_some given.universe_uid || is_some given.account_uid
      then (do
        let universe = get_or_else given.universe_uid current.values.universe_uid
        let account = get_or_else given.account_uid current.values.account_uid
        validate_signal_job_references universe account
        require_free_universe current universe
        pure (some (universe, account)))
      else pure none

  -- `update_signal_job_configuration`
  unfoldable pub update_signal_job_configuration :
      Uuid → SignalChanges → Run platform AlpacaEtfSignalJobConfiguration
  update_signal_job_configuration uid given = do
    current ← require_configuration uid
    references ← changed_references current given
    changes ← lift (signal_changes references given)
    raise_if (not (has_change changes)) value_error
    row ← update_signal_job_configuration_row current.uid changes
    ensure_signal_metadata row
    pure row

  -- `delete_signal_job_configuration`
  unfoldable pub delete_signal_job_configuration : Uuid → Run platform (Unit {0})
  delete_signal_job_configuration uid = do
    configuration ← require_configuration uid
    delete_signal_job_configuration_row configuration.uid

  -- `pause_signal_job_configuration`, and with true `resume_signal_job_configuration`.
  abbrev pub schedule_signal : Bool → Uuid → Run platform AlpacaEtfSignalJobConfiguration
  schedule_signal scheduled uid = update_signal_job_configuration uid (record {
    name = none;
    description = none;
    universe_uid = none;
    account_uid = none;
    enabled = some scheduled;
  })

  -- `reconcile_signal_job_configuration`
  unfoldable pub reconcile_signal_job_configuration :
      Uuid → Run platform AlpacaEtfSignalJobConfiguration
  reconcile_signal_job_configuration uid = do
    configuration ← require_configuration uid
    ensure_signal_metadata configuration
    pure configuration
