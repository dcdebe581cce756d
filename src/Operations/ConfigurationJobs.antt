-- ===== src/Operations/ConfigurationJobs.antt =====
-- `src/alpaca_connectors/operations/configuration_jobs.py`: the Jobs and their runs, read from the
-- platform. A canonical configuration UID is the number that its text stands for.
pub mod Dispatch
pub mod Laws
pub mod Runs
use alpaca_connectors.Prelude.{
  ℕ, ◌+◌, ◌≡◌, String, Bool, true, false, not, ◌&&◌, ◌||◌, Option, none, some, List, [], ◌∷◌,
  if◌then◌else◌, length, select, any, is_empty, get_or_else, or_else, upper, lower, strip, contains,
  str_eq, leb, ◌==◌, Dict, lookup, Uuid, parse_uuid, print_uuid,
}

pub data ConfigurationKind : Type 0 where
  signal portfolio : ConfigurationKind

pub record ConfigurationJobSpec : Type 0 where
  pub workflow_key : String
  pub name : String
  pub execution_path : String
  pub dispatcher_workflow_key : String
  pub dispatcher_name : String
  pub dispatcher_execution_path : String

-- JOB_SPECS
abbrev pub job_specs : ConfigurationKind → ConfigurationJobSpec
job_specs signal = record {
  workflow_key = "alpaca-etf-signal";
  name = "Alpaca ETF Signal";
  execution_path = "src/jobs/run_alpaca_etf_signal.py";
  dispatcher_workflow_key = "alpaca-etf-signal-dispatcher";
  dispatcher_name = "Alpaca ETF Signal Dispatcher";
  dispatcher_execution_path = "src/jobs/dispatch_alpaca_etf_signal.py";
}
job_specs portfolio = record {
  workflow_key = "alpaca-etf-portfolio";
  name = "Alpaca ETF Portfolio";
  execution_path = "src/jobs/run_alpaca_etf_portfolio.py";
  dispatcher_workflow_key = "alpaca-etf-portfolio-dispatcher";
  dispatcher_name = "Alpaca ETF Portfolio Dispatcher";
  dispatcher_execution_path = "src/jobs/dispatch_alpaca_etf_portfolio.py";
}

abbrev pub configuration_uid_argument : String
configuration_uid_argument = "--configuration-uid"

abbrev pub running_job_statuses : List String
running_job_statuses = "PENDING" ∷ "QUEUED" ∷ "RUNNING" ∷ "STARTED" ∷ []

-- A Job as the platform client returns it.
pub record PlatformJob : Type 0 where
  pub uid : String
  pub name : String
  pub execution_path : String
  pub image_status : Option String

-- A run as the platform client returns it.
pub record JobRun : Type 0 where
  pub uid : String
  pub job_uid : String
  pub job_name : Option String
  pub command_args : List String
  pub status : Option String
  pub execution_start : Option String
  pub execution_end : Option String
  pub commit_hash : Option String
  pub runtime_image_uid : Option String
  pub runtime_image_digest : Option String
  pub logs_url : Option String

-- `failure_message`, in place of its text.
pub data FailureMessage : Type 0 where
  update_failed : ConfigurationKind → FailureMessage
  scheduled_run_failed : ConfigurationKind → FailureMessage

pub record ConfigurationJobRun : Type 0 where
  pub uid : String
  pub job_uid : String
  pub job_name : String
  pub configuration_uid : Option Uuid
  pub status : String
  pub execution_start : Option String
  pub execution_end : Option String
  pub commit_hash : Option String
  pub runtime_image_uid : Option String
  pub runtime_image_digest : Option String
  pub command_args : List String
  pub logs_url : Option String
  pub failure_message : Option FailureMessage

-- The exceptions, in place of their text.
pub data JobFault : Type 0 where
  value_error : JobFault
  runtime_error : JobFault

pub data Outcome (A : Type 0) : Type 0 where
  ok : A → Outcome A
  raise : JobFault → Outcome A

-- The renamings of `_status`.
abbrev pub status_names : Dict String
status_names =
    ("COMPLETE", "SUCCEEDED")
    ∷ ("COMPLETED", "SUCCEEDED")
    ∷ ("SUCCESS", "SUCCEEDED")
    ∷ ("SUCCESSFUL", "SUCCEEDED")
    ∷ ("ERROR", "FAILED")
    ∷ ("ERRORED", "FAILED")
    ∷ []

-- `value or default`, where an empty text counts as nothing.
abbrev pub filled_or : Option String → String → String
filled_or none default = default
filled_or (some text) default = if is_empty text then default else text

-- `_status`
unfoldable pub job_status : Option String → String
job_status value =
    let status = upper (strip (filled_or value "QUEUED")) in
    get_or_else (lookup status status_names) status

abbrev pub is_running : Option String → Bool
is_running status = contains running_job_statuses (job_status status)

-- `_image_ready`
unfoldable pub image_ready : PlatformJob → Bool
image_ready job = str_eq (lower (strip (filled_or job.image_status ""))) "ready"

-- `_canonical_uid`
abbrev pub valid_uid : Option Uuid → Outcome Uuid
valid_uid none = raise value_error
valid_uid (some uid) = ok uid

unfoldable pub canonical_uid : String → Outcome Uuid
canonical_uid value = valid_uid (parse_uuid value)

-- `values[values.index(CONFIGURATION_UID_ARGUMENT) + 1]`
unfoldable pub argument_value : List String → Option String
argument_value [] = none
argument_value (value ∷ []) = none
argument_value (value ∷ next ∷ values) =
    if str_eq value configuration_uid_argument then some next else argument_value (next ∷ values)

abbrev pub parse_argument : Option String → Option Uuid
parse_argument none = none
parse_argument (some value) = parse_uuid value

-- `configuration_uid_from_command_args`
unfoldable pub configuration_uid_from_command_args : List String → Option Uuid
configuration_uid_from_command_args values = parse_argument (argument_value values)

-- `configuration_command_args`, of the text of a UID.
abbrev pub uid_args : Outcome Uuid → Outcome (List String)
uid_args (raise e) = raise e
uid_args (ok uid) = ok (configuration_uid_argument ∷ print_uuid uid ∷ [])

unfoldable pub configuration_command_args : String → Outcome (List String)
configuration_command_args value = uid_args (canonical_uid value)

abbrev pub failure_of : ConfigurationKind → Option Uuid → FailureMessage
failure_of kind none = scheduled_run_failed kind
failure_of kind (some _) = update_failed kind

abbrev nonempty : Option String → Option String
nonempty none = none
nonempty (some text) = if is_empty text then none else some text

-- `_shape_run`
unfoldable pub shape_run : ConfigurationKind → JobRun → ConfigurationJobRun
shape_run kind run =
    let configuration = configuration_uid_from_command_args run.command_args in
    let status = job_status run.status in
    record {
      uid = run.uid;
      job_uid = run.job_uid;
      job_name = filled_or run.job_name "";
      configuration_uid = configuration;
      status = status;
      execution_start = run.execution_start;
      execution_end = run.execution_end;
      commit_hash = run.commit_hash;
      runtime_image_uid = nonempty run.runtime_image_uid;
      runtime_image_digest = run.runtime_image_digest;
      command_args = run.command_args;
      logs_url = run.logs_url;
      failure_message =
          if str_eq status "FAILED" then some (failure_of kind configuration) else none;
    }

-- `_resolve_declared_job`, from the Jobs that the platform has under the name.
unfoldable pub resolve_declared_job : String → List PlatformJob → Outcome (Option PlatformJob)
resolve_declared_job path [] = ok none
resolve_declared_job path (job ∷ []) =
    if str_eq job.execution_path path then ok (some job) else raise runtime_error
resolve_declared_job path (_ ∷ _ ∷ _) = raise runtime_error

abbrev pub ready_job : Outcome (Option PlatformJob) → Outcome PlatformJob
ready_job (raise e) = raise e
ready_job (ok none) = raise value_error
ready_job (ok (some job)) = if image_ready job then ok job else raise value_error

-- The run is of this configuration.
abbrev pub is_uid : Uuid → Option Uuid → Bool
is_uid uid none = false
is_uid uid (some other) = other == uid

abbrev pub runs_configuration : Uuid → JobRun → Bool
runs_configuration uid run = is_uid uid (configuration_uid_from_command_args run.command_args)

-- The loop of `list_configuration_runs`, with the number of runs that it has.
unfoldable pub list_runs_from :
    ConfigurationKind → Uuid → ℕ → ℕ → List JobRun → List ConfigurationJobRun
list_runs_from kind uid limit n [] = []
list_runs_from kind uid limit n (run ∷ runs) =
    let rest = list_runs_from kind uid limit (n + 1) runs in
    let skipped = list_runs_from kind uid limit n runs in
    if runs_configuration uid run
    then (if leb limit (n + 1) then shape_run kind run ∷ [] else shape_run kind run ∷ rest)
    else skipped

-- A round of `_active_configuration_uids`, for a run that is running or not.
abbrev pub add_active : Option Uuid → Bool → List Uuid → List Uuid
add_active none running rest = rest
add_active (some uid) running rest = if running then uid ∷ rest else rest

-- `_active_configuration_uids`, a set held as the list of what was added to it.
unfoldable pub active_configuration_uids : List JobRun → List Uuid
active_configuration_uids [] = []
active_configuration_uids (run ∷ runs) =
    add_active (configuration_uid_from_command_args run.command_args) (is_running run.status)
      (active_configuration_uids runs)
