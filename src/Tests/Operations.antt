-- ===== src/Tests/Operations.antt =====
-- A platform as `src/alpaca_connectors/operations/configuration_jobs.py` uses it, and the theorems
-- about the starting of runs at inputs that meet their conditions.
use alpaca_connectors.Prelude.{
  ℕ, ◌+◌, ◌≤◌, ◌≡◌, refl, String, none, some, List, [], ◌∷◌, map, take, select, any, if◌then◌else◌,
  Uuid, parse_uuid, print_uuid, upper, lower, strip, folded,
}
use alpaca_connectors.Operations.ConfigurationJobs.{
  signal, PlatformJob, JobRun, Outcome, ok, raise, configuration_uid_from_command_args, shape_run,
  runs_configuration, list_runs_from, resolve_declared_job, image_ready, active_configuration_uids,
  argument_value, job_status,
}
use alpaca_connectors.Operations.ConfigurationJobs.Dispatch.{
  Platform, allowed, DispatchSummary, dispatch_scheduled_configurations, require_configuration_job,
  resolve_configuration_job, dispatch_from, dispatch_one, submission_of,
}
use alpaca_connectors.Operations.ConfigurationJobs.Laws.{
  count, count_texts, entries, runs_now, dispatch_scheduled_configurations_accounts,
  dispatch_scheduled_configurations_starts,
}
use alpaca_connectors.Operations.ConfigurationJobs.Runs.{
  at_least_one, configuration_uid_round_trip, SelectsUid, list_runs_from_lem,
}

abbrev job : PlatformJob
job = record {
  uid = "job";
  name = "Alpaca ETF Signal";
  execution_path = "src/jobs/run_alpaca_etf_signal.py";
  image_status = some "READY";
}

abbrev five : String
five = "00000000-0000-0000-0000-000000000005"

abbrev six : String
six = "00000000-0000-0000-0000-000000000006"

-- A run of configuration 5 that has not ended.
abbrev run : JobRun
run = record {
  uid = "run";
  job_uid = "job";
  job_name = some "Alpaca ETF Signal";
  command_args = "--configuration-uid" ∷ five ∷ [];
  status = some "running";
  execution_start = none;
  execution_end = none;
  commit_hash = none;
  runtime_image_uid = none;
  runtime_image_digest = none;
  logs_url = none;
}

-- The state counts the starts; two configurations are scheduled.
abbrev platform : Platform
platform = record {
  State = ℕ;
  jobs_named = λ name s. job ∷ [];
  recent_runs = λ uid s. run ∷ [];
  runs_by_uid = λ uid s. run ∷ [];
  scheduled_configurations = λ kind s. five ∷ six ∷ [];
  preflight = λ uid s. (allowed, s);
  run_job = λ uid configuration s.
      (some (record { uid = some "started"; job_run_uid = none; status = none }), s + 1);
}

dispatch : Outcome DispatchSummary × List Uuid × ℕ
unfolding dispatch_scheduled_configurations require_configuration_job resolve_configuration_job
    dispatch_from dispatch_one submission_of resolve_declared_job image_ready
    active_configuration_uids configuration_uid_from_command_args argument_value job_status
    parse_uuid upper lower strip folded
dispatch = dispatch_scheduled_configurations platform signal 0

-- Configuration 5 is passed over and 6 is started.
starts_idle_configuration : dispatch.1 ≡ 6 ∷ []
unfolding dispatch
starts_idle_configuration = refl

abbrev summary_in : Outcome DispatchSummary → DispatchSummary
summary_in (ok summary) = summary
summary_in (raise _) = record {
  kind = signal;
  job_uid = "";
  scheduled_configurations = 0;
  dispatched = record { launched = []; skipped = []; failed = [] };
}

abbrev summary : DispatchSummary
summary = summary_in (dispatch_scheduled_configurations platform signal 0).0

has_summary : (dispatch_scheduled_configurations platform signal 0).0 ≡ ok summary
unfolding dispatch
has_summary = refl

dispatch_scheduled_configurations_accounts_example :
    (entries 6 summary.dispatched ≡ count_texts 6 (five ∷ six ∷ []))
    × (summary.scheduled_configurations ≡ 2)
dispatch_scheduled_configurations_accounts_example =
    dispatch_scheduled_configurations_accounts platform 6 signal 0 summary has_summary

is_ready : require_configuration_job platform signal 0 ≡ ok job
unfolding dispatch
is_ready = refl

dispatch_scheduled_configurations_starts_example :
    count 5 (dispatch_scheduled_configurations platform signal 0).1
    ≤ (if any (runs_now 5) (run ∷ []) then 0 else count_texts 5 (five ∷ six ∷ []))
dispatch_scheduled_configurations_starts_example =
    dispatch_scheduled_configurations_starts platform 5 signal 0 job is_ready

configuration_uid_round_trip_example : SelectsUid ("--verbose" ∷ []) five (parse_uuid five)
configuration_uid_round_trip_example = configuration_uid_round_trip ("--verbose" ∷ []) five refl

is_printed : print_uuid 5 ≡ five
unfolding print_uuid
is_printed = refl

is_parsed : parse_uuid "{URN-00000000000000000000000000000005}" ≡ none
unfolding parse_uuid
is_parsed = refl

list_runs_from_lem_example :
    list_runs_from signal 5 1 0 (run ∷ run ∷ [])
    ≡ map
        (shape_run signal)
        (take (at_least_one 1) (select (runs_configuration 5) (run ∷ run ∷ [])))
list_runs_from_lem_example = list_runs_from_lem signal 5 1 (run ∷ run ∷ [])
