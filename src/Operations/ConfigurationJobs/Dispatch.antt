-- ===== src/Operations/ConfigurationJobs/Dispatch.antt =====
-- `src/alpaca_connectors/operations/configuration_jobs.py`: the starting of runs, of one
-- configuration and of all that are scheduled. The platform is a parameter.
use alpaca_connectors.Prelude.{
  str_eq, get_or_else, ℕ, String, Bool, true, false, not, ◌&&◌, Option, none, some, List, [], ◌∷◌,
  ◌++◌, if◌then◌else◌, length, any, contains, is_empty, ◌==◌, Uuid, parse_uuid,
}
use alpaca_connectors.Operations.ConfigurationJobs.{
  canonical_uid, ConfigurationKind, signal, portfolio, job_specs, PlatformJob, JobRun,
  ConfigurationJobRun, Outcome, ok, raise, value_error, runtime_error, job_status, filled_or,
  configuration_uid_from_command_args, shape_run, resolve_declared_job, ready_job, list_runs_from,
  active_configuration_uids, running_job_statuses,
}

-- What `job.run_job` answers.
pub record RunPayload : Type 0 where
  pub uid : Option String
  pub job_run_uid : Option String
  pub status : Option String

-- How the preflight of a portfolio ends: allowed, a ValueError, or another exception.
pub data Preflight : Type 0 where
  allowed blocked broken : Preflight

-- The platform: what it holds is read from a state, and a preflight or a start leaves a new one.
-- `none` is an exception; `recent_runs` are the newest RUN_SCAN_LIMIT runs, newest first.
pub record Platform : Type 1 where
  pub State : Type 0
  pub jobs_named : String → State → List PlatformJob
  pub recent_runs : String → State → List JobRun
  pub runs_by_uid : Uuid → State → List JobRun
  pub scheduled_configurations : ConfigurationKind → State → List String
  pub preflight : Uuid → State → Preflight × State
  pub run_job : String → Uuid → State → Option RunPayload × State

pub record ConfigurationJobSubmission : Type 0 where
  pub configuration_uid : Uuid
  pub job_uid : String
  pub job_run_uid : String
  pub status : String

pub data SkipReason : Type 0 where
  pending_or_running : SkipReason
  preflight_blocked : SkipReason

-- The lists of the summary of `dispatch_scheduled_configurations`.
pub record Dispatched : Type 0 where
  pub launched : List (Uuid × String)
  pub skipped : List (Uuid × SkipReason)
  pub failed : List Uuid

pub record DispatchSummary : Type 0 where
  pub kind : ConfigurationKind
  pub job_uid : String
  pub scheduled_configurations : ℕ
  pub dispatched : Dispatched

-- What becomes of one configuration.
pub data Verdict : Type 0 where
  launched : String → Verdict
  skipped : SkipReason → Verdict
  failed : Verdict

abbrev pub record_verdict : Uuid → Verdict → Dispatched → Dispatched
record_verdict uid (launched run) d = record d { launched = (uid, run) ∷ d.launched }
record_verdict uid (skipped reason) d = record d { skipped = (uid, reason) ∷ d.skipped }
record_verdict uid failed d = record d { failed = uid ∷ d.failed }

abbrev pub add_verdict : Uuid → Verdict → Outcome Dispatched → Outcome Dispatched
add_verdict uid v (raise e) = raise e
add_verdict uid v (ok d) = ok (record_verdict uid v d)

abbrev pub has_uid : Uuid → List Uuid → Bool
has_uid uid = any (λ other. other == uid)

-- `payload.get("uid") or payload.get("job_run_uid")`
abbrev pub run_uid : RunPayload → String
run_uid p = filled_or p.uid (filled_or p.job_run_uid "")

-- The end of `_start_run`.
unfoldable pub submission_of : String → Uuid → Option RunPayload → Option ConfigurationJobSubmission
submission_of job uid none = none
submission_of job uid (some p) =
    if is_empty (run_uid p)
    then none
    else some (record {
      configuration_uid = uid;
      job_uid = job;
      job_run_uid = run_uid p;
      status = job_status p.status;
    })

abbrev pub verdict_of : Option ConfigurationJobSubmission → Verdict
verdict_of none = failed
verdict_of (some submission) = launched submission.job_run_uid

-- The loop of `_latest_runs`: the newest run of each wanted configuration.
unfoldable pub latest_runs_from :
    ConfigurationKind
    → List Uuid
    → List (Uuid × ConfigurationJobRun)
    → List JobRun
    → List (Uuid × ConfigurationJobRun)
latest_runs_from kind wanted latest [] = latest
latest_runs_from kind wanted latest (run ∷ runs) =
    elim (configuration_uid_from_command_args run.command_args) [
      | none ↦ latest_runs_from kind wanted latest runs
      | some uid ↦ elim (has_uid uid wanted && not (any (λ entry. entry.0 == uid) latest)) [
        | false ↦ latest_runs_from kind wanted latest runs
        | true ↦ elim (length (latest ++ ((uid, shape_run kind run) ∷ [])) == length wanted) [
          | true ↦ latest ++ ((uid, shape_run kind run) ∷ [])
          | false ↦ latest_runs_from kind wanted (latest ++ ((uid, shape_run kind run) ∷ [])) runs
        ]
      ]
    ]

-- `_latest_runs`
unfoldable pub latest_runs :
    ConfigurationKind → List Uuid → List JobRun → List (Uuid × ConfigurationJobRun)
latest_runs kind [] runs = []
latest_runs kind (uid ∷ wanted) runs = latest_runs_from kind (uid ∷ wanted) [] runs

-- `latest is not None and latest.status in RUNNING_JOB_STATUSES`, of the map for one configuration.
abbrev pub is_busy : Uuid → List (Uuid × ConfigurationJobRun) → Bool
is_busy uid [] = false
is_busy uid ((other, run) ∷ latest) =
    if other == uid then contains running_job_statuses run.status else is_busy uid latest

module _ (platform : Platform) where
  open platform use {State}

  -- `resolve_configuration_job`
  unfoldable pub resolve_configuration_job :
      ConfigurationKind → State → Outcome (Option PlatformJob)
  resolve_configuration_job kind s =
      resolve_declared_job (job_specs kind).execution_path
        (platform.jobs_named (job_specs kind).name s)

  -- `resolve_dispatcher_job`
  unfoldable pub resolve_dispatcher_job : ConfigurationKind → State → Outcome (Option PlatformJob)
  resolve_dispatcher_job kind s =
      resolve_declared_job (job_specs kind).dispatcher_execution_path
        (platform.jobs_named (job_specs kind).dispatcher_name s)

  -- `require_configuration_job`
  unfoldable pub require_configuration_job : ConfigurationKind → State → Outcome PlatformJob
  require_configuration_job kind s = ready_job (resolve_configuration_job kind s)

  abbrev pub runs_of :
      ConfigurationKind
      → Uuid
      → ℕ
      → Outcome (Option PlatformJob)
      → State
      → Outcome (List ConfigurationJobRun)
  runs_of kind uid limit (raise e) s = raise e
  runs_of kind uid limit (ok none) s = ok []
  runs_of kind uid limit (ok (some job)) s =
      ok (list_runs_from kind uid limit 0 (platform.recent_runs job.uid s))

  -- `list_configuration_runs`
  unfoldable pub list_configuration_runs :
      ConfigurationKind → Uuid → ℕ → State → Outcome (List ConfigurationJobRun)
  list_configuration_runs kind uid limit s =
      runs_of kind uid limit (resolve_configuration_job kind s) s

  -- The end of `get_configuration_job_run`, for the Job of the kind.
  abbrev run_of_job :
      ConfigurationKind
      → JobRun
      → Outcome (Option PlatformJob)
      → Outcome (Option ConfigurationJobRun)
  run_of_job kind run (raise e) = raise e
  run_of_job kind run (ok none) = ok none
  run_of_job kind run (ok (some job)) =
      ok (if str_eq job.uid run.job_uid then some (shape_run kind run) else none)

  -- The Job by whose name the run goes.
  abbrev run_of_kind : JobRun → State → Outcome (Option ConfigurationJobRun)
  run_of_kind run s =
      if is_empty run.job_uid
      then ok none
      else if str_eq (get_or_else run.job_name "") (job_specs signal).name
      then run_of_job signal run (resolve_configuration_job signal s)
      else if str_eq (get_or_else run.job_name "") (job_specs portfolio).name
      then run_of_job portfolio run (resolve_configuration_job portfolio s)
      else ok none

  abbrev only_run : List JobRun → State → Outcome (Option ConfigurationJobRun)
  only_run [] s = ok none
  only_run (run ∷ []) s = run_of_kind run s
  only_run (_ ∷ _ ∷ _) s = raise runtime_error

  abbrev with_run_uid : Outcome Uuid → State → Outcome (Option ConfigurationJobRun)
  with_run_uid (raise e) s = raise e
  with_run_uid (ok uid) s = only_run (platform.runs_by_uid uid s) s

  -- `get_configuration_job_run`
  unfoldable pub get_configuration_job_run : String → State → Outcome (Option ConfigurationJobRun)
  get_configuration_job_run uid s = with_run_uid (canonical_uid uid) s

  -- A start that is not refused, with the configurations that `run_job` was called for.
  abbrev pub start_submission :
      PlatformJob
      → Uuid
      → Option RunPayload × State
      → Outcome ConfigurationJobSubmission × List Uuid × State
  start_submission job uid (payload, s) = elim (submission_of job.uid uid payload) [
    | none ↦ (raise runtime_error, uid ∷ [], s)
    | some submission ↦ (ok submission, uid ∷ [], s)
  ]

  -- `launch_configuration_job`; its state stays where it is refused.
  abbrev pub launch_on :
      ConfigurationKind
      → Uuid
      → Outcome PlatformJob
      → State
      → Outcome ConfigurationJobSubmission × List Uuid × State
  launch_on kind uid (raise e) s = (raise e, [], s)
  launch_on kind uid (ok job) s =
      if is_busy uid (latest_runs kind (uid ∷ []) (platform.recent_runs job.uid s))
      then (raise value_error, [], s)
      else start_submission job uid (platform.run_job job.uid uid s)

  unfoldable pub launch_configuration_job :
      ConfigurationKind → Uuid → State → Outcome ConfigurationJobSubmission × List Uuid × State
  launch_configuration_job kind uid s = launch_on kind uid (require_configuration_job kind s) s

  -- The second `try` of the loop.
  abbrev pub start_one : PlatformJob → Uuid → State → Verdict × List Uuid × State
  start_one job uid s =
      let (payload, s') = platform.run_job job.uid uid s in
      (verdict_of (submission_of job.uid uid payload), uid ∷ [], s')

  -- The end of its first `try`.
  abbrev pub after_preflight : PlatformJob → Uuid → Preflight × State → Verdict × List Uuid × State
  after_preflight job uid (allowed, s) = start_one job uid s
  after_preflight job uid (blocked, s) = (skipped preflight_blocked, [], s)
  after_preflight job uid (broken, s) = (failed, [], s)

  -- One round of the loop of `dispatch_scheduled_configurations`.
  unfoldable pub dispatch_one :
      ConfigurationKind → PlatformJob → List Uuid → Uuid → State → Verdict × List Uuid × State
  dispatch_one signal job active uid s =
      if has_uid uid active then (skipped pending_or_running, [], s) else start_one job uid s
  dispatch_one portfolio job active uid s =
      if has_uid uid active
      then (skipped pending_or_running, [], s)
      else after_preflight job uid (platform.preflight uid s)

  -- `_canonical_uid`, ahead of the rest of the round.
  abbrev pub with_uid :
      Option Uuid
      → State
      → (Uuid → Outcome Dispatched × List Uuid × State)
      → Outcome Dispatched × List Uuid × State
  with_uid none s rest = (raise value_error, [], s)
  with_uid (some uid) s rest = rest uid

  -- The loop, with the configurations that `run_job` was called for.
  unfoldable pub dispatch_from :
      ConfigurationKind
      → PlatformJob
      → List Uuid
      → List String
      → State
      → Outcome Dispatched × List Uuid × State
  dispatch_from kind job active [] s =
      (ok (record { launched = []; skipped = []; failed = [] }), [], s)
  dispatch_from kind job active (text ∷ texts) s = with_uid (parse_uuid text) s λ uid.
      let (verdict, started, s') = dispatch_one kind job active uid s in
      let (rest, later, s'') = dispatch_from kind job active texts s' in
      (add_verdict uid verdict rest, started ++ later, s'')

  abbrev pub summarize :
      ConfigurationKind → PlatformJob → ℕ → Outcome Dispatched → Outcome DispatchSummary
  summarize kind job n (raise e) = raise e
  summarize kind job n (ok d) =
      ok (record { kind = kind; job_uid = job.uid; scheduled_configurations = n; dispatched = d })

  abbrev pub dispatch_on :
      ConfigurationKind → Outcome PlatformJob → State → Outcome DispatchSummary × List Uuid × State
  dispatch_on kind (raise e) s = (raise e, [], s)
  dispatch_on kind (ok job) s =
      let configurations = platform.scheduled_configurations kind s in
      let active = active_configuration_uids (platform.recent_runs job.uid s) in
      let (outcome, started, s') = dispatch_from kind job active configurations s in
      (summarize kind job (length configurations) outcome, started, s')

  -- `dispatch_scheduled_configurations`
  unfoldable pub dispatch_scheduled_configurations :
      ConfigurationKind → State → Outcome DispatchSummary × List Uuid × State
  dispatch_scheduled_configurations kind s = dispatch_on kind (require_configuration_job kind s) s
