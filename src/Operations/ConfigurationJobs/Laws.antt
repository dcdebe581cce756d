-- ===== src/Operations/ConfigurationJobs/Laws.antt =====
-- What the starting of runs in `src/alpaca_connectors/operations/configuration_jobs.py` keeps to.
use alpaca_connectors.Prelude.{
  ℕ, ◌+◌, ◌≤◌, ◌≡◌, refl, String, Bool, ◌&&◌, ◌||◌, Option, none, some, List, [], ◌∷◌, ◌++◌,
  if◌then◌else◌, arith, sym, length, any, ◌==◌, Uuid, parse_uuid, Option-cases, inl, inr,
}
use alpaca_connectors.Operations.ConfigurationJobs.{
  ConfigurationKind, signal, portfolio, PlatformJob, JobRun, Outcome, ok, raise,
  configuration_uid_from_command_args, runs_configuration, is_uid, add_active,
  active_configuration_uids, is_running,
}
use alpaca_connectors.Operations.ConfigurationJobs.Dispatch.{
  Platform, Preflight, allowed, blocked, broken, Verdict, launched, skipped, failed, Dispatched,
  DispatchSummary, has_uid, dispatch_one, dispatch_from, dispatch_scheduled_configurations,
  add_verdict, dispatch_on, summarize, require_configuration_job, after_preflight,
}

-- How often a configuration stands in a list, in a list of pairs, and among texts.
abbrev pub count : Uuid → List Uuid → ℕ
count uid [] = 0
count uid (x ∷ xs) = (if x == uid then 1 else 0) + count uid xs

abbrev pub count_keys : {V : Type 0} → Uuid → List (Uuid × V) → ℕ
count_keys uid [] = 0
count_keys uid ((x, _) ∷ xs) = (if x == uid then 1 else 0) + count_keys uid xs

abbrev pub stands_for : Uuid → Option Uuid → ℕ
stands_for uid none = 0
stands_for uid (some x) = if x == uid then 1 else 0

abbrev pub count_texts : Uuid → List String → ℕ
count_texts uid [] = 0
count_texts uid (text ∷ texts) = stands_for uid (parse_uuid text) + count_texts uid texts

count-append : (uid : Uuid) (xs ys : List Uuid) → count uid (xs ++ ys) ≡ count uid xs + count uid ys
count-append uid [] ys = omega arith
count-append uid (x ∷ xs) ys = omega (arith, count-append uid xs ys)

-- The configuration's entries in the three lists of the summary.
abbrev pub entries : Uuid → Dispatched → ℕ
entries uid d = count_keys uid d.launched + count_keys uid d.skipped + count uid d.failed

-- The configuration is accounted for as often as it is scheduled.
abbrev Accounts : Uuid → List String → Outcome Dispatched → Type 0
Accounts uid texts (raise _) = Unit
Accounts uid texts (ok d) = entries uid d ≡ count_texts uid texts

add_verdict-Accounts :
    (uid other : Uuid) (text : String) (texts : List String) (v : Verdict) (d : Outcome Dispatched)
    → parse_uuid text ≡ some other
    → Accounts uid texts d
    → Accounts uid (text ∷ texts) (add_verdict other v d)
add_verdict-Accounts uid other text texts v (raise e) h k = tt
add_verdict-Accounts uid other text texts (launched run) (ok d) h k = rw h (ground arith)
add_verdict-Accounts uid other text texts (skipped reason) (ok d) h k = rw h (ground arith)
add_verdict-Accounts uid other text texts failed (ok d) h k = rw h (ground arith)

-- A run of the configuration that has not ended.
abbrev pub runs_now : Uuid → JobRun → Bool
runs_now uid run = runs_configuration uid run && is_running run.status

has_uid-add :
    (uid : Uuid) (o : Option Uuid) (running : Bool) (rest : List Uuid) (b : Bool)
    → has_uid uid rest ≡ b
    → has_uid uid (add_active o running rest) ≡ ((is_uid uid o && running) || b)
has_uid-add uid none running rest b h = h
has_uid-add uid (some other) running rest b h = ground arith

has_uid-active :
    (uid : Uuid) (runs : List JobRun)
    → has_uid uid (active_configuration_uids runs) ≡ any (runs_now uid) runs
unfolding active_configuration_uids
has_uid-active uid [] = refl
has_uid-active uid (run ∷ runs) =
    has_uid-add uid (configuration_uid_from_command_args run.command_args) (is_running run.status) _
      _ (has_uid-active uid runs)

module _ (platform : Platform) where
  dispatch_from-Accounts :
      (uid : Uuid) (kind : ConfigurationKind) (job : PlatformJob) (active : List Uuid)
      (texts : List String) (s : platform.State)
      → Accounts uid texts (dispatch_from platform kind job active texts s).0
  unfolding dispatch_from
  dispatch_from-Accounts uid kind job active [] s = refl
  dispatch_from-Accounts uid kind job active (text ∷ texts) s =
      elim (Option-cases (parse_uuid text)) [
        | inl e ↦ rw e tt
        | inr (other, e) ↦ rw e (
            add_verdict-Accounts uid other text texts _ _ e (
              dispatch_from-Accounts uid kind job active texts
                (dispatch_one platform kind job active other s).2))
      ]

  -- The starts that a configuration may come to.
  abbrev may_start : Uuid → List Uuid → Uuid → ℕ
  may_start uid active other = if has_uid uid active then 0 else if other == uid then 1 else 0

  start_unless :
      (uid other : Uuid) (active : List Uuid) (v : Verdict) (s : platform.State)
      (m : Verdict × List Uuid × platform.State)
      → count uid m.1 ≤ (if other == uid then 1 else 0)
      → count uid (if has_uid other active then (v, [], s) else m).1 ≤ may_start uid active other
  start_unless uid other active v s (w, started, t) h = ground arith

  after_preflight-started :
      (uid other : Uuid) (job : PlatformJob) (p : Preflight × platform.State)
      → count uid (after_preflight platform job other p).1 ≤ (if other == uid then 1 else 0)
  after_preflight-started uid other job (allowed, s) = ground arith
  after_preflight-started uid other job (blocked, s) = ground arith
  after_preflight-started uid other job (broken, s) = ground arith

  dispatch_one-started :
      (uid other : Uuid) (kind : ConfigurationKind) (job : PlatformJob) (active : List Uuid)
      (s : platform.State)
      → count uid (dispatch_one platform kind job active other s).1 ≤ may_start uid active other
  unfolding dispatch_one
  dispatch_one-started uid other signal job active s =
      start_unless uid other active _ s _ (ground arith)
  dispatch_one-started uid other portfolio job active s =
      start_unless uid other active _ s _
        (after_preflight-started uid other job (platform.preflight other s))

  dispatch_from-started :
      (uid : Uuid) (kind : ConfigurationKind) (job : PlatformJob) (active : List Uuid)
      (texts : List String) (s : platform.State)
      → count uid (dispatch_from platform kind job active texts s).1
        ≤ (if has_uid uid active then 0 else count_texts uid texts)
  unfolding dispatch_from
  dispatch_from-started uid kind job active [] s = ground arith
  dispatch_from-started uid kind job active (text ∷ texts) s =
      elim (Option-cases (parse_uuid text)) [
        | inl e ↦ rw e (ground arith)
        | inr (other, e) ↦ rw e (
            ground (
              arith,
              count-append uid (dispatch_one platform kind job active other s).1
                  (dispatch_from platform kind job active texts
                    (dispatch_one platform kind job active other s).2).1,
              dispatch_one-started uid other kind job active s,
              dispatch_from-started uid kind job active texts
                  (dispatch_one platform kind job active other s).2,
            ))
      ]

  summary_of :
      (uid : Uuid) (kind : ConfigurationKind) (job : Outcome PlatformJob) (s : platform.State)
      (summary : DispatchSummary)
      → (dispatch_on platform kind job s).0 ≡ ok summary
      → (entries uid summary.dispatched
          ≡ count_texts uid (platform.scheduled_configurations kind s))
        × (summary.scheduled_configurations ≡ length (platform.scheduled_configurations kind s))
  summary_of uid kind (raise e) s summary h = absurd (ground arith)
  summary_of uid kind (ok job) s summary h =
      summarized (platform.scheduled_configurations kind s) _
        (dispatch_from-Accounts uid kind job
          (active_configuration_uids (platform.recent_runs job.uid s))
          (platform.scheduled_configurations kind s) s)
        h
    where
      summarized :
          (texts : List String) (d : Outcome Dispatched)
          → Accounts uid texts d
          → summarize platform kind job (length texts) d ≡ ok summary
          → (entries uid summary.dispatched ≡ count_texts uid texts)
            × (summary.scheduled_configurations ≡ length texts)
      summarized texts (raise e) k h = absurd (ground arith)
      summarized texts (ok d) k h = ground (arith, k)

  -- If the dispatcher returns a summary, every configuration stands in its three lists together,
  -- launched, skipped and failed, exactly as often as it is scheduled; and the summary has the number
  -- of scheduled configurations.
  pub dispatch_scheduled_configurations_accounts :
      (uid : Uuid) (kind : ConfigurationKind) (s : platform.State) (summary : DispatchSummary)
      → (dispatch_scheduled_configurations platform kind s).0 ≡ ok summary
      → (entries uid summary.dispatched
          ≡ count_texts uid (platform.scheduled_configurations kind s))
        × (summary.scheduled_configurations ≡ length (platform.scheduled_configurations kind s))
  unfolding dispatch_scheduled_configurations
  dispatch_scheduled_configurations_accounts uid kind s summary h =
      summary_of uid kind (require_configuration_job platform kind s) s summary h

  -- However the dispatch ends, it calls `run_job` for a configuration as often as it is scheduled at
  -- most, and not at all if one of the recent runs of the Job is a run of it that has not ended.
  pub dispatch_scheduled_configurations_starts :
      (uid : Uuid) (kind : ConfigurationKind) (s : platform.State) (job : PlatformJob)
      → require_configuration_job platform kind s ≡ ok job
      → count uid (dispatch_scheduled_configurations platform kind s).1 ≤ (
          if any (runs_now uid) (platform.recent_runs job.uid s)
          then 0
          else count_texts uid (platform.scheduled_configurations kind s))
  unfolding dispatch_scheduled_configurations
  dispatch_scheduled_configurations_starts uid kind s job h =
      rw (h, sym (has_uid-active uid (platform.recent_runs job.uid s)))
        (dispatch_from-started uid kind job _ (platform.scheduled_configurations kind s) s)
