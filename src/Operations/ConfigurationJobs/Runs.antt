-- ===== src/Operations/ConfigurationJobs/Runs.antt =====
-- How `src/alpaca_connectors/operations/configuration_jobs.py` finds the runs of a configuration.
use alpaca_connectors.Prelude.{
  ℕ, zero, suc, ap, ◌+◌, ◌≡◌, refl, String, true, false, some, List, [], ◌∷◌, ◌++◌, map,
  if◌then◌else◌, arith, take, select, contains, leb, eq_iff, Uuid, parse_uuid, print_uuid, Option,
  none, ◌∙◌, Bool-cases, inl, inr,
}
use alpaca_connectors.Prelude.Uuids.Printed.{parse_uuid-print_uuid, parse_uuid_below}
use alpaca_connectors.Operations.ConfigurationJobs.{
  ConfigurationKind, JobRun, argument_value, configuration_uid_argument,
  configuration_uid_from_command_args, configuration_command_args, canonical_uid, valid_uid,
  uid_args, ok, raise, value_error, parse_argument, shape_run, runs_configuration, list_runs_from,
}

argument_value-after :
    (before : List String) (printed : String)
    → contains before configuration_uid_argument ≡ false
    → argument_value (before ++ (configuration_uid_argument ∷ printed ∷ [])) ≡ some printed
unfolding argument_value
argument_value-after [] printed h = refl
argument_value-after (value ∷ []) printed h =
    ground (arith, eq_iff value configuration_uid_argument, eq_iff configuration_uid_argument value)
argument_value-after (value ∷ next ∷ before) printed h = ground (
  arith,
  eq_iff value configuration_uid_argument,
  eq_iff configuration_uid_argument value,
  argument_value-after (next ∷ before) printed,
)

-- The arguments for a text that stands for a UUID select that UUID, behind any others; for another
-- text there are none.
abbrev pub SelectsUid : List String → String → Option Uuid → Type 0
SelectsUid before value none = configuration_command_args value ≡ raise value_error
SelectsUid before value (some uid) =
    (args : List String) × (configuration_command_args value ≡ ok args)
    × (configuration_uid_from_command_args (before ++ args) ≡ some uid)

-- A text that stands for a UUID, in whatever spelling, gives arguments from which that UUID is read
-- back, whatever arguments stand before them, as long as the option is not among these; a text that
-- stands for none is refused.
pub configuration_uid_round_trip :
    (before : List String) (value : String)
    → contains before configuration_uid_argument ≡ false
    → SelectsUid before value (parse_uuid value)
unfolding configuration_uid_from_command_args configuration_command_args canonical_uid
configuration_uid_round_trip before value h = selects (parse_uuid value) refl
  where
    selects : (o : Option Uuid) → parse_uuid value ≡ o → SelectsUid before value o
    selects none e = ap (λ o. uid_args (valid_uid o)) e
    selects (some uid) e = (
      configuration_uid_argument ∷ print_uuid uid ∷ [],
      ap (λ o. uid_args (valid_uid o)) e,
      ap parse_argument (argument_value-after before (print_uuid uid) h)
          ∙ parse_uuid-print_uuid uid (parse_uuid_below value uid e),
    )

-- A limit of zero counts as one.
abbrev pub at_least_one : ℕ → ℕ
at_least_one zero = 1
at_least_one (suc n) = suc n

-- How many runs the loop will have listed at its end, if there are enough.
abbrev remaining : ℕ → ℕ → ℕ
remaining limit n = if leb limit (n + 1) then n + 1 else limit

list_runs_from-take :
    (kind : ConfigurationKind) (uid : Uuid) (limit n k : ℕ) (runs : List JobRun)
    → n + suc k ≡ remaining limit n
    → list_runs_from kind uid limit n runs
      ≡ map (shape_run kind) (take (suc k) (select (runs_configuration uid) runs))
unfolding list_runs_from
list_runs_from-take kind uid limit n k [] h = refl
list_runs_from-take kind uid limit n zero (run ∷ runs) h =
    elim (Bool-cases (runs_configuration uid run)) [
      | inl e ↦ rw e (rw (last_one limit n h) refl)
      | inr e ↦ rw e (list_runs_from-take kind uid limit n zero runs h)
    ]
  where
    last_one : (limit n : ℕ) → n + 1 ≡ remaining limit n → leb limit (n + 1) ≡ true
    last_one limit n h = ground arith
list_runs_from-take kind uid limit n (suc k) (run ∷ runs) h =
    elim (Bool-cases (runs_configuration uid run)) [
      | inl e ↦ rw e (
          rw (not_last limit n h) (
            ap (◌∷◌ (shape_run kind run))
              (list_runs_from-take kind uid limit (n + 1) k runs (ground arith))))
      | inr e ↦ rw e (list_runs_from-take kind uid limit n (suc k) runs h)
    ]
  where
    not_last : (limit n : ℕ) → n + suc (suc k) ≡ remaining limit n → leb limit (n + 1) ≡ false
    not_last limit n h = ground arith

-- The runs that are listed are the first of the configuration, as many as the limit says; one, if the
-- limit is zero.
pub list_runs_from_lem :
    (kind : ConfigurationKind) (uid : Uuid) (limit : ℕ) (runs : List JobRun)
    → list_runs_from kind uid limit 0 runs
      ≡ map (shape_run kind) (take (at_least_one limit) (select (runs_configuration uid) runs))
list_runs_from_lem kind uid zero runs = list_runs_from-take kind uid 0 0 0 runs refl
list_runs_from_lem kind uid (suc k) runs =
    list_runs_from-take kind uid (suc k) 0 k runs (ground arith)
