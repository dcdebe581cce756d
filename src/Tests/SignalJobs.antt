-- ===== src/Tests/SignalJobs.antt =====
-- A platform as `src/alpaca_connectors/operations/signal_jobs.py` uses it, and the theorems about the
-- writes at an input.
use alpaca_connectors.Prelude.{ℕ, suc, ◌≡◌, refl, true, none, some, [], strip}
use alpaca_connectors.Actions.{raise}
use alpaca_connectors.Portfolios.Checks.{value_error}
use alpaca_connectors.Operations.SignalJobs.{
  SignalValues, SignalChanges, AlpacaEtfSignalJobConfiguration, SignalPlatform, updated_name,
  create_signal_job_configuration, update_signal_job_configuration,
}
use alpaca_connectors.Operations.SignalJobs.Guarded.{
  OnlyIf, Creation, create_signal_job_configuration-Creation,
}
use alpaca_connectors.Operations.SignalJobs.References.{Change}
use alpaca_connectors.Operations.SignalJobs.Changed.{update_signal_job_configuration-Change}

abbrev values : SignalValues
values = record {
  name = " ivv ";
  description = none;
  universe_uid = 1;
  account_uid = 2;
  enabled = true;
}

abbrev stored : AlpacaEtfSignalJobConfiguration
stored = record { uid = 3; values = values; created_at = 1; updated_at = 1 }

abbrev platform : SignalPlatform
platform = record {
  State = ℕ;
  now = λ s. (s, s);
  universe_is_active = λ uid s. (some (some true), s);
  account_is_active = λ uid s. (some (some true), s);
  filter_universe = λ uid s. (some [], s);
  get_by_uid = λ uid s. (some (some stored), s);
  create = λ uid v time s. (some (some stored), suc s);
  update = λ uid c time s. (some stored, suc s);
  delete = λ uid s. (some tt, s);
  ensure_metadata = λ row s. (some tt, s);
}

abbrev another_universe : SignalChanges
another_universe = record {
  name = none;
  description = none;
  universe_uid = some 5;
  account_uid = none;
  enabled = none;
}

create_signal_job_configuration-Creation_example :
    let (r, cs, _) = create_signal_job_configuration platform values 0 in
    OnlyIf (Creation values) r cs
create_signal_job_configuration-Creation_example =
    create_signal_job_configuration-Creation platform values 0

update_signal_job_configuration-Change_example :
    let (r, cs, _) = update_signal_job_configuration platform 3 another_universe 0 in
    OnlyIf (Change 3) r cs
update_signal_job_configuration-Change_example =
    update_signal_job_configuration-Change platform 3 another_universe 0

blank_name : updated_name " " ≡ raise value_error
unfolding updated_name strip
blank_name = refl
