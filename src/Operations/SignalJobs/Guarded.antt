-- ===== src/Operations/SignalJobs/Guarded.antt =====
-- The references of the configurations of `src/alpaca_connectors/operations/signal_jobs.py`: what has
-- been looked up before a row is written.
use alpaca_connectors.Prelude.{
  ◌≡◌, ◌⊎◌, inl, inr, refl, Bool, true, false, not, Option, none, some, List, [], ◌∷◌, ◌++◌, All,
  All-append, if◌then◌else◌, Uuid,
}
use alpaca_connectors.Actions.{Result, ok, raise, pure, throw, or_raise, raise_if, ◌>>=◌}
use alpaca_connectors.Actions.Spec.{
  Spec, Spec-bind, Spec-pure, Spec-throw, Spec-ask, Spec-lift, Spec-or_raise, Spec-weaken,
  Spec-try_tell,
}
use alpaca_connectors.Actions.Checked.{Passes, Passes-bind, Passes-ok}
use alpaca_connectors.Portfolios.Checks.{Fault, lookup_error, value_error}
use alpaca_connectors.Portfolios.Valid.Values.{Fits, nonempty-Fits}
use alpaca_connectors.Operations.SignalJobs.{
  SignalValues, AlpacaEtfSignalJobConfiguration, Call, looked_up_universe, looked_up_account,
  looked_up_signals, looked_up_signal, created, ensured_metadata, SignalPlatform, signal_values,
  is_none_of, require_active, validate_signal_job_references, store_signal,
  create_signal_job_configuration_row, ensure_signal_metadata, create_signal_job_configuration,
}

abbrev pub is_read : Call → Bool
is_read (looked_up_universe _ _) = true
is_read (looked_up_account _ _) = true
is_read (looked_up_signals _ _) = true
is_read (looked_up_signal _ _) = true
is_read _ = false

abbrev pub IsRead : Call → Type 0
IsRead c = is_read c ≡ true

abbrev pub is_metadata : Call → Bool
is_metadata (ensured_metadata _) = true
is_metadata _ = false

abbrev pub IsMetadata : Call → Type 0
IsMetadata c = is_metadata c ≡ true

-- The universe and the account were looked up, and both are active.
abbrev pub BothActive : Uuid → Uuid → List Call → Type 0
BothActive universe account cs =
    cs
    ≡ looked_up_universe universe (some (some true))
      ∷ looked_up_account account (some (some true))
      ∷ []

-- What was stored: the values that were asked for, once both references were found active and no
-- configuration of the universe was found.
pub record Creation (given : SignalValues) (cs : List Call) : Type 0 where
  pub values : SignalValues
  pub rest : List Call
  pub name : Fits 255 values.name
  pub universe : values.universe_uid ≡ given.universe_uid
  pub account : values.account_uid ≡ given.account_uid
  pub others : All IsMetadata rest
  pub trace :
      cs
      ≡ looked_up_universe given.universe_uid (some (some true))
        ∷ looked_up_account given.account_uid (some (some true))
        ∷ looked_up_signals given.universe_uid (some [])
        ∷ created values
        ∷ rest

abbrev pub Raises : {A : Type 0} → Result Fault A → Type 0
Raises (ok a) = ⊥
Raises (raise e) = Unit

-- An operation that has only read has raised; otherwise it has written a row as `P` says.
abbrev pub OnlyIf : {A : Type 0} → (List Call → Type 0) → Result Fault A → List Call → Type 0
OnlyIf P r cs = (All IsRead cs × Raises r) ⊎ P cs

abbrev pub Asked : {A : Type 0} → (Option A → Call) → Result Fault A → List Call → Type 0
Asked call (ok a) cs = cs ≡ call (some a) ∷ []
Asked call (raise e) cs = cs ≡ call none ∷ []

abbrev IsActive : (Option (Option Bool) → Call) → Result Fault (Unit {0}) → List Call → Type 0
IsActive call (ok u) cs = cs ≡ call (some (some true)) ∷ []
IsActive call (raise e) cs = (answer : Option (Option Bool)) × (cs ≡ call answer ∷ [])

abbrev pub Validated : Uuid → Uuid → Result Fault (Unit {0}) → List Call → Type 0
Validated universe account (ok u) cs = BothActive universe account cs
Validated universe account (raise e) cs = All IsRead cs

abbrev Normal : SignalValues → SignalValues → Type 0
Normal given v =
    Fits 255 v.name × (v.universe_uid ≡ given.universe_uid) × (v.account_uid ≡ given.account_uid)

signal_values-Normal : (given : SignalValues) → Passes (Normal given) (signal_values given)
unfolding signal_values
signal_values-Normal given =
    Passes-bind _ _ (nonempty-Fits 255 given.name) (λ name h. Passes-ok _ (h, refl, refl))

abbrev pub Silent : {A : Type 0} → Result Fault A → List Call → Type 0
Silent r cs = cs ≡ []

abbrev Checked : SignalValues → Result Fault SignalValues → List Call → Type 0
Checked given (ok v) cs = (cs ≡ []) × Normal given v
Checked given (raise e) cs = cs ≡ []

lifted-Checked :
    (given : SignalValues) (q : Result Fault SignalValues)
    → signal_values given ≡ q
    → Checked given q []
lifted-Checked given (ok v) e = (refl, (signal_values-Normal given).passed v e)
lifted-Checked given (raise f) e = refl

-- The storing has made one row, or has made no call and has raised.
abbrev Stored : SignalValues → Result Fault AlpacaEtfSignalJobConfiguration → List Call → Type 0
Stored given r cs =
    ((cs ≡ []) × Raises r) ⊎ ((v : SignalValues) × Normal given v × (cs ≡ created v ∷ []))

module _ (platform : SignalPlatform) where
  require_active-IsActive :
      (call : Option (Option Bool) → Call)
      (look : platform.State → Option (Option Bool) × platform.State)
      → Spec (IsActive call) (require_active platform call look)
  unfolding require_active throw pure ◌>>=◌
  require_active-IsActive call look =
      Spec-bind (Asked call) _ _ (Spec-try_tell _ _ _ refl (λ _. refl)) answered
        (λ e cs h. (none, h))
    where
      answered :
          (found : Option Bool) (cs : List Call)
          → cs ≡ call (some found) ∷ []
          → Spec {S = platform.State}
              (λ r ds. IsActive call r (cs ++ ds))
              (or_raise lookup_error found >>= λ active. raise_if (not active) value_error)
      answered none cs e = record { at = λ s. (some none, rw e refl) }
      answered (some true) cs e = record { at = λ s. rw e refl }
      answered (some false) cs e = record { at = λ s. (some (some false), rw e refl) }

  pub validate-Validated :
      (universe account : Uuid)
      → Spec (Validated universe account) (validate_signal_job_references platform universe account)
  unfolding validate_signal_job_references
  validate-Validated universe account =
      Spec-bind (IsActive (looked_up_universe universe)) _ _ (require_active-IsActive _ _)
        (λ _ cs e.
          Spec-weaken (IsActive (looked_up_account account)) _ (require_active-IsActive _ _)
            (joined cs e))
        (λ e cs (answer, h). rw h (refl, tt))
    where
      joined :
          (cs : List Call)
          → cs ≡ looked_up_universe universe (some (some true)) ∷ []
          → (r : Result Fault (Unit {0})) (ds : List Call)
          → IsActive (looked_up_account account) r ds
          → Validated universe account r (cs ++ ds)
      joined cs e (ok u) ds h = rw (e, h) refl
      joined cs e (raise f) ds (answer, h) = rw (e, h) (refl, (refl, tt))

  store-Stored :
      (uid : Option Uuid) (given : SignalValues)
      → Spec (Stored given) (store_signal platform uid given)
  unfolding store_signal
  store-Stored uid given =
      Spec-bind Silent _ _ (Spec-ask _ (λ _. refl))
        (λ now cs e.
          Spec-bind (Checked given) _ _ (Spec-lift _ (lifted-Checked given))
            (λ values ds (k, normal).
              Spec-bind (λ r es. es ≡ created values ∷ []) _ _
                (Spec-try_tell _ _ _ refl (λ _. refl))
                (λ row es l.
                  Spec-or_raise _ row (inr (values, normal, rw (e, k, l) refl))
                    (λ _. inr (values, normal, rw (e, k, l) refl)))
                (λ f es l. inr (values, normal, rw (e, k, l) refl)))
            (λ f ds k. inl (rw (e, k) refl, tt)))
        (λ f cs e. inl (e, tt))

  create_row-Creation :
      (uid : Option Uuid) (given : SignalValues)
      → Spec (OnlyIf (Creation given)) (create_signal_job_configuration_row platform uid given)
  unfolding create_signal_job_configuration_row
  create_row-Creation uid given =
      Spec-bind (Validated given.universe_uid given.account_uid) _ _ (validate-Validated _ _)
        (λ _ cs e.
          Spec-bind (Asked (looked_up_signals given.universe_uid)) _ _
            (Spec-try_tell _ _ _ refl (λ _. refl)) (λ existing ds k. decided cs e existing ds k)
            (λ f ds k. inl (rw (e, k) (refl, (refl, (refl, tt))), tt)))
        (λ f cs h. inl (h, tt))
    where
      stored :
          (r : Result Fault AlpacaEtfSignalJobConfiguration) (cs ds es : List Call)
          → BothActive given.universe_uid given.account_uid cs
          → ds ≡ looked_up_signals given.universe_uid (some []) ∷ []
          → Stored given r es
          → OnlyIf (Creation given) r (cs ++ (ds ++ es))
      stored r cs ds es e k (inl (l, raised)) =
          inl (rw (e, k, l) (refl, (refl, (refl, tt))), raised)
      stored r cs ds es e k (inr (v, (fits, universe, account), l)) = inr (record {
        values = v;
        rest = [];
        name = fits;
        universe = universe;
        account = account;
        others = tt;
        trace = rw (e, k, l) refl;
      })

      decided :
          (cs : List Call)
          → BothActive given.universe_uid given.account_uid cs
          → (existing : List AlpacaEtfSignalJobConfiguration) (ds : List Call)
          → ds ≡ looked_up_signals given.universe_uid (some existing) ∷ []
          → Spec
              (λ r es. OnlyIf (Creation given) r (cs ++ (ds ++ es)))
              (if is_none_of existing then store_signal platform uid given else throw value_error)
      decided cs e [] ds k =
          Spec-weaken (Stored given) _ (store-Stored uid given) (λ r es h. stored r cs ds es e k h)
      decided cs e (row ∷ rows) ds k = Spec-throw _ (inl (rw (e, k) (refl, (refl, (refl, tt))), tt))

  pub ensure-IsMetadata :
      (row : AlpacaEtfSignalJobConfiguration)
      → Spec (λ r cs. All IsMetadata cs) (ensure_signal_metadata platform row)
  unfolding ensure_signal_metadata
  ensure-IsMetadata row = Spec-try_tell _ _ _ (refl, tt) (λ _. (refl, tt))

  grown :
      (given : SignalValues) (row : AlpacaEtfSignalJobConfiguration)
      (r : Result Fault AlpacaEtfSignalJobConfiguration) (cs ds : List Call)
      → OnlyIf (Creation given) (ok row) cs
      → All IsMetadata ds
      → OnlyIf (Creation given) r (cs ++ ds)
  grown given row r cs ds (inl (reads, raised)) h = absurd raised
  grown given row r cs ds (inr c) h = inr (record {
    values = c.values;
    rest = c.rest ++ ds;
    name = c.name;
    universe = c.universe;
    account = c.account;
    others = All-append _ c.rest ds c.others h;
    trace = rw c.trace refl;
  })

  -- A creation of a signal configuration writes at most one row: with a name that fits, for the
  -- universe and the account that were asked for, after both were found active and no configuration
  -- of the universe was found. Otherwise it has only read and raises.
  pub create_signal_job_configuration-Creation :
      (given : SignalValues) (s : platform.State)
      → let (r, cs, _) = create_signal_job_configuration platform given s in
        OnlyIf (Creation given) r cs
  unfolding create_signal_job_configuration
  create_signal_job_configuration-Creation given s = whole.at s
    where
      whole : Spec (OnlyIf (Creation given)) (create_signal_job_configuration platform given)
      whole =
          Spec-bind (OnlyIf (Creation given)) _ _ (create_row-Creation none given)
            (λ row cs h.
              Spec-bind (λ r ds. All IsMetadata ds) _ _ (ensure-IsMetadata row)
                (λ _ ds k.
                  Spec-pure row (grown given row (ok row) cs _ h (All-append _ ds [] k tt)))
                (λ e ds k. grown given row (raise e) cs ds h k))
            (λ e cs h. h)
