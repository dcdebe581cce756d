-- ===== src/Operations/SignalJobs/References.antt =====
-- What an update of `src/alpaca_connectors/operations/signal_jobs.py` writes of the references, and what
-- it has looked up before.
use alpaca_connectors.Prelude.{
  ◌≡◌, ◌⊎◌, inl, inr, refl, true, false, Option, none, some, List, [], ◌∷◌, ◌++◌, All, String, Uuid,
}
use alpaca_connectors.Actions.{Result, ok, raise}
use alpaca_connectors.Actions.Checked.{Passes, Passes-bind, Passes-ok, check_given}
use alpaca_connectors.Portfolios.Checks.{Fault}
use alpaca_connectors.Operations.SignalJobs.{
  AlpacaEtfSignalJobConfiguration, SignalChanges, Call, looked_up_universe, looked_up_account,
  looked_up_signals, looked_up_signal, updated, written_changes, signal_changes, has_other,
  updated_name,
}
use alpaca_connectors.Operations.SignalJobs.Guarded.{IsRead, IsMetadata, BothActive, Raises}

-- The references were found active, and the universe is the current one or was found with no
-- configuration but the current one.
abbrev pub Free : AlpacaEtfSignalJobConfiguration → Uuid → Uuid → List Call → Type 0
Free current universe account cs =
    ((universe ≡ current.values.universe_uid) × BothActive universe account cs)
    ⊎ ((conflicts : List AlpacaEtfSignalJobConfiguration) × (has_other current.uid conflicts
          ≡ false)
        × (cs
            ≡ looked_up_universe universe (some (some true))
              ∷ looked_up_account account (some (some true))
              ∷ looked_up_signals universe (some conflicts)
              ∷ []))

-- No reference is written, or both are.
abbrev pub References : AlpacaEtfSignalJobConfiguration → SignalChanges → List Call → Type 0
References current changes cs =
    ((changes.universe_uid ≡ none) × (changes.account_uid ≡ none) × (cs ≡ []))
    ⊎ ((universe account : Uuid) × (changes.universe_uid ≡ some universe)
        × (changes.account_uid ≡ some account)
        × Free current universe account cs)

pub record Change (uid : Uuid) (cs : List Call) : Type 0 where
  pub current : AlpacaEtfSignalJobConfiguration
  pub found : AlpacaEtfSignalJobConfiguration
  pub changes : SignalChanges
  pub reads : List Call
  pub rest : List Call
  pub references : References current changes reads
  pub others : All IsMetadata rest
  pub trace :
      cs
      ≡ looked_up_signal uid (some (some current))
        ∷ (reads
            ++ looked_up_signal current.uid (some (some found))
              ∷ updated current.uid changes
              ∷ rest)

abbrev pub FreeStep :
    AlpacaEtfSignalJobConfiguration → Uuid → Result Fault (Unit {0}) → List Call → Type 0
FreeStep current universe (ok u) cs =
    ((universe ≡ current.values.universe_uid) × (cs ≡ []))
    ⊎ ((conflicts : List AlpacaEtfSignalJobConfiguration) × (has_other current.uid conflicts
          ≡ false)
        × (cs ≡ looked_up_signals universe (some conflicts) ∷ []))
FreeStep current universe (raise e) cs = All IsRead cs

abbrev pub Changed :
    AlpacaEtfSignalJobConfiguration → Result Fault (Option (Uuid × Uuid)) → List Call → Type 0
Changed current (ok none) cs = cs ≡ []
Changed current (ok (some (universe, account))) cs = Free current universe account cs
Changed current (raise e) cs = All IsRead cs

abbrev pub Found : Uuid → Result Fault AlpacaEtfSignalJobConfiguration → List Call → Type 0
Found uid (ok row) cs = cs ≡ looked_up_signal uid (some (some row)) ∷ []
Found uid (raise e) cs = All IsRead cs

-- A row was found and written, or nothing was.
abbrev pub Written :
    Uuid → SignalChanges → Result Fault AlpacaEtfSignalJobConfiguration → List Call → Type 0
Written uid changes r cs =
    (All IsRead cs × Raises r)
    ⊎ ((found : AlpacaEtfSignalJobConfiguration) × (cs
          ≡ looked_up_signal uid (some (some found)) ∷ updated uid changes ∷ []))

-- The references that were validated are those that are written.
abbrev pub Referring : Option (Uuid × Uuid) → SignalChanges → Type 0
Referring none changes = (changes.universe_uid ≡ none) × (changes.account_uid ≡ none)
Referring (some (universe, account)) changes =
    (changes.universe_uid ≡ some universe) × (changes.account_uid ≡ some account)

pub written_changes-Referring :
    (references : Option (Uuid × Uuid)) (given : SignalChanges) (name : Option String)
    → Referring references (written_changes references given name)
written_changes-Referring none given name = (refl, refl)
written_changes-Referring (some (universe, account)) given name = (refl, refl)

pub signal_changes-Referring :
    (references : Option (Uuid × Uuid)) (given : SignalChanges)
    → Passes (Referring references) (signal_changes references given)
unfolding signal_changes
signal_changes-Referring references given =
    Passes-bind {P = λ _. Unit} (check_given updated_name given.name)
      (λ name. ok (written_changes references given name)) (record { passed = λ _ _. tt })
      (λ name _. Passes-ok _ (written_changes-Referring references given name))

abbrev pub Lifted : Option (Uuid × Uuid) → Result Fault SignalChanges → List Call → Type 0
Lifted references (ok changes) cs = (cs ≡ []) × Referring references changes
Lifted references (raise e) cs = cs ≡ []

pub signal_changes-Lifted :
    (references : Option (Uuid × Uuid)) (given : SignalChanges) (q : Result Fault SignalChanges)
    → signal_changes references given ≡ q
    → Lifted references q []
signal_changes-Lifted references given (ok changes) e =
    (refl, (signal_changes-Referring references given).passed changes e)
signal_changes-Lifted references given (raise f) e = refl

pub Changed-IsRead :
    (current : AlpacaEtfSignalJobConfiguration) (references : Option (Uuid × Uuid)) (cs : List Call)
    → Changed current (ok references) cs
    → All IsRead cs
Changed-IsRead current none cs h = rw h tt
Changed-IsRead current (some (universe, account)) cs (inl (same, h)) = rw h (refl, (refl, tt))
Changed-IsRead current (some (universe, account)) cs (inr (conflicts, free, h)) =
    rw h (refl, (refl, (refl, tt)))

pub Changed-References :
    (current : AlpacaEtfSignalJobConfiguration) (references : Option (Uuid × Uuid))
    (changes : SignalChanges) (cs : List Call)
    → Referring references changes
    → Changed current (ok references) cs
    → References current changes cs
Changed-References current none changes cs (u, a) h = inl (u, a, h)
Changed-References current (some (universe, account)) changes cs (u, a) h =
    inr (universe, account, u, a, h)

pub after_found :
    (uid : Uuid) (current : AlpacaEtfSignalJobConfiguration) (cs ds : List Call)
    → cs ≡ looked_up_signal uid (some (some current)) ∷ []
    → All IsRead ds
    → All IsRead (cs ++ ds)
after_found uid current cs ds e h = rw e (refl, h)

pub after_write :
    (uid : Uuid) (current found : AlpacaEtfSignalJobConfiguration)
    (references : Option (Uuid × Uuid)) (changes : SignalChanges) (cs ds gs hs : List Call)
    → cs ≡ looked_up_signal uid (some (some current)) ∷ []
    → Changed current (ok references) ds
    → Referring references changes
    → gs ≡ looked_up_signal current.uid (some (some found)) ∷ updated current.uid changes ∷ hs
    → All IsMetadata hs
    → Change uid (cs ++ (ds ++ gs))
after_write uid current found references changes cs ds gs hs e k m w h = record {
  current = current;
  found = found;
  changes = changes;
  reads = ds;
  rest = hs;
  references = Changed-References current references changes ds m k;
  others = h;
  trace = rw (e, w) refl;
}
