-- ===== src/Operations/SignalJobs/Changed.antt =====
-- An update of `src/alpaca_connectors/operations/signal_jobs.py`.
use alpaca_connectors.Prelude.{
  ◌≡◌, ◌⊎◌, inl, inr, refl, Bool, true, false, ◌||◌, Option, none, some, List, [], ◌∷◌, ◌++◌, All,
  Uuid, ◌==◌, arith, is_some, All-append,
}
use alpaca_connectors.Actions.{Result, ok, raise, pure, or_raise, raise_if, ◌>>=◌, ◌>>◌}
use alpaca_connectors.Actions.Spec.{
  Spec, Spec-bind, Spec-pure, Spec-throw, Spec-if, Spec-ask, Spec-lift, Spec-weaken, Spec-try_tell,
}
use alpaca_connectors.Portfolios.Checks.{Fault, lookup_error, value_error}
use alpaca_connectors.Operations.SignalJobs.{
  AlpacaEtfSignalJobConfiguration, SignalChanges, Call, looked_up_signals, looked_up_signal,
  updated, SignalPlatform, has_other, require_configuration, require_free_universe,
  changed_references, update_signal_job_configuration_row, ensure_signal_metadata,
  update_signal_job_configuration,
}
use alpaca_connectors.Operations.SignalJobs.Guarded.{
  IsRead, IsMetadata, BothActive, OnlyIf, Raises, Asked, Validated, Silent, validate-Validated,
  ensure-IsMetadata,
}
use alpaca_connectors.Operations.SignalJobs.References.{
  Free, Change, FreeStep, Changed, Found, Written, Referring, Lifted, signal_changes-Lifted,
  Changed-IsRead, after_found, after_write,
}

module _ (platform : SignalPlatform) where
  raise_if-Silent :
      (b : Bool) (e : Fault) → Spec {C = Call} {S = platform.State} Silent (raise_if b e)
  raise_if-Silent true e = Spec-throw e refl
  raise_if-Silent false e = Spec-pure tt refl

  require_configuration-Found : (uid : Uuid) → Spec (Found uid) (require_configuration platform uid)
  unfolding require_configuration
  require_configuration-Found uid =
      Spec-bind (Asked (looked_up_signal uid)) _ _ (Spec-try_tell _ _ _ refl (λ _. refl))
        (λ found cs e. answered found cs e) (λ e cs h. rw h (refl, tt))
    where
      answered :
          (found : Option AlpacaEtfSignalJobConfiguration) (cs : List Call)
          → cs ≡ looked_up_signal uid (some found) ∷ []
          → Spec {S = platform.State} (λ r ds. Found uid r (cs ++ ds)) (or_raise lookup_error found)
      answered none cs e = Spec-throw _ (rw e (refl, tt))
      answered (some row) cs e = Spec-pure _ (rw e refl)

  require_free-FreeStep :
      (current : AlpacaEtfSignalJobConfiguration) (universe : Uuid)
      → Spec (FreeStep current universe) (require_free_universe platform current universe)
  unfolding require_free_universe
  require_free-FreeStep current universe =
      Spec-if (universe == current.values.universe_uid) _ _
        (λ e. Spec-pure _ (inl (ground arith, refl)))
        (λ _.
          Spec-bind (Asked (looked_up_signals universe)) _ _ (Spec-try_tell _ _ _ refl (λ _. refl))
            (λ conflicts cs e. answered conflicts cs e _ refl) (λ e cs h. rw h (refl, tt)))
    where
      answered :
          (conflicts : List AlpacaEtfSignalJobConfiguration) (cs : List Call)
          → cs ≡ looked_up_signals universe (some conflicts) ∷ []
          → (b : Bool) → has_other current.uid conflicts ≡ b
          → Spec {S = platform.State}
              (λ r ds. FreeStep current universe r (cs ++ ds))
              (raise_if b value_error)
      answered conflicts cs e true h = Spec-throw _ (rw e (refl, tt))
      answered conflicts cs e false h = Spec-pure _ (inr (conflicts, h, rw e refl))

  update_row-Written :
      (uid : Uuid) (changes : SignalChanges)
      → Spec (Written uid changes) (update_signal_job_configuration_row platform uid changes)
  unfolding update_signal_job_configuration_row
  update_row-Written uid changes =
      Spec-bind (Found uid) _ _ (require_configuration-Found uid)
        (λ found cs e.
          Spec-bind Silent _ _ (Spec-ask _ (λ _. refl))
            (λ now ds k.
              Spec-try_tell _ _ _ (inr (found, rw (e, k) refl)) (λ _. inr (found, rw (e, k) refl)))
            (λ f ds k. inl (rw (e, k) (refl, tt), tt)))
        (λ f cs h. inl (h, tt))

  BothActive-Free :
      (current : AlpacaEtfSignalJobConfiguration) (universe account : Uuid) (cs ds : List Call)
      → BothActive universe account cs
      → FreeStep current universe (ok tt) ds
      → Free current universe account (cs ++ (ds ++ []))
  BothActive-Free current universe account cs ds e (inl (same, k)) = inl (same, rw (e, k) refl)
  BothActive-Free current universe account cs ds e (inr (conflicts, free, k)) =
      inr (conflicts, free, rw (e, k) refl)

  reads_after :
      (universe account : Uuid) (cs ds : List Call)
      → BothActive universe account cs
      → All IsRead ds
      → All IsRead (cs ++ ds)
  reads_after universe account cs ds e h = rw e (refl, (refl, h))

  references-Changed :
      (current : AlpacaEtfSignalJobConfiguration) (given : SignalChanges)
      → Spec (Changed current) (changed_references platform current given)
  unfolding changed_references
  references-Changed current given =
      Spec-if (is_some given.universe_uid || is_some given.account_uid) _ _
        (λ _.
          Spec-bind (Validated _ _) _ _ (validate-Validated platform _ _)
            (λ _ cs e.
              Spec-bind (FreeStep current _) _ _ (require_free-FreeStep current _)
                (λ _ ds k. Spec-pure _ (BothActive-Free current _ _ cs ds e k))
                (λ f ds k. reads_after _ _ cs ds e k))
            (λ f cs h. h))
        (λ _. Spec-pure _ refl)

  -- What the write and the metadata after it leave.
  abbrev WritesRow :
      Uuid → SignalChanges → Result Fault AlpacaEtfSignalJobConfiguration → List Call → Type 0
  WritesRow uid changes r cs =
      (All IsRead cs × Raises r)
      ⊎ ((found : AlpacaEtfSignalJobConfiguration) × (hs : List Call) × All IsMetadata hs
          × (cs ≡ looked_up_signal uid (some (some found)) ∷ updated uid changes ∷ hs))

  with_metadata :
      (uid : Uuid) (changes : SignalChanges) (row : AlpacaEtfSignalJobConfiguration)
      (r : Result Fault AlpacaEtfSignalJobConfiguration) (cs ds : List Call)
      → Written uid changes (ok row) cs
      → All IsMetadata ds
      → WritesRow uid changes r (cs ++ ds)
  with_metadata uid changes row r cs ds (inl (reads, raised)) h = absurd raised
  with_metadata uid changes row r cs ds (inr (found, e)) h = inr (found, ds, h, rw e refl)

  write_row-WritesRow :
      (uid : Uuid) (changes : SignalChanges)
      → Spec (WritesRow uid changes) (
          update_signal_job_configuration_row platform uid changes >>= λ row.
          ensure_signal_metadata platform row >> pure row)
  write_row-WritesRow uid changes =
      Spec-bind (Written uid changes) _ _ (update_row-Written uid changes)
        (λ row cs w.
          Spec-bind (λ r ds. All IsMetadata ds) _ _ (ensure-IsMetadata platform row)
            (λ _ ds k.
              Spec-pure row
                (with_metadata uid changes row (ok row) cs _ w (All-append _ ds [] k tt)))
            (λ f ds k. with_metadata uid changes row (raise f) cs ds w k))
        (λ f cs w. raised f cs w)
    where
      raised :
          (f : Fault) (cs : List Call)
          → Written uid changes (raise f) cs
          → WritesRow uid changes (raise f) cs
      raised f cs (inl h) = inl h
      raised f cs (inr (found, e)) = inr (found, [], tt, e)

  quiet :
      (uid : Uuid) (current : AlpacaEtfSignalJobConfiguration) (references : Option (Uuid × Uuid))
      (cs ds es : List Call)
      → cs ≡ looked_up_signal uid (some (some current)) ∷ []
      → Changed current (ok references) ds
      → es ≡ []
      → All IsRead (cs ++ (ds ++ es))
  quiet uid current references cs ds es e k l =
      after_found uid current cs _ e
        (All-append _ ds es (Changed-IsRead current references ds k) (rw l tt))

  joined :
      (uid : Uuid) (current : AlpacaEtfSignalJobConfiguration) (references : Option (Uuid × Uuid))
      (changes : SignalChanges) (r : Result Fault AlpacaEtfSignalJobConfiguration)
      (cs ds gs : List Call)
      → cs ≡ looked_up_signal uid (some (some current)) ∷ []
      → Changed current (ok references) ds
      → Referring references changes
      → WritesRow current.uid changes r gs
      → OnlyIf (Change uid) r (cs ++ (ds ++ gs))
  joined uid current references changes r cs ds gs e k m (inl (reads, raised)) = inl (
    after_found uid current cs _ e
        (All-append _ ds gs (Changed-IsRead current references ds k) reads),
    raised,
  )
  joined uid current references changes r cs ds gs e k m (inr (found, hs, h, w)) =
      inr (after_write uid current found references changes cs ds gs hs e k m w h)

  -- An update of a signal configuration writes at most one row, the one that was found, and changes
  -- its references only after the new ones were found active and the universe, if it is another, with
  -- no configuration but this one. Otherwise it has only read and raises.
  pub update_signal_job_configuration-Change :
      (uid : Uuid) (given : SignalChanges) (s : platform.State)
      → let (r, cs, _) = update_signal_job_configuration platform uid given s in
        OnlyIf (Change uid) r cs
  unfolding update_signal_job_configuration
  update_signal_job_configuration-Change uid given s = whole.at s
    where
      whole : Spec (OnlyIf (Change uid)) (update_signal_job_configuration platform uid given)
      whole =
          Spec-bind (Found uid) _ _ (require_configuration-Found uid)
            (λ current cs e.
              Spec-bind (Changed current) _ _ (references-Changed current given)
                (λ references ds k.
                  Spec-bind (Lifted references) _ _
                    (Spec-lift _ (signal_changes-Lifted references given))
                    (λ changes es (l, m).
                      Spec-bind Silent _ _ (raise_if-Silent _ value_error)
                        (λ _ fs n.
                          Spec-weaken (WritesRow current.uid changes) _
                            (write_row-WritesRow current.uid changes)
                            (λ r gs w.
                              rw (l, n) (joined uid current references changes r cs ds gs e k m w)))
                        (λ f fs n.
                          inl (quiet uid current references cs ds _ e k (rw (l, n) refl), tt)))
                    (λ f es l. inl (quiet uid current references cs ds es e k l, tt)))
                (λ f ds k. inl (after_found uid current cs ds e k, tt)))
            (λ f cs h. inl (h, tt))
