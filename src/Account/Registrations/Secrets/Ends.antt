-- ===== src/Account/Registrations/Secrets/Ends.antt =====
-- How the deletion of Secrets in `src/alpaca_connectors/account/legacy_secrets.py` ends.
use alpaca_connectors.Prelude.{
  ◌≡◌, refl, ap, ◌⊎◌, inl, inr, String, true, false, Option, none, some, List, [], ◌∷◌, ◌++◌,
  starts_with, Bool-cases,
}
use alpaca_connectors.Actions.{Result, ok, raise, pure, ◌>>=◌}
use alpaca_connectors.Actions.Within.{
  Within, Within-bind, Within-tell, Within-if, Within-pure, within_rules,
}
use alpaca_connectors.Actions.Spec.{Spec, Spec-weaken, Spec-bind, Spec-pure, Spec-throw, Spec-tell}
use alpaca_connectors.Account.Credentials.{managed_secret_prefix, Fault, platform_error}
use alpaca_connectors.Account.Registrations.{
  AccountPlatform, SecretReply, secret_answer, not_found, access_error, other_error, Call,
  resolved_secret, deleted_secret,
}
use alpaca_connectors.Account.Registrations.Secrets.{
  LegacySecretReferences, SecretEnd, deleted, kept, not_deleted, is_managed, end_of,
  delete_resolved, delete_by, delete_secret, delete_legacy_managed_secrets,
}

abbrev pub AnyFault : Fault → Type 0
AnyFault _ = Unit

-- How the deletion of a Secret ends, by the platform's answer to it.
abbrev pub Answers : {A : Type 0} → String → SecretReply A → Result Fault SecretEnd → Type 0
Answers name (secret_answer _) r = r ≡ ok (deleted name)
Answers name not_found r = r ≡ ok (deleted name)
Answers name access_error r = r ≡ ok (not_deleted name)
Answers name other_error r = r ≡ raise platform_error

abbrev pub IsAnswer : {A : Type 0} → SecretReply A → Type 0
IsAnswer (secret_answer _) = Unit
IsAnswer _ = ⊥

-- The Secret with this UID was deleted once, and the end is what the answer to that says.
abbrev pub Deletes : String → String → Result Fault SecretEnd → List Call → Type 0
Deletes uid name r cs =
    (reply : SecretReply (Unit {0})) × (cs ≡ deleted_secret uid name reply ∷ [])
    × Answers name reply r

-- The Secret that a registration has the UID of, or else the one that the name was resolved to; if it
-- was resolved to none, the end is what the answer to that says.
abbrev pub Attempts : Option String → String → Result Fault SecretEnd → List Call → Type 0
Attempts (some uid) name r cs = Deletes uid name r cs
Attempts none name r cs =
    ((uid : String) × (rest : List Call) × (cs ≡ resolved_secret name (secret_answer uid) ∷ rest)
      × Deletes uid name r rest)
    ⊎ ((reply : SecretReply String) × (cs ≡ resolved_secret name reply ∷ [])
        × (IsAnswer reply → ⊥)
        × Answers name reply r)

-- One Secret: kept without a call if its name does not have the prefix of the application.
abbrev pub Treats : Option String → String → Result Fault SecretEnd → List Call → Type 0
Treats uid name r cs =
    ((starts_with name managed_secret_prefix ≡ false) × (r ≡ ok (kept name)) × (cs ≡ []))
    ⊎ ((starts_with name managed_secret_prefix ≡ true) × Attempts uid name r cs)

-- The two Secrets of a registration, one after the other; an exception ends it.
abbrev pub TreatsBoth : LegacySecretReferences → Result Fault (List SecretEnd) → List Call → Type 0
TreatsBoth references (ok ends) cs =
    (a b : SecretEnd) × (first second : List Call) × Treats references.api_key_secret_uid
      references.api_key_secret_name (ok a) first
    × Treats references.secret_key_secret_uid references.secret_key_secret_name (ok b) second
    × (ends ≡ a ∷ b ∷ [])
    × (cs ≡ first ++ second)
TreatsBoth references (raise e) cs =
    Treats references.api_key_secret_uid references.api_key_secret_name (raise e) cs
    ⊎ ((a : SecretEnd) × (first second : List Call) × Treats references.api_key_secret_uid
          references.api_key_secret_name (ok a) first
        × Treats references.secret_key_secret_uid references.secret_key_secret_name (raise e) second
        × (cs ≡ first ++ second))

abbrev pub Reports : LegacySecretReferences → Result Fault (List SecretEnd) → List Call → Type 0
Reports references r cs =
    ((is_managed references.credential_source ≡ false) × (r ≡ ok []) × (cs ≡ []))
    ⊎ ((is_managed references.credential_source ≡ true) × TreatsBoth references r cs)

-- A call whose answer is logged.
abbrev Told : {A : Type 0} → (A → Call) → Result Fault A → List Call → Type 0
Told c (ok a) cs = cs ≡ c a ∷ []
Told c (raise _) cs = ⊥

abbrev Quietly : {A : Type 0} → String → SecretReply A → Result Fault SecretEnd → List Call → Type 0
Quietly name reply r cs = Answers name reply r × (cs ≡ [])

append_nil : {A : Type 0} (xs : List A) → xs ++ [] ≡ xs
append_nil [] = refl
append_nil (x ∷ xs) = ap (◌∷◌ x) (append_nil xs)

module _ (platform : AccountPlatform) where
  end_of-Quietly :
      (name : String) (reply : SecretReply (Unit {0}))
      → Spec (Quietly name reply) (end_of platform name reply)
  end_of-Quietly name (secret_answer _) = Spec-pure _ (refl, refl)
  end_of-Quietly name not_found = Spec-pure _ (refl, refl)
  end_of-Quietly name access_error = Spec-pure _ (refl, refl)
  end_of-Quietly name other_error = Spec-throw _ (refl, refl)

  delete-Deletes :
      (uid name : String)
      → Spec (Deletes uid name) (delete_resolved platform name (secret_answer uid))
  delete-Deletes uid name =
      Spec-bind (Told (deleted_secret uid name)) _ _ (Spec-tell _ _ (λ _. refl))
        (λ reply cs e.
          Spec-weaken (Quietly name reply) _ (end_of-Quietly name reply)
            (λ r ds h. (reply, rw (e, h.1) refl, h.0)))
        (λ e cs never. absurd never)

  resolved-Attempts :
      (name : String) (reply : SecretReply String) (cs : List Call)
      → cs ≡ resolved_secret name reply ∷ []
      → Spec (λ r ds. Attempts none name r (cs ++ ds)) (delete_resolved platform name reply)
  resolved-Attempts name (secret_answer uid) cs e =
      Spec-weaken (Deletes uid name) _ (delete-Deletes uid name)
        (λ r ds h. inl (uid, ds, rw e refl, h))
  resolved-Attempts name not_found cs e = Spec-pure _ (inr (not_found, rw e refl, (λ h. h), refl))
  resolved-Attempts name access_error cs e =
      Spec-pure _ (inr (access_error, rw e refl, (λ h. h), refl))
  resolved-Attempts name other_error cs e =
      Spec-throw _ (inr (other_error, rw e refl, (λ h. h), refl))

  delete_by-Attempts :
      (uid : Option String) (name : String) → Spec (Attempts uid name) (delete_by platform uid name)
  delete_by-Attempts (some uid) name = delete-Deletes uid name
  delete_by-Attempts none name =
      Spec-bind (Told (resolved_secret name)) _ _ (Spec-tell _ _ (λ _. refl))
        (λ reply cs e. resolved-Attempts name reply cs e) (λ e cs never. absurd never)

  delete_secret-Treats :
      (uid : Option String) (name : String)
      → Spec (Treats uid name) (delete_secret platform uid name)
  unfolding delete_secret
  delete_secret-Treats uid name = elim (Bool-cases (starts_with name managed_secret_prefix)) [
    | inl own ↦
        rw own
          (Spec-weaken (Attempts uid name) _ (delete_by-Attempts uid name) (λ r cs h. inr (own, h)))
    | inr other ↦ rw other (Spec-pure _ (inl (other, refl, refl)))
  ]

  -- The deletion of the Secrets of a registration makes no call if the application does not manage
  -- them. Otherwise it treats the two in order: one without the prefix of the application is kept
  -- without a call; the other is deleted once, by the UID that the registration has or else the one
  -- that its name is resolved to, and is reported as deleted exactly if the platform has answered so
  -- or found none, and as not deleted if it has refused; another exception ends the deletion.
  pub delete_legacy_managed_secrets-Reports :
      (references : LegacySecretReferences) (s : platform.State)
      → let (r, cs, _) = delete_legacy_managed_secrets platform references s in
        Reports references r cs
  unfolding delete_legacy_managed_secrets
  delete_legacy_managed_secrets-Reports references s =
      (both (Bool-cases (is_managed references.credential_source))).at s
    where
      two : Spec (TreatsBoth references) (
          delete_secret platform references.api_key_secret_uid references.api_key_secret_name
          >>= λ a.
              delete_secret platform references.secret_key_secret_uid
                references.secret_key_secret_name
              >>= λ b. pure (a ∷ b ∷ []))
      two =
          Spec-bind (Treats references.api_key_secret_uid references.api_key_secret_name) _ _
            (delete_secret-Treats _ _)
            (λ a cs ha.
              Spec-bind (Treats references.secret_key_secret_uid references.secret_key_secret_name)
                _ _ (delete_secret-Treats _ _)
                (λ b ds hb.
                  Spec-pure _ (a, b, cs, ds, ha, hb, refl, ap (λ es. cs ++ es) (append_nil ds)))
                (λ e ds hb. inr (a, cs, ds, ha, hb, refl)))
            (λ e cs ha. inl ha)

      both :
          (is_managed references.credential_source ≡ true)
            ⊎ (is_managed references.credential_source ≡ false)
          → Spec (Reports references) (delete_legacy_managed_secrets platform references)
      both (inl h) = rw h (Spec-weaken _ _ two (λ r cs k. inr (h, k)))
      both (inr h) = rw h (Spec-pure [] (inl (h, refl, refl)))

module _ (platform : AccountPlatform) {P : Call → Type 0}
    (h : (name : String) (reply : SecretReply String) → P (resolved_secret name reply))
    (k : (uid name : String) (reply : SecretReply (Unit {0}))
      → P (deleted_secret uid name reply)) where
  end_of-Within :
      (name : String) (reply : SecretReply (Unit {0}))
      → Within P AnyFault (end_of platform name reply)
  end_of-Within name (secret_answer _) = search within_rules
  end_of-Within name not_found = search within_rules
  end_of-Within name access_error = search within_rules
  end_of-Within name other_error = search within_rules

  delete_resolved-Within :
      (name : String) (reply : SecretReply String)
      → Within P AnyFault (delete_resolved platform name reply)
  delete_resolved-Within name (secret_answer uid) =
      Within-bind _ _ (Within-tell _ _ (λ reply. k uid name reply))
        (λ reply. end_of-Within name reply)
  delete_resolved-Within name not_found = search within_rules
  delete_resolved-Within name access_error = search within_rules
  delete_resolved-Within name other_error = search within_rules

  delete_by-Within :
      (uid : Option String) (name : String) → Within P AnyFault (delete_by platform uid name)
  delete_by-Within (some uid) name = delete_resolved-Within name (secret_answer uid)
  delete_by-Within none name =
      Within-bind _ _ (Within-tell _ _ (λ reply. h name reply))
        (λ reply. delete_resolved-Within name reply)

  delete_secret-Within :
      (uid : Option String) (name : String) → Within P AnyFault (delete_secret platform uid name)
  unfolding delete_secret
  delete_secret-Within uid name = Within-if _ _ _ (Within-pure _) (delete_by-Within uid name)

  -- The deletions are the only calls.
  pub delete_legacy_managed_secrets-Within :
      (references : LegacySecretReferences)
      → Within P AnyFault (delete_legacy_managed_secrets platform references)
  unfolding delete_legacy_managed_secrets
  delete_legacy_managed_secrets-Within references = Within-if _ _ _ (Within-pure _) (
      Within-bind _ _ (delete_secret-Within _ _)
        (λ a. Within-bind _ _ (delete_secret-Within _ _) (λ b. Within-pure _)))
