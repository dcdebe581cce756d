-- ===== src/Account/Registrations/Secrets.antt =====
-- `src/alpaca_connectors/account/legacy_secrets.py`: the Secrets that a registration refers to.
pub mod Ends
use alpaca_connectors.Prelude.{
  ℕ, ◌+◌, ◌≡◌, refl, String, Bool, true, false, not, ◌&&◌, Option, none, some, List, [], ◌∷◌, ◌++◌,
  if◌then◌else◌, is_empty, starts_with, All, length, arith, Bool-cases, map,
}
use alpaca_connectors.Actions.{Result, ok, raise, pure, throw, ask, tell, ◌>>=◌}
use alpaca_connectors.Actions.Within.{Within, within_rules}
use alpaca_connectors.Actions.Spec.{
  Spec, Spec-weaken, Spec-bind, Spec-pure, Spec-throw, Spec-ask, Spec-tell,
}
use alpaca_connectors.Account.Credentials.{
  CredentialSource, managed, external, managed_secret_prefix, Fault, platform_error,
}
use alpaca_connectors.Account.Registrations.{
  AccountDetails, AccountPlatform, SecretReply, secret_answer, not_found, access_error, other_error,
  Call, resolved_secret, deleted_secret, Run,
}

-- `LegacySecretReferences`
pub record LegacySecretReferences : Type 0 where
  pub api_key_secret_name : String
  pub secret_key_secret_name : String
  pub api_key_secret_uid : Option String
  pub secret_key_secret_uid : Option String
  pub credential_source : CredentialSource

-- `value or None`, of a text.
abbrev filled : Option String → Option String
filled none = none
filled (some text) = if is_empty text then none else some text

abbrev source_or_external : Option CredentialSource → CredentialSource
source_or_external none = external
source_or_external (some source) = source

abbrev references_of :
    AccountDetails → Option String → Option String → Option LegacySecretReferences
references_of details (some api_key) (some secret_key) = some (record {
  api_key_secret_name = api_key;
  secret_key_secret_name = secret_key;
  api_key_secret_uid = filled details.api_key_secret_uid;
  secret_key_secret_uid = filled details.secret_key_secret_uid;
  credential_source = source_or_external details.credential_source;
})
references_of details _ _ = none

-- `legacy_secret_references`
unfoldable pub legacy_secret_references : AccountDetails → Option LegacySecretReferences
legacy_secret_references details =
    references_of details (filled details.api_key_secret_name)
      (filled details.secret_key_secret_name)

abbrev pub is_managed : CredentialSource → Bool
is_managed managed = true
is_managed _ = false

-- What becomes of one Secret, in place of the name in the list or the warning.
pub data SecretEnd : Type 0 where
  deleted kept not_deleted : String → SecretEnd

module _ (platform : AccountPlatform) where
  abbrev pub end_of : String → SecretReply (Unit {0}) → Run platform SecretEnd
  end_of name (secret_answer _) = pure (deleted name)
  end_of name not_found = pure (deleted name)
  end_of name access_error = pure (not_deleted name)
  end_of name other_error = throw platform_error

  -- `delete_platform_secret`, with its answer kept.
  abbrev destroy : String → String → Run platform (SecretReply Unit)
  destroy uid name = tell (deleted_secret uid name) (platform.delete_platform_secret uid name)

  abbrev pub delete_resolved : String → SecretReply String → Run platform SecretEnd
  delete_resolved name (secret_answer uid) = destroy uid name >>= end_of name
  delete_resolved name not_found = pure (deleted name)
  delete_resolved name access_error = pure (not_deleted name)
  delete_resolved name other_error = throw platform_error

  -- `secret_uid or resolve_platform_secret_uid(secret_name)`, and the deletion.
  abbrev pub delete_by : Option String → String → Run platform SecretEnd
  delete_by (some uid) name = delete_resolved name (secret_answer uid)
  delete_by none name =
      tell (resolved_secret name) (platform.resolve_platform_secret_uid name)
      >>= delete_resolved name

  -- The body of the loop of `delete_legacy_managed_secrets`.
  unfoldable pub delete_secret : Option String → String → Run platform SecretEnd
  delete_secret uid name =
      if not (starts_with name managed_secret_prefix) then pure (kept name) else delete_by uid name

  -- `delete_legacy_managed_secrets`; the two lists that it returns are one here, in its order.
  unfoldable pub delete_legacy_managed_secrets :
      LegacySecretReferences → Run platform (List SecretEnd)
  delete_legacy_managed_secrets references =
      if not (is_managed references.credential_source) then pure [] else do
        api_key ← delete_secret references.api_key_secret_uid references.api_key_secret_name
        secret_key ←
            delete_secret references.secret_key_secret_uid references.secret_key_secret_name
        pure (api_key ∷ secret_key ∷ [])
