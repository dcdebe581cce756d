-- ===== src/Account/Registrations/Changes.antt =====
-- `src/alpaca_connectors/account/services.py`: `get_account_registration`,
-- `update_account_registration` and `remove_account_registration`.
use alpaca_connectors.Prelude.{
  ℕ, String, Bool, true, false, not, ◌&&◌, Option, none, some, List, [], ◌∷◌, is_some, str_eq,
}
use alpaca_connectors.Actions.{
  pure, ask, tell, lift, or_raise, raise_if, try_ask, try_tell, ◌>>=◌, ◌>>◌,
}
use alpaca_connectors.Account.Credentials.{
  AlpacaSecretNames, ResolvedAlpacaCredentials, AlpacaCredentialInput, secret_names, resolved,
  stored_credential_values, resolve_credential_input, read_alpaca_account_or_reject, lookup_error,
  value_error, runtime_error, platform_error,
}
use alpaca_connectors.Account.Registrations.{
  MarketsAccount, AccountDetails, AccountPlatform, authenticated, updated_account, updated_listing,
  wrote_credentials, deleted_details, Run,
}
use alpaca_connectors.Account.Registrations.Secrets.{
  SecretEnd, LegacySecretReferences, legacy_secret_references, delete_legacy_managed_secrets,
}

-- `_registration_row` where both rows exist: the Account's identifier, name and flag, the rest of
-- the details.
pub record Registration : Type 0 where
  pub uid : String
  pub unique_identifier : String
  pub account_name : Option String
  pub account_is_active : Option Bool
  pub is_paper : Bool
  pub details : AccountDetails

unfoldable pub registration_row : MarketsAccount → AccountDetails → Registration
registration_row account details = record {
  uid = details.account_uid;
  unique_identifier = account.unique_identifier;
  account_name = account.account_name;
  account_is_active = account.account_is_active;
  is_paper = details.is_paper;
  details = details;
}

abbrev pub merged : Option MarketsAccount → List AccountDetails → Option Registration
merged none details = none
merged (some account) [] = none
merged (some account) (details ∷ _) = some (registration_row account details)

-- What a removal reports.
pub record Removal : Type 0 where
  pub account_uid : String
  pub retained_holdings_sets : ℕ
  pub secrets : List SecretEnd

-- `credential_values or credential_secret_names`
abbrev pub credential_input :
    Option ResolvedAlpacaCredentials → Option AlpacaSecretNames → Option AlpacaCredentialInput
credential_input (some values) names = some (resolved values)
credential_input none (some names) = some (secret_names names)
credential_input none none = none

abbrev pub is_empty_list : {A : Type 0} → List A → Bool
is_empty_list [] = true
is_empty_list (_ ∷ _) = false

module _ (platform : AccountPlatform) where
  -- `get_account_registration`
  unfoldable pub get_account_registration : String → Run platform (Option Registration)
  get_account_registration uid = do
    account ← try_ask platform_error (platform.account_by_uid uid)
    details ← try_ask platform_error (platform.details_of uid)
    pure (merged account details)

  -- `_require_registered_alpaca_account`
  unfoldable pub require_registered_alpaca_account :
      ResolvedAlpacaCredentials → Registration → Run platform (Unit {0})
  require_registered_alpaca_account credentials registration = do
    reply ←
        tell (authenticated credentials) (platform.read_account credentials registration.is_paper)
    candidate ← lift (read_alpaca_account_or_reject reply)
    raise_if (not (str_eq candidate.id registration.details.alpaca_account_id)) value_error

  -- `Account.update` and the copies of its name and flag on the details row.
  unfoldable pub write_account : String → Option String → Option Bool → Run platform (Unit {0})
  write_account uid name active = do
    account ←
        try_tell platform_error (λ _. updated_account uid name active)
          (platform.update_account uid name active)
    try_tell platform_error
        (λ _. updated_listing uid account.account_name account.account_is_active)
        (platform.update_listing uid account.account_name account.account_is_active)

  abbrev pub write_account_if : String → Option String → Option Bool → Run platform (Unit {0})
  write_account_if uid none none = pure tt
  write_account_if uid name active = write_account uid name active

  abbrev pub delete_referenced : Option LegacySecretReferences → Run platform (List SecretEnd)
  delete_referenced none = pure []
  delete_referenced (some references) = delete_legacy_managed_secrets platform references

  -- The rotation of the keys, if there are new ones.
  unfoldable pub rotate_keys :
      String → Registration → Option String → Option AlpacaCredentialInput → Run platform (Unit {0})
  rotate_keys uid current actor none = pure tt
  rotate_keys uid current actor (some input) = do
    (credentials, source) ← resolve_credential_input platform.read_platform_secret_value input
    require_registered_alpaca_account credentials current
    now ← ask platform.now
    values ←
        lift (stored_credential_values platform.api_key_fingerprint credentials source now actor)
    try_tell platform_error (λ _. wrote_credentials uid values)
        (platform.write_stored_credentials uid values)
    delete_referenced (legacy_secret_references current.details)
    pure tt

  -- `update_account_registration`
  unfoldable pub update_account_registration :
      String
      → Option String
      → Option ResolvedAlpacaCredentials
      → Option AlpacaSecretNames
      → Option Bool
      → Option String
      → Run platform Registration
  update_account_registration uid name values names active actor = do
    raise_if (is_some values && is_some names) value_error
    found ← get_account_registration uid
    current ← or_raise lookup_error found
    write_account_if uid name active
    rotate_keys uid current actor (credential_input values names)
    updated ← get_account_registration uid
    or_raise runtime_error updated

  -- `remove_account_registration`
  unfoldable pub remove_account_registration : String → Run platform Removal
  remove_account_registration uid = do
    found ← get_account_registration uid
    current ← or_raise lookup_error found
    signals ← try_ask platform_error (platform.signal_configurations_for_account uid)
    raise_if (not (is_empty_list signals)) value_error
    retained ← try_ask platform_error (platform.count_holdings_sets uid)
    try_tell platform_error (λ _. deleted_details uid) (platform.delete_details uid)
    try_tell platform_error (λ _. updated_account uid none (some false))
        (platform.update_account uid none (some false))
    secrets ← delete_referenced (legacy_secret_references current.details)
    pure (record { account_uid = uid; retained_holdings_sets = retained; secrets = secrets })
