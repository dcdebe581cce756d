-- ===== src/Account/Credentials.antt =====
-- `src/alpaca_connectors/account/credentials.py`: the keys of an account, from a person or from
-- Secrets, and the columns that hold them.
pub mod Laws
use alpaca_connectors.Prelude.{
  ℕ, zero, suc, ◌≡◌, String, Bool, true, false, not, ◌||◌, ◌&&◌, Option, none, some, List, [], ◌∷◌,
  if◌then◌else◌, is_empty, is_space, strip, str_eq, starts_with, leb, ◌==◌, text_length,
}
use alpaca_connectors.Actions.{
  Action, Result, ok, raise, pure, lift, raise_if, try_ask, ◌>>=◌, ◌>>◌,
}

-- The exceptions, in place of their text; `platform_error` is one that a call raises.
pub data Fault : Type 0 where
  lookup_error value_error runtime_error platform_error : Fault
  credentials_rejected credentials_missing stored_credential_error : Fault

-- CREDENTIAL_SOURCES
pub data CredentialSource : Type 0 where
  managed imported external : CredentialSource

abbrev pub managed_secret_prefix : String
managed_secret_prefix = "ALPACA_CONNECTORS__"

abbrev pub max_credential_value_length : ℕ
max_credential_value_length = 256

-- `any(character.isspace() for character in text)`
abbrev pub has_space : String → Bool
has_space String.[] = false
has_space (String.◌∷◌ c s) = is_space c || has_space s

-- The checks of a value that has been stripped: not empty, not too long, no white space.
abbrev pub is_accepted : ℕ → String → Bool
is_accepted limit value =
    not (is_empty value) && (leb (text_length value) limit && not (has_space value))

-- `normalize_secret_name`
unfoldable pub normalize_secret_name : String → Result Fault String
normalize_secret_name value =
    let normalized = strip value in
    if is_accepted 255 normalized then ok normalized else raise value_error

-- `AlpacaSecretNames`, of names that `__post_init__` has normalized.
pub record AlpacaSecretNames : Type 0 where
  pub api_key_secret_name : String
  pub secret_key_secret_name : String

abbrev pub pair_names : Result Fault String → Result Fault String → Result Fault AlpacaSecretNames
pair_names (raise e) other = raise e
pair_names (ok api_key) (raise e) = raise e
pair_names (ok api_key) (ok secret_key) =
    ok (record { api_key_secret_name = api_key; secret_key_secret_name = secret_key })

unfoldable pub alpaca_secret_names : String → String → Result Fault AlpacaSecretNames
alpaca_secret_names api_key secret_key =
    pair_names (normalize_secret_name api_key) (normalize_secret_name secret_key)

pub record ResolvedAlpacaCredentials : Type 0 where
  pub api_key : String
  pub secret_key : String

-- AlpacaCredentialInput
pub data AlpacaCredentialInput : Type 0 where
  secret_names : AlpacaSecretNames → AlpacaCredentialInput
  resolved : ResolvedAlpacaCredentials → AlpacaCredentialInput

-- `submitted_alpaca_credentials`
unfoldable pub submitted_alpaca_credentials :
    String → String → Result Fault ResolvedAlpacaCredentials
submitted_alpaca_credentials api_key secret_key =
    let api = strip api_key in
    let secret = strip secret_key in
    if not (is_accepted max_credential_value_length api)
    then raise value_error
    else if not (is_accepted max_credential_value_length secret)
    then raise value_error
    else if str_eq api secret
    then raise value_error
    else ok (record { api_key = api; secret_key = secret })

-- The columns that `stored_credential_values` sets. The four Secret references are set to NULL.
pub record StoredCredentials : Type 0 where
  pub api_key : String
  pub secret_key : String
  pub api_key_fingerprint : String
  pub credential_source : CredentialSource
  pub credentials_updated_at : ℕ
  pub credentials_updated_by_user_uid : Option String
  pub api_key_secret_name : Option String
  pub secret_key_secret_name : Option String
  pub api_key_secret_uid : Option String
  pub secret_key_secret_uid : Option String

abbrev pub is_external : CredentialSource → Bool
is_external external = true
is_external _ = false

-- `stored_credential_values`, with `api_key_fingerprint` given.
unfoldable pub stored_credential_values :
    (String → String)
    → ResolvedAlpacaCredentials
    → CredentialSource
    → ℕ
    → Option String
    → Result Fault StoredCredentials
stored_credential_values api_key_fingerprint credentials source updated_at actor =
    if is_external source
    then raise value_error
    else ok (record {
      api_key = credentials.api_key;
      secret_key = credentials.secret_key;
      api_key_fingerprint = api_key_fingerprint credentials.api_key;
      credential_source = source;
      credentials_updated_at = updated_at;
      credentials_updated_by_user_uid = actor;
      api_key_secret_name = none;
      secret_key_secret_name = none;
      api_key_secret_uid = none;
      secret_key_secret_uid = none;
    })

-- The two encrypted columns that `write_stored_credentials` stores, in the order in which
-- `read_registered_alpaca_credentials` selects them; the column type seals each value.
unfoldable pub sealed_columns :
    (String → String) → StoredCredentials → Option String × Option String
sealed_columns seal values = (some (seal values.api_key), some (seal values.secret_key))

-- What `_open_stored_value` calls: is this text an envelope, and what does the column type open it
-- to (`none` raises)?
pub record Sealing : Type 0 where
  pub is_envelope : String → Bool
  pub open_envelope : String → Option String

abbrev pub opened_or_fault : Option String → Result Fault String
opened_or_fault none = raise platform_error
opened_or_fault (some text) = if is_empty text then raise stored_credential_error else ok text

-- `_open_stored_value`
unfoldable pub open_stored_value : Sealing → Option String → Result Fault String
open_stored_value sealing none = raise credentials_missing
open_stored_value sealing (some value) =
    if not (sealing.is_envelope value)
    then raise stored_credential_error
    else opened_or_fault (sealing.open_envelope value)

abbrev pub pair_keys :
    Result Fault String → Result Fault String → Result Fault ResolvedAlpacaCredentials
pair_keys (raise e) other = raise e
pair_keys (ok api_key) (raise e) = raise e
pair_keys (ok api_key) (ok secret_key) = ok (record { api_key = api_key; secret_key = secret_key })

-- The part of `read_registered_alpaca_credentials` after the select: the two columns of the row.
unfoldable pub open_credentials :
    Sealing → Option (Option String × Option String) → Result Fault ResolvedAlpacaCredentials
open_credentials sealing none = raise lookup_error
open_credentials sealing (some (api_key, secret_key)) =
    pair_keys (open_stored_value sealing api_key) (open_stored_value sealing secret_key)

-- How a read of the Alpaca account ends: with an account, or with an `APIError`, whose status code
-- may be missing.
pub data AccountReply (A : Type 0) : Type 0 where
  account : A → AccountReply A
  api_error : Option ℕ → AccountReply A

-- `read_alpaca_account_or_reject`; another error is the client's own.
unfoldable pub read_alpaca_account_or_reject : {A : Type 0} → AccountReply A → Result Fault A
read_alpaca_account_or_reject (account a) = ok a
read_alpaca_account_or_reject (api_error none) = raise platform_error
read_alpaca_account_or_reject (api_error (some code)) =
    if code == 401 || code == 403 then raise credentials_rejected else raise platform_error

module _ {C S : Type 0} (read_platform_secret_value : String → S → Option String × S) where
  -- `import_alpaca_credentials_from_secrets`
  unfoldable pub import_alpaca_credentials_from_secrets :
      AlpacaSecretNames → Action Fault C S ResolvedAlpacaCredentials
  import_alpaca_credentials_from_secrets names = do
    raise_if (starts_with names.api_key_secret_name managed_secret_prefix) value_error
    raise_if (starts_with names.secret_key_secret_name managed_secret_prefix) value_error
    api_key ← try_ask platform_error (read_platform_secret_value names.api_key_secret_name)
    secret_key ← try_ask platform_error (read_platform_secret_value names.secret_key_secret_name)
    lift (submitted_alpaca_credentials api_key secret_key)

  -- `resolve_credential_input`
  unfoldable pub resolve_credential_input :
      AlpacaCredentialInput → Action Fault C S (ResolvedAlpacaCredentials × CredentialSource)
  resolve_credential_input (secret_names names) = do
    credentials ← import_alpaca_credentials_from_secrets names
    pure (credentials, imported)
  resolve_credential_input (resolved credentials) = pure (credentials, managed)
