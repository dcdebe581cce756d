-- ===== src/Account/Registrations.antt =====
-- `src/alpaca_connectors/account/services.py` and `legacy_secrets.py`: what the changes of a
-- registration touch. The tables, the Secrets and the Alpaca client are parameters over a hidden
-- state.
pub mod Secrets
pub mod Changes
pub mod Guarded
use alpaca_connectors.Prelude.{ℕ, String, Bool, Option, List}
use alpaca_connectors.Actions
use alpaca_connectors.Account.Credentials.{
  CredentialSource, ResolvedAlpacaCredentials, StoredCredentials, AccountReply, Fault, Sealing,
}

-- An Account of Markets.
pub record MarketsAccount : Type 0 where
  pub uid : String
  pub unique_identifier : String
  pub account_name : Option String
  pub is_paper : Bool
  pub account_is_active : Option Bool

-- A row of `AlpacaAccountDetails`, of the columns that the changes read.
pub record AccountDetails : Type 0 where
  pub account_uid : String
  pub account_unique_identifier : Option String
  pub alpaca_account_id : String
  pub is_paper : Bool
  pub account_name : Option String
  pub account_is_active : Option Bool
  pub credential_source : Option CredentialSource
  pub api_key_secret_name : Option String
  pub secret_key_secret_name : Option String
  pub api_key_secret_uid : Option String
  pub secret_key_secret_uid : Option String

-- What the client reads of an Alpaca account.
pub record AlpacaAccount : Type 0 where
  pub id : String

-- How a call for a Secret ends: `PlatformSecretNotFoundError` and `PlatformSecretAccessError` are
-- caught, another exception is not.
pub data SecretReply (A : Type 0) : Type 0 where
  secret_answer : A → SecretReply A
  not_found access_error other_error : SecretReply A

pub record AccountPlatform : Type 1 where
  pub State : Type 0
  pub now : State → ℕ × State
  pub api_key_fingerprint : String → String
  pub account_by_uid : String → State → Option (Option MarketsAccount) × State
  pub details_of : String → State → Option (List AccountDetails) × State
  pub update_account : String → Option String → Option Bool → State → Option MarketsAccount × State
  pub update_listing : String → Option String → Option Bool → State → Option (Unit {0}) × State
  pub write_stored_credentials : String → StoredCredentials → State → Option (Unit {0}) × State
  pub delete_details : String → State → Option (Unit {0}) × State
  pub count_holdings_sets : String → State → Option ℕ × State
  pub signal_configurations_for_account : String → State → Option (List String) × State
  pub read_platform_secret_value : String → State → Option String × State
  pub resolve_platform_secret_uid : String → State → SecretReply String × State
  pub delete_platform_secret : String → String → State → SecretReply (Unit {0}) × State
  pub read_account : ResolvedAlpacaCredentials → Bool → State → AccountReply AlpacaAccount × State

-- The calls of interest, in order: the Alpaca account that keys gave, if any, the writes, and the
-- Secrets that are resolved and deleted, by UID and name, with the answers. Other reads leave no entry.
pub data Call : Type 0 where
  authenticated : ResolvedAlpacaCredentials → AccountReply AlpacaAccount → Call
  updated_account : String → Option String → Option Bool → Call
  updated_listing : String → Option String → Option Bool → Call
  wrote_credentials : String → StoredCredentials → Call
  deleted_details : String → Call
  resolved_secret : String → SecretReply String → Call
  deleted_secret : String → String → SecretReply (Unit {0}) → Call

abbrev pub Run : AccountPlatform → Type 0 → Type 0
Run platform A = Actions.Action Fault Call platform.State A
