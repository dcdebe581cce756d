-- ===== src/Tests/Registrations.antt =====
-- A platform as `src/alpaca_connectors/account` uses it, and the theorems about keys and
-- registrations at inputs that meet their conditions.
use alpaca_connectors.Prelude.{
  ◌<>◌, false, ℕ, ◌≡◌, refl, sym, ap, String, true, Option, none, some, List, [], ◌∷◌, strip,
}
use alpaca_connectors.Actions.{ok}
use alpaca_connectors.Account.Credentials.{
  StoredCredentials, stored_credential_values, sealed_columns, is_external, managed,
  ResolvedAlpacaCredentials, submitted_alpaca_credentials, Sealing, open_credentials, account,
}
use alpaca_connectors.Account.Credentials.Laws.{open_credentials-sealed}
use alpaca_connectors.Account.Registrations.{
  MarketsAccount, AccountDetails, AccountPlatform, secret_answer,
}
use alpaca_connectors.Account.Registrations.Secrets.{
  LegacySecretReferences, delete_legacy_managed_secrets,
}
use alpaca_connectors.Account.Registrations.Secrets.Ends.{
  Reports, delete_legacy_managed_secrets-Reports,
}
use alpaca_connectors.Account.Registrations.Changes.{update_account_registration}
use alpaca_connectors.Account.Registrations.Guarded.{Guarded, update_account_registration-Guarded}

abbrev keys : ResolvedAlpacaCredentials
keys = record { api_key = "AK"; secret_key = "SK" }

are_accepted : submitted_alpaca_credentials " AK" "SK " ≡ ok keys
unfolding submitted_alpaca_credentials strip
are_accepted = refl

abbrev sealing : Sealing
sealing = record { is_envelope = λ text. true; open_envelope = λ text. some text }

abbrev stored : StoredCredentials
stored = record {
  api_key = "AK";
  secret_key = "SK";
  api_key_fingerprint = "AK!";
  credential_source = managed;
  credentials_updated_at = 5;
  credentials_updated_by_user_uid = some "ann";
  api_key_secret_name = none;
  secret_key_secret_name = none;
  api_key_secret_uid = none;
  secret_key_secret_uid = none;
}

are_stored : stored_credential_values (λ key. key <> "!") keys managed 5 (some "ann") ≡ ok stored
unfolding stored_credential_values
are_stored = refl

open_credentials-sealed_example :
    (open_credentials sealing (some (sealed_columns (λ text. text) stored))
      ≡ ok (record { api_key = strip " AK"; secret_key = strip "SK " }))
    × (stored.api_key_fingerprint ≡ strip " AK" <> "!")
    × (is_external managed ≡ false)
open_credentials-sealed_example =
    open_credentials-sealed sealing (λ text. text) (λ key. key <> "!") " AK" "SK " keys managed 5
      (some "ann") stored (λ text. (refl, refl)) are_accepted are_stored

abbrev details : AccountDetails
details = record {
  account_uid = "u";
  account_unique_identifier = some "alpaca-1";
  alpaca_account_id = "A1";
  is_paper = true;
  account_name = some "name";
  account_is_active = some true;
  credential_source = some managed;
  api_key_secret_name = some "ALPACA_CONNECTORS__KEY";
  secret_key_secret_name = some "ALPACA_CONNECTORS__SECRET";
  api_key_secret_uid = none;
  secret_key_secret_uid = some "s2";
}

abbrev markets_account : MarketsAccount
markets_account = record {
  uid = "u";
  unique_identifier = "alpaca-1";
  account_name = some "name";
  is_paper = true;
  account_is_active = some true;
}

abbrev platform : AccountPlatform
platform = record {
  State = ℕ;
  now = λ s. (s, s);
  api_key_fingerprint = λ text. text;
  account_by_uid = λ uid s. (some (some markets_account), s);
  details_of = λ uid s. (some (details ∷ []), s);
  update_account = λ uid name active s. (some markets_account, s);
  update_listing = λ uid name active s. (some tt, s);
  write_stored_credentials = λ uid values s. (some tt, s);
  delete_details = λ uid s. (some tt, s);
  count_holdings_sets = λ uid s. (some 3, s);
  signal_configurations_for_account = λ uid s. (some [], s);
  read_platform_secret_value = λ name s. (some name, s);
  resolve_platform_secret_uid = λ name s. (secret_answer "s1", s);
  delete_platform_secret = λ uid name s. (secret_answer tt, s);
  read_account = λ keys paper s. (account (record { id = "A1" }), s);
}

abbrev references : LegacySecretReferences
references = record {
  api_key_secret_name = "ALPACA_CONNECTORS__KEY";
  secret_key_secret_name = "ALPACA_CONNECTORS__SECRET";
  api_key_secret_uid = none;
  secret_key_secret_uid = some "s2";
  credential_source = managed;
}

delete_legacy_managed_secrets-Reports_example :
    let (r, cs, _) = delete_legacy_managed_secrets platform references 5 in Reports references r cs
delete_legacy_managed_secrets-Reports_example =
    delete_legacy_managed_secrets-Reports platform references 5

abbrev id_of : Option (List AccountDetails) → String
id_of (some (d ∷ ds)) = d.alpaca_account_id
id_of _ = ""

first_row :
    (t : ℕ) (d : AccountDetails) (ds : List AccountDetails)
    → (platform.details_of "u" t).0 ≡ some (d ∷ ds)
    → d.alpaca_account_id ≡ "A1"
first_row t d ds h = sym (ap id_of h)

update_account_registration-Guarded_example :
    Guarded "A1" none
      (update_account_registration platform "u" none (some keys) none none (some "ann") 5).1
update_account_registration-Guarded_example =
    update_account_registration-Guarded platform "A1" "u" none (some keys) none none (some "ann") 5
      first_row
