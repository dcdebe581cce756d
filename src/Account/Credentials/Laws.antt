-- ===== src/Account/Credentials/Laws.antt =====
-- The keys that `src/alpaca_connectors/account/credentials.py` accepts, stores and opens.
use alpaca_connectors.Prelude.{
  ℕ, ◌≡◌, refl, sym, subst, ap, ◌∙◌, String, Bool, true, false, not, ◌||◌, ◌&&◌, Option, some,
  if◌then◌else◌, is_empty, is_space, strip, lstrip, rstrip, str_eq, leb, text_length,
}
use alpaca_connectors.Actions.{Result, ok, raise}
use alpaca_connectors.Account.Credentials.{
  has_space, is_accepted, max_credential_value_length, ResolvedAlpacaCredentials,
  submitted_alpaca_credentials, StoredCredentials, CredentialSource, managed, imported, external,
  is_external, stored_credential_values, sealed_columns, Sealing, open_stored_value,
  open_credentials, Fault, value_error,
}

or_false : (a b : Bool) → a || b ≡ false → (a ≡ false) × (b ≡ false)
or_false false b h = (refl, h)
or_false true b h = cc

rstrip_fixed : (s : String) → has_space s ≡ false → rstrip s ≡ s
unfolding rstrip
rstrip_fixed String.[] h = refl
rstrip_fixed (String.◌∷◌ c s) h =
    let (hc, hs) = or_false (is_space c) (has_space s) h in rw (hc, rstrip_fixed s hs) refl

lstrip_fixed : (s : String) → has_space s ≡ false → lstrip s ≡ s
unfolding lstrip
lstrip_fixed String.[] h = refl
lstrip_fixed (String.◌∷◌ c s) h = let (hc, hs) = or_false (is_space c) (has_space s) h in rw hc refl

strip_fixed : (s : String) → has_space s ≡ false → strip s ≡ s
unfolding strip
strip_fixed s h = ap rstrip (lstrip_fixed s h) ∙ rstrip_fixed s h

-- What the checks say of a key.
is_accepted-no_space :
    (limit : ℕ) (s : String)
    → is_accepted limit s ≡ true
    → (is_empty s ≡ false) × (has_space s ≡ false)
is_accepted-no_space limit s h = three (is_empty s) (leb (text_length s) limit) (has_space s) h
  where
    three : (a b c : Bool) → not a && (b && not c) ≡ true → (a ≡ false) × (c ≡ false)
    three false true false h = (refl, refl)
    three false true true h = cc
    three false false c h = cc
    three true b c h = cc

-- The keys are the stripped texts, and passed the checks.
record Accepted (a b : String) (c : ResolvedAlpacaCredentials) : Type 0 where
  api_key : strip a ≡ c.api_key
  secret_key : strip b ≡ c.secret_key
  api_accepted : is_accepted max_credential_value_length c.api_key ≡ true
  secret_accepted : is_accepted max_credential_value_length c.secret_key ≡ true
  apart : str_eq c.api_key c.secret_key ≡ false

ok_eq : {A : Type 0} (a b : A) → ◌≡◌ {A = Result Fault A} (ok a) (ok b) → a ≡ b
ok_eq a b h = cc

submitted-Accepted :
    (a b : String) (c : ResolvedAlpacaCredentials)
    → submitted_alpaca_credentials a b ≡ ok c
    → Accepted a b c
unfolding submitted_alpaca_credentials
submitted-Accepted a b c h = picked _ _ _ refl refl refl h
  where
    picked :
        (p q r : Bool)
        → is_accepted max_credential_value_length (strip a) ≡ p
        → is_accepted max_credential_value_length (strip b) ≡ q
        → str_eq (strip a) (strip b) ≡ r
        → ◌≡◌ {A = Result Fault ResolvedAlpacaCredentials}
            (if not p
              then raise value_error
              else if not q
              then raise value_error
              else if r
              then raise value_error
              else ok (record { api_key = strip a; secret_key = strip b }))
            (ok c)
        → Accepted a b c
    picked true true false hp hq hr h =
        subst (λ d. Accepted a b d) (ok_eq _ c h)
          (record {
            api_key = refl;
            secret_key = refl;
            api_accepted = hp;
            secret_accepted = hq;
            apart = hr;
          })
    picked true true true hp hq hr h = cc
    picked true false r hp hq hr h = cc
    picked false q r hp hq hr h = cc

-- Keys that were accepted are accepted again as they are: what a second validation gives is what the
-- first gave.
pub submitted_alpaca_credentials_again :
    (a b : String) (c : ResolvedAlpacaCredentials)
    → submitted_alpaca_credentials a b ≡ ok c
    → submitted_alpaca_credentials c.api_key c.secret_key ≡ ok c
unfolding submitted_alpaca_credentials
submitted_alpaca_credentials_again a b c h =
    let k = submitted-Accepted a b c h in
    let api =
      strip_fixed c.api_key
        (is_accepted-no_space max_credential_value_length c.api_key k.api_accepted).1 in
    let secret =
      strip_fixed c.secret_key
        (is_accepted-no_space max_credential_value_length c.secret_key k.secret_accepted).1 in
    rw (api, secret, k.api_accepted, k.secret_accepted, k.apart) refl

stored_eq :
    (fingerprint : String → String) (c : ResolvedAlpacaCredentials) (source : CredentialSource)
    (now : ℕ) (actor : Option String) (v : StoredCredentials)
    → stored_credential_values fingerprint c source now actor ≡ ok v
    → (v.api_key ≡ c.api_key)
      × (v.secret_key ≡ c.secret_key)
      × (v.api_key_fingerprint ≡ fingerprint c.api_key)
      × (is_external source ≡ false)
unfolding stored_credential_values
stored_eq fingerprint c managed now actor v h =
    let e = ok_eq _ v h in
    (
      sym (ap (λ x. x.api_key) e),
      sym (ap (λ x. x.secret_key) e),
      sym (ap (λ x. x.api_key_fingerprint) e),
      refl,
    )
stored_eq fingerprint c imported now actor v h =
    let e = ok_eq _ v h in
    (
      sym (ap (λ x. x.api_key) e),
      sym (ap (λ x. x.secret_key) e),
      sym (ap (λ x. x.api_key_fingerprint) e),
      refl,
    )
stored_eq fingerprint c external now actor v h = cc

-- Keys that were accepted and are stored, through columns whose sealed values are envelopes that open
-- to what was sealed, are read again as the texts that the person gave less the blanks around them, each in
-- its own column, with the fingerprint of the API key beside them; and they are not recorded as keys
-- kept in Secrets.
pub open_credentials-sealed :
    (sealing : Sealing) (seal fingerprint : String → String) (a b : String)
    (c : ResolvedAlpacaCredentials) (source : CredentialSource) (now : ℕ) (actor : Option String)
    (v : StoredCredentials)
    → ((text : String)
        → (sealing.is_envelope (seal text) ≡ true)
          × (sealing.open_envelope (seal text) ≡ some text))
    → submitted_alpaca_credentials a b ≡ ok c
    → stored_credential_values fingerprint c source now actor ≡ ok v
    → (open_credentials sealing (some (sealed_columns seal v))
        ≡ ok (record { api_key = strip a; secret_key = strip b }))
      × (v.api_key_fingerprint ≡ fingerprint (strip a))
      × (is_external source ≡ false)
unfolding open_credentials open_stored_value sealed_columns
open_credentials-sealed sealing seal fingerprint a b c source now actor v opens h stored =
    let k = submitted-Accepted a b c h in
    let api = (is_accepted-no_space max_credential_value_length c.api_key k.api_accepted).0 in
    let secret =
      (is_accepted-no_space max_credential_value_length c.secret_key k.secret_accepted).0 in
    let (va, vs, vf, internal) = stored_eq fingerprint c source now actor v stored in
    let oa = opens c.api_key in
    let ob = opens c.secret_key in
    (
      rw (va, vs, oa.0, oa.1, ob.0, ob.1, api, secret, k.api_key, k.secret_key) refl,
      rw (vf, k.api_key) refl,
      internal,
    )
