-- ===== src/Account/Registrations/Guarded.antt =====
-- That the changes of `src/alpaca_connectors/account/services.py` store keys only after they have
-- been tried, and that a removal is refused before it writes.
use alpaca_connectors.Prelude.{
  ◌≡◌, refl, sym, ap, ◌∙◌, subst, ℕ, String, Bool, true, false, not, Option, none, some, List, [],
  ◌∷◌, ◌++◌, All, if◌then◌else◌, arith, str_eq,
}
use alpaca_connectors.Actions.{
  Result, ok, raise, pure, lift, raise_if, or_raise, try_tell, ◌>>=◌, ◌>>◌,
}
use alpaca_connectors.Actions.Spec.{
  Spec, Spec-bind, Spec-pure, Spec-throw, Spec-weaken, Spec-try_tell, Spec-tell, Spec-lift,
  Spec-try_ask, Spec-try_ask_from,
}
use alpaca_connectors.Actions.Within.{
  Within, Ends, Within-bind, Within-raise_if, Within-pure, Within-ask, Within-or_raise,
  within_rules,
}
use alpaca_connectors.Account.Credentials.{
  CredentialSource, managed, imported, external, AlpacaSecretNames, ResolvedAlpacaCredentials,
  AlpacaCredentialInput, secret_names, resolved, StoredCredentials, stored_credential_values,
  resolve_credential_input, import_alpaca_credentials_from_secrets, read_alpaca_account_or_reject,
  AccountReply, account, api_error, Fault, platform_error, value_error, runtime_error, lookup_error,
}
use alpaca_connectors.Account.Registrations.{
  MarketsAccount, AccountDetails, AlpacaAccount, AccountPlatform, Call, authenticated,
  updated_account, updated_listing, wrote_credentials, deleted_details, resolved_secret,
  deleted_secret, Run,
}
use alpaca_connectors.Account.Registrations.Secrets.{
  LegacySecretReferences, legacy_secret_references,
}
use alpaca_connectors.Account.Registrations.Secrets.Ends.{
  AnyFault, delete_legacy_managed_secrets-Within,
}
use alpaca_connectors.Account.Registrations.Changes.{
  Registration, registration_row, merged, get_account_registration,
  require_registered_alpaca_account, write_account, write_account_if, delete_referenced,
  rotate_keys, credential_input, update_account_registration,
}

-- The keys are those that Alpaca has accepted for the account, and the references are cleared.
abbrev pub FromTried : Option ResolvedAlpacaCredentials → StoredCredentials → Type 0
FromTried none v = ⊥
FromTried (some c) v =
    (v.api_key ≡ c.api_key)
    × (v.secret_key ≡ c.secret_key)
    × (v.api_key_secret_name ≡ none)
    × (v.secret_key_secret_name ≡ none)
    × (v.api_key_secret_uid ≡ none)
    × (v.secret_key_secret_uid ≡ none)

abbrev accepted :
    String
    → ResolvedAlpacaCredentials
    → AccountReply AlpacaAccount
    → Option ResolvedAlpacaCredentials
accepted id c (account a) = if str_eq a.id id then some c else none
accepted id c (api_error _) = none

-- Keys that are written are the last that were tried, and gave the Alpaca account `id`.
unfoldable pub Guarded : String → Option ResolvedAlpacaCredentials → List Call → Type 0
Guarded id tried [] = Unit
Guarded id tried (authenticated c reply ∷ cs) = Guarded id (accepted id c reply) cs
Guarded id tried (wrote_credentials u v ∷ cs) = FromTried tried v × Guarded id tried cs
Guarded id tried (_ ∷ cs) = Guarded id tried cs

-- Neither a try of keys nor a write of keys.
abbrev pub NoKeys : Call → Type 0
NoKeys (authenticated _ _) = ⊥
NoKeys (wrote_credentials _ _) = ⊥
NoKeys _ = Unit

Guarded-after :
    (id : String) (tried : Option ResolvedAlpacaCredentials) (cs ds : List Call)
    → All NoKeys cs
    → Guarded id tried ds
    → Guarded id tried (cs ++ ds)
unfolding Guarded
Guarded-after id tried [] ds h g = g
Guarded-after id tried (authenticated c r ∷ cs) ds h g = absurd h.0
Guarded-after id tried (wrote_credentials u v ∷ cs) ds h g = absurd h.0
Guarded-after id tried (updated_account u n a ∷ cs) ds h g = Guarded-after id tried cs ds h.1 g
Guarded-after id tried (updated_listing u n a ∷ cs) ds h g = Guarded-after id tried cs ds h.1 g
Guarded-after id tried (deleted_details u ∷ cs) ds h g = Guarded-after id tried cs ds h.1 g
Guarded-after id tried (resolved_secret n a ∷ cs) ds h g = Guarded-after id tried cs ds h.1 g
Guarded-after id tried (deleted_secret u n a ∷ cs) ds h g = Guarded-after id tried cs ds h.1 g

Guarded-only :
    (id : String) (tried : Option ResolvedAlpacaCredentials) (cs : List Call)
    → All NoKeys cs
    → Guarded id tried cs
unfolding Guarded
Guarded-only id tried [] h = tt
Guarded-only id tried (authenticated c r ∷ cs) h = absurd h.0
Guarded-only id tried (wrote_credentials u v ∷ cs) h = absurd h.0
Guarded-only id tried (updated_account u n a ∷ cs) h = Guarded-only id tried cs h.1
Guarded-only id tried (updated_listing u n a ∷ cs) h = Guarded-only id tried cs h.1
Guarded-only id tried (deleted_details u ∷ cs) h = Guarded-only id tried cs h.1
Guarded-only id tried (resolved_secret n a ∷ cs) h = Guarded-only id tried cs h.1
Guarded-only id tried (deleted_secret u n a ∷ cs) h = Guarded-only id tried cs h.1

Guarded-before :
    (id : String) (tried : Option ResolvedAlpacaCredentials) (cs ds : List Call)
    → Guarded id tried cs
    → All NoKeys ds
    → Guarded id tried (cs ++ ds)
unfolding Guarded
Guarded-before id tried [] ds g h = Guarded-only id tried ds h
Guarded-before id tried (authenticated c r ∷ cs) ds g h =
    Guarded-before id (accepted id c r) cs ds g h
Guarded-before id tried (wrote_credentials u v ∷ cs) ds g h =
    (g.0, Guarded-before id tried cs ds g.1 h)
Guarded-before id tried (updated_account u n a ∷ cs) ds g h = Guarded-before id tried cs ds g h
Guarded-before id tried (updated_listing u n a ∷ cs) ds g h = Guarded-before id tried cs ds g h
Guarded-before id tried (deleted_details u ∷ cs) ds g h = Guarded-before id tried cs ds g h
Guarded-before id tried (resolved_secret n a ∷ cs) ds g h = Guarded-before id tried cs ds g h
Guarded-before id tried (deleted_secret u n a ∷ cs) ds g h = Guarded-before id tried cs ds g h

AnyFault-Ends : {A : Type 0} (r : Result Fault A) → Ends AnyFault r
AnyFault-Ends (ok _) = tt
AnyFault-Ends (raise _) = tt

-- The calls alone.
abbrev GuardedBy :
    String → Option ResolvedAlpacaCredentials → {A : Type 0} → Result Fault A → List Call → Type 0
GuardedBy id tried r cs = Guarded id tried cs

abbrev KeyFree : {A : Type 0} → Result Fault A → List Call → Type 0
KeyFree r cs = All NoKeys cs

-- The values are the keys, with the references cleared, and no call is made.
abbrev Stores : ResolvedAlpacaCredentials → Result Fault StoredCredentials → List Call → Type 0
Stores c (ok values) cs = (cs ≡ []) × FromTried (some c) values
Stores c (raise _) cs = cs ≡ []

abbrev Current : Option Registration → Result Fault Registration → List Call → Type 0
Current o (ok current) cs = (cs ≡ []) × (o ≡ some current)
Current o (raise _) cs = cs ≡ []

or_raise-Current :
    {S : Type 0} (o : Option Registration) → Spec {S = S} (Current o) (or_raise lookup_error o)
or_raise-Current none = Spec-throw _ refl
or_raise-Current (some current) = Spec-pure _ (refl, refl)

abbrev Replied :
    ResolvedAlpacaCredentials → Result Fault (AccountReply AlpacaAccount) → List Call → Type 0
Replied c (ok reply) cs = cs ≡ authenticated c reply ∷ []
Replied c (raise _) cs = ⊥

abbrev ReadAs : AccountReply AlpacaAccount → Result Fault AlpacaAccount → Type 0
ReadAs reply (ok a) = reply ≡ account a
ReadAs reply (raise _) = Unit

read_as :
    (reply : AccountReply AlpacaAccount) (q : Result Fault AlpacaAccount)
    → read_alpaca_account_or_reject reply ≡ q
    → ReadAs reply q
unfolding read_alpaca_account_or_reject
read_as (account a) (ok b) h = cc
read_as (api_error none) (ok b) h = cc
read_as (api_error (some code)) (ok b) h = ground arith
read_as reply (raise e) h = tt

-- The keys were tried once, and gave the account of the registration if no exception came.
abbrev Tries :
    ResolvedAlpacaCredentials → Registration → Result Fault (Unit {0}) → List Call → Type 0
Tries c current (ok _) cs =
    (a : AlpacaAccount) × (cs ≡ authenticated c (account a) ∷ [])
    × (str_eq a.id current.details.alpaca_account_id ≡ true)
Tries c current (raise _) cs =
    (reply : AccountReply AlpacaAccount) × (cs ≡ authenticated c reply ∷ [])

abbrev Quiet : {A : Type 0} → Result Fault A → List Call → Type 0
Quiet r cs = cs ≡ []

abbrev Rows : String → Result Fault (List AccountDetails) → List Call → Type 0
Rows id (ok rows) cs =
    (cs ≡ [])
    × ((d : AccountDetails) (ds : List AccountDetails) → rows ≡ d ∷ ds → d.alpaca_account_id ≡ id)
Rows id (raise _) cs = cs ≡ []

abbrev Found : String → Result Fault (Option Registration) → List Call → Type 0
Found id (ok o) cs =
    (cs ≡ []) × ((reg : Registration) → o ≡ some reg → reg.details.alpaca_account_id ≡ id)
Found id (raise _) cs = cs ≡ []

some_eq : {A : Type 0} (a b : A) → some a ≡ some b → a ≡ b
some_eq a b h = cc

module _ (platform : AccountPlatform) (id : String) where
  key_free : {A : Type 0} {m : Run platform A} → Within NoKeys AnyFault m → Spec KeyFree m
  key_free h = record { at = λ s. h.calls s }

  Guarded-step :
      {A B : Type 0} (tried : Option ResolvedAlpacaCredentials) (m : Run platform A)
      (f : A → Run platform B)
      → Within NoKeys AnyFault m
      → ((a : A) → Spec (GuardedBy id tried) (f a))
      → Spec (GuardedBy id tried) (m >>= f)
  Guarded-step tried m f h k =
      Spec-bind KeyFree m f (key_free h)
        (λ a cs free.
          Spec-weaken (GuardedBy id tried) (f a) (k a)
            (λ r ds g. Guarded-after id tried cs ds free g))
        (λ e cs free. Guarded-only id tried cs free)

  Guarded-last :
      {A : Type 0} (tried : Option ResolvedAlpacaCredentials) {m : Run platform A}
      → Within NoKeys AnyFault m
      → Spec (GuardedBy id tried) m
  Guarded-last tried h = record { at = λ s. Guarded-only id tried _ (h.calls s) }

  resolve-Within :
      (input : AlpacaCredentialInput)
      → Within {S = platform.State} NoKeys AnyFault
          (resolve_credential_input platform.read_platform_secret_value input)
  unfolding resolve_credential_input import_alpaca_credentials_from_secrets
  resolve-Within (secret_names names) = search (within_rules, AnyFault-Ends) depth 14
  resolve-Within (resolved c) = search within_rules

  delete_referenced-Within :
      (o : Option LegacySecretReferences) → Within NoKeys AnyFault (delete_referenced platform o)
  delete_referenced-Within none = search within_rules
  delete_referenced-Within (some references) =
      delete_legacy_managed_secrets-Within platform (λ name reply. tt) (λ uid name reply. tt)
        references

  get-Within : (uid : String) → Within NoKeys AnyFault (get_account_registration platform uid)
  unfolding get_account_registration
  get-Within uid = search within_rules depth 10

  write_account_if-Within :
      (uid : String) (name : Option String) (active : Option Bool)
      → Within NoKeys AnyFault (write_account_if platform uid name active)
  unfolding write_account
  write_account_if-Within uid none none = search within_rules
  write_account_if-Within uid (some name) active = search within_rules depth 12
  write_account_if-Within uid none (some active) = search within_rules depth 12

  rest_free :
      (o : Option LegacySecretReferences)
      → Within NoKeys AnyFault (delete_referenced platform o >> pure tt)
  rest_free o = Within-bind _ _ (delete_referenced-Within o) (λ _. Within-pure tt)

  stored-Stores :
      (c : ResolvedAlpacaCredentials) (source : CredentialSource) (now : ℕ) (actor : Option String)
      → Spec {S = platform.State}
          (Stores c)
          (lift (stored_credential_values platform.api_key_fingerprint c source now actor))
  unfolding stored_credential_values
  stored-Stores c external now actor = Spec-throw _ refl
  stored-Stores c managed now actor = Spec-pure _ (refl, (refl, refl, refl, refl, refl, refl))
  stored-Stores c imported now actor = Spec-pure _ (refl, (refl, refl, refl, refl, refl, refl))

  -- The last step of a rotation, after keys that gave the account.
  write_keys-Guarded :
      (uid : String) (current : Registration) (actor : Option String)
      (c : ResolvedAlpacaCredentials) (source : CredentialSource) (now : ℕ)
      → Spec (GuardedBy id (some c)) (
          lift (stored_credential_values platform.api_key_fingerprint c source now actor)
          >>= λ values.
              try_tell platform_error
                (λ _. wrote_credentials uid values)
                (platform.write_stored_credentials uid values)
              >> (delete_referenced platform (legacy_secret_references current.details) >> pure tt))
  unfolding Guarded
  write_keys-Guarded uid current actor c source now =
      Spec-bind (Stores c) _ _ (stored-Stores c source now actor)
        (λ values cs stores.
          Spec-bind (λ r ds. ds ≡ wrote_credentials uid values ∷ []) _ _
            (Spec-try_tell _ _ _ refl (λ _. refl))
            (λ _ ds wrote.
              Spec-weaken (GuardedBy id (some c)) _
                (Guarded-last (some c) (rest_free (legacy_secret_references current.details)))
                (λ r es g. rw (stores.0, wrote) (stores.1, g)))
            (λ e ds wrote. rw (stores.0, wrote) (stores.1, tt)))
        (λ e cs empty. rw empty tt)

  require-Tries :
      (c : ResolvedAlpacaCredentials) (current : Registration)
      → Spec (Tries c current) (require_registered_alpaca_account platform c current)
  unfolding require_registered_alpaca_account read_alpaca_account_or_reject
  require-Tries c current =
      Spec-bind (Replied c) _ _ (Spec-tell _ _ (λ reply. refl)) judged (λ e cs never. absurd never)
    where
      compared :
          (a : AlpacaAccount) (cs : List Call) (same : Bool)
          → cs ≡ authenticated c (account a) ∷ []
          → str_eq a.id current.details.alpaca_account_id ≡ same
          → Spec {S = platform.State}
              (λ r ds. Tries c current r (cs ++ ds))
              (raise_if (not same) value_error)
      compared a cs true e same = Spec-pure tt (a, rw e refl, same)
      compared a cs false e same = Spec-throw _ (account a, rw e refl)

      judged :
          (reply : AccountReply AlpacaAccount) (cs : List Call)
          → cs ≡ authenticated c reply ∷ []
          → Spec {S = platform.State}
              (λ r ds. Tries c current r (cs ++ ds))
              (lift (read_alpaca_account_or_reject reply) >>= λ candidate.
                raise_if (not (str_eq candidate.id current.details.alpaca_account_id)) value_error)
      judged reply cs e =
          Spec-bind (λ r ds. (ds ≡ []) × ReadAs reply r) _ _
            (Spec-lift _ (λ q h. (refl, read_as reply q h)))
            (λ a ds h.
              Spec-weaken _ _
                (compared a cs (str_eq a.id current.details.alpaca_account_id)
                  (e ∙ ap (λ q. authenticated c q ∷ []) h.1) refl)
                (λ r es k. rw h.0 k))
            (λ x ds h. (reply, rw (e, h.0) refl))

  rotate_keys-Guarded :
      (uid : String) (current : Registration) (actor : Option String)
      (input : Option AlpacaCredentialInput)
      → current.details.alpaca_account_id ≡ id
      → Spec (GuardedBy id none) (rotate_keys platform uid current actor input)
  unfolding rotate_keys Guarded
  rotate_keys-Guarded uid current actor none own = Spec-pure tt tt
  rotate_keys-Guarded uid current actor (some input) own =
      Guarded-step none _ _ (resolve-Within input) (λ (c, source).
        Spec-bind (Tries c current) _ _ (require-Tries c current)
          (λ _ cs tried.
            Spec-weaken (GuardedBy id (some c)) _
              (Guarded-step (some c) _ _ (Within-ask _)
                (λ now. write_keys-Guarded uid current actor c source now))
              (λ r ds g.
                rw tried.1
                  (subst (λ known. Guarded id known ds) (sym (known c tried.0 tried.2)) g)))
          (λ e cs tried. rw tried.1 tt))
    where
      known :
          (c : ResolvedAlpacaCredentials) (a : AlpacaAccount)
          → str_eq a.id current.details.alpaca_account_id ≡ true
          → accepted id c (account a) ≡ some c
      known c a same = rw (subst (λ x. str_eq a.id x ≡ true) own same) refl

  get-Of :
      (uid : String)
      → ((s : platform.State) (d : AccountDetails) (ds : List AccountDetails)
          → (platform.details_of uid s).0 ≡ some (d ∷ ds)
          → d.alpaca_account_id ≡ id)
      → Spec (Found id) (get_account_registration platform uid)
  unfolding get_account_registration registration_row
  get-Of uid own =
      Spec-bind Quiet _ _ (Spec-try_ask _ _ refl (λ _. refl))
        (λ o cs e.
          Spec-bind (Rows id) _ _
            (Spec-try_ask_from _ _ refl (λ s rows q. (refl, λ d ds h. own s d ds (q ∙ ap some h))))
            (λ rows ds h. Spec-pure _ (rw (e, h.0) refl, found_of o rows h.1))
            (λ x ds h. rw (e, h) refl))
        (λ x cs e. e)
    where
      found_of :
          (o : Option MarketsAccount) (rows : List AccountDetails)
          → ((d : AccountDetails) (ds : List AccountDetails)
              → rows ≡ d ∷ ds
              → d.alpaca_account_id ≡ id)
          → (reg : Registration) → merged o rows ≡ some reg
          → reg.details.alpaca_account_id ≡ id
      found_of none rows h reg e = cc
      found_of (some a) [] h reg e = cc
      found_of (some a) (d ∷ ds) h reg e =
          sym (ap (λ r. r.details.alpaca_account_id) (some_eq (registration_row a d) reg e))
          ∙ h d ds refl

  -- If the details of the registration name the Alpaca account `id` whenever they are read: keys that
  -- an update writes are the last that it has tried, they gave the account `id`, and the references to
  -- Secrets are cleared with them; however the update ends.
  pub update_account_registration-Guarded :
      (uid : String) (name : Option String) (values : Option ResolvedAlpacaCredentials)
      (names : Option AlpacaSecretNames) (active : Option Bool) (actor : Option String)
      (s : platform.State)
      → ((t : platform.State) (d : AccountDetails) (ds : List AccountDetails)
          → (platform.details_of uid t).0 ≡ some (d ∷ ds)
          → d.alpaca_account_id ≡ id)
      → Guarded id none
          (update_account_registration platform uid name values names active actor s).1
  unfolding update_account_registration Guarded
  update_account_registration-Guarded uid name values names active actor s own = updated.at s
    where
      changed :
          (current : Registration)
          → current.details.alpaca_account_id ≡ id
          → Spec (GuardedBy id none) (
              write_account_if platform uid name active
              >> (rotate_keys platform uid current actor (credential_input values names)
                  >> (get_account_registration platform uid >>= λ o. or_raise runtime_error o)))
      changed current e = Guarded-step none _ _ (write_account_if-Within uid name active) (λ _.
          Spec-bind (GuardedBy id none) _ _
            (rotate_keys-Guarded uid current actor (credential_input values names) e)
            (λ _ cs g.
              Spec-weaken KeyFree _
                (key_free (Within-bind _ _ (get-Within uid) (λ o. Within-or_raise _ o tt)))
                (λ r ds free. Guarded-before id none cs ds g free))
            (λ x cs g. g))

      updated :
          Spec
            (GuardedBy id none)
            (update_account_registration platform uid name values names active actor)
      updated = Guarded-step none _ _ (Within-raise_if _ _ tt) (λ _.
          Spec-bind (Found id) _ _ (get-Of uid own)
            (λ o cs found.
              Spec-bind (Current o) _ _ (or_raise-Current o)
                (λ current ds h.
                  Spec-weaken (GuardedBy id none) _ (changed current (found.1 current h.1))
                    (λ r es g. rw (found.0, h.0) g))
                (λ x ds e. rw (found.0, e) tt))
            (λ x cs e. rw e tt))
