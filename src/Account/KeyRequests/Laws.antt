-- ===== src/Account/KeyRequests/Laws.antt =====
-- The life of a request of `src/alpaca_connectors/account/key_requests.py`: who may submit keys for
-- it, until when, and that its end is final.
use alpaca_connectors.Prelude.{
  ◌+◌, ◌<◌, ◌≤◌, ◌≡◌, ◌≢◌, refl, Bool-cases, String, Bool, true, false, Option, none, some, List,
  [], ◌∷◌, arith, All, select, leb, str_eq, eq_iff, eq_refl, Uuid, Option-cases, inl, inr,
}
use alpaca_connectors.Account.KeyRequests.{
  Time, KeyRequestAction, pending, is_pending, key_request_ttl, AccountKeyRequest, Outcome, ok,
  raise, RequestTable, TableLaws, effective_status, refuses_creation, new_request, pending_only,
  fitting_only, same_account, newest_first, insert_newest, environment_fits, account_fits,
  create_account_key_request, get_own_account_key_request, list_pending_account_key_requests,
  require_pending_account_key_request, cancel_account_key_request,
}

abbrev pub raised : {A : Type 0} → Outcome A → Bool
raised (ok a) = false
raised (raise e) = true

-- The request accepts keys at this time.
abbrev pub IsOpen : AccountKeyRequest → Time → Type 0
IsOpen r now = (r.status ≡ pending) × (now < r.expires_at)

-- The times of creation do not rise along the list.
abbrev pub IsNewestFirst : List AccountKeyRequest → Type 0
IsNewestFirst [] = Unit
IsNewestFirst (r ∷ []) = Unit
IsNewestFirst (r ∷ q ∷ qs) = (q.created_at ≤ r.created_at) × IsNewestFirst (q ∷ qs)

insert_newest-IsNewestFirst :
    (r : AccountKeyRequest) (rs : List AccountKeyRequest)
    → IsNewestFirst rs
    → IsNewestFirst (insert_newest r rs)
insert_newest-IsNewestFirst r [] h = tt
insert_newest-IsNewestFirst r (q ∷ []) h = ground arith
insert_newest-IsNewestFirst r (q ∷ p ∷ rs) h =
    ground (arith, insert_newest-IsNewestFirst r (p ∷ rs))

newest_first-IsNewestFirst : (rs : List AccountKeyRequest) → IsNewestFirst (newest_first rs)
unfolding newest_first
newest_first-IsNewestFirst [] = tt
newest_first-IsNewestFirst (r ∷ rs) =
    insert_newest-IsNewestFirst r _ (newest_first-IsNewestFirst rs)

insert_newest-All :
    (P : AccountKeyRequest → Type 0) (r : AccountKeyRequest) (rs : List AccountKeyRequest)
    → P r
    → All P rs
    → All P (insert_newest r rs)
insert_newest-All P r [] h k = (h, tt)
insert_newest-All P r (q ∷ rs) h k = ground (arith, insert_newest-All P r rs h)

-- A request that stands open is one that accepts keys.
newest-IsOpen :
    (now : Time) (rs : List AccountKeyRequest)
    → All (λ r. IsOpen r now) (newest_first (select (λ r. is_pending (effective_status r now)) rs))
unfolding newest_first effective_status
newest-IsOpen now [] = tt
newest-IsOpen now (r ∷ rs) = elim (Bool-cases (is_pending (effective_status r now))) [
  | inl e ↦ rw e (insert_newest-All (λ q. IsOpen q now) r _ (ground arith) (newest-IsOpen now rs))
  | inr e ↦ rw e (newest-IsOpen now rs)
]

same_account_refl : (account : Option String) → same_account account account ≡ true
same_account_refl none = refl
same_account_refl (some a) = eq_refl a

module _ (table : RequestTable) where
  -- The list shows only requests that are pending and not expired, the newest first.
  pub list_pending_account_key_requests-IsOpen :
      (requester : String) (now : Time) (s : table.Store)
      → let listed = list_pending_account_key_requests table requester now s in
        All (λ r. IsOpen r now) listed × IsNewestFirst listed
  unfolding list_pending_account_key_requests
  list_pending_account_key_requests-IsOpen requester now s =
      (newest-IsOpen now (table.filter_pending requester s), newest_first-IsNewestFirst _)

  -- If a submission is let through, the request exists, belongs to the person, is pending and not
  -- expired, and is for the action, for the environment that was asked for, and for a rotation the
  -- account.
  pub require_pending_account_key_request_sound :
      (uid : Uuid) (requester : String) (action : KeyRequestAction)
      (environment account : Option String) (now : Time) (s : table.Store) (r : AccountKeyRequest)
      → require_pending_account_key_request table uid requester action environment account now s
        ≡ ok r
      → (table.get_by_uid uid s ≡ some r)
        × (r.requester_uid ≡ requester)
        × IsOpen r now
        × (r.action ≡ action)
        × (environment_fits environment r ≡ true)
        × (account_fits action account r ≡ true)
  unfolding require_pending_account_key_request get_own_account_key_request effective_status
  require_pending_account_key_request_sound uid requester action environment account now s r h =
      elim (Option-cases (table.get_by_uid uid s)) [
        | inl e ↦ absurd (ground arith)
        | inr (q, e) ↦ ground (arith, eq_iff q.requester_uid requester)
      ]

  -- To another person, a request answers as one that does not exist: every read, check and
  -- cancellation gives the same for both, and a cancellation leaves the table as it is.
  pub foreign_request_hidden :
      (uid missing : Uuid) (requester : String) (s : table.Store) (r : AccountKeyRequest)
      → table.get_by_uid uid s ≡ some r
      → table.get_by_uid missing s ≡ none
      → r.requester_uid ≢ requester
      → (action : KeyRequestAction) (environment account : Option String) (now : Time)
      → (get_own_account_key_request table uid requester s
          ≡ get_own_account_key_request table missing requester s)
        × (require_pending_account_key_request table uid requester action environment account now s
            ≡ require_pending_account_key_request table missing requester action environment account
                now s)
        × (cancel_account_key_request table uid requester now s
            ≡ cancel_account_key_request table missing requester now s)
        × ((cancel_account_key_request table uid requester now s).1 ≡ s)
  unfolding get_own_account_key_request require_pending_account_key_request
      cancel_account_key_request
  foreign_request_hidden uid missing requester s r e m other action environment account now =
      rw (e, m)
        (elim (Bool-cases (str_eq r.requester_uid requester)) [
          | inl same ↦ absurd (other (ground (arith, eq_iff r.requester_uid requester)))
          | inr differs ↦ rw differs (refl, refl, refl, refl)
        ])

  -- No submission is let through, and a cancellation writes nothing.
  abbrev pub Refused :
      Uuid → String → KeyRequestAction → Option String → Option String → Time → table.Store → Type 0
  Refused uid requester action environment account now s =
      (raised
          (require_pending_account_key_request table uid requester action environment account now s)
        ≡ true)
      × (raised (cancel_account_key_request table uid requester now s).0 ≡ true)
      × ((cancel_account_key_request table uid requester now s).1 ≡ s)

  pub not_open-Refused :
      (uid : Uuid) (s : table.Store) (r : AccountKeyRequest) (requester : String)
      (action : KeyRequestAction) (environment account : Option String) (now : Time)
      → table.get_by_uid uid s ≡ some r
      → is_pending (effective_status r now) ≡ false
      → Refused uid requester action environment account now s
  unfolding get_own_account_key_request require_pending_account_key_request
      cancel_account_key_request
  not_open-Refused uid s r requester action environment account now e h =
      rw e (elim (Bool-cases (str_eq r.requester_uid requester)) [
        | inl same ↦ rw same (rw h (refl, refl, refl))
        | inr differs ↦ rw differs (refl, refl, refl)
      ])

  -- From its expiry on, a request is refused to everyone.
  pub expired_request-Refused :
      (uid : Uuid) (s : table.Store) (r : AccountKeyRequest)
      → table.get_by_uid uid s ≡ some r
      → (requester : String) (action : KeyRequestAction) (environment account : Option String)
        (now : Time)
      → r.expires_at ≤ now
      → Refused uid requester action environment account now s
  unfolding effective_status
  expired_request-Refused uid s r e requester action environment account now late =
      not_open-Refused uid s r requester action environment account now e (ground arith)

  -- A pending request fits its own action, environment and account.
  fits_itself :
      (r : AccountKeyRequest) (now : Time)
      → r.status ≡ pending
      → raised (
          fitting_only table r.action
            (some r.environment)
            r.account_uid
            (pending_only table now (ok r)))
        ≡ leb r.expires_at now
  unfolding effective_status
  fits_itself r now h = ground (arith, eq_refl r.environment, same_account_refl r.account_uid)

  module _ (laws : TableLaws table) where
    -- In a table that keeps its laws, a request whose values were accepted is let through for its own person, its action, environment and
    -- account until one hour has passed, and refused from then on.
    pub create_account_key_request_open :
        (requester : String) (action : KeyRequestAction) (environment : String)
        (name account : Option String) (created now : Time) (s : table.Store)
        → refuses_creation requester action environment account ≡ false
        → let (_, s') =
            create_account_key_request table requester action environment name account created s in
          raised (
            require_pending_account_key_request table
              (table.new_uid s)
              requester
              action
              (some environment)
              account
              now
              s')
          ≡ leb (created + key_request_ttl) now
    unfolding create_account_key_request require_pending_account_key_request
        get_own_account_key_request effective_status
    create_account_key_request_open requester action environment name account created now s h =
        rw h (
          rw
            (laws.get_create (new_request table requester action environment name account created s)
              s refl)
            (rw (eq_refl requester) (
              fits_itself (new_request table requester action environment name account created s)
                now refl)))
