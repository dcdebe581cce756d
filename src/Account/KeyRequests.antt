-- ===== src/Account/KeyRequests.antt =====
-- `src/alpaca_connectors/account/key_requests.py`: the requests for a person to enter keys, and the
-- operations on them. The rows are kept by a table that is a parameter (`RequestTable`).
pub mod Laws
pub mod Life
use alpaca_connectors.Prelude.{
  ℕ, ◌+◌, ◌≡◌, String, Bool, true, false, not, ◌||◌, ◌&&◌, Option, none, some, List, [], ◌∷◌,
  if◌then◌else◌, is_empty, contains, select, leb, str_eq, Uuid,
}

-- Microseconds since the epoch, UTC.
abbrev pub Time : Type 0
Time = ℕ

-- KeyRequestAction
pub data KeyRequestAction : Type 0 where
  register rotate : KeyRequestAction

abbrev pub same_action : KeyRequestAction → KeyRequestAction → Bool
same_action register register = true
same_action rotate rotate = true
same_action _ _ = false

-- KeyRequestStatus; `expired` is never stored.
pub data KeyRequestStatus : Type 0 where
  pending completed cancelled expired : KeyRequestStatus

abbrev pub is_pending : KeyRequestStatus → Bool
is_pending pending = true
is_pending _ = false

-- KEY_REQUEST_TTL, one hour.
abbrev pub key_request_ttl : ℕ
key_request_ttl = 3600000000

abbrev pub alpaca_environments : List String
alpaca_environments = "paper" ∷ "live" ∷ []

-- `AccountKeyRequest`
pub record AccountKeyRequest : Type 0 where
  pub uid : Uuid
  pub requester_uid : String
  pub action : KeyRequestAction
  pub account_name : Option String
  pub environment : String
  pub account_uid : Option String
  pub status : KeyRequestStatus
  pub created_at : Time
  pub expires_at : Time
  pub completed_at : Option Time

-- The values that an update sets; the account only where it is given.
pub record Closing : Type 0 where
  pub status : KeyRequestStatus
  pub account_uid : Option String
  pub completed_at : Time

abbrev account_of : Option String → Option String → Option String
account_of none old = old
account_of (some uid) old = some uid

abbrev pub close_request : Closing → AccountKeyRequest → AccountKeyRequest
close_request c r = record r {
  status = c.status;
  account_uid = account_of c.account_uid r.account_uid;
  completed_at = some c.completed_at;
}

-- The exceptions, in place of their text.
pub data RequestFault : Type 0 where
  lookup_error : RequestFault
  value_error : RequestFault

pub data Outcome (A : Type 0) : Type 0 where
  ok : A → Outcome A
  raise : RequestFault → Outcome A

-- The row operations of the table, which the platform has.
pub record RequestTable : Type 1 where
  pub Store : Type 0
  pub new_uid : Store → Uuid
  pub create : AccountKeyRequest → Store → Store
  pub get_by_uid : Uuid → Store → Option AccountKeyRequest
  pub filter_pending : String → Store → List AccountKeyRequest
  pub update : Uuid → Closing → Store → Store

-- What they are documented to do: a row that is written is read back.
pub record TableLaws (table : RequestTable) : Type 0 where
  pub get_create :
      (r : AccountKeyRequest) (s : table.Store)
      → r.uid ≡ table.new_uid s
      → table.get_by_uid r.uid (table.create r s) ≡ some r
  pub get_update :
      (uid : Uuid) (c : Closing) (s : table.Store) (r : AccountKeyRequest)
      → table.get_by_uid uid s ≡ some r
      → table.get_by_uid uid (table.update uid c s) ≡ some (close_request c r)

-- `effective_status`
unfoldable pub effective_status : AccountKeyRequest → Time → KeyRequestStatus
effective_status request now =
    if is_pending request.status && leb request.expires_at now then expired else request.status

-- `not text`, of a text that may be None.
abbrev pub is_blank : Option String → Bool
is_blank none = true
is_blank (some text) = is_empty text

-- The guards of `create_account_key_request`; an action other than the two has no value here.
unfoldable pub refuses_creation : String → KeyRequestAction → String → Option String → Bool
refuses_creation requester register environment account =
    is_empty requester || (not (contains alpaca_environments environment) || not (is_blank account))
refuses_creation requester rotate environment account =
    is_empty requester || (not (contains alpaca_environments environment) || is_blank account)

-- Newest first; of two with the same time the one that stood first stays first, as `sorted` keeps
-- them with `reverse=True`.
abbrev pub insert_newest : AccountKeyRequest → List AccountKeyRequest → List AccountKeyRequest
insert_newest r [] = r ∷ []
insert_newest r (q ∷ qs) =
    if leb q.created_at r.created_at then r ∷ q ∷ qs else q ∷ insert_newest r qs

unfoldable pub newest_first : List AccountKeyRequest → List AccountKeyRequest
newest_first [] = []
newest_first (r ∷ rs) = insert_newest r (newest_first rs)

-- The environment is not asked for, or is that of the request.
abbrev pub environment_fits : Option String → AccountKeyRequest → Bool
environment_fits none r = true
environment_fits (some e) r = str_eq r.environment e

abbrev pub same_account : Option String → Option String → Bool
same_account none none = true
same_account (some a) (some b) = str_eq a b
same_account _ _ = false

-- A rotation names the account of the request.
abbrev pub account_fits : KeyRequestAction → Option String → AccountKeyRequest → Bool
account_fits register account r = true
account_fits rotate account r = same_account r.account_uid account

module _ (table : RequestTable) where
  open table use {Store}

  -- The row of a new request.
  abbrev pub new_request :
      String
      → KeyRequestAction
      → String
      → Option String
      → Option String
      → Time
      → Store
      → AccountKeyRequest
  new_request requester action environment name account now s = record {
    uid = table.new_uid s;
    requester_uid = requester;
    action = action;
    account_name = name;
    environment = environment;
    account_uid = account;
    status = pending;
    created_at = now;
    expires_at = now + key_request_ttl;
    completed_at = none;
  }

  -- `create_account_key_request`
  unfoldable pub create_account_key_request :
      String
      → KeyRequestAction
      → String
      → Option String
      → Option String
      → Time
      → Store
      → Outcome AccountKeyRequest × Store
  create_account_key_request requester action environment name account now s =
      if refuses_creation requester action environment account
      then (raise value_error, s)
      else (let r = new_request requester action environment name account now s in
          (ok r, table.create r s))

  abbrev pub own_request : String → Option AccountKeyRequest → Outcome AccountKeyRequest
  own_request requester none = raise lookup_error
  own_request requester (some r) =
      if str_eq r.requester_uid requester then ok r else raise lookup_error

  -- `get_own_account_key_request`
  unfoldable pub get_own_account_key_request : Uuid → String → Store → Outcome AccountKeyRequest
  get_own_account_key_request uid requester s = own_request requester (table.get_by_uid uid s)

  -- `list_pending_account_key_requests`
  unfoldable pub list_pending_account_key_requests : String → Time → Store → List AccountKeyRequest
  list_pending_account_key_requests requester now s =
      newest_first
        (select (λ r. is_pending (effective_status r now)) (table.filter_pending requester s))

  abbrev pub pending_only : Time → Outcome AccountKeyRequest → Outcome AccountKeyRequest
  pending_only now (raise e) = raise e
  pending_only now (ok r) = if is_pending (effective_status r now) then ok r else raise value_error

  abbrev pub fitting_only :
      KeyRequestAction
      → Option String
      → Option String
      → Outcome AccountKeyRequest
      → Outcome AccountKeyRequest
  fitting_only action environment account (raise e) = raise e
  fitting_only action environment account (ok r) =
      if not (same_action r.action action)
      then raise value_error
      else if not (environment_fits environment r)
      then raise value_error
      else if not (account_fits action account r)
      then raise value_error
      else ok r

  -- `require_pending_account_key_request`
  unfoldable pub require_pending_account_key_request :
      Uuid
      → String
      → KeyRequestAction
      → Option String
      → Option String
      → Time
      → Store
      → Outcome AccountKeyRequest
  require_pending_account_key_request uid requester action environment account now s =
      fitting_only action environment account
        (pending_only now (get_own_account_key_request uid requester s))

  -- `complete_account_key_request`
  unfoldable pub complete_account_key_request : Uuid → String → Time → Store → Store
  complete_account_key_request uid account now s =
      table.update uid
        (record { status = completed; account_uid = some account; completed_at = now }) s

  -- `cancel_account_key_request`
  abbrev close_if_pending :
      Uuid → Time → Outcome AccountKeyRequest → Store → Outcome (Unit {0}) × Store
  close_if_pending uid now (raise e) s = (raise e, s)
  close_if_pending uid now (ok r) s = (
    ok tt,
    table.update uid (record { status = cancelled; account_uid = none; completed_at = now }) s,
  )

  unfoldable pub cancel_account_key_request :
      Uuid → String → Time → Store → Outcome (Unit {0}) × Store
  cancel_account_key_request uid requester now s =
      close_if_pending uid now (pending_only now (get_own_account_key_request uid requester s)) s
