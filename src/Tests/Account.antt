-- ===== src/Tests/Account.antt =====
-- A table of requests as `src/alpaca_connectors/account/key_requests.py` uses it, and the theorems
-- about the requests at inputs that meet their conditions.
use alpaca_connectors.Prelude.{
  ◌+◌, ◌≡◌, ◌≢◌, ◌≤◌, ◌<◌, refl, sym, ap, String, true, false, Option, none, some, List, [], ◌∷◌,
  length, select, if◌then◌else◌, arith, All, leb, ◌==◌, str_eq, Uuid,
}
use alpaca_connectors.Account.KeyRequests.{
  Time, KeyRequestAction, rotate, pending, AccountKeyRequest, Closing, close_request, ok,
  RequestTable, TableLaws, key_request_ttl, refuses_creation, effective_status, environment_fits,
  account_fits, create_account_key_request, get_own_account_key_request,
  list_pending_account_key_requests, require_pending_account_key_request,
  complete_account_key_request, cancel_account_key_request,
}
use alpaca_connectors.Account.KeyRequests.Life.{
  waiting, Life, phase, OtherRows, Reaches, starts, calls, completes, cancels, key_requests-Life,
  over_request-Refused,
}
use alpaca_connectors.Account.KeyRequests.Laws.{
  raised, IsOpen, IsNewestFirst, Refused, require_pending_account_key_request_sound,
  foreign_request_hidden, create_account_key_request_open, list_pending_account_key_requests-IsOpen,
}

abbrev Rows : Type 0
Rows = List AccountKeyRequest

abbrev find_row : Uuid → Rows → Option AccountKeyRequest
find_row uid [] = none
find_row uid (r ∷ rs) = if r.uid == uid then some r else find_row uid rs

abbrev update_row : Uuid → Closing → Rows → Rows
update_row uid c [] = []
update_row uid c (r ∷ rs) = if r.uid == uid then close_request c r ∷ rs else r ∷ update_row uid c rs

abbrev table : RequestTable
table = record {
  Store = Rows;
  new_uid = length;
  create = λ r rows. r ∷ rows;
  get_by_uid = find_row;
  filter_pending = λ requester rows. select (λ r. str_eq r.requester_uid requester) rows;
  update = update_row;
}

find_update :
    (uid : Uuid) (c : Closing) (rows : Rows) (r : AccountKeyRequest)
    → find_row uid rows ≡ some r
    → find_row uid (update_row uid c rows) ≡ some (close_request c r)
find_update uid c [] r h = cc
find_update uid c (q ∷ rows) r h = ground (arith, find_update uid c rows r)

table_laws : TableLaws table
table_laws = record { get_create = λ r s h. ground arith; get_update = find_update }

abbrev request : AccountKeyRequest
request = record {
  uid = 7;
  requester_uid = "ann";
  action = rotate;
  account_name = none;
  environment = "paper";
  account_uid = some "account";
  status = pending;
  created_at = 100;
  expires_at = 3600000100;
  completed_at = none;
}

let_through :
    require_pending_account_key_request table 7 "ann" rotate
      (some "paper")
      (some "account")
      200
      (request ∷ [])
    ≡ ok request
unfolding require_pending_account_key_request get_own_account_key_request effective_status
let_through = refl

require_pending_account_key_request_sound_example :
    (find_row 7 (request ∷ []) ≡ some request)
    × (request.requester_uid ≡ "ann")
    × IsOpen request 200
    × (request.action ≡ rotate)
    × (environment_fits (some "paper") request ≡ true)
    × (account_fits rotate (some "account") request ≡ true)
require_pending_account_key_request_sound_example =
    require_pending_account_key_request_sound table 7 "ann" rotate (some "paper") (some "account")
      200 (request ∷ []) request let_through

different : true ≡ false → ⊥
different h = ground arith

foreign_request_hidden_example :
    (get_own_account_key_request table 7 "bob" (request ∷ [])
      ≡ get_own_account_key_request table 8 "bob" (request ∷ []))
    × (require_pending_account_key_request table 7 "bob" rotate none none 200 (request ∷ [])
        ≡ require_pending_account_key_request table 8 "bob" rotate none none 200 (request ∷ []))
    × (cancel_account_key_request table 7 "bob" 200 (request ∷ [])
        ≡ cancel_account_key_request table 8 "bob" 200 (request ∷ []))
    × ((cancel_account_key_request table 7 "bob" 200 (request ∷ [])).1 ≡ request ∷ [])
foreign_request_hidden_example =
    foreign_request_hidden table 7 8 "bob" (request ∷ []) request refl refl
      (λ e. different (sym (ap (λ name. str_eq name "bob") e))) rotate none none 200

is_valid : refuses_creation "ann" rotate "paper" (some "account") ≡ false
unfolding refuses_creation
is_valid = refl

create_account_key_request_open_example :
    let (_, s) =
      create_account_key_request table "ann" rotate "paper" none (some "account") 100 [] in
    raised (
      require_pending_account_key_request table 0 "ann" rotate
        (some "paper")
        (some "account")
        200
        s)
    ≡ leb (100 + key_request_ttl) 200
create_account_key_request_open_example =
    create_account_key_request_open table table_laws "ann" rotate "paper" none (some "account") 100
      200 [] is_valid

list_pending_account_key_requests-IsOpen_example :
    let listed = list_pending_account_key_requests table "ann" 200 (request ∷ []) in
    All (λ r. IsOpen r 200) listed × IsNewestFirst listed
list_pending_account_key_requests-IsOpen_example =
    list_pending_account_key_requests-IsOpen table "ann" 200 (request ∷ [])

-- A table whose new keys are above all others.
abbrev next_uid : Rows → Uuid
next_uid [] = 0
next_uid (r ∷ rows) = r.uid + next_uid rows + 1

abbrev growing_table : RequestTable
growing_table = record table { new_uid = next_uid }

find_above : (uid : Uuid) (rows : Rows) → next_uid rows ≤ uid → find_row uid rows ≡ none
find_above uid [] h = refl
find_above uid (r ∷ rows) h = ground (arith, find_above uid rows)

find_other :
    (other : Uuid) (c : Closing) (rows : Rows) (uid : Uuid)
    → uid ≢ other
    → find_row uid (update_row other c rows) ≡ find_row uid rows
find_other other c [] uid h = refl
find_other other c (r ∷ rows) uid h = ground (arith, find_other other c rows uid h)

find_none :
    (uid : Uuid) (c : Closing) (rows : Rows)
    → find_row uid rows ≡ none
    → find_row uid (update_row uid c rows) ≡ none
find_none uid c [] h = refl
find_none uid c (r ∷ rows) h = ground (arith, find_none uid c rows)

growing_laws : TableLaws growing_table
growing_laws = record { get_create = λ r s h. ground arith; get_update = find_update }

other_rows : OtherRows growing_table
other_rows = record {
  new_key = λ rows. find_above _ rows (omega arith);
  create_other = λ r rows uid h. ground arith;
  update_other = find_other;
  update_none = find_none;
}

-- Keys are accepted for the request, and then its person cancels another one.
abbrev path :
    Reaches growing_table
      (300 ∷ 200 ∷ [])
      (request ∷ [])
      (cancel_account_key_request growing_table 9 "ann" 300
        (complete_account_key_request growing_table 7 "account" 200 (request ∷ []))).1
path = calls (calls (starts _) (completes 7 "account" 200 _)) (cancels 9 "ann" 300 _)

abbrev later_rows : Rows
later_rows =
    (cancel_account_key_request growing_table 9 "ann" 300
      (complete_account_key_request growing_table 7 "account" 200 (request ∷ []))).1

key_requests-Life_example :
    Life (300 ∷ 200 ∷ []) (phase growing_table 7 (request ∷ [])) (phase growing_table 7 later_rows)
    × ((requester : String) (action : KeyRequestAction) (environment account : Option String)
          (now : Time) (r : AccountKeyRequest)
        → require_pending_account_key_request growing_table 7 requester action environment account
            now later_rows
          ≡ ok r
        → (phase growing_table 7 later_rows ≡ waiting r.expires_at) × (now < r.expires_at))
key_requests-Life_example =
    key_requests-Life growing_table growing_laws other_rows (300 ∷ 200 ∷ []) (request ∷ [])
      later_rows path 7

over_request-Refused_example : Refused growing_table 7 "ann" rotate none none 3600000200 later_rows
over_request-Refused_example =
    over_request-Refused growing_table growing_laws other_rows (300 ∷ 200 ∷ []) (request ∷ [])
      later_rows 7 3600000100 path (omega arith) "ann" rotate none none 3600000200 (omega arith)
