-- ===== src/Account/KeyRequests/Life.antt =====
-- What the calls of `src/alpaca_connectors/account/key_requests.py` in any order do to a request: it
-- waits for keys until a time, and is closed at most once.
use alpaca_connectors.Prelude.{
  List, [], ◌∷◌, ◌+◌, ◌<◌, ◌≤◌, ◌≡◌, ◌≢◌, ◌⊎◌, refl, subst, Bool-cases, String, false, Option, none,
  some, arith, if◌then◌else◌, Uuid, Option-cases, inl, inr, ◌==◌,
}
use alpaca_connectors.Account.KeyRequests.{
  Time, KeyRequestAction, cancelled, is_pending, key_request_ttl, AccountKeyRequest,
  close_if_pending, Closing, Outcome, ok, raise, RequestTable, TableLaws, close_request,
  effective_status, refuses_creation, new_request, create_account_key_request,
  require_pending_account_key_request, complete_account_key_request, cancel_account_key_request,
}
use alpaca_connectors.Account.KeyRequests.Laws.{
  not_open-Refused, Refused, require_pending_account_key_request_sound,
}

-- What the platform documents of rows under other keys: a new key is unused, and a write leaves the
-- rows under other keys as they are and makes none.
pub record OtherRows (table : RequestTable) : Type 0 where
  pub new_key : (s : table.Store) → table.get_by_uid (table.new_uid s) s ≡ none
  pub create_other :
      (r : AccountKeyRequest) (s : table.Store) (uid : Uuid)
      → uid ≢ r.uid
      → table.get_by_uid uid (table.create r s) ≡ table.get_by_uid uid s
  pub update_other :
      (other : Uuid) (c : Closing) (s : table.Store) (uid : Uuid)
      → uid ≢ other
      → table.get_by_uid uid (table.update other c s) ≡ table.get_by_uid uid s
  pub update_none :
      (uid : Uuid) (c : Closing) (s : table.Store)
      → table.get_by_uid uid s ≡ none
      → table.get_by_uid uid (table.update uid c s) ≡ none

-- The life of a request, without its table: it waits until a time, or is closed.
pub data Phase : Type 0 where
  unknown closed : Phase
  waiting : Time → Phase

-- What a call at a time may do to a request.
pub data Moves : Time → Phase → Phase → Type 0 where
  stays : (now : Time) (p : Phase) → Moves now p p
  opens : (now : Time) → Moves now unknown (waiting (now + key_request_ttl))
  closes : (now until : Time) → Moves now (waiting until) closed

-- A life under calls at these times, the latest first.
pub data Life : List Time → Phase → Phase → Type 0 where
  begins : (p : Phase) → Life [] p p
  goes_on :
      {times : List Time} {p q r : Phase} {now : Time}
      → Life times p q
      → Moves now q r
      → Life (now ∷ times) p r

-- No keys are accepted any more at a time.
abbrev pub IsOver : Time → Phase → Type 0
IsOver now unknown = ⊥
IsOver now closed = Unit
IsOver now (waiting until) = until ≤ now

Moves-IsOver :
    {time : Time} {p q : Phase} (now : Time) → Moves time p q → IsOver now p → IsOver now q
Moves-IsOver now (stays time p) h = h
Moves-IsOver now (opens time) h = absurd h
Moves-IsOver now (closes time until) h = tt

Life-IsOver :
    {times : List Time} {p q : Phase} (now : Time) → Life times p q → IsOver now p → IsOver now q
Life-IsOver now (begins p) h = h
Life-IsOver now (goes_on life move) h = Moves-IsOver now move (Life-IsOver now life h)

uid_cases : (a b : Uuid) → (a ≡ b) ⊎ (a ≢ b)
uid_cases a b = elim (Bool-cases (a == b)) [
  | inl e ↦ inl (ground arith)
  | inr e ↦ inr (λ h. ground arith)
]

IsOver-later : (ended now : Time) (p : Phase) → ended ≤ now → IsOver ended p → IsOver now p
IsOver-later ended now unknown late h = h
IsOver-later ended now closed late h = tt
IsOver-later ended now (waiting until) late h = omega arith

abbrev pub phase_of : Option AccountKeyRequest → Phase
phase_of none = unknown
phase_of (some r) = if is_pending r.status then waiting r.expires_at else closed

module _ (table : RequestTable) where
  abbrev pub phase : Uuid → table.Store → Phase
  phase uid s = phase_of (table.get_by_uid uid s)

  -- A call at a time that may write: a creation, a completion or a cancellation, of whatever
  -- request.
  pub data Step : Time → table.Store → table.Store → Type 0 where
    creates :
        (requester : String) (action : KeyRequestAction) (environment : String)
        (name account : Option String) (now : Time) (s : table.Store)
        → Step now s
            (create_account_key_request table requester action environment name account now s).1
    completes :
        (uid : Uuid) (account : String) (now : Time) (s : table.Store)
        → Step now s (complete_account_key_request table uid account now s)
    cancels :
        (uid : Uuid) (requester : String) (now : Time) (s : table.Store)
        → Step now s (cancel_account_key_request table uid requester now s).1

  -- Calls at these times, the latest first.
  pub data Reaches : List Time → table.Store → table.Store → Type 0 where
    starts : (s : table.Store) → Reaches [] s s
    calls :
        {times : List Time} {now : Time} {s t u : table.Store}
        → Reaches times s t
        → Step now t u
        → Reaches (now ∷ times) s u

  close_store_cases :
      (uid : Uuid) (now : Time) (s : table.Store) (o : Outcome AccountKeyRequest)
      → ((close_if_pending table uid now o s).1 ≡ s)
        ⊎ ((close_if_pending table uid now o s).1
            ≡ table.update uid
                (record { status = cancelled; account_uid = none; completed_at = now })
                s)
  close_store_cases uid now s (ok r) = inr refl
  close_store_cases uid now s (raise e) = inl refl

  cancel_store_cases :
      (uid : Uuid) (requester : String) (now : Time) (s : table.Store)
      → ((cancel_account_key_request table uid requester now s).1 ≡ s)
        ⊎ ((cancel_account_key_request table uid requester now s).1
            ≡ table.update uid
                (record { status = cancelled; account_uid = none; completed_at = now })
                s)
  unfolding cancel_account_key_request
  cancel_store_cases uid requester now s = close_store_cases uid now s _

  module _ (laws : TableLaws table) (others : OtherRows table) where
    closing-Moves :
        (now : Time) (c : Closing) (o : Option AccountKeyRequest) (q : Option AccountKeyRequest)
        → is_pending c.status ≡ false
        → (o ≡ none → q ≡ none)
        → ((r : AccountKeyRequest) → o ≡ some r → q ≡ some (close_request c r))
        → Moves now (phase_of o) (phase_of q)
    closing-Moves now c none q h gone kept = rw (gone refl) (stays now unknown)
    closing-Moves now c (some r) q h gone kept =
        rw (kept r refl, h)
          (elim (Bool-cases (is_pending r.status)) [
            | inl e ↦ rw e (closes now r.expires_at)
            | inr e ↦ rw e (stays now closed)
          ])

    update-Moves :
        (now : Time) (other : Uuid) (c : Closing) (s : table.Store) (uid : Uuid)
        → is_pending c.status ≡ false
        → Moves now (phase uid s) (phase uid (table.update other c s))
    update-Moves now other c s uid h = elim (uid_cases uid other) [
      | inl e ↦ rw e (
          closing-Moves now c _ _ h (others.update_none other c s)
            (λ r found. laws.get_update other c s r found))
      | inr e ↦ rw (others.update_other other c s uid e) (stays now _)
    ]

    Step-Moves :
        {now : Time} {s t : table.Store} (uid : Uuid)
        → Step now s t
        → Moves now (phase uid s) (phase uid t)
    unfolding create_account_key_request complete_account_key_request
    Step-Moves uid (creates requester action environment name account now s) =
        elim (Bool-cases (refuses_creation requester action environment account)) [
          | inl e ↦ rw e (stays now _)
          | inr e ↦ rw e (elim (uid_cases uid (table.new_uid s)) [
            | inl same ↦
                rw
                  (
                    same,
                    others.new_key s,
                    laws.get_create
                        (new_request table requester action environment name account now s) s refl,
                  )
                  (opens now)
            | inr differs ↦
                rw
                  (others.create_other
                    (new_request table requester action environment name account now s) s uid
                    differs)
                  (stays now _)
          ])
        ]
    Step-Moves uid (completes other account now s) = update-Moves now other _ s uid refl
    Step-Moves uid (cancels other requester now s) =
        elim (cancel_store_cases other requester now s) [
          | inl e ↦ rw e (stays now _)
          | inr e ↦ rw e (update-Moves now other _ s uid refl)
        ]

    Reaches-Life :
        {times : List Time} {s t : table.Store} (uid : Uuid)
        → Reaches times s t
        → Life times (phase uid s) (phase uid t)
    Reaches-Life uid (starts s) = begins _
    Reaches-Life uid (calls path step) = goes_on (Reaches-Life uid path) (Step-Moves uid step)

    IsOver-Refused :
        (uid : Uuid) (s : table.Store) (requester : String) (action : KeyRequestAction)
        (environment account : Option String) (now : Time)
        → IsOver now (phase uid s)
        → Refused table uid requester action environment account now s
    unfolding effective_status
    IsOver-Refused uid s requester action environment account now h =
        elim (Option-cases (table.get_by_uid uid s)) [
          | inl e ↦ absurd (subst (λ o. IsOver now (phase_of o)) e h)
          | inr (r, e) ↦
              not_open-Refused table uid s r requester action environment account now e
                (over r (subst (λ o. IsOver now (phase_of o)) e h))
        ]
      where
        over :
            (r : AccountKeyRequest)
            → IsOver now (phase_of (some r))
            → is_pending (effective_status r now) ≡ false
        over r k = ground arith

    -- In a table that keeps its laws, whatever calls are made at whatever times and in whatever
    -- order, each call leaves a request as it is, or takes it from unknown to waiting until one hour
    -- after the time of that call, or from waiting to closed; and keys are let through only while it
    -- waits and before that hour is over.
    pub key_requests-Life :
        (times : List Time) (s t : table.Store)
        → Reaches times s t
        → (uid : Uuid)
        → Life times (phase uid s) (phase uid t)
          × ((requester : String) (action : KeyRequestAction) (environment account : Option String)
                (now : Time) (r : AccountKeyRequest)
              → require_pending_account_key_request table uid requester action environment account
                  now t
                ≡ ok r
              → (phase uid t ≡ waiting r.expires_at) × (now < r.expires_at))
    key_requests-Life times s t path uid = (
      Reaches-Life uid path,
      λ requester action environment account now r h.
          let (found, _, (status, soon), _, _, _) =
            require_pending_account_key_request_sound table uid requester action environment account
              now t r h in
          (rw (found, status) refl, soon),
    )

    -- In a table that keeps its laws, a request that is over at a time, closed or expired, is refused
    -- to everyone from then on, whatever calls are made in between.
    pub over_request-Refused :
        (times : List Time) (s t : table.Store) (uid : Uuid) (ended : Time)
        → Reaches times s t
        → IsOver ended (phase uid s)
        → (requester : String) (action : KeyRequestAction) (environment account : Option String)
          (now : Time)
        → ended ≤ now
        → Refused table uid requester action environment account now t
    over_request-Refused times s t uid ended path h requester action environment account now late =
        IsOver-Refused uid t requester action environment account now
          (IsOver-later ended now _ late (Life-IsOver ended (Reaches-Life uid path) h))
