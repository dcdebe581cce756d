-- ===== src/Execution/Services/Complete.antt =====
-- The placement of `src/alpaca_connectors/execution/services.py` loses no order: `placed` has one for
-- each record, under its client_order_id.
use alpaca_connectors.Prelude.{
  ◌+◌, ◌≤◌, ◌<◌, ◌≡◌, refl, ◌∙◌, ap, ap₂, String, true, Option, none, some, List, [], ◌∷◌, arith,
  is_some, lookup, lookup-insert, eq_iff, eq_refl, Option-cases, Bool-cases, leb, inl, inr,
}
use alpaca_connectors.Execution.Orders.Types.{Time, OrderRecord, AlpacaOrder}
use alpaca_connectors.Execution.Orders.Status.{order_record_from_alpaca}
use alpaca_connectors.Execution.Broker.{refresh}
use alpaca_connectors.Execution.Broker.Calls.{
  AllowsLookups, find_alpaca_order-Within, refresh-Within, wait_for_terminal-Within,
}
use alpaca_connectors.Execution.Broker.Identity.{
  record_ids, SameId, SameIds, place_order-id, refresh-ids,
}
use alpaca_connectors.Execution.Checks.{buys_of, sells_of}
use alpaca_connectors.Execution.Services.{
  Placed, put, put_all, look_up_all, place_all, get_all, settle_sells, place_pending, place_batch,
  sort_order,
}
use alpaca_connectors.Execution.Services.Calls.{place_all-Within}
use alpaca_connectors.Execution.Services.Once.{id_count, id_count-sides}
use alpaca_connectors.Execution.Services.Safety.{Anything}
use alpaca_connectors.Execution.Effects.{
  Call, Result, ok, raise, ExecutionDependencies, Action, Fault, key_error, out_of_fuel,
}
use alpaca_connectors.Execution.Effects.Spec.{Spec, Spec-bind, Spec-pure, Spec-weaken}
use alpaca_connectors.Execution.Effects.Within.{Within, Ends}

-- An exception other than a missing key and a loop cut short.
abbrev pub NotLost : Fault → Type 0
NotLost key_error = ⊥
NotLost out_of_fuel = ⊥
NotLost _ = Unit

-- The identifier has an order.
abbrev Has : Placed → String → Type 0
Has placed id = is_some (lookup id placed) ≡ true

-- Every order stands under its own identifier.
abbrev IsKeyed : Placed → Type 0
IsKeyed placed =
    (id : String) (r : OrderRecord) → lookup id placed ≡ some r → r.client_order_id ≡ id

abbrev IsCovered : Placed → List OrderRecord → Type 0
IsCovered placed rs = (id : String) → 1 ≤ id_count id rs → Has placed id

put-IsKeyed : (r : OrderRecord) (placed : Placed) → IsKeyed placed → IsKeyed (put r placed)
put-IsKeyed r placed h id q e =
    ground (arith, lookup-insert r.client_order_id id r placed, eq_iff r.client_order_id id, h id q)

put_all-IsKeyed :
    (rs : List OrderRecord) (placed : Placed) → IsKeyed placed → IsKeyed (put_all rs placed)
unfolding put_all
put_all-IsKeyed [] placed h = h
put_all-IsKeyed (r ∷ rs) placed h = put_all-IsKeyed rs (put r placed) (put-IsKeyed r placed h)

put_all-Has_old :
    (id : String) (rs : List OrderRecord) (placed : Placed)
    → Has placed id
    → Has (put_all rs placed) id
unfolding put_all
put_all-Has_old id [] placed h = h
put_all-Has_old id (r ∷ rs) placed h =
    put_all-Has_old id rs (put r placed)
      (ground (arith, lookup-insert r.client_order_id id r placed))

put_all-IsCovered : (rs : List OrderRecord) (placed : Placed) → IsCovered (put_all rs placed) rs
unfolding put_all
put_all-IsCovered [] placed id h = absurd (omega arith)
put_all-IsCovered (r ∷ rs) placed id h = ground (
  arith,
  lookup-insert r.client_order_id id r placed,
  put_all-Has_old id rs (put r placed),
  put_all-IsCovered rs (put r placed) id,
)

id_count-ids :
    (id : String) (rs qs : List OrderRecord)
    → record_ids rs ≡ record_ids qs
    → id_count id rs ≡ id_count id qs
id_count-ids id [] [] e = refl
id_count-ids id [] (q ∷ qs) e = cc
id_count-ids id (r ∷ rs) [] e = cc
id_count-ids id (r ∷ rs) (q ∷ qs) e =
    ground (arith, id_count-ids id rs qs, eq_iff r.client_order_id id, eq_iff q.client_order_id id)

abbrev pub AndNotLost : {A : Type 0} → (A → Type 0) → Result A → List Call → Type 0
AndNotLost Q (ok a) _ = Q a
AndNotLost Q (raise e) _ = NotLost e

forget_calls :
    {A : Type 0} (Q : A → Type 0) (r : Result A) (cs ds : List Call)
    → AndNotLost Q r cs
    → AndNotLost Q r ds
forget_calls Q (ok a) cs ds h = h
forget_calls Q (raise e) cs ds h = h

same_or_lost :
    (final records : List OrderRecord) (r : Result (List OrderRecord)) (cs ds : List Call)
    → record_ids final ≡ record_ids records
    → AndNotLost (λ out. record_ids out ≡ record_ids final) r cs
    → AndNotLost (λ out. record_ids out ≡ record_ids records) r ds
same_or_lost final records (ok out) cs ds h k = k ∙ h
same_or_lost final records (raise e) cs ds h k = k

or_end : {A : Type 0} (r : Result A) (cs : List Call) → Ends NotLost r → AndNotLost Anything r cs
or_end (ok a) cs h = tt
or_end (raise e) cs h = h

pub ended :
    {S A : Type 0} (m : Action S A) → Within Anything NotLost m → Spec (AndNotLost Anything) m
ended m h = record { at = λ s. or_end (m s).0 (m s).1 (h.ends s) }

module _ (deps : ExecutionDependencies) (ticks : 0 < deps.poll_interval) where
  get_all_complete :
      (placed : Placed) (rs : List OrderRecord)
      → IsKeyed placed
      → IsCovered placed rs
      → Spec (AndNotLost (λ out. record_ids out ≡ record_ids rs)) (get_all deps placed rs)
  unfolding get_all
  get_all_complete placed [] keyed covered = Spec-pure _ refl
  get_all_complete placed (r ∷ rs) keyed covered =
      elim (Option-cases (lookup r.client_order_id placed)) [
        | inl missing ↦
            absurd (ground (arith, covered r.client_order_id, eq_refl r.client_order_id))
        | inr (found, e) ↦ rw e (
            Spec-bind (AndNotLost (λ q. q ≡ found)) _ _ (Spec-pure _ refl)
              (λ q cs h.
                Spec-bind _ _ _
                  (get_all_complete placed rs keyed (λ id k. covered id (omega arith)))
                  (λ rest ds k. Spec-pure _ (
                    ap₂ ◌∷◌
                      (ap (λ (o : OrderRecord). o.client_order_id) h
                        ∙ keyed r.client_order_id found e)
                      k))
                  (λ x ds k. k))
              (λ x cs h. h))
      ]

  -- The operation keeps the identifiers and loses no order.
  with_NotLost :
      (rs : List OrderRecord) (m : Action deps.State (List OrderRecord))
      → Spec (SameIds rs) m
      → Within Anything NotLost m
      → Spec (AndNotLost (λ out. record_ids out ≡ record_ids rs)) m
  with_NotLost rs m h k = record { at = λ s. join (m s).0 (m s).1 (h.at s) (k.ends s) }
    where
      join :
          (r : Result (List OrderRecord)) (cs : List Call)
          → SameIds rs r cs
          → Ends NotLost r
          → AndNotLost (λ out. record_ids out ≡ record_ids rs) r cs
      join (ok out) cs h k = h
      join (raise e) cs h k = k

  lookups : AllowsLookups Anything NotLost
  lookups = ground arith

  refresh_complete :
      (rs : List OrderRecord)
      → Spec (AndNotLost (λ out. record_ids out ≡ record_ids rs)) (refresh deps rs)
  refresh_complete rs = with_NotLost rs _ (refresh-ids deps rs) (refresh-Within deps lookups rs)

  place_all-ids : (now : Time) (rs : List OrderRecord) → Spec (SameIds rs) (place_all deps now rs)
  unfolding place_all
  place_all-ids now [] = Spec-pure _ refl
  place_all-ids now (r ∷ rs) =
      Spec-bind (SameId r) _ _ (place_order-id deps now r)
        (λ r' cs h.
          Spec-bind (SameIds rs) _ _ (place_all-ids now rs) (λ rest ds k. Spec-pure _ (ap₂ ◌∷◌ h k))
            (λ e ds k. tt))
        (λ e cs h. tt)

  place_all_complete :
      (now : Time) (rs : List OrderRecord)
      → Spec (AndNotLost (λ out. record_ids out ≡ record_ids rs)) (place_all deps now rs)
  place_all_complete now rs =
      with_NotLost rs _ (place_all-ids now rs) (place_all-Within deps lookups (λ q. tt) now rs)

  -- Every record is held or pending.
  abbrev SharesOut : List OrderRecord → List OrderRecord × List OrderRecord → Type 0
  SharesOut rs (held, pending) =
      (id : String) → id_count id held + id_count id pending ≡ id_count id rs

  sort_order-SharesOut :
      (r : OrderRecord) (rs : List OrderRecord) (existing : Option AlpacaOrder)
      (held pending : List OrderRecord)
      → SharesOut rs (held, pending)
      → SharesOut (r ∷ rs) (sort_order r existing held pending)
  unfolding order_record_from_alpaca
  sort_order-SharesOut r rs none held pending h id = omega (arith, h id)
  sort_order-SharesOut r rs (some o) held pending h id = omega (arith, h id)

  look_up_all_complete :
      (rs : List OrderRecord) → Spec (AndNotLost (SharesOut rs)) (look_up_all deps rs)
  unfolding look_up_all
  look_up_all_complete [] = Spec-pure _ (λ id. omega arith)
  look_up_all_complete (r ∷ rs) =
      Spec-bind (AndNotLost Anything) _ _
        (ended _ (find_alpaca_order-Within deps lookups r.client_order_id))
        (λ existing cs h.
          Spec-bind (AndNotLost (SharesOut rs)) _ _ (look_up_all_complete rs)
            (λ sorted ds k. Spec-pure _ (sort_order-SharesOut r rs existing sorted.0 sorted.1 k))
            (λ e ds k. k))
        (λ e cs h. h)

  -- What the wait for the sells leaves.
  abbrev Grows : Placed → Placed → Type 0
  Grows old new = IsKeyed new × ((id : String) → Has old id → Has new id)

  settle_sells_complete :
      (sells buys : List OrderRecord) (placed : Placed)
      → IsKeyed placed
      → IsCovered placed sells
      → Spec (AndNotLost (Grows placed)) (settle_sells deps sells buys placed)
  unfolding settle_sells
  settle_sells_complete [] buys placed keyed covered = Spec-pure _ (keyed, λ id h. h)
  settle_sells_complete (_ ∷ _) [] placed keyed covered = Spec-pure _ (keyed, λ id h. h)
  settle_sells_complete (s ∷ sells) (_ ∷ _) placed keyed covered =
      Spec-bind _ _ _ (get_all_complete placed (s ∷ sells) keyed covered)
        (λ current cs h.
          Spec-bind (AndNotLost Anything) _ _
            (ended _ (wait_for_terminal-Within deps lookups tt ticks current))
            (λ settled ds k.
              Spec-pure _
                (put_all-IsKeyed settled placed keyed, λ id l. put_all-Has_old id settled placed l))
            (λ e ds k. k))
        (λ e cs h. h)

  -- The two sides and the orders that were held cover all records.
  covers_all :
      (records held pending sold bought : List OrderRecord) (settled : Placed)
      → SharesOut records (held, pending)
      → record_ids sold ≡ record_ids (sells_of pending)
      → record_ids bought ≡ record_ids (buys_of pending)
      → Grows (put_all sold (put_all held [])) settled
      → IsCovered (put_all bought settled) records
  covers_all records held pending sold bought settled shares same_sold same_bought grows id h =
      elim (Bool-cases (leb 1 (id_count id bought))) [
        | inl e ↦ put_all-IsCovered bought settled id (ground arith)
        | inr e ↦ put_all-Has_old id bought settled (
            grows.1 id (elim (Bool-cases (leb 1 (id_count id sold))) [
              | inl f ↦ put_all-IsCovered sold _ id (ground arith)
              | inr f ↦ put_all-Has_old id sold _ (
                  put_all-IsCovered held [] id (
                    ground (
                      arith,
                      shares id,
                      id_count-sides id pending,
                      id_count-ids id sold (sells_of pending) same_sold,
                      id_count-ids id bought (buys_of pending) same_bought,
                    )))
            ]))
      ]

  place_pending_complete :
      (now : Time) (records held pending : List OrderRecord)
      → SharesOut records (held, pending)
      → Spec
          (AndNotLost (λ out. record_ids out ≡ record_ids records))
          (place_pending deps now records (held, pending))
  unfolding place_pending
  place_pending_complete now records held pending shares =
      Spec-bind _ _ _ (place_all_complete now (sells_of pending))
        (λ sold cs h.
          Spec-bind _ _ _
            (settle_sells_complete (sells_of pending) (buys_of pending)
              (put_all sold (put_all held []))
              (put_all-IsKeyed sold _ (put_all-IsKeyed held [] (λ id r e. cc)))
              (λ id k.
                put_all-IsCovered sold _ id
                  (omega (arith, id_count-ids id sold (sells_of pending) h))))
            (λ settled ds k.
              Spec-bind _ _ _ (place_all_complete now (buys_of pending))
                (λ bought es l.
                  Spec-bind _ _ _
                    (get_all_complete (put_all bought settled) records
                      (put_all-IsKeyed bought settled k.0)
                      (covers_all records held pending sold bought settled shares h l k))
                    (λ final fs m.
                      Spec-weaken _ (refresh_complete final)
                        (λ r gs n. same_or_lost final records r gs _ m n))
                    (λ e fs m. m))
                (λ e es l. l))
            (λ e ds k. k))
        (λ e cs h. h)

  -- One record for each of those given, in their order; and no key is missing, no loop cut short.
  pub place_batch_complete :
      (now : Time) (records : List OrderRecord)
      → Spec
          (AndNotLost (λ out. record_ids out ≡ record_ids records))
          (place_batch deps now records)
  unfolding place_batch
  place_batch_complete now records =
      Spec-bind _ _ _ (look_up_all_complete records)
        (λ sorted cs h.
          Spec-weaken _ (place_pending_complete now records sorted.0 sorted.1 h)
            (λ r ds k. forget_calls _ r ds _ k))
        (λ e cs h. h)
