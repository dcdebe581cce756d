-- ===== src/Execution/Broker/Identity.antt =====
-- The broker operations of `src/alpaca_connectors/execution/services.py` return one record for each
-- that they are given, under the same client_order_id and in the same order.
use alpaca_connectors.Prelude.{
  ℕ, zero, suc, ◌+◌, ◌≡◌, refl, ◌∙◌, ap₂, String, ◌||◌, Option, none, some, List, [], ◌∷◌, all, leb,
  map, Bool-cases, inl, inr, arith,
}
use alpaca_connectors.Execution.Orders.Types.{Time, OrderRecord, AlpacaOrder, terminal}
use alpaca_connectors.Execution.Orders.Status.{order_record_from_alpaca, rejected_record}
use alpaca_connectors.Execution.Broker.{
  read_back, read_placement, place_order, reread, refresh_one, refresh, wait_from,
  wait_for_terminal, updated_from, held_or_refused, refused,
}
use alpaca_connectors.Execution.Effects.{
  Call, Result, ok, raise, Reply, answer, api_error, ApiError, ExecutionDependencies,
}
use alpaca_connectors.Execution.Effects.Spec.{
  Spec, Spec-bind, Spec-pure, Spec-throw, Spec-if, Spec-choice, Spec-weaken, Anyhow, Spec-any,
}

abbrev pub record_ids : List OrderRecord → List String
record_ids = map (λ r. r.client_order_id)

abbrev pub SameId : OrderRecord → Result OrderRecord → List Call → Type 0
SameId r (raise _) _ = Unit
SameId r (ok o) _ = o.client_order_id ≡ r.client_order_id

abbrev pub SameIds : List OrderRecord → Result (List OrderRecord) → List Call → Type 0
SameIds rs (raise _) _ = Unit
SameIds rs (ok os) _ = record_ids os ≡ record_ids rs

from_alpaca-id :
    (r : OrderRecord) (o : AlpacaOrder)
    → (order_record_from_alpaca r o).client_order_id ≡ r.client_order_id
unfolding order_record_from_alpaca
from_alpaca-id r o = refl

updated_from-id :
    (r : OrderRecord) (o : Option AlpacaOrder)
    → (updated_from r o).client_order_id ≡ r.client_order_id
updated_from-id r none = refl
updated_from-id r (some o) = from_alpaca-id r o

held_or_refused-id :
    (r : OrderRecord) (now : Time) (e : ApiError) (o : Option AlpacaOrder)
    → (held_or_refused r now e o).client_order_id ≡ r.client_order_id
unfolding rejected_record
held_or_refused-id r now e none = refl
held_or_refused-id r now e (some o) = from_alpaca-id r o

same_ids :
    (rs current : List OrderRecord) (r : Result (List OrderRecord)) (cs ds : List Call)
    → record_ids current ≡ record_ids rs
    → SameIds current r cs
    → SameIds rs r ds
same_ids rs current (ok os) cs ds h k = k ∙ h
same_ids rs current (raise _) cs ds h k = tt

module _ (deps : ExecutionDependencies) where
  reread-id : (r : OrderRecord) → Spec (SameId r) (reread deps r)
  unfolding reread
  reread-id r =
      Spec-bind Anyhow _ _ Spec-any (λ o cs h. Spec-pure _ (updated_from-id r o)) (λ e cs h. tt)

  refresh_one-id : (r : OrderRecord) → Spec (SameId r) (refresh_one deps r)
  unfolding refresh_one
  refresh_one-id r = elim (Bool-cases (refused r)) [
    | inl done ↦ rw done (Spec-pure _ refl)
    | inr open_order ↦ rw open_order (reread-id r)
  ]

  pub refresh-ids : (rs : List OrderRecord) → Spec (SameIds rs) (refresh deps rs)
  unfolding refresh
  refresh-ids [] = Spec-pure _ refl
  refresh-ids (r ∷ rs) =
      Spec-bind (SameId r) _ _ (refresh_one-id r)
        (λ r' cs h.
          Spec-bind (SameIds rs) _ _ (refresh-ids rs) (λ rest ds k. Spec-pure _ (ap₂ ◌∷◌ h k))
            (λ e ds k. tt))
        (λ e cs h. tt)

  read_back-id :
      (r : OrderRecord) (now : Time) (e : ApiError) → Spec (SameId r) (read_back deps r now e)
  unfolding read_back
  read_back-id r now e =
      Spec-bind Anyhow _ _ Spec-any (λ o cs h. Spec-pure _ (held_or_refused-id r now e o))
        (λ x cs h. tt)

  read_placement-id :
      (r : OrderRecord) (now : Time) (reply : Reply AlpacaOrder)
      → Spec (SameId r) (read_placement deps r now reply)
  unfolding read_placement
  read_placement-id r now (answer o) = Spec-pure _ (from_alpaca-id r o)
  read_placement-id r now (api_error e) =
      Spec-if _ _ _ (Spec-throw _ tt)
        (Spec-if _ _ _ (read_back-id r now e) (Spec-pure _ (held_or_refused-id r now e none)))

  pub place_order-id : (now : Time) (r : OrderRecord) → Spec (SameId r) (place_order deps now r)
  unfolding place_order
  place_order-id now r =
      Spec-bind Anyhow _ _ Spec-any
        (λ reply cs h. Spec-weaken _ (read_placement-id r now reply) (λ o ds k. ground arith))
        (λ e cs h. tt)

  -- So does the wait, whatever its fuel.
  wait_from-ids :
      (fuel waited : ℕ) (rs : List OrderRecord) → Spec (SameIds rs) (wait_from deps fuel waited rs)
  unfolding wait_from
  wait_from-ids zero waited rs = Spec-throw _ tt
  wait_from-ids (suc fuel) waited rs =
      Spec-bind (SameIds rs) _ _ (refresh-ids rs)
        (λ current cs h.
          Spec-choice (all terminal current || leb deps.settle_timeout waited) _ _ (Spec-pure _ h) (
            Spec-bind Anyhow _ _ Spec-any
              (λ _ ds k.
                Spec-weaken _ (wait_from-ids fuel (waited + deps.poll_interval) current)
                  (λ r es l. same_ids rs current r es _ h l))
              (λ e ds k. tt)))
        (λ e cs h. tt)

  pub wait_for_terminal-ids :
      (rs : List OrderRecord) → Spec (SameIds rs) (wait_for_terminal deps rs)
  unfolding wait_for_terminal
  wait_for_terminal-ids rs = wait_from-ids _ 0 rs
