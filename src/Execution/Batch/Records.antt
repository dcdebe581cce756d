-- ===== src/Execution/Batch/Records.antt =====
-- What a batch that passes the pre-trade checks of `src/alpaca_connectors/execution/services.py` is
-- like: one record for each leg, and no client_order_id twice.
use alpaca_connectors.Prelude.{
  ℕ, ◌+◌, ◌≤◌, ◌≡◌, refl, String, Option, none, some, List, [], ◌∷◌, ◌++◌, map, if◌then◌else◌,
  str_eq, eq_iff, contains, arith, ap₂, Dict, Uuid,
}
use alpaca_connectors.Execution.Orders.Types.{
  OrderRecord, OrderLegSpec, OrderBatchSubmission, PreTradeCheck, from_leg,
}
use alpaca_connectors.Execution.Broker.Identity.{record_ids}
use alpaca_connectors.Execution.Checks.{validate_legs, resolve_legs, resolve_leg, asset_ids}
use alpaca_connectors.Execution.Batch.{check_batch, finish_checks, resolve_assets, Checked}
use alpaca_connectors.Execution.Effects.{
  Result, ok, raise, Registration, AlpacaAsset, AlpacaAccount, Warning, ExecutionDependencies,
}
use alpaca_connectors.Execution.Effects.Spec.{Spec, Spec-bind, Spec-pure, Anyhow, Spec-any}

abbrev pub leg_ids : List OrderLegSpec → List String
leg_ids = map (λ leg. leg.client_order_id)

-- How often a text stands in a list.
abbrev pub occurrences : String → List String → ℕ
occurrences id [] = 0
occurrences id (x ∷ xs) = (if str_eq x id then 1 else 0) + occurrences id xs

abbrev seen_before : List String → String → ℕ
seen_before seen id = if contains seen id then 1 else 0

append_nil_left {ℓ} : {A : Type ℓ} (xs ys : List A) → xs ++ ys ≡ [] → (xs ≡ []) × (ys ≡ [])
append_nil_left [] ys h = (refl, h)
append_nil_left (x ∷ xs) ys h = cc

-- No failed check means that no client_order_id comes twice.
validate_legs-once :
    (id : String) (seen : List String) (legs : List OrderLegSpec)
    → validate_legs seen legs ≡ []
    → occurrences id (leg_ids legs) + seen_before seen id ≤ 1
unfolding validate_legs
validate_legs-once id seen [] h = ground arith
validate_legs-once id seen (leg ∷ legs) h = ground (
  arith,
  eq_iff leg.client_order_id id,
  eq_iff id leg.client_order_id,
  validate_legs-once id (leg.client_order_id ∷ seen) legs,
)

resolve_leg-id :
    (registered : List String) (leg : OrderLegSpec) (id : Option Uuid) (live : Option AlpacaAsset)
    → (resolve_leg registered leg id live).order.client_order_id ≡ leg.client_order_id
unfolding resolve_leg from_leg
resolve_leg-id registered leg none live = refl
resolve_leg-id registered leg (some id) none = refl
resolve_leg-id registered leg (some id) (some asset) = refl

resolve_legs-ids :
    (registered : List String) (ids : Dict (Option Uuid)) (live : Dict (Option AlpacaAsset))
    (legs : List OrderLegSpec)
    → record_ids (resolve_legs registered ids live legs).0 ≡ leg_ids legs
unfolding resolve_legs
resolve_legs-ids registered ids live [] = refl
resolve_legs-ids registered ids live (leg ∷ legs) =
    ap₂ ◌∷◌ (resolve_leg-id registered leg _ _) (resolve_legs-ids registered ids live legs)

-- What the records and the failed checks of a batch have to do with its legs.
abbrev pub ChecksLegs : List OrderLegSpec → Result Checked → Type 0
ChecksLegs legs (raise _) = Unit
ChecksLegs legs (ok (records, checks, _)) =
    (record_ids records ≡ leg_ids legs)
    × ((id : String) → checks ≡ [] → occurrences id (leg_ids legs) ≤ 1)

module _ (deps : ExecutionDependencies) where
  resolve_assets-ids :
      (submission : OrderBatchSubmission)
      → Spec
          (λ r _. (c : Checked) → r ≡ ok c → record_ids c.0 ≡ leg_ids submission.legs)
          (resolve_assets deps submission)
  unfolding resolve_assets
  resolve_assets-ids submission =
      Spec-bind Anyhow _ _ Spec-any
        (λ registered cs h.
          Spec-bind Anyhow _ _ Spec-any
            (λ live ds k. Spec-pure _ (λ c e. ground (
              arith,
              resolve_legs-ids registered (asset_ids [] submission.legs) live submission.legs,
            )))
            (λ e ds k c x. cc))
        (λ e cs h c x. cc)

  finish_checks-Checked :
      (legs : List OrderLegSpec) (account : AlpacaAccount) (records : List OrderRecord)
      (checks : List PreTradeCheck) (warnings : List Warning)
      → record_ids records ≡ leg_ids legs
      → ((id : String) → checks ≡ [] → occurrences id (leg_ids legs) ≤ 1)
      → Spec (λ r _. ChecksLegs legs r) (finish_checks deps account records checks warnings)
  unfolding finish_checks
  finish_checks-Checked legs account records (c ∷ cs) warnings same once = Spec-pure _ (same, once)
  finish_checks-Checked legs account records [] warnings same once =
      Spec-bind Anyhow _ _ Spec-any (λ power cs h. Spec-pure _ (same, λ id e. once id refl))
        (λ e cs h. tt)

  pub check_batch-Checked :
      (registration : Registration) (submission : OrderBatchSubmission)
      → Spec (λ r _. ChecksLegs submission.legs r) (check_batch deps registration submission)
  unfolding check_batch
  check_batch-Checked registration submission =
      Spec-bind Anyhow _ _ Spec-any
        (λ account cs h.
          Spec-bind _ _ _ (resolve_assets-ids submission)
            (λ resolved ds k.
              Spec-bind Anyhow _ _ Spec-any
                (λ hours es l.
                  finish_checks-Checked submission.legs account resolved.0 _ resolved.2
                    (k resolved refl)
                    (λ id e.
                      ground (
                        arith,
                        validate_legs-once id [] submission.legs (append_nil_left _ _ e).0,
                      )))
                (λ e es l. tt))
            (λ e ds k. tt))
        (λ e cs h. tt)
