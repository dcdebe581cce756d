-- ===== src/Execution/Services/Once.antt =====
-- How often `submit_order_batch` of `src/alpaca_connectors/execution/services.py` places an order
-- under one client_order_id.
use alpaca_connectors.Prelude.{
  ℕ, ◌+◌, ◌≤◌, ◌≡◌, refl, String, false, Option, none, List, [], ◌∷◌, ◌++◌, if◌then◌else◌, str_eq,
  arith, All,
}
use alpaca_connectors.Execution.Orders.Types.{OrderRecord, AlpacaOrder}
use alpaca_connectors.Execution.Broker.{find_alpaca_order, read_lookup}
use alpaca_connectors.Execution.Checks.{buys_of, sells_of}
use alpaca_connectors.Execution.Effects.{
  Call, looked_up, submitted_order, Result, ok, ExecutionDependencies, ◌>>=◌, Action,
}
use alpaca_connectors.Execution.Effects.Spec.{Spec}
use alpaca_connectors.Execution.Effects.Within.{Within}
use alpaca_connectors.Execution.Services.Safety.{PlacesNone, Anything}

module _ (id : String) where
  abbrev pub is_id : String → ℕ
  is_id other = if str_eq other id then 1 else 0

  abbrev pub places_here : Call → ℕ
  places_here (submitted_order q) = is_id q.client_order_id
  places_here _ = 0

  -- How many orders the calls place under the identifier.
  abbrev pub placed_count : List Call → ℕ
  placed_count [] = 0
  placed_count (c ∷ cs) = places_here c + placed_count cs

  abbrev pub absent_here : Call → ℕ
  absent_here (looked_up other false) = is_id other
  absent_here _ = 0

  -- How often Alpaca was asked for it and brought no order.
  abbrev pub absent_count : List Call → ℕ
  absent_count [] = 0
  absent_count (c ∷ cs) = absent_here c + absent_count cs

  -- How many records carry it.
  abbrev pub id_count : List OrderRecord → ℕ
  id_count [] = 0
  id_count (r ∷ rs) = is_id r.client_order_id + id_count rs

  pub placed_count-append :
      (cs ds : List Call) → placed_count (cs ++ ds) ≡ placed_count cs + placed_count ds
  placed_count-append [] ds = omega arith
  placed_count-append (c ∷ cs) ds = omega (arith, placed_count-append cs ds)

  pub absent_count-append :
      (cs ds : List Call) → absent_count (cs ++ ds) ≡ absent_count cs + absent_count ds
  absent_count-append [] ds = omega arith
  absent_count-append (c ∷ cs) ds = omega (arith, absent_count-append cs ds)

  ruleset counts = (arith, placed_count-append, absent_count-append)

  -- Sells and buys share the records out.
  pub id_count-sides :
      (rs : List OrderRecord) → id_count (sells_of rs) + id_count (buys_of rs) ≡ id_count rs
  id_count-sides [] = omega arith
  id_count-sides (r ∷ rs) = ground (arith, id_count-sides rs)

  placed_count-PlacesNone : (cs : List Call) → All PlacesNone cs → placed_count cs ≡ 0
  placed_count-PlacesNone [] h = refl
  placed_count-PlacesNone (c ∷ cs) h = ground (arith, placed_count-PlacesNone cs h.1)

  abbrev pub PlacesZero : {A : Type 0} → Result A → List Call → Type 0
  PlacesZero _ cs = placed_count cs ≡ 0

  pub places_zero :
      {S A : Type 0} {m : Action S A} → Within PlacesNone Anything m → Spec PlacesZero m
  places_zero {m} h = record { at = λ s. placed_count-PlacesNone (m s).1 (h.calls s) }

  -- A look-up that brings none leaves an entry that says so.
  abbrev pub Looked : String → Result (Option AlpacaOrder) → List Call → Type 0
  Looked other r cs = (placed_count cs ≡ 0) × (r ≡ ok none → is_id other ≤ absent_count cs)

  pub find_alpaca_order-Looked :
      (deps : ExecutionDependencies) (other : String)
      → Spec (Looked other) (find_alpaca_order deps other)
  unfolding find_alpaca_order read_lookup ◌>>=◌
  find_alpaca_order-Looked deps other = record { at = λ s. ground arith }
