-- ===== src/Execution/Services/Place.antt =====
-- How often the placement of `src/alpaca_connectors/execution/services.py` places an order under
-- one client_order_id, and what Alpaca was asked before.
use alpaca_connectors.Prelude.{
  ℕ, ◌≤◌, ◌<◌, ◌≡◌, refl, String, Option, none, some, List, [], ◌∷◌, ◌++◌, arith,
}
use alpaca_connectors.Execution.Orders.Types.{Time, OrderRecord, AlpacaOrder}
use alpaca_connectors.Execution.Broker.{place_order, order_request, refresh}
use alpaca_connectors.Execution.Broker.Calls.{read_placement-Within, refresh-Within}
use alpaca_connectors.Execution.Checks.{buys_of, sells_of}
use alpaca_connectors.Execution.Services.{
  Placed, look_up_all, place_all, get_all, settle_sells, place_pending, place_batch, sort_order,
  put_all,
}
use alpaca_connectors.Execution.Services.Calls.{get_all-Within, settle_sells-Within}
use alpaca_connectors.Execution.Services.Safety.{PlacesNone, Anything}
use alpaca_connectors.Execution.Services.Once.{
  is_id, placed_count, absent_count, id_count, placed_count-append, absent_count-append,
  id_count-sides, PlacesZero, places_zero, Looked, find_alpaca_order-Looked,
}
use alpaca_connectors.Execution.Effects.{
  Call, Result, ok, raise, ExecutionDependencies, ◌>>=◌, tell,
}
use alpaca_connectors.Execution.Effects.Spec.{Spec, Spec-bind, Spec-pure, Spec-weaken}

module _ (deps : ExecutionDependencies) (id : String) where
  -- What the first loop comes to: the pending records are among the records, and each of them was
  -- looked up in vain.
  abbrev Sorted :
      List OrderRecord → Result (List OrderRecord × List OrderRecord) → List Call → Type 0
  Sorted rs (raise _) cs = placed_count id cs ≡ 0
  Sorted rs (ok (held, pending)) cs =
      (placed_count id cs ≡ 0)
      × (id_count id pending ≤ absent_count id cs)
      × (id_count id pending ≤ id_count id rs)

  sort_order-Sorted :
      (r : OrderRecord) (rs : List OrderRecord) (existing : Option AlpacaOrder)
      (held pending : List OrderRecord) (cs ds : List Call)
      → Looked id r.client_order_id (ok existing) cs
      → Sorted rs (ok (held, pending)) ds
      → Sorted (r ∷ rs) (ok (sort_order r existing held pending)) (cs ++ (ds ++ []))
  sort_order-Sorted r rs none held pending cs ds h k = ground (
    arith,
    placed_count-append id cs (ds ++ []),
    placed_count-append id ds [],
    absent_count-append id cs (ds ++ []),
    absent_count-append id ds [],
    h.1 refl,
  )
  sort_order-Sorted r rs (some order) held pending cs ds h k = ground (
    arith,
    placed_count-append id cs (ds ++ []),
    placed_count-append id ds [],
    absent_count-append id cs (ds ++ []),
    absent_count-append id ds [],
  )

  look_up_all-Sorted : (rs : List OrderRecord) → Spec (Sorted rs) (look_up_all deps rs)
  unfolding look_up_all
  look_up_all-Sorted [] = Spec-pure _ (omega arith)
  look_up_all-Sorted (r ∷ rs) =
      Spec-bind (Looked id r.client_order_id) _ _
        (find_alpaca_order-Looked id deps r.client_order_id)
        (λ existing cs h.
          Spec-bind (Sorted rs) _ _ (look_up_all-Sorted rs)
            (λ sorted ds k.
              Spec-pure _ (sort_order-Sorted r rs existing sorted.0 sorted.1 cs ds h k))
            (λ e ds k. omega (arith, placed_count-append id cs ds)))
        (λ e cs h. h.0)

  place_order-count :
      (now : Time) (r : OrderRecord)
      → Spec (λ _ cs. placed_count id cs ≡ is_id id r.client_order_id) (place_order deps now r)
  unfolding place_order ◌>>=◌ tell
  place_order-count now r = record {
    at = λ s. ground (
      arith,
      (places_zero id (
            read_placement-Within deps {P = PlacesNone} {E = Anything} (ground arith) r now
              (deps.submit_order (order_request r) s).0)).at
          (deps.submit_order (order_request r) s).1,
    );
  }

  -- At most one order for each record.
  place_all-count :
      (now : Time) (rs : List OrderRecord)
      → Spec (λ _ cs. placed_count id cs ≤ id_count id rs) (place_all deps now rs)
  unfolding place_all
  place_all-count now [] = Spec-pure _ (omega arith)
  place_all-count now (r ∷ rs) =
      Spec-bind _ _ _ (place_order-count now r)
        (λ r' cs h.
          Spec-bind _ _ _ (place_all-count now rs)
            (λ rest ds k.
              Spec-pure _
                (omega (arith, placed_count-append id cs (ds ++ []), placed_count-append id ds [])))
            (λ e ds k. omega (arith, placed_count-append id cs ds)))
        (λ e cs h. omega arith)

  get_all-count :
      (placed : Placed) (rs : List OrderRecord) → Spec (PlacesZero id) (get_all deps placed rs)
  get_all-count placed rs =
      places_zero id (get_all-Within deps {P = PlacesNone} {E = Anything} tt placed rs)

  refresh-count : (rs : List OrderRecord) → Spec (PlacesZero id) (refresh deps rs)
  refresh-count rs =
      places_zero id (refresh-Within deps {P = PlacesNone} {E = Anything} (ground arith) rs)

  settle_sells-count :
      0 < deps.poll_interval
      → (sells buys : List OrderRecord) (placed : Placed)
      → Spec (PlacesZero id) (settle_sells deps sells buys placed)
  settle_sells-count ticks sells buys placed = places_zero id (
      settle_sells-Within deps {P = PlacesNone} {E = Anything} (ground arith) tt tt ticks sells buys
        placed)

  abbrev AtMost : ℕ → Result (List OrderRecord) → List Call → Type 0
  AtMost n _ cs = placed_count id cs ≤ n

  -- The part of `place_batch` after the sells.
  finish-count :
      (now : Time) (records buys : List OrderRecord) (settled : Placed)
      → Spec (AtMost (id_count id buys)) (
          place_all deps now buys >>= λ bought.
          get_all deps (put_all bought settled) records >>= refresh deps)
  finish-count now records buys settled =
      Spec-bind _ _ _ (place_all-count now buys)
        (λ bought cs h.
          Spec-bind _ _ _ (get_all-count _ records)
            (λ final ds k. Spec-weaken _ (refresh-count final) (λ r es l.
              ground (arith, placed_count-append id cs (ds ++ es), placed_count-append id ds es)))
            (λ e ds k. omega (arith, placed_count-append id cs ds)))
        (λ e cs h. h)

  place_pending-count :
      0 < deps.poll_interval
      → (now : Time) (records : List OrderRecord) (sorted : List OrderRecord × List OrderRecord)
      → Spec (AtMost (id_count id sorted.1)) (place_pending deps now records sorted)
  unfolding place_pending
  place_pending-count ticks now records sorted =
      Spec-bind _ _ _ (place_all-count now (sells_of sorted.1))
        (λ sold cs h.
          Spec-bind _ _ _ (settle_sells-count ticks (sells_of sorted.1) (buys_of sorted.1) _)
            (λ settled ds k.
              Spec-weaken _ (finish-count now records (buys_of sorted.1) settled) (λ r es l. omega (
                arith,
                placed_count-append id cs (ds ++ es),
                placed_count-append id ds es,
                id_count-sides id sorted.1,
              )))
            (λ e ds k. omega (arith, placed_count-append id cs ds, id_count-sides id sorted.1)))
        (λ e cs h. omega (arith, id_count-sides id sorted.1))

  -- Orders are placed under the identifier at most as often as records carry it, and at most as
  -- often as Alpaca was asked for it and brought none.
  pub place_batch-count :
      0 < deps.poll_interval
      → (now : Time) (records : List OrderRecord)
      → Spec
          (λ _ cs.
            (placed_count id cs ≤ absent_count id cs) × (placed_count id cs ≤ id_count id records))
          (place_batch deps now records)
  unfolding place_batch
  place_batch-count ticks now records =
      Spec-bind _ _ _ (look_up_all-Sorted records)
        (λ sorted cs h.
          Spec-weaken _ (place_pending-count ticks now records sorted)
            (λ r ds k. omega (arith, placed_count-append id cs ds, absent_count-append id cs ds)))
        (λ e cs h. omega arith)
