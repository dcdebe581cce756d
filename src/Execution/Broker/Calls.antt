-- ===== src/Execution/Broker/Calls.antt =====
-- Which calls and exceptions the broker operations of
-- `src/alpaca_connectors/execution/services.py` come to, from those that are allowed.
use alpaca_connectors.Prelude.{
  String, Bool, List, [], ◌∷◌, ℕ, zero, suc, ◌+◌, ◌-◌, ◌<◌, ◌||◌, Bool-cases, inl, inr, arith, all,
  leb,
}
use alpaca_connectors.Execution.Orders.Types.{Time, OrderRecord, AlpacaOrder, terminal}
use alpaca_connectors.Execution.Broker.{
  read_lookup, find_alpaca_order, read_back, read_placement, place_order, reread, refresh_one,
  refresh, order_request, pause, wait_from, wait_for_terminal,
}
use alpaca_connectors.Execution.Effects.{
  Call, Fault, ApiError, Reply, answer, api_error, looked_up, submitted_order, slept,
  credentials_rejected, api_fault, ExecutionDependencies,
}
use alpaca_connectors.Execution.Effects.Within.{
  Within, Within-pure, Within-bind, Within-choice, within_rules,
}

-- Look-ups are allowed, and the exceptions that one may end with.
pub record AllowsLookups (P : Call → Type 0) (E : Fault → Type 0) : Type 0 where
  pub rejected : E credentials_rejected
  pub fault : (e : ApiError) → E (api_fault e)
  pub look : (id : String) (b : Bool) → P (looked_up id b)

module _ (deps : ExecutionDependencies) {P : Call → Type 0} {E : Fault → Type 0} where
  read_lookup-Within : AllowsLookups P E → (r : Reply AlpacaOrder) → Within P E (read_lookup deps r)
  unfolding read_lookup
  read_lookup-Within h (answer o) = search within_rules
  read_lookup-Within h (api_error e) = search (within_rules, h.rejected, h.fault)

  pub find_alpaca_order-Within :
      AllowsLookups P E → (id : String) → Within P E (find_alpaca_order deps id)
  unfolding find_alpaca_order
  find_alpaca_order-Within h id = search (within_rules, read_lookup-Within h, h.look id)

  reread-Within : AllowsLookups P E → (r : OrderRecord) → Within P E (reread deps r)
  unfolding reread
  reread-Within h r = search (within_rules, find_alpaca_order-Within h)

  refresh_one-Within : AllowsLookups P E → (r : OrderRecord) → Within P E (refresh_one deps r)
  unfolding refresh_one
  refresh_one-Within h r = search (within_rules, reread-Within h)

  pub refresh-Within : AllowsLookups P E → (rs : List OrderRecord) → Within P E (refresh deps rs)
  unfolding refresh
  refresh-Within h [] = search within_rules
  refresh-Within h (r ∷ rs) =
      Within-bind _ _ (refresh_one-Within h r)
        λ r'. Within-bind _ _ (refresh-Within h rs) λ rest. Within-pure _

  read_back-Within :
      AllowsLookups P E
      → (r : OrderRecord) (now : Time) (e : ApiError) → Within P E (read_back deps r now e)
  unfolding read_back
  read_back-Within h r now e = search (within_rules, find_alpaca_order-Within h)

  pub read_placement-Within :
      AllowsLookups P E
      → (r : OrderRecord) (now : Time) (reply : Reply AlpacaOrder)
      → Within P E (read_placement deps r now reply)
  unfolding read_placement
  read_placement-Within h r now (answer o) = search within_rules
  read_placement-Within h r now (api_error e) =
      search (within_rules, read_back-Within h, h.rejected)

  pub place_order-Within :
      AllowsLookups P E
      → (now : Time) (r : OrderRecord) → P (submitted_order (order_request r))
      → Within P E (place_order deps now r)
  unfolding place_order
  place_order-Within h now r submits = search (within_rules, read_placement-Within h)

  pause-Within : P (slept deps.poll_interval) → Within P E (pause deps)
  pause-Within naps = search within_rules

  -- The fuel outlasts the time that is left to wait.
  wait_from-Within :
      AllowsLookups P E
      → P (slept deps.poll_interval)
      → 0 < deps.poll_interval
      → (fuel waited : ℕ) (rs : List OrderRecord) → deps.settle_timeout - waited < fuel
      → Within P E (wait_from deps fuel waited rs)
  unfolding wait_from
  wait_from-Within h naps ticks zero waited rs enough = absurd (omega arith)
  wait_from-Within h naps ticks (suc fuel) waited rs enough =
      Within-bind _ _ (refresh-Within h rs) λ current.
        elim (Bool-cases (leb deps.settle_timeout waited)) [
          | inl late ↦
              Within-choice (all terminal current || leb deps.settle_timeout waited)
                (Within-pure current) (λ more. absurd (ground arith))
          | inr early ↦
              Within-choice (all terminal current || leb deps.settle_timeout waited)
                (Within-pure current)
                (λ more. search (
                  within_rules,
                  pause-Within naps,
                  wait_from-Within h naps ticks fuel (waited + deps.poll_interval) current
                      (ground arith),
                ))
        ]

  pub wait_for_terminal-Within :
      AllowsLookups P E
      → P (slept deps.poll_interval)
      → 0 < deps.poll_interval
      → (rs : List OrderRecord) → Within P E (wait_for_terminal deps rs)
  unfolding wait_for_terminal
  wait_for_terminal-Within h naps ticks rs = wait_from-Within h naps ticks _ 0 rs (omega arith)
