-- ===== src/Execution/Services/Calls.antt =====
-- Which calls and exceptions the operations of `src/alpaca_connectors/execution/services.py` come
-- to, from those that are allowed.
use alpaca_connectors.Prelude.{◌<◌, String, List, [], ◌∷◌}
use alpaca_connectors.Execution.Orders.Types.{
  Time, OrderRecord, OrderBatchSubmission, PreTradeCheck,
}
use alpaca_connectors.Execution.Broker.{order_request}
use alpaca_connectors.Execution.Broker.Calls.{
  AllowsLookups, find_alpaca_order-Within, place_order-Within, refresh-Within,
  wait_for_terminal-Within,
}
use alpaca_connectors.Execution.Batch.Calls.{AllowsReads, check_batch-Within}
use alpaca_connectors.Execution.Persist.Calls.{AllowsWrites, require_batch-Within, persist-Within}
use alpaca_connectors.Execution.Services.{
  Placed, load_account_registration, preflight_order_batch, refuse_failed, look_up_all, place_all,
  get_all, settle_sells, place_pending, place_batch, sync_order_batch, read_cancellation,
  cancel_one, cancel_all, cancel_order_batch,
}
use alpaca_connectors.Execution.Effects.{
  Call, Fault, Reply, answer, api_error, slept, submitted_order, cancelled_order, OrderRequest,
  lookup_error, ledger_error, key_error, pre_trade_check_error, ExecutionDependencies,
}
use alpaca_connectors.Execution.Effects.Within.{Within, Within-pure, Within-bind, within_rules}

module _ (deps : ExecutionDependencies) {P : Call → Type 0} {E : Fault → Type 0} where
  pub load_account_registration-Within :
      E lookup_error
      → E ledger_error
      → (account_uid : String) → Within P E (load_account_registration deps account_uid)
  unfolding load_account_registration
  load_account_registration-Within h l account_uid = search within_rules depth 8

  pub preflight_order_batch-Within :
      AllowsReads E
      → E lookup_error
      → (account_uid : String) (submission : OrderBatchSubmission)
      → Within P E (preflight_order_batch deps account_uid submission)
  unfolding preflight_order_batch
  preflight_order_batch-Within h l account_uid submission =
      search
        (
          within_rules,
          load_account_registration-Within l h.ledger,
          check_batch-Within deps h,
          h.ledger,
        )
        depth 10

  pub sync_order_batch-Within :
      AllowsLookups P E
      → AllowsWrites P E
      → E lookup_error
      → (account_uid batch_id : String) → Within P E (sync_order_batch deps account_uid batch_id)
  unfolding sync_order_batch
  sync_order_batch-Within h w l account_uid batch_id =
      search
        (
          within_rules,
          load_account_registration-Within l w.ledger,
          require_batch-Within deps {P = P} {E = E} l w.ledger,
          refresh-Within deps h,
          persist-Within deps w,
        )
        depth 10

  read_cancellation-Within :
      AllowsLookups P E
      → (r : OrderRecord) (reply : Reply (Unit {0})) → Within P E (read_cancellation deps r reply)
  unfolding read_cancellation
  read_cancellation-Within h r (answer _) = search within_rules
  read_cancellation-Within h r (api_error e) = search (within_rules, h.rejected)

  cancel_one-Within :
      AllowsLookups P E
      → ((id : String) → P (cancelled_order id))
      → (r : OrderRecord) → Within P E (cancel_one deps r)
  unfolding cancel_one
  cancel_one-Within h c r = search (within_rules, read_cancellation-Within h, c)

  cancel_all-Within :
      AllowsLookups P E
      → ((id : String) → P (cancelled_order id))
      → (rs : List OrderRecord) → Within P E (cancel_all deps rs)
  unfolding cancel_all
  cancel_all-Within h c [] = search within_rules
  cancel_all-Within h c (r ∷ rs) =
      Within-bind _ _ (cancel_one-Within h c r)
        λ one. Within-bind _ _ (cancel_all-Within h c rs) λ rest. Within-pure _

  pub cancel_order_batch-Within :
      AllowsLookups P E
      → AllowsWrites P E
      → E lookup_error
      → ((id : String) → P (cancelled_order id))
      → (account_uid batch_id : String) → Within P E (cancel_order_batch deps account_uid batch_id)
  unfolding cancel_order_batch
  cancel_order_batch-Within h w l c account_uid batch_id =
      search
        (
          within_rules,
          load_account_registration-Within l w.ledger,
          require_batch-Within deps {P = P} {E = E} l w.ledger,
          refresh-Within deps h,
          cancel_all-Within h c,
          persist-Within deps w,
        )
        depth 12

  pub refuse_failed-Within :
      ((c : PreTradeCheck) (cs : List PreTradeCheck) → E (pre_trade_check_error c cs))
      → (checks : List PreTradeCheck) → Within P E (refuse_failed deps checks)
  unfolding refuse_failed
  refuse_failed-Within h [] = search within_rules
  refuse_failed-Within h (c ∷ cs) = search (within_rules, h)

  look_up_all-Within :
      AllowsLookups P E → (rs : List OrderRecord) → Within P E (look_up_all deps rs)
  unfolding look_up_all
  look_up_all-Within h [] = search within_rules
  look_up_all-Within h (r ∷ rs) =
      Within-bind _ _ (find_alpaca_order-Within deps h _)
        λ existing. Within-bind _ _ (look_up_all-Within h rs) λ sorted. Within-pure _

  pub place_all-Within :
      AllowsLookups P E
      → ((q : OrderRequest) → P (submitted_order q))
      → (now : Time) (rs : List OrderRecord) → Within P E (place_all deps now rs)
  unfolding place_all
  place_all-Within h q now [] = search within_rules
  place_all-Within h q now (r ∷ rs) =
      Within-bind _ _ (place_order-Within deps h now r (q (order_request r)))
        λ r'. Within-bind _ _ (place_all-Within h q now rs) λ rest. Within-pure _

  pub get_all-Within :
      E key_error → (placed : Placed) (rs : List OrderRecord) → Within P E (get_all deps placed rs)
  unfolding get_all
  get_all-Within h placed [] = search within_rules
  get_all-Within h placed (r ∷ rs) =
      Within-bind _ _ (search (within_rules, h))
        λ found. Within-bind _ _ (get_all-Within h placed rs) λ rest. Within-pure _

  pub settle_sells-Within :
      AllowsLookups P E
      → E key_error
      → P (slept deps.poll_interval)
      → 0 < deps.poll_interval
      → (sells buys : List OrderRecord) (placed : Placed)
      → Within P E (settle_sells deps sells buys placed)
  unfolding settle_sells
  settle_sells-Within h k naps ticks [] buys placed = search within_rules
  settle_sells-Within h k naps ticks (_ ∷ _) [] placed = search within_rules
  settle_sells-Within h k naps ticks (_ ∷ _) (_ ∷ _) placed =
      search (within_rules, get_all-Within k, wait_for_terminal-Within deps h naps ticks)

  place_pending-Within :
      AllowsLookups P E
      → E key_error
      → P (slept deps.poll_interval)
      → 0 < deps.poll_interval
      → ((q : OrderRequest) → P (submitted_order q))
      → (now : Time) (rs : List OrderRecord) (sorted : List OrderRecord × List OrderRecord)
      → Within P E (place_pending deps now rs sorted)
  unfolding place_pending
  place_pending-Within h k naps ticks q now rs sorted =
      search
        (
          within_rules,
          place_all-Within h q,
          settle_sells-Within h k naps ticks,
          get_all-Within k,
          refresh-Within deps h,
        )
        depth 10

  pub place_batch-Within :
      AllowsLookups P E
      → E key_error
      → P (slept deps.poll_interval)
      → 0 < deps.poll_interval
      → ((q : OrderRequest) → P (submitted_order q))
      → (now : Time) (rs : List OrderRecord) → Within P E (place_batch deps now rs)
  unfolding place_batch
  place_batch-Within h k naps ticks q now rs =
      search (within_rules, look_up_all-Within h, place_pending-Within h k naps ticks q)
