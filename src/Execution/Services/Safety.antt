-- ===== src/Execution/Services/Safety.antt =====
-- What the operations of `src/alpaca_connectors/execution/services.py` leave alone: a preflight and
-- a refused submission, and the orders themselves under a sync or a cancellation.
use alpaca_connectors.Prelude.{◌≡◌, refl, String, List, [], ◌∷◌, All, arith}
use alpaca_connectors.Execution.Orders.Types.{OrderBatchSubmission}
use alpaca_connectors.Execution.Batch.Calls.{AllowsReads}
use alpaca_connectors.Execution.Services.{
  preflight_order_batch, sync_order_batch, cancel_order_batch,
}
use alpaca_connectors.Execution.Services.Calls.{
  preflight_order_batch-Within, sync_order_batch-Within, cancel_order_batch-Within,
}
use alpaca_connectors.Execution.Effects.{
  Call, Fault, value_error, ledger_error, credentials_rejected, pre_trade_check_error, api_fault,
  submitted_order, cancelled_order, ExecutionDependencies,
}

abbrev pub Anything : {A : Type 0} → A → Type 0
Anything _ = Unit

abbrev pub Nothing : Call → Type 0
Nothing _ = ⊥

-- An exception other than a refusal by the pre-trade checks.
abbrev pub NotRefusal : Fault → Type 0
NotRefusal (pre_trade_check_error _ _) = ⊥
NotRefusal _ = Unit

-- A call that neither places an order nor cancels one.
abbrev pub KeepsOrders : Call → Type 0
KeepsOrders (submitted_order _) = ⊥
KeepsOrders (cancelled_order _) = ⊥
KeepsOrders _ = Unit

-- A call that places no order.
abbrev pub PlacesNone : Call → Type 0
PlacesNone (submitted_order _) = ⊥
PlacesNone _ = Unit

pub silent : (cs : List Call) → All Nothing cs → cs ≡ []
silent [] h = refl
silent (c ∷ cs) h = absurd h.0

pub any_reads : {E : Fault → Type 0} → ((e : Fault) → NotRefusal e → E e) → AllowsReads E
any_reads h = record {
  rejected = h credentials_rejected tt;
  fault = λ e. h (api_fault e) tt;
  mismatch = h value_error tt;
  ledger = h ledger_error tt;
}

-- A preflight makes no call that is recorded: it places no order and writes no row.
pub preflight_order_batch_silent :
    (deps : ExecutionDependencies) (account_uid : String) (submission : OrderBatchSubmission)
    (s : deps.State)
    → (preflight_order_batch deps account_uid submission s).1 ≡ []
preflight_order_batch_silent deps account_uid submission s = silent _ (
    (preflight_order_batch-Within deps {P = Nothing} {E = Anything} (any_reads (λ e h. tt)) tt
        account_uid submission).calls
      s)

-- A sync places no order and cancels none, however it ends.
pub sync_order_batch-KeepsOrders :
    (deps : ExecutionDependencies) (account_uid batch_id : String) (s : deps.State)
    → All KeepsOrders (sync_order_batch deps account_uid batch_id s).1
sync_order_batch-KeepsOrders deps account_uid batch_id s =
    (sync_order_batch-Within deps {P = KeepsOrders} {E = Anything} (ground arith) (ground arith) tt
        account_uid batch_id).calls
      s

-- A cancellation places no order, however it ends.
pub cancel_order_batch-PlacesNone :
    (deps : ExecutionDependencies) (account_uid batch_id : String) (s : deps.State)
    → All PlacesNone (cancel_order_batch deps account_uid batch_id s).1
cancel_order_batch-PlacesNone deps account_uid batch_id s =
    (cancel_order_batch-Within deps {P = PlacesNone} {E = Anything} (ground arith) (ground arith) tt
        (λ id. tt) account_uid batch_id).calls
      s
