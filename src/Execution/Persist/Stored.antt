-- ===== src/Execution/Persist/Stored.antt =====
-- What `_persist` of `src/alpaca_connectors/execution/services.py` writes before it returns.
use alpaca_connectors.Prelude.{
  ◌≡◌, refl, ap, Bool-cases, inl, inr, or_else, String, Option, none, some, List, [], ◌∷◌, ◌++◌,
  if◌then◌else◌,
}
use alpaca_connectors.Execution.Orders.Types.{Time, submitted}
use alpaca_connectors.Execution.Orders.Status.{batch_status, new_fills}
use alpaca_connectors.Execution.Orders.Rows.{
  OrderRow, TradeRow, orders_ledger_rows, trades_ledger_rows,
}
use alpaca_connectors.Execution.Persist.{
  Saving, OrderBatchResult, persist, close_batch, batch_metadata, all_done, stored_holdings,
  stored_metadata, default_cash_asset_identifier, write_trade_rows, write_ledger, publish_holdings,
  ensure_batch,
}
use alpaca_connectors.Execution.Effects.{
  Call, created_batch, wrote_orders, ensured_cash, wrote_trades, captured_holdings, updated_batch,
  BatchMetadata, Result, ok, raise, Batch, ExecutionDependencies, tell, Warning, ledger_error,
  ◌>>=◌, pure, throw, try_tell, continue, or_raise,
}
use alpaca_connectors.Execution.Effects.Spec.{
  Spec, Spec-continue, Spec-bind, Spec-pure, Spec-weaken,
}

-- The time of completion that a batch row gets.
abbrev finished_at : Saving → Option Time
finished_at s = if all_done s.records then some s.time else none

-- The batch row that is written: the one that was found, or else the one that the ledger has answered
-- to its creation.
abbrev pub IsRow : Option Batch → Option Batch → String → Type 0
IsRow (some batch) answer uid = uid ≡ batch.uid
IsRow none answer uid = (batch : Batch) × (answer ≡ some batch) × (uid ≡ batch.uid)

-- The metadata of a batch that is created.
abbrev pub first_metadata : Saving → BatchMetadata
first_metadata s = record {
  account_uid = s.registration.account_uid;
  account_identifier = s.registration.unique_identifier;
  is_paper = s.registration.is_paper;
  orders = s.records;
  warnings = s.warnings;
  last_sync_at = some s.time;
  holdings_set_uid = none;
}

abbrev pub creation : Saving → Option Batch → List Call
creation s (some batch) = []
creation s none = created_batch s.batch_id s.registration.account_uid (first_metadata s) ∷ []

-- The trades go with the cash asset that they are paid in.
abbrev pub trades : List TradeRow → List Call
trades [] = []
trades (row ∷ rows) = ensured_cash ∷ wrote_trades (row ∷ rows) ∷ []

-- A snapshot of the holdings is due after new fills only.
abbrev pub capture : Saving → List Call
capture s = if new_fills s.previous s.records then captured_holdings ∷ [] else []

abbrev pub order_rows : Saving → List OrderRow
order_rows s = orders_ledger_rows s.registration.unique_identifier s.batch_id s.records

abbrev pub trade_rows : Saving → List TradeRow
trade_rows s =
    trades_ledger_rows s.registration.unique_identifier s.batch_id default_cash_asset_identifier
      s.records

-- All calls of a run that returns, in order: the creation of the row where none was found, the order
-- rows, the trade rows, the snapshot, and at last the row of the batch with what is returned.
abbrev pub Stores :
    Saving → Option Batch → Option Batch → Result OrderBatchResult → List Call → Type 0
Stores s found answer (raise _) _ = Unit
Stores s found answer (ok result) calls =
    (uid : String) × (metadata : BatchMetadata) × IsRow found answer uid
    × (calls
        ≡ creation s found
          ++ (wrote_orders (order_rows s)
              ∷ (trades (trade_rows s)
                  ++ (capture s
                      ++ (updated_batch uid result.status (finished_at s) metadata ∷ [])))))
    × (metadata.orders ≡ result.orders)
    × (metadata.warnings ≡ result.warnings)
    × (metadata.last_sync_at ≡ some s.time)
    × (metadata.holdings_set_uid
        ≡ or_else result.holdings_set_uid (stored_holdings (stored_metadata found)))
    × (result.orders ≡ s.records)
    × (result.status ≡ batch_status s.records)

-- The last call alone.
abbrev Closes :
    Saving → Option BatchMetadata → String → Result OrderBatchResult → List Call → Type 0
Closes s stored uid (raise _) _ = Unit
Closes s stored uid (ok result) calls =
    (metadata : BatchMetadata) × (calls
      ≡ updated_batch uid result.status (finished_at s) metadata ∷ [])
    × (metadata.orders ≡ result.orders)
    × (metadata.warnings ≡ result.warnings)
    × (metadata.last_sync_at ≡ some s.time)
    × (metadata.holdings_set_uid ≡ or_else result.holdings_set_uid (stored_holdings stored))
    × (result.orders ≡ s.records)
    × (result.status ≡ batch_status s.records)

-- A part that ends normally has made these calls.
abbrev Exactly : {A : Type 0} → List Call → Result A → List Call → Type 0
Exactly calls (raise _) _ = Unit
Exactly calls (ok _) cs = cs ≡ calls

-- What a call of a collaborator leaves if it does not raise.
abbrev LeavesOnly : {A : Type 0} → Call → Result A → List Call → Type 0
LeavesOnly c (raise _) _ = Unit
LeavesOnly c (ok _) cs = cs ≡ c ∷ []

try_tell-LeavesOnly :
    {S A : Type 0} (c : Call) (f : S → Option A × S) → Spec (LeavesOnly c) (try_tell c f)
unfolding ◌>>=◌ tell pure throw
try_tell-LeavesOnly {S} {A} c f = record { at = λ s. go (f s) }
  where
    go :
        (p : Option A × S)
        → let (r, cs, _) = continue (ok p.0) (c ∷ []) p.1 (or_raise ledger_error) in
          LeavesOnly c r cs
    go (none, s) = tt
    go (some _, s) = refl

Closes-Stores :
    (s : Saving) (found answer : Option Batch) (uid : String) (cs ds es : List Call)
    → IsRow found answer uid
    → cs ≡ creation s found
    → ds ≡ wrote_orders (order_rows s) ∷ trades (trade_rows s)
    → es ≡ capture s
    → (r : Result OrderBatchResult) (fs : List Call) → Closes s (stored_metadata found) uid r fs
    → Stores s found answer r (cs ++ (ds ++ (es ++ fs)))
Closes-Stores s found answer uid cs ds es row e k l (raise _) fs m = tt
Closes-Stores s found answer uid cs ds es row e k l (ok result) fs (metadata, m, a, b, c, d, f, g) =
    (uid, metadata, row, rw (e, k, l, m) refl, a, b, c, d, f, g)

module _ (deps : ExecutionDependencies) where
  close_batch-Closes :
      (s : Saving) (stored : Option BatchMetadata) (uid : String)
      (published : Option String × List Warning)
      → Spec (Closes s stored uid) (close_batch deps s stored uid published)
  unfolding close_batch batch_metadata
  close_batch-Closes s stored uid (holdings, warnings) =
      Spec-bind _ _ _ (try_tell-LeavesOnly _ _)
        (λ _ cs h. Spec-pure _ (_, ap (λ x. x ++ []) h, refl, refl, refl, refl, refl, refl))
        (λ e cs h. tt)

  trade_rows-Exactly :
      (rows : List TradeRow) → Spec (Exactly (trades rows)) (write_trade_rows deps rows)
  unfolding write_trade_rows
  trade_rows-Exactly [] = Spec-pure _ refl
  trade_rows-Exactly (row ∷ rows) =
      Spec-bind (LeavesOnly ensured_cash) (try_tell ensured_cash deps.ensure_cash_asset)
        (λ _. try_tell (wrote_trades (row ∷ rows)) (deps.write_trades (row ∷ rows)))
        (try_tell-LeavesOnly ensured_cash deps.ensure_cash_asset)
        (λ _ cs h.
          Spec-weaken (try_tell (wrote_trades (row ∷ rows)) (deps.write_trades (row ∷ rows)))
            (try_tell-LeavesOnly (wrote_trades (row ∷ rows)) (deps.write_trades (row ∷ rows)))
            (λ r ds k. both cs h r ds k))
        (λ e cs h. tt)
    where
      both :
          (cs : List Call)
          → cs ≡ ensured_cash ∷ []
          → (r : Result (Unit {0})) (ds : List Call) → LeavesOnly (wrote_trades (row ∷ rows)) r ds
          → Exactly (trades (row ∷ rows)) r (cs ++ ds)
      both cs h (ok _) ds k = rw (h, k) refl
      both cs h (raise _) ds k = tt

  write_ledger-Exactly :
      (s : Saving)
      → Spec (Exactly (wrote_orders (order_rows s) ∷ trades (trade_rows s))) (write_ledger deps s)
  unfolding write_ledger
  write_ledger-Exactly s =
      Spec-bind _ _ _ (try_tell-LeavesOnly _ _)
        (λ _ cs h. Spec-weaken _ (trade_rows-Exactly (trade_rows s)) (λ r ds k. both cs h r ds k))
        (λ e cs h. tt)
    where
      both :
          (cs : List Call)
          → cs ≡ wrote_orders (order_rows s) ∷ []
          → (r : Result (Unit {0})) (ds : List Call) → Exactly (trades (trade_rows s)) r ds
          → Exactly (wrote_orders (order_rows s) ∷ trades (trade_rows s)) r (cs ++ ds)
      both cs h (ok _) ds k = rw (h, k) refl
      both cs h (raise _) ds k = tt

  publish_holdings-Exactly :
      (s : Saving) (stored : Option String)
      → Spec (Exactly (capture s)) (publish_holdings deps s stored)
  unfolding publish_holdings tell pure ◌>>=◌
  publish_holdings-Exactly s stored = elim (Bool-cases (new_fills s.previous s.records)) [
    | inl e ↦ rw e (record { at = λ state. refl })
    | inr e ↦ rw e (record { at = λ state. refl })
  ]

  -- What the ledger answers to the creation of the row.
  abbrev pub created_row : Saving → deps.State → Option Batch
  created_row s state =
      (deps.create_batch s.batch_id s.registration.account_uid s.time submitted (first_metadata s)
        state).0

  abbrev Ensured : Saving → Option Batch → Option Batch → Result Batch → List Call → Type 0
  Ensured s found answer (raise _) cs = Unit
  Ensured s found answer (ok batch) cs = (cs ≡ creation s found) × IsRow found answer batch.uid

  ensure_batch-Ensured :
      (s : Saving) (found : Option Batch) (state : deps.State)
      → let (r, cs, _) = ensure_batch deps s found state in
        Ensured s found (created_row s state) r cs
  unfolding ensure_batch batch_metadata pure tell throw ◌>>=◌
  ensure_batch-Ensured s (some batch) state = (refl, refl)
  ensure_batch-Ensured s none state = answered (
      deps.create_batch s.batch_id s.registration.account_uid s.time submitted (first_metadata s)
        state)
    where
      answered :
          (p : Option Batch × deps.State)
          → let (r, cs, _) = continue (ok p.0) (creation s none) p.1 (or_raise ledger_error) in
            Ensured s none p.0 r cs
      answered (none, _) = tt
      answered (some batch, _) = (refl, (batch, refl, refl))

  -- If `_persist` returns a result, it has made exactly these calls, in order: the creation of the batch
  -- row where none was found, the order rows, the trade rows with the cash asset if there are trades,
  -- the capture of holdings after new fills, and at last an update of the batch row that was found or
  -- created. That update has the same orders, warnings and status as the result, and a time of
  -- completion exactly if there are orders and all are terminal. The orders are those that it was
  -- given, and the status is the batch status of them.
  pub persist-Stores :
      (s : Saving) (found : Option Batch) (state : deps.State)
      → let (result, calls, _) = persist deps s found state in
        Stores s found (created_row s state) result calls
  unfolding persist ◌>>=◌
  persist-Stores s found state =
      Spec-continue (Ensured s found answer) (Stores s found answer) _ _ _ _
        (λ batch cs (e, row).
          Spec-bind (Exactly (wrote_orders (order_rows s) ∷ trades (trade_rows s))) _ _
            (write_ledger-Exactly s)
            (λ _ ds k.
              Spec-bind (Exactly (capture s)) _ _ (publish_holdings-Exactly s _)
                (λ published es l.
                  Spec-weaken _ (close_batch-Closes s (stored_metadata found) batch.uid published)
                    (Closes-Stores s found answer batch.uid cs ds es row e k l))
                (λ e es l. tt))
            (λ e ds k. tt))
        (λ e cs h. tt) (ensure_batch-Ensured s found state)
    where
      answer : Option Batch
      answer = created_row s state
