-- ===== src/Execution/Services/Listing.antt =====
-- `list_account_orders` of `src/alpaca_connectors/execution/services.py`.
use Prim.Native.String.{compare}
use Prim.Native.Nat.{Ordering}
use alpaca_connectors.Prelude.{
  ℕ, ◌≤◌, ◌≡◌, String, Bool, true, false, Option, none, some, List, [], ◌∷◌, ◌++◌, if◌then◌else◌,
  arith, length, take, drop, ltb, ◌==◌,
}
use alpaca_connectors.Execution.Orders.Types.{OrderRecord, OrderStatus}
use alpaca_connectors.Execution.Persist.{same_uid, records_from_batch}
use alpaca_connectors.Execution.Services.{load_account_registration}
use alpaca_connectors.Execution.Services.Calls.{load_account_registration-Within}
use alpaca_connectors.Execution.Services.Safety.{Anything, Nothing, silent}
use alpaca_connectors.Execution.Effects.{Batch, ExecutionDependencies, Action, pure, try_ask, ◌>>=◌}
use alpaca_connectors.Execution.Effects.Within.{Within, within_rules}

pub record ListedOrder : Type 0 where
  pub order : OrderRecord
  pub batch_id : String
  pub batch_status : OrderStatus

-- The key of the first is below that of the second: by time, then by identifier.
abbrev pub is_older : Batch → Batch → Bool
is_older a b =
    if ltb a.target_time b.target_time
    then true
    else if a.target_time == b.target_time
    then elim (compare a.unique_identifier b.unique_identifier) [ Ordering.lt ↦ true | _ ↦ false ]
    else false

abbrev insert_batch : Batch → List Batch → List Batch
insert_batch b [] = b ∷ []
insert_batch b (c ∷ cs) = if is_older b c then c ∷ insert_batch b cs else b ∷ c ∷ cs

-- `sorted(..., reverse=True)`
unfoldable pub newest_batches : List Batch → List Batch
newest_batches [] = []
newest_batches (b ∷ bs) = insert_batch b (newest_batches bs)

abbrev pub orders_of : Batch → List OrderRecord → List ListedOrder
orders_of batch [] = []
orders_of batch (r ∷ rs) =
    record { order = r; batch_id = batch.unique_identifier; batch_status = batch.status }
    ∷ orders_of batch rs

unfoldable pub orders_of_all : List Batch → List ListedOrder
orders_of_all [] = []
orders_of_all (batch ∷ batches) =
    orders_of batch (records_from_batch batch) ++ orders_of_all batches

-- The one batch that is asked for, if it is the account's.
abbrev pub own_batches : String → Option Batch → List Batch
own_batches account_uid none = []
own_batches account_uid (some batch) =
    if same_uid batch.target_account_uid account_uid then batch ∷ [] else []

module _ (deps : ExecutionDependencies) where
  open deps use {State}

  unfoldable pub list_batches_of : String → Option String → Action State (List Batch)
  list_batches_of account_uid none = do
    found ← try_ask (deps.list_batches account_uid)
    pure (newest_batches found)
  list_batches_of account_uid (some batch_id) = do
    found ← try_ask (deps.get_batch batch_id)
    pure (own_batches account_uid found)

  -- `list_account_orders`
  unfoldable pub list_account_orders :
      String → Option String → ℕ → ℕ → Action State (List ListedOrder × ℕ)
  list_account_orders account_uid batch_id limit offset = do
    _ ← load_account_registration deps account_uid
    batches ← list_batches_of account_uid batch_id
    let items = orders_of_all batches
    pure (take limit (drop offset items), length items)

-- The times of the batches do not rise along the list.
abbrev pub IsNewestFirst : List Batch → Type 0
IsNewestFirst [] = Unit
IsNewestFirst (b ∷ []) = Unit
IsNewestFirst (b ∷ c ∷ cs) = (c.target_time ≤ b.target_time) × IsNewestFirst (c ∷ cs)

insert_batch-IsNewestFirst :
    (b : Batch) (bs : List Batch) → IsNewestFirst bs → IsNewestFirst (insert_batch b bs)
insert_batch-IsNewestFirst b [] h = tt
insert_batch-IsNewestFirst b (c ∷ []) h = ground arith
insert_batch-IsNewestFirst b (c ∷ d ∷ bs) h = ground (arith, insert_batch-IsNewestFirst b (d ∷ bs))

-- The batches are listed newest first.
pub newest_batches-IsNewestFirst : (bs : List Batch) → IsNewestFirst (newest_batches bs)
unfolding newest_batches
newest_batches-IsNewestFirst [] = tt
newest_batches-IsNewestFirst (b ∷ bs) =
    insert_batch-IsNewestFirst b _ (newest_batches-IsNewestFirst bs)

module _ (deps : ExecutionDependencies) where
  list_batches_of-Within :
      (account_uid : String) (batch_id : Option String)
      → Within Nothing Anything (list_batches_of deps account_uid batch_id)
  unfolding list_batches_of
  list_batches_of-Within account_uid none = search within_rules depth 8
  list_batches_of-Within account_uid (some batch_id) = search within_rules depth 8

  list_account_orders-Within :
      (account_uid : String) (batch_id : Option String) (limit offset : ℕ)
      → Within Nothing Anything (list_account_orders deps account_uid batch_id limit offset)
  unfolding list_account_orders
  list_account_orders-Within account_uid batch_id limit offset =
      search
        (
          within_rules,
          load_account_registration-Within deps {P = Nothing} {E = Anything} tt tt,
          list_batches_of-Within,
        )
        depth 8

  -- To list orders makes no call that is recorded: Alpaca is asked for nothing and nothing is written.
  pub list_account_orders_silent :
      (account_uid : String) (batch_id : Option String) (limit offset : ℕ) (s : deps.State)
      → (list_account_orders deps account_uid batch_id limit offset s).1 ≡ []
  list_account_orders_silent account_uid batch_id limit offset s =
      silent _ ((list_account_orders-Within account_uid batch_id limit offset).calls s)
