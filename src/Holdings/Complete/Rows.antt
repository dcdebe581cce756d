-- ===== src/Holdings/Complete/Rows.antt =====
-- The rows that `src/alpaca_connectors/holdings/account.py` builds are those of the positions and of
-- the cash, and a position without an asset is noticed.
use alpaca_connectors.Prelude.{
  ℕ, ◌≡◌, refl, ◌⊎◌, inl, inr, String, Bool, true, false, Option, none, some, List, [], ◌∷◌, ◌++◌,
  if◌then◌else◌, arith, ℤ, pos, abs, ltb_ℤ, is_empty, ◌≢◌, ◌||◌, Bool-cases, ◌==◌,
}
use alpaca_connectors.Holdings.Rows.{
  Position, HoldingsRow, is_short, quantity_of, is_zero, filled, position_rows, cash_rows,
  add_position, long, short, position_details, cash_details, position_row, cash_row, sorted_set,
  insert_text, build_account_holdings_rows,
}

-- The row of a position: its asset, the size of its quantity, and short if the side says so or the
-- quantity is negative.
pub record IsRowOf (resolve_asset : Position → Option String) (p : Position) (row : HoldingsRow)
    : Type 0 where
  pub asset : resolve_asset p ≡ some row.asset_identifier
  pub named : is_empty row.asset_identifier ≡ false
  pub quantity : row.quantity ≡ abs (quantity_of p)
  pub direction :
      row.direction ≡ (if is_short p.side || ltb_ℤ (quantity_of p) (pos 0) then short else long)
  pub details : row.extra_details ≡ position_details p

-- The row of the cash: none without a currency or an amount other than zero.
abbrev pub IsCash : String → Option ℤ → List HoldingsRow → Type 0
IsCash currency none rows = rows ≡ []
IsCash currency (some amount) rows =
    (((is_empty currency ≡ true) ⊎ (abs amount ≡ 0)) × (rows ≡ []))
    ⊎ ((row : HoldingsRow) × (rows ≡ row ∷ [])
        × (row.asset_identifier ≡ currency)
        × (row.quantity ≡ abs amount)
        × (row.direction ≡ (if ltb_ℤ amount (pos 0) then short else long))
        × (row.extra_details ≡ cash_details)
        × (abs amount ≢ 0))

-- The rows, in order, are those of the positions with a quantity other than zero, each of which has
-- an asset, and then that of the cash.
abbrev pub IsComplete :
    (Position → Option String) → List Position → Option ℤ → String → List HoldingsRow → Type 0
IsComplete resolve_asset [] cash currency rows = IsCash currency cash rows
IsComplete resolve_asset (p ∷ ps) cash currency rows =
    ((abs (quantity_of p) ≡ 0) × IsComplete resolve_asset ps cash currency rows)
    ⊎ ((row : HoldingsRow) × (rest : List HoldingsRow) × (rows ≡ row ∷ rest)
        × (abs (quantity_of p) ≢ 0)
        × IsRowOf resolve_asset p row
        × IsComplete resolve_asset ps cash currency rest)

-- A position with a quantity has no asset.
abbrev pub HasUnresolved : (Position → Option String) → List Position → Type 0
HasUnresolved resolve_asset [] = ⊥
HasUnresolved resolve_asset (p ∷ ps) =
    ((abs (quantity_of p) ≢ 0) × (filled (resolve_asset p) ≡ none)) ⊎ HasUnresolved resolve_asset ps

insert_text-not_nil : (t : String) (us : List String) → insert_text t us ≡ [] → ⊥
insert_text-not_nil t [] h = cc
insert_text-not_nil t (u ∷ us) h = ground arith

sorted_set-nil : (ts : List String) → sorted_set ts ≡ [] → ts ≡ []
unfolding sorted_set
sorted_set-nil [] h = refl
sorted_set-nil (t ∷ ts) h = absurd (insert_text-not_nil t (sorted_set ts) h)

eq_zero : (n : ℕ) → (n == 0) ≡ true → n ≡ 0
eq_zero n h = ground arith

ne_zero : (n : ℕ) → (n == 0) ≡ false → n ≢ 0
ne_zero n h e = ground arith

filled-some :
    (o : Option String) (text : String)
    → filled o ≡ some text
    → (o ≡ some text) × (is_empty text ≡ false)
filled-some none text h = cc
filled-some (some t) text h = elim (Bool-cases (is_empty t)) [
  | inl e ↦ absurd (empty t text e h)
  | inr e ↦ kept t text e h
]
  where
    empty : (t text : String) → is_empty t ≡ true → filled (some t) ≡ some text → ⊥
    empty t text e h = ground arith

    kept :
        (t text : String)
        → is_empty t ≡ false
        → filled (some t) ≡ some text
        → (◌≡◌ {A = Option String} (some t) (some text)) × (is_empty text ≡ false)
    kept t text e h = ground arith

cash_rows-IsCash :
    (currency : String) (cash : Option ℤ)
    → IsCash currency cash (cash_rows (filled (some currency)) cash)
cash_rows-IsCash currency none = elim (Bool-cases (is_empty currency)) [
  | inl e ↦ rw e refl
  | inr e ↦ rw e refl
]
cash_rows-IsCash currency (some amount) = elim (Bool-cases (is_empty currency)) [
  | inl e ↦ rw e (inl (inl refl, refl))
  | inr e ↦ rw e (elim (Bool-cases (is_zero amount)) [
    | inl z ↦ rw z (inl (inr (eq_zero _ z), refl))
    | inr z ↦ rw z (inr (cash_row currency amount, refl, refl, refl, refl, refl, ne_zero _ z))
  ])
]

-- One round of the loop that leaves nothing unresolved.
round-IsComplete :
    (resolve_asset : Position → Option String) (cash : Option ℤ) (currency : String) (p : Position)
    (ps : List Position) (rest : List HoldingsRow × List String) (last : List HoldingsRow)
    (zero : Bool) (o : Option String)
    → is_zero (quantity_of p) ≡ zero
    → filled (resolve_asset p) ≡ o
    → (if zero then rest else add_position p o rest).1 ≡ []
    → (rest.1 ≡ [] → IsComplete resolve_asset ps cash currency (rest.0 ++ last))
    → IsComplete resolve_asset
        (p ∷ ps)
        cash
        currency
        ((if zero then rest else add_position p o rest).0 ++ last)
round-IsComplete resolve_asset cash currency p ps rest last true o hz ho h k =
    inl (eq_zero _ hz, k h)
round-IsComplete resolve_asset cash currency p ps rest last false (some id) hz ho h k = inr (
  position_row p id,
  rest.0 ++ last,
  refl,
  ne_zero _ hz,
  record {
    asset = (filled-some _ id ho).0;
    named = (filled-some _ id ho).1;
    quantity = refl;
    direction = refl;
    details = refl;
  },
  k h,
)
round-IsComplete resolve_asset cash currency p ps rest last false none hz ho h k = cc

positions-IsComplete :
    (resolve_asset : Position → Option String) (cash : Option ℤ) (currency : String)
    (positions : List Position)
    → (position_rows resolve_asset positions).1 ≡ []
    → IsComplete resolve_asset positions cash currency
        ((position_rows resolve_asset positions).0 ++ cash_rows (filled (some currency)) cash)
unfolding position_rows
positions-IsComplete resolve_asset cash currency [] h = cash_rows-IsCash currency cash
positions-IsComplete resolve_asset cash currency (p ∷ ps) h =
    round-IsComplete resolve_asset cash currency p ps (position_rows resolve_asset ps) _
      (is_zero (quantity_of p)) (filled (resolve_asset p)) refl refl h
      (positions-IsComplete resolve_asset cash currency ps)

-- A round that leaves a name has found a position without an asset, or a round after it has.
round-HasUnresolved :
    (resolve_asset : Position → Option String) (p : Position) (ps : List Position)
    (rest : List HoldingsRow × List String) (zero : Bool) (o : Option String)
    → is_zero (quantity_of p) ≡ zero
    → filled (resolve_asset p) ≡ o
    → (if zero then rest else add_position p o rest).1 ≢ []
    → (rest.1 ≢ [] → HasUnresolved resolve_asset ps)
    → HasUnresolved resolve_asset (p ∷ ps)
round-HasUnresolved resolve_asset p ps rest true o hz ho h k = inr (k h)
round-HasUnresolved resolve_asset p ps rest false (some id) hz ho h k = inr (k h)
round-HasUnresolved resolve_asset p ps rest false none hz ho h k = inl (ne_zero _ hz, ho)

positions-HasUnresolved :
    (resolve_asset : Position → Option String) (positions : List Position)
    → (position_rows resolve_asset positions).1 ≢ []
    → HasUnresolved resolve_asset positions
unfolding position_rows
positions-HasUnresolved resolve_asset [] h = h refl
positions-HasUnresolved resolve_asset (p ∷ ps) h =
    round-HasUnresolved resolve_asset p ps (position_rows resolve_asset ps)
      (is_zero (quantity_of p)) (filled (resolve_asset p)) refl refl h
      (positions-HasUnresolved resolve_asset ps)

pub built-IsComplete :
    (resolve_asset : Position → Option String) (positions : List Position) (cash : Option ℤ)
    (currency : String)
    → (build_account_holdings_rows resolve_asset positions cash (some currency)).1 ≡ []
    → IsComplete resolve_asset positions cash currency
        (build_account_holdings_rows resolve_asset positions cash (some currency)).0
unfolding build_account_holdings_rows
built-IsComplete resolve_asset positions cash currency h =
    positions-IsComplete resolve_asset cash currency positions (sorted_set-nil _ h)

pub built-HasUnresolved :
    (resolve_asset : Position → Option String) (positions : List Position) (cash : Option ℤ)
    (currency : String)
    → (build_account_holdings_rows resolve_asset positions cash (some currency)).1 ≢ []
    → HasUnresolved resolve_asset positions
unfolding build_account_holdings_rows sorted_set
built-HasUnresolved resolve_asset positions cash currency h =
    positions-HasUnresolved resolve_asset positions (λ e. h (rw e refl))
