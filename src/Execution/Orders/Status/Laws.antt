-- ===== src/Execution/Orders/Status/Laws.antt =====
-- What the order states of `src/alpaca_connectors/execution/orders.py` come to: reading one Alpaca
-- order twice, the status of a batch, and the test for whole shares.
use alpaca_connectors.Prelude.{
  not, if◌then◌else◌, all, false, ◌∙◌, sym, ℕ, ◌*◌, ◌≤◌, ◌≡◌, refl, String, Bool, true, Option,
  none, some, List, [], ◌∷◌, pos, arith, or_else, any,
}
use alpaca_connectors.Execution.Orders.Types.{
  OrderStatus, filled, terminal, submitted, partially_filled, same_status, OrderRecord, AlpacaOrder,
}
use alpaca_connectors.Execution.Orders.Status.{
  share, is_whole_quantity, text_or, order_record_from_alpaca, statuses, settled_status,
  batch_status, has_fill,
}

or_else_old {ℓ} : {A : Type ℓ} (a b : Option A) → or_else a (or_else a b) ≡ or_else a b
or_else_old none b = refl
or_else_old (some a) b = refl

or_else_new {ℓ} : {A : Type ℓ} (a b : Option A) → or_else (or_else a b) b ≡ or_else a b
or_else_new (some a) b = refl
or_else_new none none = refl
or_else_new none (some b) = refl

text_or_old : (new : String) (old : Option String) → text_or new (text_or new old) ≡ text_or new old
text_or_old new old = ground arith

-- To apply one Alpaca order to a record twice is to apply it once.
pub order_record_from_alpaca_twice :
    (r : OrderRecord) (order : AlpacaOrder)
    → order_record_from_alpaca (order_record_from_alpaca r order) order
      ≡ order_record_from_alpaca r order
unfolding order_record_from_alpaca
order_record_from_alpaca_twice r order = simp (or_else_old, or_else_new, text_or_old)

-- The test takes every quantity of 5·10⁸ shares or more for a whole number of shares, whatever its
-- fraction.
pub is_whole_quantity_large : (n : ℕ) → 500000000 * share ≤ n → is_whole_quantity (pos n) ≡ true
unfolding is_whole_quantity
is_whole_quantity_large n h = ground arith

abbrev pub is_filled : OrderStatus → Bool
is_filled s = same_status s filled

-- What `statuses` has, the records have.
same_status_sound : (s t : OrderStatus) → same_status s t ≡ true → s ≡ t
same_status_sound s t h = ground arith

any-statuses :
    (p : OrderStatus → Bool) (rs : List OrderRecord)
    → any p (statuses rs) ≡ any (λ r. p r.status) rs
unfolding statuses
any-statuses p [] = refl
any-statuses p (r ∷ rs) = ground (arith, any-statuses p rs, any_seen p r.status (statuses rs))
  where
    any_seen :
        (p : OrderStatus → Bool) (s : OrderStatus) (seen : List OrderStatus)
        → any (same_status s) seen ≡ true
        → p s ≡ true
        → any p seen ≡ true
    any_seen p s [] h k = cc
    any_seen p s (t ∷ seen) h k = ground (arith, same_status_sound s t, any_seen p s seen)

abbrev pub not_filled : OrderStatus → Bool
not_filled s = not (is_filled s)

settled_filled :
    (s : OrderStatus) (seen : List OrderStatus) (fills : Bool)
    → settled_status (s ∷ seen) fills ≡ filled
    → any not_filled (s ∷ seen) ≡ false
unfolding settled_status
settled_filled s [] fills h = ground arith
settled_filled s (t ∷ seen) fills h = absurd (ground arith)

-- A batch that counts as filled has filled orders only.
pub batch_status_filled :
    (r : OrderRecord) (rs : List OrderRecord)
    → batch_status (r ∷ rs) ≡ filled
    → any (λ q. not_filled q.status) (r ∷ rs) ≡ false
unfolding batch_status
batch_status_filled r rs h =
    sym (any-statuses not_filled (r ∷ rs))
    ∙ filled_set (statuses (r ∷ rs)) (any has_fill (r ∷ rs))
        (closed (all terminal (r ∷ rs)) (any has_fill (r ∷ rs)) _ h)
  where
    closed :
        (done fills : Bool) (settled : OrderStatus)
        → (if not done then if fills then partially_filled else submitted else settled) ≡ filled
        → settled ≡ filled
    closed done fills settled h = ground arith

    filled_set :
        (seen : List OrderStatus) (fills : Bool)
        → settled_status seen fills ≡ filled
        → any not_filled seen ≡ false
    filled_set [] fills h = refl
    filled_set (s ∷ seen) fills h = settled_filled s seen fills h
