-- ===== src/Portfolios/Valid/Values.antt =====
-- The checks of single values of `src/alpaca_connectors/portfolios/configurations.py`, and what a
-- value that passes them is.
use alpaca_connectors.Prelude.{
  eq_iff, both_true, leb→le, text_length, is_empty, not, negsuc, ◌≤◌, ◌<◌, if◌then◌else◌, ℕ, ◌≡◌,
  refl, String, Bool, true, false, List, str_eq, contains, ltb_ℤ, ℤ, pos, strip, folded, arith,
}
use alpaca_connectors.Actions.{ok, raise}
use alpaca_connectors.Actions.Checked.{Passes, Passes-ok, Passes-bind, Passes-test, Passes-raise}
use alpaca_connectors.Portfolios.Checks.{
  value_error, fits, nonempty, phase_one_value, one_of, rebalance_strategies, rebalance_events,
  rebalance_cadences, normalize_rebalance_strategy, normalize_rebalance_event,
  normalize_rebalance_cadence, is_weekday, rebalance_weekday, positive_seconds, Float, nan,
  infinity, minus_infinity, finite, below_zero, commission,
}

abbrev pub Fits : ℕ → String → Type 0
Fits maximum text = (is_empty text ≡ false) × (text_length text ≤ maximum)

abbrev pub OneOf : List String → String → Type 0
OneOf values text = contains values text ≡ true

abbrev pub IsPhaseOne : String → String → Type 0
IsPhaseOne expected text = text ≡ expected

abbrev pub IsWeekday : ℤ → Type 0
IsWeekday (pos day) = day ≤ 6
IsWeekday (negsuc _) = ⊥

abbrev pub IsPositive : ℤ → Type 0
IsPositive (pos n) = 0 < n
IsPositive (negsuc _) = ⊥

-- A fee that is not below zero, as NaN is not.
abbrev pub IsNotBelowZero : Float → Type 0
IsNotBelowZero nan = Unit
IsNotBelowZero infinity = Unit
IsNotBelowZero minus_infinity = ⊥
IsNotBelowZero (finite amount) = ltb_ℤ amount (pos 0) ≡ false

below_zero-IsNotBelowZero : (fee : Float) → below_zero fee ≡ false → IsNotBelowZero fee
below_zero-IsNotBelowZero nan h = tt
below_zero-IsNotBelowZero infinity h = tt
below_zero-IsNotBelowZero minus_infinity h = cc
below_zero-IsNotBelowZero (finite amount) h = h

not-true : (b : Bool) → not b ≡ true → b ≡ false
not-true true h = cc
not-true false h = refl

fits-Fits : (maximum : ℕ) (text : String) → fits maximum text ≡ true → Fits maximum text
fits-Fits maximum text h =
    let (some_text, short) = both_true _ _ h in (not-true _ some_text, leb→le _ _ short)

is_weekday-IsWeekday : (day : ℤ) → is_weekday day ≡ true → IsWeekday day
is_weekday-IsWeekday (pos day) h = ground arith
is_weekday-IsWeekday (negsuc day) h = ground arith

ltb-IsPositive : (n : ℤ) → ltb_ℤ (pos 0) n ≡ true → IsPositive n
ltb-IsPositive (pos n) h = ground arith
ltb-IsPositive (negsuc n) h = ground arith

pub nonempty-Fits : (maximum : ℕ) (value : String) → Passes (Fits maximum) (nonempty maximum value)
unfolding nonempty
nonempty-Fits maximum value =
    Passes-test (fits maximum (strip value)) (strip value) value_error
      (fits-Fits maximum (strip value))

pub phase_one_value-IsPhaseOne :
    (expected : String) (maximum : ℕ) (value : String)
    → Passes (IsPhaseOne expected) (phase_one_value expected maximum value)
unfolding phase_one_value
phase_one_value-IsPhaseOne expected maximum value =
    Passes-bind _ _ (nonempty-Fits maximum value)
      (λ text h. Passes-test (str_eq text expected) text value_error (λ same. (eq_iff _ _).0 same))

one_of-OneOf : (values : List String) (text : String) → Passes (OneOf values) (one_of values text)
one_of-OneOf values text = Passes-test (contains values text) text value_error (λ h. h)

pub strategy-OneOf :
    (value : String) → Passes (OneOf rebalance_strategies) (normalize_rebalance_strategy value)
unfolding normalize_rebalance_strategy
strategy-OneOf value = one_of-OneOf rebalance_strategies (folded value)

pub event-OneOf :
    (value : String) → Passes (OneOf rebalance_events) (normalize_rebalance_event value)
unfolding normalize_rebalance_event
event-OneOf value = one_of-OneOf rebalance_events (folded value)

pub cadence-OneOf :
    (value : String) → Passes (OneOf rebalance_cadences) (normalize_rebalance_cadence value)
unfolding normalize_rebalance_cadence
cadence-OneOf value = one_of-OneOf rebalance_cadences (folded value)

pub rebalance_weekday-IsWeekday : (value : ℤ) → Passes IsWeekday (rebalance_weekday value)
unfolding rebalance_weekday
rebalance_weekday-IsWeekday value =
    Passes-test (is_weekday value) value value_error (is_weekday-IsWeekday value)

pub seconds-IsPositive : (value : ℤ) → Passes IsPositive (positive_seconds value)
unfolding positive_seconds
seconds-IsPositive value =
    Passes-test (ltb_ℤ (pos 0) value) value value_error (ltb-IsPositive value)

not_below :
    (b : Bool) (P : Float → Type 0) (fee : Float)
    → (b ≡ false → P fee)
    → Passes P (if b then raise value_error else ok fee)
not_below true P fee h = Passes-raise value_error
not_below false P fee h = Passes-ok fee (h refl)

pub commission-IsNotBelowZero : (fee : Float) → Passes IsNotBelowZero (commission fee)
unfolding commission
commission-IsNotBelowZero fee =
    not_below (below_zero fee) IsNotBelowZero fee (below_zero-IsNotBelowZero fee)

pub commission_given-IsNotBelowZero :
    (fee : Float) → Passes (λ _. IsNotBelowZero fee) (commission fee)
unfolding commission
commission_given-IsNotBelowZero fee =
    not_below (below_zero fee) (λ _. IsNotBelowZero fee) fee (below_zero-IsNotBelowZero fee)
