-- ===== src/MarketData/Bars/Periods.antt =====
-- The periods of bars of `src/alpaca_connectors/market_data/alpaca_bars_support.py`.
use alpaca_connectors.Prelude.{
  ℕ, ◌+◌, ◌%◌, ◌≤◌, ◌<◌, ◌≡◌, refl, sym, ap, subst, String, true, Option, none, some, arith, str_eq,
  eq_iff, lookup, get_or_else, ◌∙◌, Bool-cases, inl, inr,
}
use alpaca_connectors.MarketData.Bars.{
  Time, normalize_frequency_id, frequency_id_to_timedelta, timedelta_of, current_period_start,
  period_start, timedeltas,
}

-- The moment is in the period of this length that starts at `start`, and the start is a multiple of
-- the length.
abbrev pub StartsPeriod : Time → ℕ → Time → Type 0
StartsPeriod now length start = (start ≤ now) × (now < start + length) × (start % length ≡ 0)

-- The period of a moment at a frequency whose length is known.
abbrev pub HasPeriod : Time → String → ℕ → Type 0
HasPeriod now name length =
    (start : Time) × (period_start now (some name) ≡ some start) × StartsPeriod now length start

at_name :
    (now : Time) (name known : String) (length known_length start : ℕ)
    → str_eq known name ≡ true
    → lookup known timedeltas ≡ some known_length
    → period_start now (some known) ≡ some start
    → StartsPeriod now known_length start
    → lookup name timedeltas ≡ some length
    → HasPeriod now name length
at_name now name known length known_length start e p q s h = (
  start,
  ap (λ x. period_start now (some x)) (sym same) ∙ q,
  subst (λ x. StartsPeriod now x start)
      (ap (λ o. get_or_else o 0) (sym p ∙ (ap (λ x. lookup x timedeltas) same ∙ h))) s,
)
  where
    same : known ≡ name
    same = ground (arith, eq_iff known name)

name-HasPeriod :
    (now : Time) (name : String) (length : ℕ)
    → lookup name timedeltas ≡ some length
    → HasPeriod now name length
name-HasPeriod now name length h = elim (Bool-cases (str_eq "1m" name)) [
  | inl e ↦ at_name now name "1m" length _ _ e refl refl (omega arith) h
  | inr a ↦ elim (Bool-cases (str_eq "5m" name)) [
    | inl e ↦ at_name now name "5m" length _ _ e refl refl (omega arith) h
    | inr b ↦ elim (Bool-cases (str_eq "15m" name)) [
      | inl e ↦ at_name now name "15m" length _ _ e refl refl (omega arith) h
      | inr c ↦ elim (Bool-cases (str_eq "30m" name)) [
        | inl e ↦ at_name now name "30m" length _ _ e refl refl (omega arith) h
        | inr d ↦ elim (Bool-cases (str_eq "1h" name)) [
          | inl e ↦ at_name now name "1h" length _ _ e refl refl (omega arith) h
          | inr f ↦ elim (Bool-cases (str_eq "1d" name)) [
            | inl e ↦ at_name now name "1d" length _ _ e refl refl (omega arith) h
            | inr g ↦ absurd (ground arith)
          ]
        ]
      ]
    ]
  ]
]

-- For every frequency that has a length, the current period has a start: a multiple of the length,
-- not after the moment, and less than one length before it.
pub current_period_start_lem :
    (now : Time) (frequency : String) (length : ℕ)
    → frequency_id_to_timedelta frequency ≡ some length
    → (start : Time) × (current_period_start now frequency ≡ some start)
      × StartsPeriod now length start
unfolding frequency_id_to_timedelta current_period_start
current_period_start_lem now frequency length h = go (normalize_frequency_id frequency) h
  where
    go :
        (o : Option String)
        → timedelta_of o ≡ some length
        → (start : Time) × (period_start now o ≡ some start) × StartsPeriod now length start
    go none h = absurd (ground arith)
    go (some name) h = name-HasPeriod now name length h
