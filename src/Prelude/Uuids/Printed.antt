-- ===== src/Prelude/Uuids/Printed.antt =====
-- A UUID that is printed is read again.
use Prim.Native.Nat.{ℕ, zero, suc, ◌+◌, ◌*◌, ◌^◌, ◌/◌, ◌%◌, ◌<◌}
use Prim.Native.Char.{Char, code}
use Prim.Native.String.{String, char_at}
use mathlib.Core.Path.{◌≡◌, refl, ap, subst, ◌∙◌}
use mathlib.Core.Bool.{Bool, true, false, not, ◌&&◌}
use mathlib.Core.Logic.{inl, inr}
use mathlib.Core.Option.{Option, none, some}
use mathlib.Core.List.{List, [], ◌∷◌}
use native.Mathlib.Omega.{arith}
use alpaca_connectors.Prelude.Tests.{◌==◌, if◌then◌else◌, Bool-cases}
use alpaca_connectors.Prelude.Lists.{All, length}
use alpaca_connectors.Prelude.Text.{text_length}
use alpaca_connectors.Prelude.Uuids.{
  Uuid, begins, remove, is_brace, drop_braces, drop_braces_end, hex_digit, hex_value, read_digits,
  parse_uuid, digits_of, hex_char, has_dash, print_digits, print_uuid,
}

-- A test of all numbers below a bound.
all_below : ℕ → (ℕ → Bool) → Bool
all_below zero f = true
all_below (suc n) f = f n && all_below n f

both : (a b : Bool) → a && b ≡ true → (a ≡ true) × (b ≡ true)
both true b h = (refl, h)
both false b h = cc

all_below_lem : (n : ℕ) (f : ℕ → Bool) → all_below n f ≡ true → (d : ℕ) → d < n → f d ≡ true
unfolding all_below
all_below_lem zero f h d k = absurd (omega arith)
all_below_lem (suc n) f h d k =
    let (here, below) = both (f n) (all_below n f) h in
    elim (Bool-cases (d == n)) [
      | inl e ↦ rw (same d n e) here
      | inr e ↦ all_below_lem n f below d (ground arith)
    ]
  where
    same : (d n : ℕ) → (d == n) ≡ true → d ≡ n
    same d n e = ground arith

-- No brace, and not the first letter of `urn:` and `uuid:`.
abbrev is_plain : Char → Bool
is_plain c = not (code c == b'u') && not (is_brace c)

abbrev reads_as : ℕ → Option ℕ → Bool
reads_as d none = false
reads_as d (some e) = e == d

not-true : (b : Bool) → not b ≡ true → b ≡ false
not-true true h = cc
not-true false h = refl

plain_parts : (c : Char) → is_plain c ≡ true → ((code c == b'u') ≡ false) × (is_brace c ≡ false)
plain_parts c h =
    let (u, brace) = both (not (code c == b'u')) (not (is_brace c)) h in
    (not-true _ u, not-true _ brace)

reads_some : (d : ℕ) (o : Option ℕ) → reads_as d o ≡ true → o ≡ some d
reads_some d none h = cc
reads_some d (some e) h = ap some (same e d h)
  where
    same : (a b : ℕ) → (a == b) ≡ true → a ≡ b
    same a b e = ground arith

-- What is needed of the character of a digit.
abbrev is_printed : ℕ → Bool
is_printed d =
    is_plain (hex_char d)
    && (not (code (hex_char d) == b'-') && reads_as d (hex_digit (code (hex_char d))))

all_printed : all_below 16 is_printed ≡ true
unfolding all_below hex_digit
all_printed = refl

record Printed (d : ℕ) : Type 0 where
  plain : is_plain (hex_char d) ≡ true
  no_dash : (code (hex_char d) == b'-') ≡ false
  digit : hex_digit (code (hex_char d)) ≡ some d

digit-Printed : (d : ℕ) → d < 16 → Printed d
digit-Printed d h =
    let (plain, rest) =
      both (is_plain (hex_char d))
        (not (code (hex_char d) == b'-') && reads_as d (hex_digit (code (hex_char d))))
        (all_below_lem 16 is_printed all_printed d h) in
    let (no_dash, digit) =
      both (not (code (hex_char d) == b'-')) (reads_as d (hex_digit (code (hex_char d)))) rest in
    record { plain = plain; no_dash = not-true _ no_dash; digit = reads_some d _ digit }

abbrev all_chars : (Char → Bool) → String → Bool
all_chars f String.[] = true
all_chars f (String.◌∷◌ c s) = f c && all_chars f s

abbrev hex_text : List ℕ → String
hex_text [] = String.[]
hex_text (d ∷ ds) = String.◌∷◌ (hex_char d) (hex_text ds)

abbrev IsDigit : ℕ → Type 0
IsDigit d = d < 16

abbrev value : ℕ → List ℕ → ℕ
value acc [] = acc
value acc (d ∷ ds) = value (acc * 16 + d) ds

abbrev pow : ℕ → ℕ
pow zero = 1
pow (suc k) = 16 * pow k

value-digits_of : (k n : ℕ) (ds : List ℕ) → n < pow k → value 0 (digits_of k n ds) ≡ value n ds
unfolding digits_of
value-digits_of zero n ds h = ap (λ m. value m ds) (omega arith)
value-digits_of (suc k) n ds h =
    value-digits_of k (n / 16) (n % 16 ∷ ds) (omega arith) ∙ ap (λ m. value m ds) (omega arith)

digits_of-IsDigit : (k n : ℕ) (ds : List ℕ) → All IsDigit ds → All IsDigit (digits_of k n ds)
unfolding digits_of
digits_of-IsDigit zero n ds h = h
digits_of-IsDigit (suc k) n ds h = digits_of-IsDigit k (n / 16) _ (omega arith, h)

length-digits_of : (k n : ℕ) (ds : List ℕ) → length (digits_of k n ds) ≡ k + length ds
unfolding digits_of
length-digits_of zero n ds = omega arith
length-digits_of (suc k) n ds = length-digits_of k (n / 16) (n % 16 ∷ ds) ∙ omega arith

print_digits-plain :
    (i : ℕ) (ds : List ℕ) → All IsDigit ds → all_chars is_plain (print_digits i ds) ≡ true
unfolding print_digits
print_digits-plain i [] h = refl
print_digits-plain i (d ∷ ds) h =
    let plain = (digit-Printed d h.0).plain in
    elim (Bool-cases (has_dash i)) [
      | inl e ↦ rw (e, plain, print_digits-plain (i + 1) ds h.1) refl
      | inr e ↦ rw (e, plain, print_digits-plain (i + 1) ds h.1) refl
    ]

remove_plain :
    (sub s : String) → all_chars is_plain s ≡ true → remove (String.◌∷◌ (char_at "u" 0) sub) 0 s ≡ s
unfolding remove begins
remove_plain sub String.[] h = refl
remove_plain sub (String.◌∷◌ c s) h =
    let (plain, rest) = both (is_plain c) (all_chars is_plain s) h in
    let (u, _) = plain_parts c plain in rw u (ap (String.◌∷◌ c) (remove_plain sub s rest))

drop_braces_plain : (s : String) → all_chars is_plain s ≡ true → drop_braces s ≡ s
unfolding drop_braces
drop_braces_plain String.[] h = refl
drop_braces_plain (String.◌∷◌ c s) h =
    let (plain, rest) = both (is_plain c) (all_chars is_plain s) h in
    let (_, brace) = plain_parts c plain in rw brace refl

drop_braces_end_plain : (s : String) → all_chars is_plain s ≡ true → drop_braces_end s ≡ s
unfolding drop_braces_end
drop_braces_end_plain String.[] h = refl
drop_braces_end_plain (String.◌∷◌ c s) h =
    let (plain, rest) = both (is_plain c) (all_chars is_plain s) h in
    let (_, brace) = plain_parts c plain in
    rw brace (ap (String.◌∷◌ c) (drop_braces_end_plain s rest))

remove_digit :
    (d : ℕ) (s : String)
    → Printed d
    → remove "-" 0 (String.◌∷◌ (hex_char d) s) ≡ String.◌∷◌ (hex_char d) (remove "-" 0 s)
unfolding remove begins
remove_digit d s h = rw h.no_dash refl

remove_dashes :
    (i : ℕ) (ds : List ℕ) → All IsDigit ds → remove "-" 0 (print_digits i ds) ≡ hex_text ds
unfolding remove begins print_digits
remove_dashes i [] h = refl
remove_dashes i (d ∷ ds) h = elim (Bool-cases (has_dash i)) [
  | inl e ↦ rw e (
      remove_digit d (print_digits (i + 1) ds) (digit-Printed d h.0)
      ∙ ap (String.◌∷◌ (hex_char d)) (remove_dashes (i + 1) ds h.1))
  | inr e ↦ rw e (
      remove_digit d (print_digits (i + 1) ds) (digit-Printed d h.0)
      ∙ ap (String.◌∷◌ (hex_char d)) (remove_dashes (i + 1) ds h.1))
]

length-hex_text : (ds : List ℕ) → text_length (hex_text ds) ≡ length ds
length-hex_text [] = refl
length-hex_text (d ∷ ds) = ap suc (length-hex_text ds)

step_value : ℕ → String → Option ℕ → Option ℕ
unfolding hex_value
step_value acc s o = elim o [ none ↦ none | some d ↦ hex_value (acc * 16 + d) s ]

hex_value-step :
    (acc : ℕ) (c : Char) (s : String)
    → hex_value acc (String.◌∷◌ c s) ≡ step_value acc s (hex_digit (code c))
unfolding hex_value step_value
hex_value-step acc c s = refl

hex_value-hex_text :
    (acc : ℕ) (ds : List ℕ) → All IsDigit ds → hex_value acc (hex_text ds) ≡ some (value acc ds)
unfolding hex_value step_value
hex_value-hex_text acc [] h = refl
hex_value-hex_text acc (d ∷ ds) h =
    ap (step_value acc (hex_text ds)) (digit-Printed d h.0).digit
    ∙ hex_value-hex_text (acc * 16 + d) ds h.1

read_long : (digits : String) → text_length digits ≡ 32 → read_digits digits ≡ hex_value 0 digits
unfolding read_digits
read_long digits h = rw h refl

-- A UUID below 2¹²⁸ that is printed is read again.
pub parse_uuid-print_uuid : (uid : Uuid) → uid < 2 ^ 128 → parse_uuid (print_uuid uid) ≡ some uid
unfolding parse_uuid print_uuid read_digits
parse_uuid-print_uuid uid h =
    let ds = digits_of 32 uid [] in
    let digits = digits_of-IsDigit 32 uid [] tt in
    let plain = print_digits-plain 0 ds digits in
    let text = print_digits 0 ds in
    let urn = ap (remove "uuid:" 0) (remove_plain "rn:" text plain) in
    let uuid = urn ∙ remove_plain "uid:" text plain in
    let open_braces = ap drop_braces uuid ∙ drop_braces_plain text plain in
    let bare = ap drop_braces_end open_braces ∙ drop_braces_end_plain text plain in
    let hex = ap (remove "-" 0) bare ∙ remove_dashes 0 ds digits in
    let long = length-hex_text ds ∙ length-digits_of 32 uid [] in
    ap read_digits hex
    ∙ read_long (hex_text ds) long
    ∙ hex_value-hex_text 0 ds digits
    ∙ ap some (value-digits_of 32 uid [] h)

hex_digit-below : (c d : ℕ) → hex_digit c ≡ some d → d < 16
unfolding hex_digit
hex_digit-below c d h = ground arith

step_below :
    (acc : ℕ) (s : String) (n : ℕ) (o : Option ℕ) (c : ℕ)
    → hex_digit c ≡ o
    → ((d : ℕ) → hex_value (acc * 16 + d) s ≡ some n → n < (acc * 16 + d + 1) * pow (text_length s))
    → step_value acc s o ≡ some n
    → n < (acc + 1) * (16 * pow (text_length s))
unfolding step_value
step_below acc s n none c e ih h = cc
step_below acc s n (some d) c e ih h =
    room acc d n (pow (text_length s)) (hex_digit-below c d e) (ih d h)
  where
    room : (acc d n p : ℕ) → d < 16 → n < (acc * 16 + d + 1) * p → n < (acc + 1) * (16 * p)
    room acc d n p small below = grind arith

hex_value-below :
    (acc : ℕ) (s : String) (n : ℕ) → hex_value acc s ≡ some n → n < (acc + 1) * pow (text_length s)
unfolding hex_value step_value
hex_value-below acc String.[] n h = ground arith
hex_value-below acc (String.◌∷◌ c s) n h =
    step_below acc s n (hex_digit (code c)) (code c) refl
      (λ d k. hex_value-below (acc * 16 + d) s n k) h

read_digits-below : (digits : String) (n : ℕ) → read_digits digits ≡ some n → n < 2 ^ 128
unfolding read_digits
read_digits-below digits n h = long (text_length digits == 32) refl h
  where
    long :
        (b : Bool)
        → (text_length digits == 32) ≡ b
        → (if b then hex_value 0 digits else none) ≡ some n
        → n < 2 ^ 128
    long false e h = cc
    long true e h =
        subst (λ k. n < 1 * pow k) (eq_32 (text_length digits) e) (hex_value-below 0 digits n h)
      where
        eq_32 : (k : ℕ) → (k == 32) ≡ true → k ≡ 32
        eq_32 k e = ground arith

-- What is read as a UUID is below 2¹²⁸.
pub parse_uuid_below : (text : String) (uid : Uuid) → parse_uuid text ≡ some uid → uid < 2 ^ 128
unfolding parse_uuid
parse_uuid_below text uid h =
    read_digits-below
      (remove "-" 0 (drop_braces_end (drop_braces (remove "uuid:" 0 (remove "urn:" 0 text))))) uid h
