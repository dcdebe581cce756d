-- ===== src/Prelude/Uuids.antt =====
-- `uuid.UUID(text)`: the 128-bit number that a text stands for, or none where Python raises
-- ValueError. Signs, blanks, `0x` and `_` between the 32 digits, which Python's `int` would still
-- read, are refused here.
pub mod Printed
use Prim.Native.Nat.{ℕ, zero, suc, ◌+◌, ◌-◌, ◌*◌, ◌/◌, ◌%◌}
use Prim.Native.Char.{Char, code}
use Prim.Native.String.{String, char_at}
use mathlib.Core.Bool.{Bool, true, false, ◌&&◌, ◌||◌}
use mathlib.Core.List.{List, [], ◌∷◌}
use mathlib.Core.Option.{Option, none, some}
use alpaca_connectors.Prelude.Tests.{leb, ◌==◌, if◌then◌else◌}
use alpaca_connectors.Prelude.Text.{is_empty, text_length}

abbrev pub Uuid : Type 0
Uuid = ℕ

-- `s.startswith(sub)`
begins : String → String → Bool
begins s String.[] = true
begins String.[] (String.◌∷◌ d sub) = false
begins (String.◌∷◌ c s) (String.◌∷◌ d sub) = (code c == code d) && begins s sub

-- `s.replace(sub, "")`; the number counts the characters of a match that are still to go.
unfoldable pub remove : String → ℕ → String → String
unfolding begins
remove sub k String.[] = String.[]
remove sub (suc k) (String.◌∷◌ c s) = remove sub k s
remove sub zero (String.◌∷◌ c s) =
    let found = begins (String.◌∷◌ c s) sub in
    let rest = remove sub (if found then text_length sub - 1 else 0) s in
    if found then rest else String.◌∷◌ c rest

abbrev is_brace : Char → Bool
is_brace c = (code c == b'{') || (code c == b'}')

drop_braces : String → String
drop_braces String.[] = String.[]
drop_braces (String.◌∷◌ c s) = if is_brace c then drop_braces s else String.◌∷◌ c s

drop_braces_end : String → String
drop_braces_end String.[] = String.[]
drop_braces_end (String.◌∷◌ c s) =
    let rest = drop_braces_end s in
    if is_brace c && is_empty rest then String.[] else String.◌∷◌ c rest

-- The value of a hexadecimal digit.
hex_digit : ℕ → Option ℕ
hex_digit c =
    if leb b'0' c && leb c b'9'
    then some (c - b'0')
    else if leb b'a' c && leb c b'f'
    then some (c - b'a' + 10)
    else if leb b'A' c && leb c b'F'
    then some (c - b'A' + 10)
    else none

-- `int(digits, 16)`
hex_value : ℕ → String → Option ℕ
hex_value acc String.[] = some acc
hex_value acc (String.◌∷◌ c s) = elim (hex_digit (code c)) [
  | none ↦ none
  | some d ↦ hex_value (acc * 16 + d) s
]

-- The digits as a number, if they are 32.
read_digits : String → Option ℕ
unfolding hex_value
read_digits digits = if text_length digits == 32 then hex_value 0 digits else none

unfoldable pub parse_uuid : String → Option Uuid
unfolding remove begins drop_braces drop_braces_end read_digits hex_value hex_digit
parse_uuid text =
    read_digits
      (remove "-" 0 (drop_braces_end (drop_braces (remove "uuid:" 0 (remove "urn:" 0 text)))))

-- The last `k` hexadecimal digits of a number, before those given.
digits_of : ℕ → ℕ → List ℕ → List ℕ
digits_of zero n ds = ds
digits_of (suc k) n ds = digits_of k (n / 16) (n % 16 ∷ ds)

abbrev hex_char : ℕ → Char
hex_char d = char_at "0123456789abcdef" d

-- The digits with a dash before the ninth, the 13th, the 17th and the 21st.
abbrev has_dash : ℕ → Bool
has_dash i = i == 8 || (i == 12 || (i == 16 || i == 20))

print_digits : ℕ → List ℕ → String
print_digits i [] = String.[]
print_digits i (d ∷ ds) =
    let rest = String.◌∷◌ (hex_char d) (print_digits (i + 1) ds) in
    if has_dash i then String.◌∷◌ (char_at "-" 0) rest else rest

-- `str(uuid)`
unfoldable pub print_uuid : Uuid → String
unfolding print_digits digits_of
print_uuid uid = print_digits 0 (digits_of 32 uid [])
