-- ===== src/Prelude/Text.antt =====
-- Python's `str` operations that the connector uses, over native texts. Case and white space are
-- those of ASCII.
use Prim.Native.Nat.{ℕ, zero, suc, ◌-◌}
use Prim.Native.Char.{Char, code}
use Prim.Native.String.{String, char_at}
use text.Mathlib.Text.{◌==◌ as str_eq}
use mathlib.Core.Bool.{Bool, true, false, ◌&&◌, ◌||◌}
use mathlib.Core.List.{List, [], ◌∷◌}
use alpaca_connectors.Prelude.Tests.{leb, if◌then◌else◌}

abbrev pub is_empty : String → Bool
is_empty String.[] = true
is_empty (String.◌∷◌ _ _) = false

-- `text in collection`
abbrev pub contains : List String → String → Bool
contains [] s = false
contains (t ∷ ts) s = str_eq s t || contains ts s

lower_char : Char → Char
lower_char c =
    if leb b'A' (code c) && leb (code c) b'Z'
    then char_at "abcdefghijklmnopqrstuvwxyz" (code c - b'A')
    else c

upper_char : Char → Char
upper_char c =
    if leb b'a' (code c) && leb (code c) b'z'
    then char_at "ABCDEFGHIJKLMNOPQRSTUVWXYZ" (code c - b'a')
    else c

-- `str.lower`
unfoldable pub lower : String → String
unfolding lower_char
lower String.[] = String.[]
lower (String.◌∷◌ c s) = String.◌∷◌ (lower_char c) (lower s)

-- `str.upper`
unfoldable pub upper : String → String
unfolding upper_char
upper String.[] = String.[]
upper (String.◌∷◌ c s) = String.◌∷◌ (upper_char c) (upper s)

-- Tab to carriage return, the four separators, and the blank.
abbrev pub is_space : Char → Bool
is_space c = (leb 9 (code c) && leb (code c) 13) || (leb 28 (code c) && leb (code c) 32)

unfoldable pub lstrip : String → String
lstrip String.[] = String.[]
lstrip (String.◌∷◌ c s) = if is_space c then lstrip s else String.◌∷◌ c s

unfoldable pub rstrip : String → String
rstrip String.[] = String.[]
rstrip (String.◌∷◌ c s) =
    let rest = rstrip s in if is_space c && is_empty rest then String.[] else String.◌∷◌ c rest

-- `str.strip`
unfoldable pub strip : String → String
unfolding lstrip rstrip
strip s = rstrip (lstrip s)

-- What `s.strip().lower()` gives.
unfoldable pub folded : String → String
unfolding strip lower
folded s = lower (strip s)

-- Every run of blanks becomes one blank; the flag says that a blank has just been kept.
unfoldable pub squeeze : Bool → String → String
squeeze after String.[] = String.[]
squeeze after (String.◌∷◌ c s) =
    let rest = squeeze (is_space c) s in
    if is_space c
    then (if after then rest else String.◌∷◌ (char_at " " 0) rest)
    else String.◌∷◌ c rest

-- `" ".join(s.split())`
unfoldable pub join_words : String → String
unfolding strip squeeze
join_words s = squeeze false (strip s)

-- `len(s)`
abbrev pub text_length : String → ℕ
text_length String.[] = zero
text_length (String.◌∷◌ c s) = suc (text_length s)

-- `s[:n]`
unfoldable pub head_chars : ℕ → String → String
head_chars zero s = String.[]
head_chars (suc n) String.[] = String.[]
head_chars (suc n) (String.◌∷◌ c s) = String.◌∷◌ c (head_chars n s)

-- `s[n:]`
unfoldable pub drop_chars : ℕ → String → String
drop_chars zero s = s
drop_chars (suc n) String.[] = String.[]
drop_chars (suc n) (String.◌∷◌ c s) = drop_chars n s
