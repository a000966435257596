-- ===== src/Base/Text.antt =====
-- Template strings: composite keys and decimal numerals.
use Prim.Native.Nat.{ℕ, zero, suc, ◌/◌, ◌%◌}
use Prim.Native.Char.{code}
use Prim.Native.String.{String, ◌++◌}
use mathlib.Core.Bool.{Bool, true, false, ◌&&◌, ◌||◌}
use mathlib.Core.List.{[], ◌∷◌}
use mathlib.Core.Option.{Option, none, some}
use text.Mathlib.Text.{◌==◌ as str_eq}
use cylizerapp.Base.Tests.{◌==◌, leb, or_default, if◌then◌else◌}
use cylizerapp.Base.Lists.{get_elem?}

abbrev pub concat : String → String → String
concat a b = a ++ b

-- `${a}:${b}` and `${a}:${b}:${c}`.
abbrev pub key2 : String → String → String
key2 a b = a ++ (":" ++ b)

abbrev pub key3 : String → String → String → String
key3 a b c = a ++ (":" ++ (b ++ (":" ++ c)))

-- A text that counts as true: present and not empty.
abbrev pub truthy : Option String → Option String
truthy none = none
truthy (some text) = if str_eq text "" then none else some text

-- `found === text`, where `found` may be absent.
abbrev pub text_is : Option String → String → Bool
text_is none text = false
text_is (some found) text = str_eq found text

digit : ℕ → String
digit n =
    or_default (get_elem? ("0" ∷ "1" ∷ "2" ∷ "3" ∷ "4" ∷ "5" ∷ "6" ∷ "7" ∷ "8" ∷ "9" ∷ []) n) ""

-- `String(n).padStart(width, "0")`: at least `width` digits; `fuel` bounds their number.
unfoldable pub pad_decimal : ℕ → ℕ → ℕ → String
unfolding digit
pad_decimal zero width n = ""
pad_decimal (suc fuel) zero n = elim (n == 0) [
  | true ↦ ""
  | false ↦ pad_decimal fuel zero (n / 10) ++ digit (n % 10)
]
pad_decimal (suc fuel) (suc width) n = pad_decimal fuel width (n / 10) ++ digit (n % 10)

-- A lower-case hexadecimal digit, by its code point.
abbrev is_hex : ℕ → Bool
is_hex c = leb b'0' c && leb c b'9' || leb b'a' c && leb c b'f'

hex_length : String → Bool → ℕ → Bool × ℕ
hex_length String.[] good n = (good, n)
hex_length (String.◌∷◌ c s) good n = hex_length s (good && is_hex (code c)) (suc n)

-- `/^[0-9a-f]{64}$/.test(text)`.
unfoldable pub is_sha256_hex : String → Bool
unfolding hex_length
is_sha256_hex text = (hex_length text true 0).0 && (hex_length text true 0).1 == 64
