-- ===== src/Prelude/Text.antt =====
-- Texts: the tests that the source makes on strings, and their bytes.
use Prim.Native.Char.{Char, code}
use Prim.Native.Nat.{ℕ, ◌+◌, ◌-◌, ◌*◌, ◌/◌, ◌%◌}
use Prim.Native.String.{String, char_at}
use mathlib.Core.Bool.{Bool, true, false, not, ◌&&◌, ◌||◌}
use mathlib.Core.Option.{Option, none, some}
use mathlib.Core.List.{List, [], ◌∷◌, ◌++◌, map}
pub use text.Mathlib.Text.{◌==◌ as str_eq}
pub use text.Mathlib.TextEquality.{eq_iff as str_eq_iff}
use eto_mcp.Prelude.Tests.{ltb, leb, ◌==◌, if◌then◌else◌}
use eto_mcp.Prelude.Lists.{length, all}

-- The code points of a text.
abbrev pub codes : String → List ℕ
codes String.[] = []
codes (String.◌∷◌ c s) = code c ∷ codes s

-- `!s` on a string.
abbrev pub is_empty : String → Bool
is_empty s = str_eq s ""

-- `!!s` on an optional string.
abbrev pub is_present : Option String → Bool
is_present none = false
is_present (some s) = not (is_empty s)

-- `/[0-9a-fA-F]/`
unfoldable pub is_hex_digit : ℕ → Bool
is_hex_digit c =
    (leb b'0' c && leb c b'9') || ((leb b'a' c && leb c b'f') || (leb b'A' c && leb c b'F'))

-- `/^[0-9a-fA-F]{64}$/`
unfoldable pub is_hex64 : String → Bool
unfolding is_hex_digit
is_hex64 s = (length (codes s) == 64) && all is_hex_digit (codes s)

-- `String.prototype.toLowerCase` on ASCII; other characters are left as they are.
abbrev pub lower_code : ℕ → ℕ
lower_code c = if leb b'A' c && leb c b'Z' then c + 32 else c

unfoldable pub lower_case : String → List ℕ
lower_case s = map lower_code (codes s)

-- The same as a text.
abbrev pub to_lower_case : String → String
to_lower_case String.[] = ""
to_lower_case (String.◌∷◌ c s) =
    let rest = to_lower_case s in
    let letter = char_at "abcdefghijklmnopqrstuvwxyz" (code c - b'A') in
    if leb b'A' (code c) && leb (code c) b'Z' then String.◌∷◌ letter rest else String.◌∷◌ c rest

-- `s.startsWith(prefix)`, on code points
abbrev pub starts_with : List ℕ → List ℕ → Bool
starts_with cs [] = true
starts_with [] (d ∷ ds) = false
starts_with (c ∷ cs) (d ∷ ds) = (c == d) && starts_with cs ds

-- `Buffer.from(s, "utf8")`, one code point at a time.
abbrev utf8_code : ℕ → List ℕ
utf8_code c =
    if ltb c 0x80
    then c ∷ []
    else if ltb c 0x800
    then (0xc0 + c / 0x40) ∷ (0x80 + c % 0x40) ∷ []
    else if ltb c 0x10000
    then (0xe0 + c / 0x1000) ∷ (0x80 + c / 0x40 % 0x40) ∷ (0x80 + c % 0x40) ∷ []
    else (0xf0 + c / 0x40000)
      ∷ (0x80 + c / 0x1000 % 0x40)
      ∷ (0x80 + c / 0x40 % 0x40)
      ∷ (0x80 + c % 0x40)
      ∷ []

abbrev utf8_codes : List ℕ → List ℕ
utf8_codes [] = []
utf8_codes (c ∷ cs) = utf8_code c ++ utf8_codes cs

unfoldable pub utf8 : String → List ℕ
utf8 s = utf8_codes (codes s)

-- The value of a hexadecimal digit.
unfoldable pub hex_value : ℕ → ℕ
hex_value c = if leb c b'9' then c - b'0' else if leb b'a' c then c - 87 else c - 55

-- `Buffer.from(s, "hex")` on the code points of a text: decoding stops at the first pair that is
-- not two hexadecimal digits.
unfoldable pub hex_bytes : List ℕ → List ℕ
unfolding is_hex_digit hex_value
hex_bytes [] = []
hex_bytes (a ∷ []) = []
hex_bytes (a ∷ b ∷ cs) =
    let rest = hex_bytes cs in
    if is_hex_digit a && is_hex_digit b then (hex_value a * 16 + hex_value b) ∷ rest else []

-- `Buffer.from(bytes).toString("hex")`
abbrev hex_letter : ℕ → Char
hex_letter v = char_at "0123456789abcdef" v

unfoldable pub to_hex : List ℕ → String
to_hex [] = ""
to_hex (b ∷ bytes) =
    String.◌∷◌ (hex_letter (b / 16)) (String.◌∷◌ (hex_letter (b % 16)) (to_hex bytes))
