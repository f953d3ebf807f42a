-- ===== src/Issuers/Base58.antt =====
-- `base58Decode` of src/issuers/civic.ts: a text of base 58 digits as big endian bytes.
pub mod Value
pub mod Digits
pub mod Injectivity
mod Tests
use eto_mcp.Prelude.{
  ℕ, zero, suc, ◌+◌, ◌*◌, ◌/◌, ◌%◌, Option, some, none, map, List, [], ◌∷◌, ◌++◌, String,
  if◌then◌else◌, ltb, ◌==◌,
}
use eto_mcp.Prelude.Text.{codes}

abbrev pub base58_alphabet : String
base58_alphabet = "123456789ABCDEFGHJKLMNPQRSTUVWXYZabcdefghijkmnopqrstuvwxyz"

abbrev pub after_first : Option ℕ → Option ℕ
after_first none = none
after_first (some v) = some (suc v)

abbrev pub index_in : List ℕ → ℕ → Option ℕ
index_in [] c = none
index_in (a ∷ letters) c =
    let rest = index_in letters c in if a == c then some 0 else after_first rest

-- `BASE58_LOOKUP[c]`
unfoldable pub base58_lookup : ℕ → Option ℕ
base58_lookup c = index_in (codes base58_alphabet) c

-- `while (carry > 0) { bytes.push(carry & 0xff); carry >>= 8; }`, on fuel.
abbrev pub push_carry : ℕ → ℕ → List ℕ
push_carry zero carry = []
push_carry (suc fuel) carry =
    let rest = push_carry fuel (carry / 256) in if ltb 0 carry then (carry % 256) ∷ rest else []

-- One digit: the bytes, low ones first, times 58 plus the carry. A carry is fuel enough for itself.
unfoldable pub add_digit : ℕ → List ℕ → List ℕ
add_digit carry [] = push_carry carry carry
add_digit carry (b ∷ bytes) = let sum = carry + b * 58 in (sum % 256) ∷ add_digit (sum / 256) bytes

unfoldable pub add_digits : List ℕ → List ℕ → Option (List ℕ)
add_digits [] bytes = some bytes
add_digits (c ∷ cs) bytes = elim (base58_lookup c) [
  | none ↦ none
  | some v ↦ add_digits cs (add_digit v bytes)
]

-- A zero byte for each `1` in front, and what follows them.
abbrev pub leading : List ℕ → List ℕ × List ℕ
leading [] = ([], [])
leading (c ∷ cs) = let rest = leading cs in if c == b'1' then (0 ∷ rest.0, rest.1) else ([], c ∷ cs)

abbrev pub reversed : List ℕ → List ℕ
reversed [] = []
reversed (b ∷ bytes) = reversed bytes ++ b ∷ []

abbrev pub with_zeros : List ℕ → Option (List ℕ) → Option (List ℕ)
with_zeros zeros none = none
with_zeros zeros (some bytes) = some (zeros ++ reversed bytes)

unfoldable pub base58_decode : String → Option (List ℕ)
base58_decode s = let split = leading (codes s) in with_zeros split.0 (add_digits split.1 [])
