-- ===== src/Wasm/Rlp.antt =====
-- src/wasm/index.ts: the RLP encoding of EVM transactions.
pub mod Digits
pub mod Reader
pub mod RoundTrip
use eto_mcp.Prelude.{
  false, Bool, ℕ, zero, suc, ◌+◌, ◌/◌, ◌%◌, List, [], ◌∷◌, ◌++◌, length, ltb, leb, ◌==◌,
  if◌then◌else◌,
}
use eto_mcp.Prelude.Text.{hex_bytes}

abbrev pub hex_digit : ℕ → ℕ
hex_digit v = if ltb v 10 then b'0' + v else 87 + v

-- `n.toString(16)` for a positive bigint, on fuel: n digits are more than enough.
unfoldable pub base16 : ℕ → ℕ → List ℕ
base16 zero n = []
base16 (suc fuel) n =
    let rest = base16 fuel (n / 16) in if n == 0 then [] else rest ++ hex_digit (n % 16) ∷ []

-- `hex.length % 2 === 0 ? hex : "0" + hex`
abbrev pub even_digits : List ℕ → List ℕ
even_digits hex = if length hex % 2 == 0 then hex else b'0' ∷ hex

unfoldable pub bigint_to_be_bytes : ℕ → List ℕ
bigint_to_be_bytes n = if n == 0 then [] else hex_bytes (even_digits (base16 n n))

-- A string that is its own encoding: one byte below 0x80.
abbrev pub is_single : List ℕ → Bool
is_single (b ∷ []) = ltb b 0x80
is_single _ = false

unfoldable pub rlp_encode_item : List ℕ → List ℕ
rlp_encode_item bytes =
    let len_bytes = bigint_to_be_bytes (length bytes) in
    if length bytes == 0
    then 0x80 ∷ []
    else if is_single bytes
    then bytes
    else if leb (length bytes) 55
    then (0x80 + length bytes) ∷ bytes
    else (0xb7 + length len_bytes) ∷ (len_bytes ++ bytes)

unfoldable pub rlp_encode_int : ℕ → List ℕ
rlp_encode_int n = rlp_encode_item (bigint_to_be_bytes n)

-- `items.flat()`
abbrev pub flat : List (List ℕ) → List ℕ
flat [] = []
flat (item ∷ items) = item ++ flat items

unfoldable pub rlp_encode_list : List (List ℕ) → List ℕ
rlp_encode_list items =
    let bytes = flat items in
    let len_bytes = bigint_to_be_bytes (length bytes) in
    if leb (length bytes) 55
    then (0xc0 + length bytes) ∷ bytes
    else (0xf7 + length len_bytes) ∷ (len_bytes ++ bytes)
