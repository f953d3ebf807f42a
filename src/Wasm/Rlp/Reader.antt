-- ===== src/Wasm/Rlp/Reader.antt =====
-- A reader of RLP strings and of lists of strings, as the Ethereum yellow paper defines them: what
-- the encoders of src/wasm/index.ts are measured by.
use eto_mcp.Prelude.{
  ℕ, zero, suc, ◌-◌, Option, none, some, List, [], ◌∷◌, ltb, leb, length, take, drop, if◌then◌else◌,
}
use eto_mcp.Wasm.Rlp.Digits.{be_value}

abbrev pub split_at : ℕ → List ℕ → Option (List ℕ × List ℕ)
split_at n bytes = if leb n (length bytes) then some (take n bytes, drop n bytes) else none

-- A length of `size` bytes, and then so many bytes.
abbrev pub sized : ℕ → List ℕ → Option (List ℕ × List ℕ)
sized size bytes = split_at (be_value 0 (take size bytes)) (drop size bytes)

-- One string, and what follows it.
unfoldable pub rlp_read_item : List ℕ → Option (List ℕ × List ℕ)
rlp_read_item [] = none
rlp_read_item (b ∷ bytes) =
    if ltb b 0x80
    then some (b ∷ [], bytes)
    else if leb b 0xb7
    then split_at (b - 0x80) bytes
    else if leb b 0xbf
    then sized (b - 0xb7) bytes
    else none

-- Strings up to the end; each takes a byte at least, so that the length is fuel enough.
unfoldable pub rlp_read_items : ℕ → List ℕ → Option (List (List ℕ))
rlp_read_items fuel [] = some []
rlp_read_items zero (b ∷ bytes) = none
rlp_read_items (suc fuel) (b ∷ bytes) = elim (rlp_read_item (b ∷ bytes)) [
  | none ↦ none
  | some (item, rest) ↦ elim (rlp_read_items fuel rest) [
    | none ↦ none
    | some items ↦ some (item ∷ items)
  ]
]

abbrev pub payload_of : List ℕ → Option (List ℕ × List ℕ)
payload_of [] = none
payload_of (b ∷ bytes) =
    if ltb b 0xc0
    then none
    else if leb b 0xf7
    then split_at (b - 0xc0) bytes
    else sized (b - 0xf7) bytes

-- A list of strings, and what follows it.
unfoldable pub rlp_read_list : List ℕ → Option (List (List ℕ) × List ℕ)
rlp_read_list bytes = elim (payload_of bytes) [
  | none ↦ none
  | some (payload, rest) ↦ elim (rlp_read_items (length payload) payload) [
    | none ↦ none
    | some items ↦ some (items, rest)
  ]
]
