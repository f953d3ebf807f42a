-- ===== src/Wasm/Rlp/RoundTrip.antt =====
-- src/wasm/index.ts: what `rlpEncodeItem` and `rlpEncodeList` write is read back.
use eto_mcp.Prelude.{
  ℕ, zero, suc, ◌+◌, ◌-◌, ◌^◌, ◌<◌, ◌≤◌, ◌≡◌, refl, some, List, [], ◌∷◌, ◌++◌, map, length,
  length-append, take-append, drop-append, All, ltb, leb, le→ltb, leb→le, le→leb, lt→leb, ltb→lt,
  Bool-cases, inl, inr, arith,
}
use eto_mcp.Wasm.Rlp.{bigint_to_be_bytes, rlp_encode_item, rlp_encode_list, flat}
use eto_mcp.Wasm.Rlp.Digits.{be_value, be_value-bigint_to_be_bytes, length-bigint_to_be_bytes}
use eto_mcp.Wasm.Rlp.Reader.{
  split_at, sized, payload_of, rlp_read_item, rlp_read_items, rlp_read_list,
}
use mathlib.Core.List.{append_assoc, append-nil}

split_at-append : (xs rest : List ℕ) → split_at (length xs) (xs ++ rest) ≡ some (xs, rest)
split_at-append xs rest =
    ground (arith, length-append xs rest, take-append xs rest, drop-append xs rest)

sized-append :
    (xs rest : List ℕ)
    → sized
        (length (bigint_to_be_bytes (length xs)))
        (bigint_to_be_bytes (length xs) ++ (xs ++ rest))
      ≡ some (xs, rest)
sized-append xs rest =
    rw
      (
        take-append (bigint_to_be_bytes (length xs)) (xs ++ rest),
        drop-append (bigint_to_be_bytes (length xs)) (xs ++ rest),
        be_value-bigint_to_be_bytes (length xs),
      )
      (split_at-append xs rest)

-- A length of more than 55 takes a byte at least.
positive : (n : ℕ) (xs : List ℕ) → be_value 0 xs ≡ n → 55 < n → 1 ≤ length xs
unfolding be_value
positive n [] e h = omega arith
positive n (x ∷ xs) e h = omega arith

len_bytes_bounds :
    (n : ℕ)
    → 55 < n
    → n < 2 ^ 64
    → (1 ≤ length (bigint_to_be_bytes n)) × (length (bigint_to_be_bytes n) ≤ 8)
len_bytes_bounds n h k = (
  positive n (bigint_to_be_bytes n) (be_value-bigint_to_be_bytes n) h,
  length-bigint_to_be_bytes n k,
)

-- The three forms of a string.
read_single : (b : ℕ) (rest : List ℕ) → b < 0x80 → rlp_read_item (b ∷ rest) ≡ some (b ∷ [], rest)
unfolding rlp_read_item
read_single b rest h = ground arith

read_short :
    (xs rest : List ℕ)
    → length xs ≤ 55
    → rlp_read_item ((0x80 + length xs) ∷ (xs ++ rest)) ≡ some (xs, rest)
unfolding rlp_read_item
read_short xs rest h =
    let same : 0x80 + length xs - 0x80 ≡ length xs = omega arith in
    ground (arith, same, split_at-append xs rest)

read_long :
    (xs rest : List ℕ)
    → 55 < length xs
    → length xs < 2 ^ 64
    → rlp_read_item (
        (0xb7 + length (bigint_to_be_bytes (length xs)))
        ∷ (bigint_to_be_bytes (length xs) ++ (xs ++ rest)))
      ≡ some (xs, rest)
unfolding rlp_read_item
read_long xs rest h k =
    let (lo, hi) = len_bytes_bounds (length xs) h k in
    let size = length (bigint_to_be_bytes (length xs)) in
    let same : 0xb7 + size - 0xb7 ≡ size = omega arith in
    rw
      (
        le→ltb (0xb7 + size) 0x80 (omega arith),
        lt→leb (0xb7 + size) 0xb7 (omega arith),
        le→leb (0xb7 + size) 0xbf (omega arith),
        same,
      )
      (sized-append xs rest)

encode_short :
    (b c : ℕ) (bytes : List ℕ)
    → length (b ∷ c ∷ bytes) ≤ 55
    → rlp_encode_item (b ∷ c ∷ bytes) ≡ (0x80 + length (b ∷ c ∷ bytes)) ∷ b ∷ c ∷ bytes
unfolding rlp_encode_item
encode_short b c bytes h = ground arith

encode_long :
    (b c : ℕ) (bytes : List ℕ)
    → 55 < length (b ∷ c ∷ bytes)
    → rlp_encode_item (b ∷ c ∷ bytes)
      ≡ (0xb7 + length (bigint_to_be_bytes (length (b ∷ c ∷ bytes))))
        ∷ (bigint_to_be_bytes (length (b ∷ c ∷ bytes)) ++ b ∷ c ∷ bytes)
unfolding rlp_encode_item
encode_long b c bytes h = ground arith

-- What `rlpEncodeItem` writes is read back, whatever follows it.
pub rlp_read_item-rlp_encode_item :
    (bytes rest : List ℕ)
    → length bytes < 2 ^ 64
    → rlp_read_item (rlp_encode_item bytes ++ rest) ≡ some (bytes, rest)
unfolding rlp_encode_item
rlp_read_item-rlp_encode_item [] rest h = read_short [] rest (omega arith)
rlp_read_item-rlp_encode_item (b ∷ []) rest h = elim (Bool-cases (ltb b 0x80)) [
  | inl z ↦ rw z (read_single b rest (ltb→lt b 0x80 z))
  | inr z ↦ rw z (read_short (b ∷ []) rest (omega arith))
]
rlp_read_item-rlp_encode_item (b ∷ c ∷ bytes) rest h =
    elim (Bool-cases (leb (length (b ∷ c ∷ bytes)) 55)) [
      | inl z ↦
          let few = leb→le _ _ z in
          rw (encode_short b c bytes few) (read_short (b ∷ c ∷ bytes) rest few)
      | inr z ↦
          let many : 55 < length (b ∷ c ∷ bytes) = ground arith in
          rw (encode_long b c bytes many, append_assoc) (read_long (b ∷ c ∷ bytes) rest many h)
    ]

-- An encoded string is not empty.
length-rlp_encode_item : (bytes : List ℕ) → 1 ≤ length (rlp_encode_item bytes)
unfolding rlp_encode_item
length-rlp_encode_item [] = omega arith
length-rlp_encode_item (b ∷ []) = ground arith
length-rlp_encode_item (b ∷ c ∷ bytes) = ground arith

abbrev pub IsSized : List ℕ → Type 0
IsSized bytes = length bytes < 2 ^ 64

read_items_step :
    (fuel : ℕ) (written bytes rest : List ℕ) (items : List (List ℕ))
    → 1 ≤ length written
    → rlp_read_item (written ++ rest) ≡ some (bytes, rest)
    → rlp_read_items fuel rest ≡ some items
    → rlp_read_items (suc fuel) (written ++ rest) ≡ some (bytes ∷ items)
unfolding rlp_read_items
read_items_step fuel [] bytes rest items p h e = absurd (omega arith)
read_items_step fuel (b ∷ written) bytes rest items p h e = rw (h, e, rlp_read_items)

read_items :
    (items : List (List ℕ)) (fuel : ℕ)
    → All IsSized items
    → length (flat (map rlp_encode_item items)) ≤ fuel
    → rlp_read_items fuel (flat (map rlp_encode_item items)) ≡ some items
read_items [] fuel h k = unfold rlp_read_items in refl
read_items (item ∷ items) zero h k = absurd (
    omega (
      arith,
      length-rlp_encode_item item,
      length-append (rlp_encode_item item) (flat (map rlp_encode_item items)),
    ))
read_items (item ∷ items) (suc fuel) (p, h) k =
    let later = flat (map rlp_encode_item items) in
    let some_bytes = length-rlp_encode_item item in
    let bound : length later ≤ fuel = omega (arith, length-append (rlp_encode_item item) later) in
    read_items_step fuel (rlp_encode_item item) item later items some_bytes
      (rlp_read_item-rlp_encode_item item later p) (read_items items fuel h bound)

-- The two forms of a list.
payload_short :
    (xs : List ℕ) → length xs ≤ 55 → payload_of ((0xc0 + length xs) ∷ xs) ≡ some (xs, [])
payload_short xs h =
    let same : 0xc0 + length xs - 0xc0 ≡ length xs = omega arith in
    let whole : split_at (length xs) xs ≡ some (xs, []) =
      rw append-nil at (split_at-append xs []) in
    rw
      (
        le→ltb (0xc0 + length xs) 0xc0 (omega arith),
        le→leb (0xc0 + length xs) 0xf7 (omega arith),
        same,
      )
      whole

payload_long :
    (xs : List ℕ)
    → 55 < length xs
    → length xs < 2 ^ 64
    → payload_of
        ((0xf7 + length (bigint_to_be_bytes (length xs))) ∷ (bigint_to_be_bytes (length xs) ++ xs))
      ≡ some (xs, [])
payload_long xs h k =
    let (lo, hi) = len_bytes_bounds (length xs) h k in
    let size = length (bigint_to_be_bytes (length xs)) in
    let same : 0xf7 + size - 0xf7 ≡ size = omega arith in
    let whole = rw append-nil at (sized-append xs []) in
    rw (le→ltb (0xf7 + size) 0xc0 (omega arith), lt→leb (0xf7 + size) 0xf7 (omega arith), same)
      whole

payload-encode :
    (items : List (List ℕ))
    → length (flat items) < 2 ^ 64
    → payload_of (rlp_encode_list items) ≡ some (flat items, [])
unfolding rlp_encode_list
payload-encode items h = elim (Bool-cases (leb (length (flat items)) 55)) [
  | inl z ↦ rw z (payload_short (flat items) (leb→le _ _ z))
  | inr z ↦ rw z (payload_long (flat items) (ground arith) h)
]

-- What `rlpEncodeList` writes for encoded strings is read back as those strings, and nothing is
-- left. No string and not the whole list is 2^64 bytes long.
pub rlp_read_list-rlp_encode_list :
    (items : List (List ℕ))
    → All IsSized items
    → length (flat (map rlp_encode_item items)) < 2 ^ 64
    → rlp_read_list (rlp_encode_list (map rlp_encode_item items)) ≡ some (items, [])
unfolding rlp_read_list
rlp_read_list-rlp_encode_list items h k = rw (
  payload-encode (map rlp_encode_item items) k,
  rlp_read_list,
  read_items items (length (flat (map rlp_encode_item items))) h (omega arith),
)
