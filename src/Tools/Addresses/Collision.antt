-- ===== src/Tools/Addresses/Collision.antt =====
-- The derived addresses of src/tools depend on the first bytes of the seed only.
use eto_mcp.Prelude.{
  take-within, ℕ, zero, suc, ◌+◌, ◌-◌, ◌%◌, ◌≤◌, ◌<◌, ◌≡◌, refl, sym, ◌∙◌, ap, List, [], ◌∷◌, ◌++◌,
  String, length, Bool-cases, length-append, take, ltb, inl, inr, arith,
}
use eto_mcp.Prelude.Text.{utf8}
use eto_mcp.Wasm.{Encode58}
use eto_mcp.Wasm.Bytes.{zeros}
use eto_mcp.Wasm.Decode.{byte_at}
use native.Mathlib.Nat.{mod-eq_of_lt}
use mathlib.Core.List.{append_assoc}
use eto_mcp.Tools.Addresses.{mixed, mixed_byte, combine, derive_tool_address}

byte_at-take : (i n : ℕ) (xs : List ℕ) → i < n → byte_at i (take n xs) ≡ byte_at i xs
byte_at-take i zero xs h = absurd (omega arith)
byte_at-take i (suc n) [] h = refl
byte_at-take zero (suc n) (x ∷ xs) h = refl
byte_at-take (suc i) (suc n) (x ∷ xs) h = byte_at-take i n xs (omega arith)

same_byte : (i n : ℕ) (xs ys : List ℕ) → i < n → take n xs ≡ take n ys → byte_at i xs ≡ byte_at i ys
same_byte i n xs ys h e = sym (byte_at-take i n xs h) ∙ ap (byte_at i) e ∙ byte_at-take i n ys h

same_mixed_byte :
    (offset i m : ℕ) (xs ys : List ℕ)
    → i + offset < m
    → m ≤ length xs
    → m ≤ length ys
    → take m xs ≡ take m ys
    → mixed_byte offset xs i ≡ mixed_byte offset ys i
same_mixed_byte offset i m xs ys h p q e =
    let near_x : i % length xs ≡ i = mod-eq_of_lt (omega arith) in
    let near_y : i % length ys ≡ i = mod-eq_of_lt (omega arith) in
    let far_x : (i + offset) % length xs ≡ i + offset = mod-eq_of_lt (omega arith) in
    let far_y : (i + offset) % length ys ≡ i + offset = mod-eq_of_lt (omega arith) in
    rw (
      near_x,
      near_y,
      far_x,
      far_y,
      same_byte i m xs ys (omega arith) e,
      same_byte (i + offset) m xs ys h e,
    )

-- Bytes up to i + n + offset decide the loop.
same_mixed :
    (offset i n m : ℕ) (xs ys : List ℕ)
    → i + n + offset ≤ m
    → m ≤ length xs
    → m ≤ length ys
    → take m xs ≡ take m ys
    → mixed offset xs i n ≡ mixed offset ys i n
unfolding mixed
same_mixed offset i zero m xs ys h p q e = refl
same_mixed offset i (suc n) m xs ys h p q e = cc (
  same_mixed_byte offset i m xs ys (omega arith) p q e,
  same_mixed offset (suc i) n m xs ys (omega arith) p q e,
)

-- What the address of a tool is mixed from, up to where the loop reads.
head_43 :
    (name tail : List ℕ)
    → 39 ≤ length name
    → take 43 ((utf8 "mcp:" ++ (name ++ tail))) ≡ utf8 "mcp:" ++ take 39 name
unfolding utf8
head_43 name tail h = rw (take-within 39 name tail h)

long : (name tail : List ℕ) → 39 ≤ length name → 43 ≤ length (utf8 "mcp:" ++ (name ++ tail))
unfolding utf8
long name tail h = omega (arith, length-append name tail)

-- What two tools are mixed from agrees as far as the loop reads.
same_head :
    (name name' tail tail' : List ℕ)
    → 39 ≤ length name
    → 39 ≤ length name'
    → take 39 name ≡ take 39 name'
    → mixed 11 (utf8 "mcp:" ++ (name ++ tail)) 0 32
      ≡ mixed 11 (utf8 "mcp:" ++ (name' ++ tail')) 0 32
same_head name name' tail tail' h h' e =
    same_mixed 11 0 32 43 (utf8 "mcp:" ++ (name ++ tail)) (utf8 "mcp:" ++ (name' ++ tail'))
      (omega arith) (omega (arith, long name tail h)) (omega (arith, long name' tail' h'))
      (cc (head_43 name tail h, head_43 name' tail' h', e))

-- The address of a tool depends on the first 39 bytes of its name only, if the name has so many:
-- other owners and other names with those bytes get the same address.
pub derive_tool_address_collides :
    (encode58 : Encode58) (program : List ℕ) (name name' owner owner' : String)
    → 39 ≤ length (utf8 name)
    → 39 ≤ length (utf8 name')
    → take 39 (utf8 name) ≡ take 39 (utf8 name')
    → derive_tool_address encode58 program name owner
      ≡ derive_tool_address encode58 program name' owner'
unfolding derive_tool_address combine
derive_tool_address_collides encode58 program name name' owner owner' h h' e =
    elim (Bool-cases (ltb 32 (length program))) [
      | inl big ↦ rw big
      | inr short ↦
          let tail = utf8 ":" ++ utf8 owner in
          let tail' = utf8 ":" ++ utf8 owner' in
          let pad = program ++ zeros (32 - length program) in
          rw (
            short,
            append_assoc (utf8 "mcp:") (utf8 name ++ tail) pad,
            append_assoc (utf8 "mcp:") (utf8 name' ++ tail') pad,
            append_assoc (utf8 name) tail pad,
            append_assoc (utf8 name') tail' pad,
            same_head (utf8 name) (utf8 name') (tail ++ pad) (tail' ++ pad) h h' e,
          )
    ]
