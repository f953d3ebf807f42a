-- ===== src/Wasm/Signing/Unsigned.antt =====
-- src/wasm/index.ts: what `signTransaction` makes of a transaction that a builder returns.
use eto_mcp.Prelude.{
  suc, false, ℕ, ◌+◌, ◌*◌, ◌^◌, ◌<◌, ◌≡◌, refl, ap, some, List, [], ◌∷◌, ◌++◌, All, length,
  length-append, drop, drop-append, String, arith, inl, inr, ltb,
}
use eto_mcp.Wasm.Decode.{read_u32_le, u32_le}
use eto_mcp.Wasm.RoundTrip.Writes.{itself, write_signatures_ok}
use eto_mcp.Wasm.RoundTrip.Reads.{joined, HasLength, read_u32_le-write_u32_le}
use eto_mcp.Wasm.Signing.{Sign, sign_transaction}
use eto_mcp.Wasm.Message.{Message, serialize_message, serialize_transaction, write_signatures}
use eto_mcp.Wasm.Bytes.{write_u32_le}
use eto_mcp.Prelude.Text.{codes, hex_bytes}
use mathlib.Core.List.{append-nil}
use eto_mcp.Prelude.Result.{ok, Result-cases}

pub length-joined_64 :
    (sigs : List (List ℕ))
    → All (HasLength 64) sigs
    → length (joined itself sigs) ≡ length sigs * 64
unfolding joined
length-joined_64 [] h = refl
length-joined_64 (sig ∷ sigs) (p, h) =
    omega (arith, length-append sig (joined itself sigs), length-joined_64 sigs h)

-- Behind the count and the signatures stand the message's bytes.
pub skip_signatures :
    (sigs : List (List ℕ)) (bytes : List ℕ)
    → All (HasLength 64) sigs
    → drop (4 + length sigs * 64) (write_u32_le (length sigs) ++ (joined itself sigs ++ bytes))
      ≡ bytes
unfolding write_u32_le
skip_signatures sigs bytes h =
    let behind : 4 + length sigs * 64 ≡ suc (suc (suc (suc (length (joined itself sigs))))) =
      omega (arith, length-joined_64 sigs h) in
    rw behind (drop-append (joined itself sigs) bytes)

pub count_read : (n : ℕ) (bytes : List ℕ) → n < 2 ^ 32 → u32_le (write_u32_le n ++ bytes) ≡ n
unfolding read_u32_le
count_read n bytes h = ap (λ (p : ℕ × List ℕ). p.0) (read_u32_le-write_u32_le n bytes h)

pub long_enough : (n : ℕ) (bytes : List ℕ) → ltb (length (write_u32_le n ++ bytes)) 4 ≡ false
unfolding write_u32_le
long_enough n bytes = ground arith

sign_written :
    (sign : Sign) (sigs : List (List ℕ)) (bytes : List ℕ) (key : String) (signature : List ℕ)
    → length sigs < 2 ^ 32
    → All (HasLength 64) sigs
    → sign bytes (hex_bytes (codes key)) ≡ some signature
    → sign_transaction sign (write_u32_le (length sigs) ++ (joined itself sigs ++ bytes)) key
      ≡ ok (write_u32_le 1 ++ (signature ++ bytes))
unfolding sign_transaction
sign_written sign sigs bytes key signature h k e = rw (
  long_enough (length sigs) (joined itself sigs ++ bytes),
  count_read (length sigs) (joined itself sigs ++ bytes) h,
  skip_signatures sigs bytes k,
  e,
)

-- Signing keeps the message and puts one signature in place of all that were there: it gives what
-- `serializeTransaction` writes for the message and that signature alone. The signature is the one
-- of the message's bytes, and is 64 bytes long.
pub sign_transaction-serialize_transaction :
    (sign : Sign) (msg : Message) (sigs : List (List ℕ)) (tx bytes : List ℕ) (key : String)
    (signature : List ℕ)
    → serialize_transaction msg sigs ≡ ok tx
    → serialize_message msg ≡ ok bytes
    → length sigs < 2 ^ 32
    → sign bytes (hex_bytes (codes key)) ≡ some signature
    → length signature ≡ 64
    → sign_transaction sign tx key ≡ serialize_transaction msg (signature ∷ [])
unfolding serialize_transaction write_signatures
sign_transaction-serialize_transaction sign msg sigs tx bytes key signature e m h s l =
    elim (Result-cases (write_signatures sigs)) [
      | inl (x, w) ↦ ground (arith, w)
      | inr (b, w) ↦
          let (k, joins) = write_signatures_ok sigs b w in
          ground (arith, w, append-nil signature, sign_written sign sigs bytes key signature h k s)
    ]
