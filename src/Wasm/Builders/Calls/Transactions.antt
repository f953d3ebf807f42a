-- ===== src/Wasm/Builders/Calls/Transactions.antt =====
-- src/wasm/index.ts: the bytes that the builders return.
use eto_mcp.Prelude.{ℕ, zero, suc, ◌≡◌, refl, ◌^◌, ◌<◌, false, List, [], All, length, arith}
use eto_mcp.Prelude.Result.{ok}
use eto_mcp.Wasm.{Decode58, Encode58}
use eto_mcp.Wasm.Message.{Message, blank_signatures, unsigned_transaction}
use eto_mcp.Wasm.Decode.{decode_transaction}
use eto_mcp.Wasm.RoundTrip.{IsCompact, describe, decode_transaction-serialize_transaction}
use eto_mcp.Wasm.RoundTrip.Reads.{HasLength}
use eto_mcp.Wasm.RoundTrip.Writes.{HasKeyLengths, serialize_transaction-written}
use eto_mcp.Wasm.Builders.Calls.{BuilderCall, message_of, build}
use eto_mcp.Wasm.Builders.Calls.Intent.{uses_short_id, IsShort}
use eto_mcp.Wasm.Builders.Calls.Every.{message_of-IsBuilt, build-message_of}
use mathlib.Core.List.{append-nil}

pub blank_64 : (n : ℕ) → All (HasLength 64) (blank_signatures n)
unfolding blank_signatures
blank_64 zero = tt
blank_64 (suc n) = (refl, blank_64 n)

pub length-blank : (n : ℕ) → length (blank_signatures n) ≡ n
unfolding blank_signatures
length-blank zero = refl
length-blank (suc n) = omega (arith, length-blank n)

unsigned-decodes :
    (encode58 : Encode58) (msg : Message)
    → HasKeyLengths msg
    → IsCompact msg
    → (tx : List ℕ) × (unsigned_transaction msg ≡ ok tx)
      × (decode_transaction encode58 tx
          ≡ describe encode58 msg (blank_signatures msg.num_required_signatures))
unfolding unsigned_transaction
unsigned-decodes encode58 msg lengths compact =
    let sigs : List (List ℕ) = blank_signatures msg.num_required_signatures in
    let written =
      serialize_transaction-written msg sigs lengths (blank_64 msg.num_required_signatures) in
    let (few, _, _, _, _, _) = compact in
    let bound : length sigs < 2 ^ 32 = omega (arith, length-blank msg.num_required_signatures) in
    (
      _,
      written,
      rw append-nil at
          (decode_transaction-serialize_transaction encode58 msg sigs _ [] compact bound written),
    )

-- Except for the two with a short program id, every builder that can put its message together
-- returns a transaction, and decoding gives back that message with blank signatures, as many as it
-- requires. The data of an instruction is taken to be shorter than 2^32 bytes.
pub build-decodes :
    (decode58 : Decode58) (encode58 : Encode58) (call : BuilderCall) (msg : Message)
    → uses_short_id call ≡ false
    → message_of decode58 call ≡ ok msg
    → All IsShort msg.instructions
    → (tx : List ℕ) × (build decode58 call ≡ ok tx)
      × (decode_transaction encode58 tx
          ≡ describe encode58 msg (blank_signatures msg.num_required_signatures))
build-decodes decode58 encode58 call msg long e short =
    let (_, keys, blockhash, _, compact) = message_of-IsBuilt decode58 call msg e in
    rw (build-message_of decode58 call, e)
      (unsigned-decodes encode58 msg (keys long, blockhash) (compact short))
