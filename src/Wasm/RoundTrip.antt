-- ===== src/Wasm/RoundTrip.antt =====
-- src/wasm/index.ts: `decodeTransaction` reads what `serializeTransaction` wrote.
pub mod Reads
pub mod Writes
use eto_mcp.Prelude.{ℕ, ◌^◌, ◌<◌, ◌++◌, some, List, map, length, All, String, ◌≡◌}
use eto_mcp.Prelude.Result.{ok}
use eto_mcp.Prelude.Text.{to_hex}
use eto_mcp.Wasm.{Encode58}
use eto_mcp.Wasm.RoundTrip.Reads.{
  HasLength, joined, IsCompactInstruction, describe_instruction, read_u32_le-write_u32_le,
  read_u8-write_u8, read_many-joined, read_signature-append, read_key-append,
  read_instruction-write_instruction,
}
use eto_mcp.Wasm.RoundTrip.Writes.{itself, message_bytes, HasKeyLengths, serialize_transaction_ok}
use eto_mcp.Wasm.Bytes.{write_u8, write_u32_le}
use eto_mcp.Wasm.Message.{write_instruction, CompiledInstruction, Message, serialize_transaction}
use eto_mcp.Wasm.Decode.{
  read_signature, read_key, read_instruction, DecodedInstruction, DecodedTransaction,
  decode_transaction,
}
use mathlib.Core.List.{append_assoc}

-- The fields fit the one or four bytes that they are written in.
abbrev pub IsCompact : Message → Type 0
IsCompact msg =
    (msg.num_required_signatures < 256)
    × (msg.num_readonly_signed < 256)
    × (msg.num_readonly_unsigned < 256)
    × (length msg.account_keys < 2 ^ 32)
    × (length msg.instructions < 2 ^ 32)
    × All IsCompactInstruction msg.instructions

unfoldable pub describe : Encode58 → Message → List (List ℕ) → DecodedTransaction
describe encode58 msg sigs = record {
  signatures = map to_hex sigs;
  num_required_signatures = some msg.num_required_signatures;
  num_readonly_signed = some msg.num_readonly_signed;
  num_readonly_unsigned = some msg.num_readonly_unsigned;
  account_keys = map encode58 msg.account_keys;
  recent_blockhash = encode58 msg.recent_blockhash;
  instructions = map describe_instruction msg.instructions;
}

-- The message's bytes with others behind, in the order in which they are read.
message_then : Message → List ℕ → List ℕ
message_then msg rest =
    write_u8 msg.num_required_signatures
    ++ (write_u8 msg.num_readonly_signed
        ++ (write_u8 msg.num_readonly_unsigned
            ++ (write_u32_le (length msg.account_keys)
                ++ (joined itself msg.account_keys
                    ++ (msg.recent_blockhash
                        ++ (write_u32_le (length msg.instructions)
                            ++ (joined write_instruction msg.instructions ++ rest)))))))

message_bytes-then :
    (msg : Message) (rest : List ℕ) → message_bytes msg ++ rest ≡ message_then msg rest
unfolding message_bytes message_then
message_bytes-then msg rest = simp append_assoc

decode_message :
    (encode58 : Encode58) (msg : Message) (sigs : List (List ℕ)) (rest : List ℕ)
    → IsCompact msg
    → length sigs < 2 ^ 32
    → All (HasLength 64) sigs
    → HasKeyLengths msg
    → decode_transaction encode58
        (write_u32_le (length sigs) ++ (joined itself sigs ++ message_then msg rest))
      ≡ describe encode58 msg sigs
unfolding decode_transaction message_then describe
decode_message encode58 msg sigs rest (h1, h2, h3, h4, h5, h6) k s (keys, blockhash) =
    let t7 : List ℕ = joined write_instruction msg.instructions ++ rest in
    let t6 : List ℕ = write_u32_le (length msg.instructions) ++ t7 in
    let t5 : List ℕ = msg.recent_blockhash ++ t6 in
    let t4 : List ℕ = joined itself msg.account_keys ++ t5 in
    let t3 : List ℕ = write_u32_le (length msg.account_keys) ++ t4 in
    let t2 : List ℕ = write_u8 msg.num_readonly_unsigned ++ t3 in
    let t1 : List ℕ = write_u8 msg.num_readonly_signed ++ t2 in
    let t0 : List ℕ = write_u8 msg.num_required_signatures ++ t1 in
    rw (
      read_u32_le-write_u32_le (length sigs) (joined itself sigs ++ t0) k,
      read_many-joined read_signature itself to_hex (HasLength 64) read_signature-append sigs t0 s,
      read_u8-write_u8 msg.num_required_signatures t1 h1,
      read_u8-write_u8 msg.num_readonly_signed t2 h2,
      read_u8-write_u8 msg.num_readonly_unsigned t3 h3,
      read_u32_le-write_u32_le (length msg.account_keys) t4 h4,
      read_many-joined (read_key encode58) itself encode58 (HasLength 32) (read_key-append encode58)
          msg.account_keys t5 keys,
      read_key-append encode58 msg.recent_blockhash t6 blockhash,
      read_u32_le-write_u32_le (length msg.instructions) t7 h5,
      read_many-joined read_instruction write_instruction describe_instruction IsCompactInstruction
          read_instruction-write_instruction msg.instructions rest h6,
    )

-- `decodeTransaction` reads every transaction that `serializeTransaction` writes back as the
-- message and the signatures it was given, whatever bytes follow. The counts and indices must fit
-- the bytes they are written in.
pub decode_transaction-serialize_transaction :
    (encode58 : Encode58) (msg : Message) (sigs : List (List ℕ)) (bytes rest : List ℕ)
    → IsCompact msg
    → length sigs < 2 ^ 32
    → serialize_transaction msg sigs ≡ ok bytes
    → decode_transaction encode58 (bytes ++ rest) ≡ describe encode58 msg sigs
decode_transaction-serialize_transaction encode58 msg sigs bytes rest h k e =
    let (s, lengths, written) = serialize_transaction_ok msg sigs bytes e in
    rw
      (
        written,
        append_assoc,
        append_assoc (joined itself sigs) (message_bytes msg) rest,
        message_bytes-then,
      )
      (decode_message encode58 msg sigs rest h k s lengths)
