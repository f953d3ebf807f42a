-- ===== src/Wasm/Message.antt =====
-- src/wasm/index.ts: messages and transactions, and how they are written.
use eto_mcp.Prelude.{ℕ, zero, suc, List, [], ◌∷◌, ◌++◌, length, ◌==◌, not}
use eto_mcp.Prelude.Result.{Result, ok, refuse_if, ◌>>=◌, ◌>>◌}
use eto_mcp.Wasm.{WasmError, signature_length}
use eto_mcp.Wasm.Bytes.{zeros, write_u8, write_u32_le, write_vec, write_fixed_bytes32}

pub record CompiledInstruction : Type 0 where
  pub program_id_index : ℕ
  pub accounts : List ℕ
  pub data_bytes : List ℕ

pub record Message : Type 0 where
  pub num_required_signatures : ℕ
  pub num_readonly_signed : ℕ
  pub num_readonly_unsigned : ℕ
  pub account_keys : List (List ℕ)
  pub recent_blockhash : List ℕ
  pub instructions : List CompiledInstruction

-- `for (const key of msg.accountKeys) writeFixedBytes32(buf, key)`
unfoldable pub write_keys : List (List ℕ) → Result WasmError (List ℕ)
write_keys [] = ok []
write_keys (key ∷ keys) = do
  first ← write_fixed_bytes32 key
  rest ← write_keys keys
  ok (first ++ rest)

unfoldable pub write_instruction : CompiledInstruction → List ℕ
write_instruction ix =
    write_u8 ix.program_id_index ++ (write_vec ix.accounts ++ write_vec ix.data_bytes)

unfoldable pub write_instructions : List CompiledInstruction → List ℕ
write_instructions [] = []
write_instructions (ix ∷ ixs) = write_instruction ix ++ write_instructions ixs

unfoldable pub serialize_message : Message → Result WasmError (List ℕ)
serialize_message msg = do
  keys ← write_keys msg.account_keys
  blockhash ← write_fixed_bytes32 msg.recent_blockhash
  ok (
      write_u8 msg.num_required_signatures
      ++ (write_u8 msg.num_readonly_signed
          ++ (write_u8 msg.num_readonly_unsigned
              ++ (write_u32_le (length msg.account_keys)
                  ++ (keys
                      ++ (blockhash
                          ++ (write_u32_le (length msg.instructions)
                              ++ write_instructions msg.instructions)))))))

-- The loop over the signatures, which throws at the first that is not 64 bytes long.
unfoldable pub write_signatures : List (List ℕ) → Result WasmError (List ℕ)
write_signatures [] = ok []
write_signatures (sig ∷ sigs) = do
  refuse_if (not (length sig == 64)) (signature_length (length sig))
  rest ← write_signatures sigs
  ok (sig ++ rest)

unfoldable pub serialize_transaction : Message → List (List ℕ) → Result WasmError (List ℕ)
serialize_transaction msg signatures = do
  sigs ← write_signatures signatures
  bytes ← serialize_message msg
  ok (write_u32_le (length signatures) ++ (sigs ++ bytes))

-- `Array.from({ length: n }, () => new Uint8Array(64))`
unfoldable pub blank_signatures : ℕ → List (List ℕ)
blank_signatures zero = []
blank_signatures (suc n) = zeros 64 ∷ blank_signatures n

unfoldable pub unsigned_transaction : Message → Result WasmError (List ℕ)
unsigned_transaction msg = serialize_transaction msg (blank_signatures msg.num_required_signatures)

abbrev pub build_message : List (List ℕ) → List ℕ → List CompiledInstruction → ℕ → ℕ → ℕ → Message
build_message account_keys recent_blockhash instructions required signed unsigned = record {
  num_required_signatures = required;
  num_readonly_signed = signed;
  num_readonly_unsigned = unsigned;
  account_keys = account_keys;
  recent_blockhash = recent_blockhash;
  instructions = instructions;
}

-- The object that is built for a compiled instruction.
abbrev pub instruction : ℕ → List ℕ → List ℕ → CompiledInstruction
instruction index accounts payload = record {
  program_id_index = index;
  accounts = accounts;
  data_bytes = payload;
}
