-- ===== src/Wasm.antt =====
-- src/wasm/index.ts: the wire format of transactions, its builders, signing and decoding.
-- `bs58`, `@noble/ed25519` and `@noble/hashes` are parameters of the definitions that call them.
-- What a writer appends to its buffer is the bytes that its model returns.
pub mod Bytes
pub mod Message
pub mod ProgramIds
pub mod Rlp
pub mod Decode
pub mod Signing
pub mod Builders
pub mod RoundTrip
pub mod Fixtures
mod Tests
use eto_mcp.Prelude.{ℕ, List, Option, String}

-- What the functions throw: their own errors, the RangeErrors of typed arrays, and the errors of
-- `bs58.decode` and of `ed.sign`.
pub data WasmError : Type 0 where
  expected_32_bytes : ℕ → WasmError
  invalid_pubkey_length : ℕ → WasmError
  signature_length : ℕ → WasmError
  input_hash_length : ℕ → WasmError
  contract_length invalid_base58 range_error invalid_secret_key : WasmError
  service_failed argument_count unsupported_type invalid_value : WasmError

-- `bs58.decode`, which throws on a text that is not base 58, and `bs58.encode`.
abbrev pub Decode58 : Type 0
Decode58 = String → Option (List ℕ)

abbrev pub Encode58 : Type 0
Encode58 = List ℕ → String
