-- ===== src/Tools/Addresses.antt =====
-- `deriveToolAddress` of src/tools/mcp-program.ts and `deriveSwarmAddress` of swarm.ts. The joined
-- texts are given as the bytes of their parts, one after the other.
pub mod Collision
use Prim.Native.Nat.{bit_xor}
use eto_mcp.Prelude.{ℕ, zero, suc, ◌+◌, ◌-◌, ◌%◌, List, [], ◌∷◌, ◌++◌, String, length, ltb}
use eto_mcp.Prelude.Text.{utf8}
use eto_mcp.Prelude.Result.{Result, ok, refuse_if, ◌>>=◌, ◌>>◌}
use eto_mcp.Wasm.{Encode58, WasmError, range_error}
use eto_mcp.Wasm.Bytes.{zeros}
use eto_mcp.Wasm.Decode.{byte_at}

-- `combined[i % combined.length] ^ combined[(i + offset) % combined.length]`
abbrev pub mixed_byte : ℕ → List ℕ → ℕ → ℕ
mixed_byte offset combined i =
    bit_xor (byte_at (i % length combined) combined)
      (byte_at ((i + offset) % length combined) combined)

-- The loop from i on, for n more bytes.
unfoldable pub mixed : ℕ → List ℕ → ℕ → ℕ → List ℕ
mixed offset combined i zero = []
mixed offset combined i (suc n) = mixed_byte offset combined i ∷ mixed offset combined (suc i) n

-- The seed, and 32 bytes that begin with the program id; a longer id does not fit.
unfoldable pub combine : List ℕ → List ℕ → Result WasmError (List ℕ)
combine seed program = do
  refuse_if (ltb 32 (length program)) range_error
  ok (seed ++ (program ++ zeros (32 - length program)))

module _ (encode58 : Encode58) (program : List ℕ) where
  unfoldable pub derive_tool_address : String → String → Result WasmError String
  derive_tool_address service_name owner = do
    combined ← combine (utf8 "mcp:" ++ (utf8 service_name ++ (utf8 ":" ++ utf8 owner))) program
    ok (encode58 (mixed 11 combined 0 32))

  unfoldable pub derive_swarm_address : String → String → Result WasmError String
  derive_swarm_address creator name = do
    combined ← combine (utf8 "swarm:" ++ (utf8 creator ++ (utf8 ":" ++ utf8 name))) program
    ok (encode58 (mixed 13 combined 0 32))
