-- ===== src/Wasm/Bytes.antt =====
-- src/wasm/index.ts: the low-level writers, `pubkeyBytes` and `blockhashBytes`.
use eto_mcp.Prelude.{
  ℕ, zero, suc, ◌-◌, ◌/◌, ◌%◌, ◌^◌, List, [], ◌∷◌, ◌++◌, String, length, ltb, ◌==◌, if◌then◌else◌,
}
use eto_mcp.Prelude.Result.{Result, ok, err, or_refuse, refuse_if, ◌>>=◌, ◌>>◌}
use eto_mcp.Wasm.{
  WasmError, expected_32_bytes, invalid_pubkey_length, invalid_base58, range_error, Decode58,
}

-- `new Uint8Array(n)`
abbrev pub zeros : ℕ → List ℕ
zeros zero = []
zeros (suc n) = 0 ∷ zeros n

-- `v & 0xff`
unfoldable pub write_u8 : ℕ → List ℕ
write_u8 v = (v % 256) ∷ []

unfoldable pub write_u32_le : ℕ → List ℕ
write_u32_le v = (v % 256) ∷ (v / 0x100 % 256) ∷ (v / 0x10000 % 256) ∷ (v / 0x1000000 % 256) ∷ []

-- The low and the high 32 bits of a bigint that is not negative.
unfoldable pub write_u64_le : ℕ → List ℕ
write_u64_le v = write_u32_le (v % 2 ^ 32) ++ write_u32_le (v / 2 ^ 32 % 2 ^ 32)

unfoldable pub write_vec : List ℕ → List ℕ
write_vec bytes = write_u32_le (length bytes) ++ bytes

unfoldable pub write_fixed_bytes32 : List ℕ → Result WasmError (List ℕ)
write_fixed_bytes32 bytes =
    if length bytes == 32 then ok bytes else err (expected_32_bytes (length bytes))

-- `padded.set(decoded, 32 - decoded.length)`, for at most 32 bytes.
abbrev pub pad_left32 : List ℕ → List ℕ
pad_left32 bytes = zeros (32 - length bytes) ++ bytes

unfoldable pub pubkey_bytes : Decode58 → String → Result WasmError (List ℕ)
pubkey_bytes decode58 b58 = do
  decoded ← or_refuse (decode58 b58) invalid_base58
  refuse_if (ltb 32 (length decoded)) (invalid_pubkey_length (length decoded))
  ok (pad_left32 decoded)

-- No length is refused here: `set` throws on the negative offset of a longer hash.
unfoldable pub blockhash_bytes : Decode58 → String → Result WasmError (List ℕ)
blockhash_bytes decode58 b58 = do
  decoded ← or_refuse (decode58 b58) invalid_base58
  refuse_if (ltb 32 (length decoded)) range_error
  ok (pad_left32 decoded)
