-- ===== src/Wasm/Signing.antt =====
-- src/wasm/index.ts: `signTransaction`.
pub mod Unsigned
pub mod Slots
use eto_mcp.Prelude.{ℕ, ◌+◌, ◌*◌, Option, List, ◌++◌, String, length, ltb, drop}
use eto_mcp.Prelude.Text.{codes, hex_bytes}
use eto_mcp.Prelude.Result.{Result, ok, refuse_if, or_refuse, ◌>>=◌, ◌>>◌}
use eto_mcp.Wasm.{WasmError, range_error, invalid_secret_key}
use eto_mcp.Wasm.Bytes.{write_u32_le}
use eto_mcp.Wasm.Decode.{u32_le}

-- `ed.sign(message, secretKey)`, which throws on a key of a wrong length.
abbrev pub Sign : Type 0
Sign = List ℕ → List ℕ → Option (List ℕ)

-- `getUint32` throws where there are fewer than four bytes.
unfoldable pub sign_transaction : Sign → List ℕ → String → Result WasmError (List ℕ)
sign_transaction sign tx_bytes secret_key_hex = do
  refuse_if (ltb (length tx_bytes) 4) range_error
  let message_bytes = drop (4 + u32_le tx_bytes * 64) tx_bytes in
      do
        signature ←
            or_refuse (sign message_bytes (hex_bytes (codes secret_key_hex))) invalid_secret_key
        ok (write_u32_le 1 ++ (signature ++ message_bytes))
