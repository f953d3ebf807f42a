-- ===== src/Wasm/Signing/Slots.antt =====
-- The signers of src/signing/local-signer.ts and frost-signer.ts, and the two signatures of
-- src/tools/staking.ts: each writes into a signature slot of a transaction.
pub mod Filling
use eto_mcp.Prelude.{
  ℕ, ◌+◌, ◌*◌, Option, none, some, List, [], ◌∷◌, ◌++◌, String, length, ltb, leb, take, drop,
  if◌then◌else◌,
}
use eto_mcp.Prelude.Text.{codes, hex_bytes, to_hex}
use eto_mcp.Prelude.Result.{Result, ok, refuse_if, or_refuse, ◌>>=◌, ◌>>◌}
use eto_mcp.Wasm.{WasmError, range_error, invalid_secret_key, service_failed}
use eto_mcp.Wasm.Decode.{u32_le}
use eto_mcp.Wasm.Signing.{Sign}

-- `result.set(bytes, offset)`, which throws where the bytes do not fit.
unfoldable pub set_at : ℕ → List ℕ → List ℕ → Option (List ℕ)
set_at offset bytes result =
    if leb (offset + length bytes) (length result)
    then some (take offset result ++ (bytes ++ drop (offset + length bytes) result))
    else none

-- Behind the count and the slots.
abbrev pub message_part : List ℕ → List ℕ
message_part tx_bytes = drop (4 + u32_le tx_bytes * 64) tx_bytes

-- `LocalSigner.sign`, with the private key of the signer.
unfoldable pub local_sign : Sign → List ℕ → List ℕ → Result WasmError (List ℕ)
local_sign sign private_key tx_bytes = do
  refuse_if (ltb (length tx_bytes) 4) range_error
  signature ← or_refuse (sign (message_part tx_bytes) private_key) invalid_secret_key
  or_refuse (set_at 4 signature tx_bytes) range_error

-- `FrostSigner.sign`: the service answers for the message in hexadecimal with a signature in
-- hexadecimal, or the call fails.
unfoldable pub frost_sign : (String → Option String) → List ℕ → Result WasmError (List ℕ)
frost_sign service tx_bytes = do
  refuse_if (ltb (length tx_bytes) 4) range_error
  response ← or_refuse (service (to_hex (message_part tx_bytes))) service_failed
  or_refuse (set_at 4 (hex_bytes (codes response)) tx_bytes) range_error

-- The two signatures of the tool that creates a stake account: the wallet's in the first slot, and
-- that of the stake account's key in the second.
unfoldable pub sign_create_stake :
    Sign → (List ℕ → Result WasmError (List ℕ)) → String → List ℕ → Result WasmError (List ℕ)
sign_create_stake sign signer_sign stake_secret tx_bytes = do
  refuse_if (ltb (length tx_bytes) 4) range_error
  payer_signed ← signer_sign tx_bytes
  stake_sig ←
      or_refuse (sign (message_part tx_bytes) (hex_bytes (codes stake_secret))) invalid_secret_key
  or_refuse (set_at (4 + 64) stake_sig payer_signed) range_error
