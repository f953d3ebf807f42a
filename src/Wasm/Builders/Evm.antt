-- ===== src/Wasm/Builders/Evm.antt =====
-- src/wasm/index.ts: EVM transactions, their signing hashes and their envelopes.
pub mod Binding
use eto_mcp.Prelude.{
  ℕ, zero, suc, ◌-◌, List, [], ◌∷◌, ◌++◌, String, length, drop, not, ◌==◌, if◌then◌else◌,
}
use eto_mcp.Prelude.Result.{Result, ok, refuse_if, ◌>>=◌, ◌>>◌}
use eto_mcp.Prelude.Text.{codes, hex_bytes, starts_with}
use eto_mcp.Wasm.{Decode58, WasmError, contract_length}
use eto_mcp.Wasm.Bytes.{pubkey_bytes, blockhash_bytes}
use eto_mcp.Wasm.Message.{Message, build_message, instruction, unsigned_transaction}
use eto_mcp.Wasm.ProgramIds.{evm_program_id}
use eto_mcp.Wasm.Rlp.{rlp_encode_item, rlp_encode_int, rlp_encode_list}

-- `keccak_256`
abbrev pub Keccak : Type 0
Keccak = List ℕ → List ℕ

-- `s.startsWith("0x") ? s.slice(2) : s`
abbrev pub without_0x : String → List ℕ
without_0x s = if starts_with (codes s) (b'0' ∷ b'x' ∷ []) then drop 2 (codes s) else codes s

abbrev pub digits_0 : ℕ → List ℕ
digits_0 zero = []
digits_0 (suc n) = b'0' ∷ digits_0 n

-- `hex.padStart(40, "0")`
abbrev pub pad_start40 : List ℕ → List ℕ
pad_start40 hex = digits_0 (40 - length hex) ++ hex

-- `Buffer.from(s, "hex")` of the text without its prefix
unfoldable pub hex_data : String → List ℕ
hex_data s = hex_bytes (without_0x s)

-- The bytes of a contract's address: 20, if the text is 40 hexadecimal digits or fewer.
unfoldable pub contract_bytes : String → List ℕ
contract_bytes contract = hex_bytes (pad_start40 (without_0x contract))

unfoldable pub build_evm_deploy_signing_hash : Keccak → String → ℕ → ℕ → ℕ → ℕ → ℕ → List ℕ
build_evm_deploy_signing_hash keccak_256 bytecode chain_id nonce gas_price gas_limit value =
    keccak_256 (
      rlp_encode_list (
        rlp_encode_int nonce
        ∷ rlp_encode_int gas_price
        ∷ rlp_encode_int gas_limit
        ∷ (0x80 ∷ [])
        ∷ rlp_encode_int value
        ∷ rlp_encode_item (hex_data bytecode)
        ∷ rlp_encode_int chain_id
        ∷ rlp_encode_int 0
        ∷ rlp_encode_int 0
        ∷ []))

unfoldable pub build_evm_call_signing_hash : Keccak → String → String → ℕ → ℕ → ℕ → ℕ → ℕ → List ℕ
build_evm_call_signing_hash keccak_256 contract calldata chain_id nonce gas_price gas_limit value =
    keccak_256 (
      rlp_encode_list (
        rlp_encode_int nonce
        ∷ rlp_encode_int gas_price
        ∷ rlp_encode_int gas_limit
        ∷ rlp_encode_item (contract_bytes contract)
        ∷ rlp_encode_int value
        ∷ rlp_encode_item (hex_data calldata)
        ∷ rlp_encode_int chain_id
        ∷ rlp_encode_int 0
        ∷ rlp_encode_int 0
        ∷ []))

-- The parts of a signature.
pub record EvmSignature : Type 0 where
  pub r : List ℕ
  pub s : List ℕ
  pub v : ℕ

-- The RLP of a signed deployment, and of a signed call.
unfoldable pub signed_deploy_rlp : String → EvmSignature → ℕ → ℕ → ℕ → ℕ → List ℕ
signed_deploy_rlp bytecode sig nonce gas_price gas_limit value = rlp_encode_list (
    rlp_encode_int nonce
    ∷ rlp_encode_int gas_price
    ∷ rlp_encode_int gas_limit
    ∷ (0x80 ∷ [])
    ∷ rlp_encode_int value
    ∷ rlp_encode_item (hex_data bytecode)
    ∷ rlp_encode_int sig.v
    ∷ rlp_encode_item sig.r
    ∷ rlp_encode_item sig.s
    ∷ [])

unfoldable pub signed_call_rlp : String → String → EvmSignature → ℕ → ℕ → ℕ → ℕ → List ℕ
signed_call_rlp contract calldata sig nonce gas_price gas_limit value = rlp_encode_list (
    rlp_encode_int nonce
    ∷ rlp_encode_int gas_price
    ∷ rlp_encode_int gas_limit
    ∷ rlp_encode_item (contract_bytes contract)
    ∷ rlp_encode_int value
    ∷ rlp_encode_item (hex_data calldata)
    ∷ rlp_encode_int sig.v
    ∷ rlp_encode_item sig.r
    ∷ rlp_encode_item sig.s
    ∷ [])

module _ (decode58 : Decode58) where
  unfoldable pub wrap_evm_rlp_in_svm_tx : String → List ℕ → String → Result WasmError (List ℕ)
  wrap_evm_rlp_in_svm_tx deployer rlp recent_blockhash = do
    deployer_key ← pubkey_bytes decode58 deployer
    blockhash ← blockhash_bytes decode58 recent_blockhash
    unsigned_transaction (
        build_message (deployer_key ∷ evm_program_id ∷ []) blockhash
          (instruction 1 (0 ∷ []) rlp ∷ []) 1 0 1)

  unfoldable pub build_signed_evm_deploy_tx :
      String → String → EvmSignature → ℕ → ℕ → ℕ → ℕ → String → Result WasmError (List ℕ)
  build_signed_evm_deploy_tx deployer bytecode sig nonce gas_price gas_limit value
        recent_blockhash =
      wrap_evm_rlp_in_svm_tx deployer
        (signed_deploy_rlp bytecode sig nonce gas_price gas_limit value) recent_blockhash

  unfoldable pub build_signed_evm_call_tx :
      String → String → String → EvmSignature → ℕ → ℕ → ℕ → ℕ → String → Result WasmError (List ℕ)
  build_signed_evm_call_tx caller contract calldata sig nonce gas_price gas_limit value
        recent_blockhash =
      wrap_evm_rlp_in_svm_tx caller
        (signed_call_rlp contract calldata sig nonce gas_price gas_limit value) recent_blockhash

  unfoldable pub evm_deploy_message : String → String → String → Result WasmError Message
  evm_deploy_message deployer bytecode recent_blockhash = do
    deployer_key ← pubkey_bytes decode58 deployer
    blockhash ← blockhash_bytes decode58 recent_blockhash
    ok (
        build_message (deployer_key ∷ evm_program_id ∷ []) blockhash
          (instruction 1 (0 ∷ []) (hex_data bytecode) ∷ []) 1 0 1)

  unfoldable pub build_evm_deploy_tx : String → String → String → Result WasmError (List ℕ)
  build_evm_deploy_tx deployer bytecode recent_blockhash =
      evm_deploy_message deployer bytecode recent_blockhash >>= unsigned_transaction

  unfoldable pub evm_call_message : String → String → String → String → Result WasmError Message
  evm_call_message caller contract calldata recent_blockhash = do
    caller_key ← pubkey_bytes decode58 caller
    blockhash ← blockhash_bytes decode58 recent_blockhash
    refuse_if (not (length (contract_bytes contract) == 20)) contract_length
    ok (
        build_message (caller_key ∷ evm_program_id ∷ []) blockhash
          (instruction 1 (0 ∷ []) (contract_bytes contract ++ hex_data calldata) ∷ []) 1 0 1)

  unfoldable pub build_evm_call_tx : String → String → String → String → Result WasmError (List ℕ)
  build_evm_call_tx caller contract calldata recent_blockhash =
      evm_call_message caller contract calldata recent_blockhash >>= unsigned_transaction
