-- ===== src/Wasm/Builders/Tools.antt =====
-- src/wasm/index.ts: the builders for the MCP program, and `buildCrossVmCallTx`.
use eto_mcp.Prelude.{ℕ, List, [], ◌∷◌, ◌++◌, String, length, not, ◌==◌}
use eto_mcp.Prelude.Result.{Result, ok, refuse_if, ◌>>=◌, ◌>>◌}
use eto_mcp.Prelude.Text.{utf8}
use eto_mcp.Wasm.{Decode58, WasmError, input_hash_length}
use eto_mcp.Wasm.Bytes.{write_u8, write_vec, pubkey_bytes, blockhash_bytes}
use eto_mcp.Wasm.Message.{Message, build_message, instruction, unsigned_transaction}
use eto_mcp.Wasm.ProgramIds.{evm_program_id, mcp_program_id}

module _ (decode58 : Decode58) where
  unfoldable pub register_mcp_tool_message :
      String → String → String → String → String → String → Result WasmError Message
  register_mcp_tool_message owner tool_account target_program name description recent_blockhash = do
    owner_key ← pubkey_bytes decode58 owner
    tool_account_key ← pubkey_bytes decode58 tool_account
    target_program_key ← pubkey_bytes decode58 target_program
    blockhash ← blockhash_bytes decode58 recent_blockhash
    let payload =
          write_u8 0
          ++ (write_vec (utf8 name) ++ (write_vec (utf8 description) ++ target_program_key)) in
        ok (
          build_message (owner_key ∷ tool_account_key ∷ target_program_key ∷ mcp_program_id ∷ [])
            blockhash (instruction 3 (0 ∷ 1 ∷ 2 ∷ []) payload ∷ []) 1 0 1)

  unfoldable pub build_register_mcp_tool_tx :
      String → String → String → String → String → String → Result WasmError (List ℕ)
  build_register_mcp_tool_tx owner tool_account target_program name description recent_blockhash =
      register_mcp_tool_message owner tool_account target_program name description recent_blockhash
      >>= unsigned_transaction

  unfoldable pub invoke_mcp_tool_message :
      String → String → String → List ℕ → String → Result WasmError Message
  invoke_mcp_tool_message caller tool_account log_account input_hash recent_blockhash = do
    caller_key ← pubkey_bytes decode58 caller
    tool_account_key ← pubkey_bytes decode58 tool_account
    log_account_key ← pubkey_bytes decode58 log_account
    blockhash ← blockhash_bytes decode58 recent_blockhash
    refuse_if (not (length input_hash == 32)) (input_hash_length (length input_hash))
    let payload = write_u8 2 ++ input_hash in
        ok (
          build_message (caller_key ∷ tool_account_key ∷ log_account_key ∷ mcp_program_id ∷ [])
            blockhash (instruction 3 (0 ∷ 1 ∷ 2 ∷ []) payload ∷ []) 1 0 1)

  unfoldable pub build_invoke_mcp_tool_tx :
      String → String → String → List ℕ → String → Result WasmError (List ℕ)
  build_invoke_mcp_tool_tx caller tool_account log_account input_hash recent_blockhash =
      invoke_mcp_tool_message caller tool_account log_account input_hash recent_blockhash
      >>= unsigned_transaction

  unfoldable pub cross_vm_call_message :
      String → ℕ → ℕ → String → List ℕ → String → Result WasmError Message
  cross_vm_call_message caller source_vm target_vm target_address calldata recent_blockhash = do
    caller_key ← pubkey_bytes decode58 caller
    target_address_key ← pubkey_bytes decode58 target_address
    blockhash ← blockhash_bytes decode58 recent_blockhash
    let payload =
          write_u8 0xca
          ++ (write_u8 source_vm ++ (write_u8 target_vm ++ (target_address_key ++ calldata))) in
        ok (
          build_message (caller_key ∷ evm_program_id ∷ []) blockhash
            (instruction 1 (0 ∷ []) payload ∷ []) 1 0 1)

  unfoldable pub build_cross_vm_call_tx :
      String → ℕ → ℕ → String → List ℕ → String → Result WasmError (List ℕ)
  build_cross_vm_call_tx caller source_vm target_vm target_address calldata recent_blockhash =
      cross_vm_call_message caller source_vm target_vm target_address calldata recent_blockhash
      >>= unsigned_transaction
