-- ===== src/Wasm/Builders/Deploys.antt =====
-- src/wasm/index.ts: `buildWasmDeployTx`, `buildMoveDeployTx`, `buildSvmDeployTx`.
use eto_mcp.Prelude.{ℕ, List, [], ◌∷◌, String}
use eto_mcp.Prelude.Result.{Result, ok, ◌>>=◌}
use eto_mcp.Wasm.{Decode58, WasmError}
use eto_mcp.Wasm.Bytes.{pubkey_bytes, blockhash_bytes}
use eto_mcp.Wasm.Message.{Message, build_message, instruction, unsigned_transaction}
use eto_mcp.Wasm.ProgramIds.{wasm_program_id, move_program_id, bpf_loader_program_id}

module _ (decode58 : Decode58) where
  unfoldable pub wasm_deploy_message : String → List ℕ → String → Result WasmError Message
  wasm_deploy_message deployer wasm_bytes recent_blockhash = do
    deployer_key ← pubkey_bytes decode58 deployer
    blockhash ← blockhash_bytes decode58 recent_blockhash
    ok (
        build_message (deployer_key ∷ wasm_program_id ∷ []) blockhash
          (instruction 1 (0 ∷ []) wasm_bytes ∷ []) 1 0 1)

  unfoldable pub build_wasm_deploy_tx : String → List ℕ → String → Result WasmError (List ℕ)
  build_wasm_deploy_tx deployer wasm_bytes recent_blockhash =
      wasm_deploy_message deployer wasm_bytes recent_blockhash >>= unsigned_transaction

  unfoldable pub move_deploy_message : String → List ℕ → String → Result WasmError Message
  move_deploy_message deployer move_bytes recent_blockhash = do
    deployer_key ← pubkey_bytes decode58 deployer
    blockhash ← blockhash_bytes decode58 recent_blockhash
    ok (
        build_message (deployer_key ∷ move_program_id ∷ []) blockhash
          (instruction 1 (0 ∷ []) move_bytes ∷ []) 1 0 1)

  unfoldable pub build_move_deploy_tx : String → List ℕ → String → Result WasmError (List ℕ)
  build_move_deploy_tx deployer move_bytes recent_blockhash =
      move_deploy_message deployer move_bytes recent_blockhash >>= unsigned_transaction

  unfoldable pub svm_deploy_message : String → List ℕ → String → Result WasmError Message
  svm_deploy_message deployer program_bytes recent_blockhash = do
    deployer_key ← pubkey_bytes decode58 deployer
    blockhash ← blockhash_bytes decode58 recent_blockhash
    ok (
        build_message (deployer_key ∷ bpf_loader_program_id ∷ []) blockhash
          (instruction 1 (0 ∷ []) program_bytes ∷ []) 1 0 1)

  unfoldable pub build_svm_deploy_tx : String → List ℕ → String → Result WasmError (List ℕ)
  build_svm_deploy_tx deployer program_bytes recent_blockhash =
      svm_deploy_message deployer program_bytes recent_blockhash >>= unsigned_transaction
