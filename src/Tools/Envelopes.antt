-- ===== src/Tools/Envelopes.antt =====
-- The transactions that src/tools/agent.ts, swarm.ts, a2a.ts and mcp-program.ts write themselves,
-- with copies of the writers of src/wasm/index.ts. The program ids come from the configuration.
pub mod Agreement
use eto_mcp.Prelude.{ℕ, zero, suc, List, [], ◌∷◌, ◌++◌, String, length}
use eto_mcp.Prelude.Result.{Result, ok, ◌>>=◌}
use eto_mcp.Wasm.{Decode58, WasmError}
use eto_mcp.Wasm.Bytes.{zeros, write_u8, write_u32_le, write_vec, pubkey_bytes, blockhash_bytes}
use eto_mcp.Wasm.Message.{blank_signatures}

abbrev pub written : List (List ℕ) → List ℕ
written [] = []
written (bytes ∷ more) = bytes ++ written more

-- The message, whose keys are written as they are.
unfoldable pub tool_message_bytes : ℕ → List (List ℕ) → List ℕ → List ℕ → List ℕ → List ℕ
tool_message_bytes signers keys blockhash accounts payload =
    write_u8 signers
    ++ (write_u8 0
        ++ (write_u8 1
            ++ (write_u32_le (length keys)
                ++ (written keys
                    ++ (blockhash
                        ++ (write_u32_le 1
                            ++ (write_u8 2 ++ (write_vec accounts ++ write_vec payload))))))))

-- The count of the signatures, blank signatures, and the message.
unfoldable pub tool_tx_bytes : ℕ → List (List ℕ) → List ℕ → List ℕ → List ℕ → List ℕ
tool_tx_bytes signers keys blockhash accounts payload =
    write_u32_le signers
    ++ (written (blank_signatures signers)
        ++ tool_message_bytes signers keys blockhash accounts payload)

module _ (decode58 : Decode58) (program : List ℕ) where
  unfoldable pub build_agent_tx : String → String → List ℕ → String → Result WasmError (List ℕ)
  build_agent_tx payer agent_account instruction_data recent_blockhash = do
    payer_key ← pubkey_bytes decode58 payer
    agent_key ← pubkey_bytes decode58 agent_account
    blockhash ← blockhash_bytes decode58 recent_blockhash
    ok (
        tool_tx_bytes 1 (payer_key ∷ agent_key ∷ program ∷ []) blockhash (0 ∷ 1 ∷ 0 ∷ [])
          instruction_data)

  unfoldable pub build_set_status_tx : String → String → ℕ → String → Result WasmError (List ℕ)
  build_set_status_tx payer agent_account status recent_blockhash =
      build_agent_tx payer agent_account (write_u8 6 ++ write_u8 status) recent_blockhash

  unfoldable pub build_swarm_tx : String → String → List ℕ → String → Result WasmError (List ℕ)
  build_swarm_tx payer swarm_account instruction_data recent_blockhash = do
    payer_key ← pubkey_bytes decode58 payer
    swarm_key ← pubkey_bytes decode58 swarm_account
    blockhash ← blockhash_bytes decode58 recent_blockhash
    ok (
        tool_tx_bytes 1 (payer_key ∷ swarm_key ∷ program ∷ []) blockhash (0 ∷ 1 ∷ [])
          instruction_data)

  unfoldable pub build_a2a_tx : String → String → List ℕ → String → ℕ → Result WasmError (List ℕ)
  build_a2a_tx payer channel_account instruction_data recent_blockhash signer_count = do
    payer_key ← pubkey_bytes decode58 payer
    channel_key ← pubkey_bytes decode58 channel_account
    blockhash ← blockhash_bytes decode58 recent_blockhash
    ok (
        tool_tx_bytes signer_count (payer_key ∷ channel_key ∷ program ∷ []) blockhash (0 ∷ 1 ∷ [])
          instruction_data)

  unfoldable pub build_mcp_tx : String → String → List ℕ → String → Result WasmError (List ℕ)
  build_mcp_tx payer tool_account instruction_data recent_blockhash = do
    payer_key ← pubkey_bytes decode58 payer
    tool_key ← pubkey_bytes decode58 tool_account
    blockhash ← blockhash_bytes decode58 recent_blockhash
    ok (
        tool_tx_bytes 1 (payer_key ∷ tool_key ∷ program ∷ []) blockhash (0 ∷ 1 ∷ 2 ∷ [])
          instruction_data)
