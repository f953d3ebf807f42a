-- ===== src/Wasm/Builders/Swarms.antt =====
-- src/wasm/index.ts: the builders for the swarm program.
use eto_mcp.Prelude.{ℕ, List, [], ◌∷◌, ◌++◌, String}
use eto_mcp.Prelude.Result.{Result, ok, ◌>>=◌}
use eto_mcp.Prelude.Text.{utf8}
use eto_mcp.Wasm.{Decode58, WasmError}
use eto_mcp.Wasm.Bytes.{write_u8, write_u32_le, write_vec, pubkey_bytes, blockhash_bytes}
use eto_mcp.Wasm.Message.{Message, build_message, instruction, unsigned_transaction}
use eto_mcp.Wasm.ProgramIds.{swarm_program_id}

module _ (decode58 : Decode58) where
  unfoldable pub create_swarm_message :
      String → String → String → ℕ → ℕ → String → Result WasmError Message
  create_swarm_message creator swarm_account name strategy max_members recent_blockhash = do
    creator_key ← pubkey_bytes decode58 creator
    swarm_account_key ← pubkey_bytes decode58 swarm_account
    blockhash ← blockhash_bytes decode58 recent_blockhash
    let payload =
          write_u8 0 ++ (write_vec (utf8 name) ++ (write_u8 strategy ++ write_u8 max_members)) in
        ok (
          build_message (creator_key ∷ swarm_account_key ∷ swarm_program_id ∷ []) blockhash
            (instruction 2 (0 ∷ 1 ∷ []) payload ∷ []) 1 0 1)

  unfoldable pub build_create_swarm_tx :
      String → String → String → ℕ → ℕ → String → Result WasmError (List ℕ)
  build_create_swarm_tx creator swarm_account name strategy max_members recent_blockhash =
      create_swarm_message creator swarm_account name strategy max_members recent_blockhash
      >>= unsigned_transaction

  unfoldable pub join_swarm_message : String → String → String → Result WasmError Message
  join_swarm_message agent swarm_account recent_blockhash = do
    agent_key ← pubkey_bytes decode58 agent
    swarm_account_key ← pubkey_bytes decode58 swarm_account
    blockhash ← blockhash_bytes decode58 recent_blockhash
    ok (
        build_message (agent_key ∷ swarm_account_key ∷ swarm_program_id ∷ []) blockhash
          (instruction 2 (0 ∷ 1 ∷ []) (write_u8 1) ∷ []) 1 0 1)

  unfoldable pub build_join_swarm_tx : String → String → String → Result WasmError (List ℕ)
  build_join_swarm_tx agent swarm_account recent_blockhash =
      join_swarm_message agent swarm_account recent_blockhash >>= unsigned_transaction

  unfoldable pub swarm_propose_message :
      String → String → String → List ℕ → String → Result WasmError Message
  swarm_propose_message proposer swarm_account title action_data recent_blockhash = do
    proposer_key ← pubkey_bytes decode58 proposer
    swarm_account_key ← pubkey_bytes decode58 swarm_account
    blockhash ← blockhash_bytes decode58 recent_blockhash
    let payload = write_u8 2 ++ (write_vec (utf8 title) ++ write_vec action_data) in
        ok (
          build_message (proposer_key ∷ swarm_account_key ∷ swarm_program_id ∷ []) blockhash
            (instruction 2 (0 ∷ 1 ∷ []) payload ∷ []) 1 0 1)

  unfoldable pub build_swarm_propose_tx :
      String → String → String → List ℕ → String → Result WasmError (List ℕ)
  build_swarm_propose_tx proposer swarm_account title action_data recent_blockhash =
      swarm_propose_message proposer swarm_account title action_data recent_blockhash
      >>= unsigned_transaction

  unfoldable pub swarm_vote_message : String → String → ℕ → ℕ → String → Result WasmError Message
  swarm_vote_message voter swarm_account proposal_index vote recent_blockhash = do
    voter_key ← pubkey_bytes decode58 voter
    swarm_account_key ← pubkey_bytes decode58 swarm_account
    blockhash ← blockhash_bytes decode58 recent_blockhash
    let payload = write_u8 3 ++ (write_u32_le proposal_index ++ write_u8 vote) in
        ok (
          build_message (voter_key ∷ swarm_account_key ∷ swarm_program_id ∷ []) blockhash
            (instruction 2 (0 ∷ 1 ∷ []) payload ∷ []) 1 0 1)

  unfoldable pub build_swarm_vote_tx : String → String → ℕ → ℕ → String → Result WasmError (List ℕ)
  build_swarm_vote_tx voter swarm_account proposal_index vote recent_blockhash =
      swarm_vote_message voter swarm_account proposal_index vote recent_blockhash
      >>= unsigned_transaction
