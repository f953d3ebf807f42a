-- ===== src/Wasm/Builders/Calls/Services.antt =====
-- The messages of the builders of src/wasm/index.ts: agents, tools, swarms, programs.
use eto_mcp.Prelude.{ℕ, true, false, ◌≡◌, refl, Option, String, List, length, not, ◌==◌, arith}
use eto_mcp.Prelude.Result.{Always, after, returned, refuse_if}
use eto_mcp.Wasm.{Decode58, input_hash_length, contract_length}
use eto_mcp.Wasm.Message.{Message}
use eto_mcp.Wasm.Builders.Calls.Intent.{is_sound, uses_short_id, signer_slots}
use eto_mcp.Wasm.Builders.Calls.Facts.{IsBuilt, after_key, after_2_keys, after_3_keys}
use eto_mcp.Wasm.Builders.Calls.{
  register_agent, set_agent_status, set_delegate, create_a2a_channel, register_mcp_tool,
  invoke_mcp_tool, cross_vm_call, create_swarm, join_swarm, swarm_propose, swarm_vote, wasm_deploy,
  move_deploy, svm_deploy, evm_deploy, evm_call,
}
use eto_mcp.Wasm.Builders.Agents.{
  register_agent_message, set_agent_status_message, set_delegate_message,
  create_a2a_channel_message, AgentCard, write_delegate,
}
use eto_mcp.Wasm.Builders.Tools.{
  register_mcp_tool_message, invoke_mcp_tool_message, cross_vm_call_message,
}
use eto_mcp.Wasm.Builders.Swarms.{
  create_swarm_message, join_swarm_message, swarm_propose_message, swarm_vote_message,
}
use eto_mcp.Wasm.Builders.Deploys.{wasm_deploy_message, move_deploy_message, svm_deploy_message}
use eto_mcp.Wasm.Builders.Evm.{evm_deploy_message, evm_call_message, contract_bytes}

true_ne_false : ¬ (true ≡ false)
true_ne_false e = cc

module _ (decode58 : Decode58) where
  pub register_agent_IsBuilt :
      (authority agent_account name model_id recent_blockhash : String)
      → Always
          (IsBuilt decode58 (register_agent authority agent_account name model_id recent_blockhash))
          (register_agent_message decode58 authority agent_account name model_id recent_blockhash)
  unfolding register_agent_message is_sound uses_short_id signer_slots
  register_agent_IsBuilt authority agent_account name model_id recent_blockhash =
      let P : Message → Type 0 =
        IsBuilt decode58 (register_agent authority agent_account name model_id recent_blockhash) in
      after_2_keys decode58 P authority agent_account recent_blockhash _ (λ k0 k1 b e0 e1 l0 l1 lb.
        returned P _ (refl, λ _. (l0, (l1, (l0, (refl, tt)))), lb, cc, λ h. ground arith))

  pub set_agent_status_IsBuilt :
      (authority agent_account : String) (status : ℕ) (recent_blockhash : String)
      → Always
          (IsBuilt decode58 (set_agent_status authority agent_account status recent_blockhash))
          (set_agent_status_message decode58 authority agent_account status recent_blockhash)
  unfolding set_agent_status_message is_sound uses_short_id signer_slots
  set_agent_status_IsBuilt authority agent_account status recent_blockhash =
      let P : Message → Type 0 =
        IsBuilt decode58 (set_agent_status authority agent_account status recent_blockhash) in
      after_2_keys decode58 P authority agent_account recent_blockhash _ (λ k0 k1 b e0 e1 l0 l1 lb.
        returned P _ (refl, λ _. (l1, (l0, (refl, tt))), lb, cc, λ h. ground arith))

  pub set_delegate_IsBuilt :
      (authority agent_account : String) (delegate : Option String) (spend_limit : ℕ)
      (recent_blockhash : String)
      → Always
          (IsBuilt decode58
            (set_delegate authority agent_account delegate spend_limit recent_blockhash))
          (set_delegate_message decode58 authority agent_account delegate spend_limit
            recent_blockhash)
  unfolding set_delegate_message is_sound uses_short_id signer_slots
  set_delegate_IsBuilt authority agent_account delegate spend_limit recent_blockhash =
      let P : Message → Type 0 =
        IsBuilt decode58
          (set_delegate authority agent_account delegate spend_limit recent_blockhash) in
      after_2_keys decode58 P authority agent_account recent_blockhash _ (λ k0 k1 b e0 e1 l0 l1 lb.
        after P (write_delegate decode58 delegate) _
          (λ d _. returned P _ (refl, λ _. (l1, (l0, (refl, tt))), lb, cc, λ h. ground arith)))

  pub create_a2a_channel_IsBuilt :
      (owner card_account agent_account recent_blockhash : String) (card : AgentCard)
      → Always
          (IsBuilt decode58
            (create_a2a_channel owner card_account agent_account recent_blockhash card))
          (create_a2a_channel_message decode58 owner card_account agent_account recent_blockhash
            card)
  unfolding create_a2a_channel_message is_sound uses_short_id signer_slots
  create_a2a_channel_IsBuilt owner card_account agent_account recent_blockhash card =
      let P : Message → Type 0 =
        IsBuilt decode58
          (create_a2a_channel owner card_account agent_account recent_blockhash card) in
      after_3_keys decode58 P owner card_account agent_account recent_blockhash _
        (λ k0 k1 k2 b e0 e1 e2 l0 l1 l2 lb.
          returned P _ (refl, λ _. (l0, (l1, (l2, (refl, tt)))), lb, cc, λ h. ground arith))

  pub register_mcp_tool_IsBuilt :
      (owner tool_account target_program name description recent_blockhash : String)
      → Always
          (IsBuilt decode58
            (register_mcp_tool owner tool_account target_program name description recent_blockhash))
          (register_mcp_tool_message decode58 owner tool_account target_program name description
            recent_blockhash)
  unfolding register_mcp_tool_message is_sound uses_short_id signer_slots
  register_mcp_tool_IsBuilt owner tool_account target_program name description recent_blockhash =
      let P : Message → Type 0 =
        IsBuilt decode58
          (register_mcp_tool owner tool_account target_program name description recent_blockhash) in
      after_3_keys decode58 P owner tool_account target_program recent_blockhash _
        (λ k0 k1 k2 b e0 e1 e2 l0 l1 l2 lb.
          returned P _ (refl, λ _. (l0, (l1, (l2, (refl, tt)))), lb, cc, λ h. ground arith))

  pub invoke_mcp_tool_IsBuilt :
      (caller tool_account log_account : String) (input_hash : List ℕ) (recent_blockhash : String)
      → Always
          (IsBuilt decode58
            (invoke_mcp_tool caller tool_account log_account input_hash recent_blockhash))
          (invoke_mcp_tool_message decode58 caller tool_account log_account input_hash
            recent_blockhash)
  unfolding invoke_mcp_tool_message is_sound uses_short_id signer_slots
  invoke_mcp_tool_IsBuilt caller tool_account log_account input_hash recent_blockhash =
      let P : Message → Type 0 =
        IsBuilt decode58
          (invoke_mcp_tool caller tool_account log_account input_hash recent_blockhash) in
      after_3_keys decode58 P caller tool_account log_account recent_blockhash _
        (λ k0 k1 k2 b e0 e1 e2 l0 l1 l2 lb.
          after P
            (refuse_if (not (length input_hash == 32)) (input_hash_length (length input_hash))) _
            (λ _ _.
              returned P _ (refl, λ _. (l0, (l1, (l2, (refl, tt)))), lb, cc, λ h. ground arith)))

  pub cross_vm_call_IsBuilt :
      (caller : String) (source_vm target_vm : ℕ) (target_address : String) (calldata : List ℕ)
      (recent_blockhash : String)
      → Always
          (IsBuilt decode58
            (cross_vm_call caller source_vm target_vm target_address calldata recent_blockhash))
          (cross_vm_call_message decode58 caller source_vm target_vm target_address calldata
            recent_blockhash)
  unfolding cross_vm_call_message is_sound uses_short_id signer_slots
  cross_vm_call_IsBuilt caller source_vm target_vm target_address calldata recent_blockhash =
      let P : Message → Type 0 =
        IsBuilt decode58
          (cross_vm_call caller source_vm target_vm target_address calldata recent_blockhash) in
      after_2_keys decode58 P caller target_address recent_blockhash _ (λ k0 k1 b e0 e1 l0 l1 lb.
        returned P _ (refl, λ _. (l0, (refl, tt)), lb, cc, λ h. ground arith))

  pub create_swarm_IsBuilt :
      (creator swarm_account name : String) (strategy max_members : ℕ) (recent_blockhash : String)
      → Always
          (IsBuilt decode58
            (create_swarm creator swarm_account name strategy max_members recent_blockhash))
          (create_swarm_message decode58 creator swarm_account name strategy max_members
            recent_blockhash)
  unfolding create_swarm_message is_sound uses_short_id signer_slots
  create_swarm_IsBuilt creator swarm_account name strategy max_members recent_blockhash =
      let P : Message → Type 0 =
        IsBuilt decode58
          (create_swarm creator swarm_account name strategy max_members recent_blockhash) in
      after_2_keys decode58 P creator swarm_account recent_blockhash _ (λ k0 k1 b e0 e1 l0 l1 lb.
        returned P _ (refl, λ _. (l0, (l1, (refl, tt))), lb, cc, λ h. ground arith))

  pub join_swarm_IsBuilt :
      (agent swarm_account recent_blockhash : String)
      → Always
          (IsBuilt decode58 (join_swarm agent swarm_account recent_blockhash))
          (join_swarm_message decode58 agent swarm_account recent_blockhash)
  unfolding join_swarm_message is_sound uses_short_id signer_slots
  join_swarm_IsBuilt agent swarm_account recent_blockhash =
      let P : Message → Type 0 =
        IsBuilt decode58 (join_swarm agent swarm_account recent_blockhash) in
      after_2_keys decode58 P agent swarm_account recent_blockhash _ (λ k0 k1 b e0 e1 l0 l1 lb.
        returned P _ (refl, λ _. (l0, (l1, (refl, tt))), lb, cc, λ h. ground arith))

  pub swarm_propose_IsBuilt :
      (proposer swarm_account title : String) (action_data : List ℕ) (recent_blockhash : String)
      → Always
          (IsBuilt decode58
            (swarm_propose proposer swarm_account title action_data recent_blockhash))
          (swarm_propose_message decode58 proposer swarm_account title action_data recent_blockhash)
  unfolding swarm_propose_message is_sound uses_short_id signer_slots
  swarm_propose_IsBuilt proposer swarm_account title action_data recent_blockhash =
      let P : Message → Type 0 =
        IsBuilt decode58
          (swarm_propose proposer swarm_account title action_data recent_blockhash) in
      after_2_keys decode58 P proposer swarm_account recent_blockhash _ (λ k0 k1 b e0 e1 l0 l1 lb.
        returned P _ (refl, λ _. (l0, (l1, (refl, tt))), lb, cc, λ h. ground arith))

  pub swarm_vote_IsBuilt :
      (voter swarm_account : String) (proposal_index vote : ℕ) (recent_blockhash : String)
      → Always
          (IsBuilt decode58 (swarm_vote voter swarm_account proposal_index vote recent_blockhash))
          (swarm_vote_message decode58 voter swarm_account proposal_index vote recent_blockhash)
  unfolding swarm_vote_message is_sound uses_short_id signer_slots
  swarm_vote_IsBuilt voter swarm_account proposal_index vote recent_blockhash =
      let P : Message → Type 0 =
        IsBuilt decode58 (swarm_vote voter swarm_account proposal_index vote recent_blockhash) in
      after_2_keys decode58 P voter swarm_account recent_blockhash _ (λ k0 k1 b e0 e1 l0 l1 lb.
        returned P _ (refl, λ _. (l0, (l1, (refl, tt))), lb, cc, λ h. ground arith))

  pub wasm_deploy_IsBuilt :
      (deployer : String) (wasm_bytes : List ℕ) (recent_blockhash : String)
      → Always
          (IsBuilt decode58 (wasm_deploy deployer wasm_bytes recent_blockhash))
          (wasm_deploy_message decode58 deployer wasm_bytes recent_blockhash)
  unfolding wasm_deploy_message is_sound uses_short_id signer_slots
  wasm_deploy_IsBuilt deployer wasm_bytes recent_blockhash =
      let P : Message → Type 0 =
        IsBuilt decode58 (wasm_deploy deployer wasm_bytes recent_blockhash) in
      after_key decode58 P deployer recent_blockhash _ (λ k0 b e0 l0 lb.
        returned P _ (refl, λ q. absurd (true_ne_false q), lb, cc, λ h. ground arith))

  pub move_deploy_IsBuilt :
      (deployer : String) (move_bytes : List ℕ) (recent_blockhash : String)
      → Always
          (IsBuilt decode58 (move_deploy deployer move_bytes recent_blockhash))
          (move_deploy_message decode58 deployer move_bytes recent_blockhash)
  unfolding move_deploy_message is_sound uses_short_id signer_slots
  move_deploy_IsBuilt deployer move_bytes recent_blockhash =
      let P : Message → Type 0 =
        IsBuilt decode58 (move_deploy deployer move_bytes recent_blockhash) in
      after_key decode58 P deployer recent_blockhash _ (λ k0 b e0 l0 lb.
        returned P _ (refl, λ q. absurd (true_ne_false q), lb, cc, λ h. ground arith))

  pub svm_deploy_IsBuilt :
      (deployer : String) (program_bytes : List ℕ) (recent_blockhash : String)
      → Always
          (IsBuilt decode58 (svm_deploy deployer program_bytes recent_blockhash))
          (svm_deploy_message decode58 deployer program_bytes recent_blockhash)
  unfolding svm_deploy_message is_sound uses_short_id signer_slots
  svm_deploy_IsBuilt deployer program_bytes recent_blockhash =
      let P : Message → Type 0 =
        IsBuilt decode58 (svm_deploy deployer program_bytes recent_blockhash) in
      after_key decode58 P deployer recent_blockhash _
        (λ k0 b e0 l0 lb. returned P _ (refl, λ _. (l0, (refl, tt)), lb, cc, λ h. ground arith))

  pub evm_deploy_IsBuilt :
      (deployer bytecode recent_blockhash : String)
      → Always
          (IsBuilt decode58 (evm_deploy deployer bytecode recent_blockhash))
          (evm_deploy_message decode58 deployer bytecode recent_blockhash)
  unfolding evm_deploy_message is_sound uses_short_id signer_slots
  evm_deploy_IsBuilt deployer bytecode recent_blockhash =
      let P : Message → Type 0 = IsBuilt decode58 (evm_deploy deployer bytecode recent_blockhash) in
      after_key decode58 P deployer recent_blockhash _
        (λ k0 b e0 l0 lb. returned P _ (refl, λ _. (l0, (refl, tt)), lb, cc, λ h. ground arith))

  pub evm_call_IsBuilt :
      (caller contract calldata recent_blockhash : String)
      → Always
          (IsBuilt decode58 (evm_call caller contract calldata recent_blockhash))
          (evm_call_message decode58 caller contract calldata recent_blockhash)
  unfolding evm_call_message is_sound uses_short_id signer_slots
  evm_call_IsBuilt caller contract calldata recent_blockhash =
      let P : Message → Type 0 =
        IsBuilt decode58 (evm_call caller contract calldata recent_blockhash) in
      after_key decode58 P caller recent_blockhash _ (λ k0 b e0 l0 lb.
        after P (refuse_if (not (length (contract_bytes contract) == 20)) contract_length) _
          (λ _ _. returned P _ (refl, λ _. (l0, (refl, tt)), lb, cc, λ h. ground arith)))
