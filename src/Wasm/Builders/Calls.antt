-- ===== src/Wasm/Builders/Calls.antt =====
-- A call of one of the builders of src/wasm/index.ts, as a value: what a statement about every
-- builder ranges over.
pub mod Intent
pub mod Facts
mod Accounts
mod Services
mod Every
pub mod Signers
pub mod ShortIds
pub mod Transactions
use eto_mcp.Prelude.{ℕ, Option, List, String}
use eto_mcp.Prelude.Result.{Result}
use eto_mcp.Wasm.{Decode58, WasmError}
use eto_mcp.Wasm.Message.{Message}
use eto_mcp.Wasm.Builders.Transfers.{
  transfer_message, create_account_message, token_transfer_message, build_transfer_tx,
  build_create_account_tx, build_token_transfer_tx,
}
use eto_mcp.Wasm.Builders.Tokens.{
  create_mint_message, mint_to_message, burn_message, freeze_message, build_create_mint_tx,
  build_mint_to_tx, build_burn_tx, build_freeze_tx,
}
use eto_mcp.Wasm.Builders.Stakes.{
  create_stake_message, delegate_stake_message, deactivate_stake_message, withdraw_stake_message,
  build_create_stake_tx, build_delegate_stake_tx, build_deactivate_stake_tx,
  build_withdraw_stake_tx,
}
use eto_mcp.Wasm.Builders.Agents.{
  register_agent_message, set_agent_status_message, set_delegate_message,
  create_a2a_channel_message, build_register_agent_tx, build_set_agent_status_tx,
  build_set_delegate_tx, build_create_a2a_channel_tx, AgentCard,
}
use eto_mcp.Wasm.Builders.Tools.{
  register_mcp_tool_message, invoke_mcp_tool_message, cross_vm_call_message,
  build_register_mcp_tool_tx, build_invoke_mcp_tool_tx, build_cross_vm_call_tx,
}
use eto_mcp.Wasm.Builders.Swarms.{
  create_swarm_message, join_swarm_message, swarm_propose_message, swarm_vote_message,
  build_create_swarm_tx, build_join_swarm_tx, build_swarm_propose_tx, build_swarm_vote_tx,
}
use eto_mcp.Wasm.Builders.Deploys.{
  wasm_deploy_message, move_deploy_message, svm_deploy_message, build_wasm_deploy_tx,
  build_move_deploy_tx, build_svm_deploy_tx,
}
use eto_mcp.Wasm.Builders.Evm.{
  evm_deploy_message, evm_call_message, build_evm_deploy_tx, build_evm_call_tx,
}

pub data BuilderCall : Type 0 where
  transfer :
      (from : String)
      → (to : String) → (lamports : ℕ) → (recent_blockhash : String) → (memo : Option String)
      → BuilderCall
  create_account :
      (payer : String)
      → (new_account : String) → (lamports : ℕ) → (space : ℕ) → (owner : String)
      → (recent_blockhash : String) → BuilderCall
  token_transfer :
      (authority : String)
      → (source : String) → (destination : String) → (amount : ℕ) → (decimals : ℕ)
      → (recent_blockhash : String) → BuilderCall
  create_mint :
      (payer : String)
      → (mint_account : String) → (mint_authority : String) → (decimals : ℕ)
      → (recent_blockhash : String) → BuilderCall
  mint_to :
      (mint_authority : String)
      → (mint : String) → (destination : String) → (amount : ℕ) → (recent_blockhash : String)
      → BuilderCall
  burn :
      (owner : String)
      → (token_account : String) → (mint : String) → (amount : ℕ) → (recent_blockhash : String)
      → BuilderCall
  freeze :
      (freeze_authority : String)
      → (token_account : String) → (mint : String) → (recent_blockhash : String) → BuilderCall
  create_stake :
      (staker : String)
      → (stake_account : String) → (lamports : ℕ) → (recent_blockhash : String) → BuilderCall
  delegate_stake :
      (staker : String)
      → (stake_account : String) → (vote_account : String) → (recent_blockhash : String)
      → BuilderCall
  deactivate_stake :
      (staker : String) → (stake_account : String) → (recent_blockhash : String) → BuilderCall
  withdraw_stake :
      (staker : String)
      → (stake_account : String) → (recipient : String) → (lamports : ℕ)
      → (recent_blockhash : String) → BuilderCall
  register_agent :
      (authority : String)
      → (agent_account : String) → (name : String) → (model_id : String)
      → (recent_blockhash : String) → BuilderCall
  set_agent_status :
      (authority : String)
      → (agent_account : String) → (status : ℕ) → (recent_blockhash : String) → BuilderCall
  set_delegate :
      (authority : String)
      → (agent_account : String) → (delegate : Option String) → (spend_limit : ℕ)
      → (recent_blockhash : String) → BuilderCall
  create_a2a_channel :
      (owner : String)
      → (card_account : String) → (agent_account : String) → (recent_blockhash : String)
      → (card : AgentCard) → BuilderCall
  register_mcp_tool :
      (owner : String)
      → (tool_account : String) → (target_program : String) → (name : String)
      → (description : String) → (recent_blockhash : String) → BuilderCall
  invoke_mcp_tool :
      (caller : String)
      → (tool_account : String) → (log_account : String) → (input_hash : List ℕ)
      → (recent_blockhash : String) → BuilderCall
  create_swarm :
      (creator : String)
      → (swarm_account : String) → (name : String) → (strategy : ℕ) → (max_members : ℕ)
      → (recent_blockhash : String) → BuilderCall
  join_swarm :
      (agent : String) → (swarm_account : String) → (recent_blockhash : String) → BuilderCall
  swarm_propose :
      (proposer : String)
      → (swarm_account : String) → (title : String) → (action_data : List ℕ)
      → (recent_blockhash : String) → BuilderCall
  swarm_vote :
      (voter : String)
      → (swarm_account : String) → (proposal_index : ℕ) → (vote : ℕ) → (recent_blockhash : String)
      → BuilderCall
  cross_vm_call :
      (caller : String)
      → (source_vm : ℕ) → (target_vm : ℕ) → (target_address : String) → (calldata : List ℕ)
      → (recent_blockhash : String) → BuilderCall
  wasm_deploy :
      (deployer : String) → (wasm_bytes : List ℕ) → (recent_blockhash : String) → BuilderCall
  move_deploy :
      (deployer : String) → (move_bytes : List ℕ) → (recent_blockhash : String) → BuilderCall
  svm_deploy :
      (deployer : String) → (program_bytes : List ℕ) → (recent_blockhash : String) → BuilderCall
  evm_deploy : (deployer : String) → (bytecode : String) → (recent_blockhash : String) → BuilderCall
  evm_call :
      (caller : String)
      → (contract : String) → (calldata : String) → (recent_blockhash : String) → BuilderCall

-- The message that the called builder puts together.
unfoldable pub message_of : Decode58 → BuilderCall → Result WasmError Message
message_of decode58 (transfer from to lamports recent_blockhash memo) =
    transfer_message decode58 from to lamports recent_blockhash memo
message_of decode58 (create_account payer new_account lamports space owner recent_blockhash) =
    create_account_message decode58 payer new_account lamports space owner recent_blockhash
message_of decode58 (token_transfer authority source destination amount decimals recent_blockhash) =
    token_transfer_message decode58 authority source destination amount decimals recent_blockhash
message_of decode58 (create_mint payer mint_account mint_authority decimals recent_blockhash) =
    create_mint_message decode58 payer mint_account mint_authority decimals recent_blockhash
message_of decode58 (mint_to mint_authority mint destination amount recent_blockhash) =
    mint_to_message decode58 mint_authority mint destination amount recent_blockhash
message_of decode58 (burn owner token_account mint amount recent_blockhash) =
    burn_message decode58 owner token_account mint amount recent_blockhash
message_of decode58 (freeze freeze_authority token_account mint recent_blockhash) =
    freeze_message decode58 freeze_authority token_account mint recent_blockhash
message_of decode58 (create_stake staker stake_account lamports recent_blockhash) =
    create_stake_message decode58 staker stake_account lamports recent_blockhash
message_of decode58 (delegate_stake staker stake_account vote_account recent_blockhash) =
    delegate_stake_message decode58 staker stake_account vote_account recent_blockhash
message_of decode58 (deactivate_stake staker stake_account recent_blockhash) =
    deactivate_stake_message decode58 staker stake_account recent_blockhash
message_of decode58 (withdraw_stake staker stake_account recipient lamports recent_blockhash) =
    withdraw_stake_message decode58 staker stake_account recipient lamports recent_blockhash
message_of decode58 (register_agent authority agent_account name model_id recent_blockhash) =
    register_agent_message decode58 authority agent_account name model_id recent_blockhash
message_of decode58 (set_agent_status authority agent_account status recent_blockhash) =
    set_agent_status_message decode58 authority agent_account status recent_blockhash
message_of decode58 (set_delegate authority agent_account delegate spend_limit recent_blockhash) =
    set_delegate_message decode58 authority agent_account delegate spend_limit recent_blockhash
message_of decode58 (create_a2a_channel owner card_account agent_account recent_blockhash card) =
    create_a2a_channel_message decode58 owner card_account agent_account recent_blockhash card
message_of decode58
      (register_mcp_tool owner tool_account target_program name description recent_blockhash) =
    register_mcp_tool_message decode58 owner tool_account target_program name description
      recent_blockhash
message_of decode58 (invoke_mcp_tool caller tool_account log_account input_hash recent_blockhash) =
    invoke_mcp_tool_message decode58 caller tool_account log_account input_hash recent_blockhash
message_of decode58
      (create_swarm creator swarm_account name strategy max_members recent_blockhash) =
    create_swarm_message decode58 creator swarm_account name strategy max_members recent_blockhash
message_of decode58 (join_swarm agent swarm_account recent_blockhash) =
    join_swarm_message decode58 agent swarm_account recent_blockhash
message_of decode58 (swarm_propose proposer swarm_account title action_data recent_blockhash) =
    swarm_propose_message decode58 proposer swarm_account title action_data recent_blockhash
message_of decode58 (swarm_vote voter swarm_account proposal_index vote recent_blockhash) =
    swarm_vote_message decode58 voter swarm_account proposal_index vote recent_blockhash
message_of decode58
      (cross_vm_call caller source_vm target_vm target_address calldata recent_blockhash) =
    cross_vm_call_message decode58 caller source_vm target_vm target_address calldata
      recent_blockhash
message_of decode58 (wasm_deploy deployer wasm_bytes recent_blockhash) =
    wasm_deploy_message decode58 deployer wasm_bytes recent_blockhash
message_of decode58 (move_deploy deployer move_bytes recent_blockhash) =
    move_deploy_message decode58 deployer move_bytes recent_blockhash
message_of decode58 (svm_deploy deployer program_bytes recent_blockhash) =
    svm_deploy_message decode58 deployer program_bytes recent_blockhash
message_of decode58 (evm_deploy deployer bytecode recent_blockhash) =
    evm_deploy_message decode58 deployer bytecode recent_blockhash
message_of decode58 (evm_call caller contract calldata recent_blockhash) =
    evm_call_message decode58 caller contract calldata recent_blockhash

-- The call.
unfoldable pub build : Decode58 → BuilderCall → Result WasmError (List ℕ)
build decode58 (transfer from to lamports recent_blockhash memo) =
    build_transfer_tx decode58 from to lamports recent_blockhash memo
build decode58 (create_account payer new_account lamports space owner recent_blockhash) =
    build_create_account_tx decode58 payer new_account lamports space owner recent_blockhash
build decode58 (token_transfer authority source destination amount decimals recent_blockhash) =
    build_token_transfer_tx decode58 authority source destination amount decimals recent_blockhash
build decode58 (create_mint payer mint_account mint_authority decimals recent_blockhash) =
    build_create_mint_tx decode58 payer mint_account mint_authority decimals recent_blockhash
build decode58 (mint_to mint_authority mint destination amount recent_blockhash) =
    build_mint_to_tx decode58 mint_authority mint destination amount recent_blockhash
build decode58 (burn owner token_account mint amount recent_blockhash) =
    build_burn_tx decode58 owner token_account mint amount recent_blockhash
build decode58 (freeze freeze_authority token_account mint recent_blockhash) =
    build_freeze_tx decode58 freeze_authority token_account mint recent_blockhash
build decode58 (create_stake staker stake_account lamports recent_blockhash) =
    build_create_stake_tx decode58 staker stake_account lamports recent_blockhash
build decode58 (delegate_stake staker stake_account vote_account recent_blockhash) =
    build_delegate_stake_tx decode58 staker stake_account vote_account recent_blockhash
build decode58 (deactivate_stake staker stake_account recent_blockhash) =
    build_deactivate_stake_tx decode58 staker stake_account recent_blockhash
build decode58 (withdraw_stake staker stake_account recipient lamports recent_blockhash) =
    build_withdraw_stake_tx decode58 staker stake_account recipient lamports recent_blockhash
build decode58 (register_agent authority agent_account name model_id recent_blockhash) =
    build_register_agent_tx decode58 authority agent_account name model_id recent_blockhash
build decode58 (set_agent_status authority agent_account status recent_blockhash) =
    build_set_agent_status_tx decode58 authority agent_account status recent_blockhash
build decode58 (set_delegate authority agent_account delegate spend_limit recent_blockhash) =
    build_set_delegate_tx decode58 authority agent_account delegate spend_limit recent_blockhash
build decode58 (create_a2a_channel owner card_account agent_account recent_blockhash card) =
    build_create_a2a_channel_tx decode58 owner card_account agent_account recent_blockhash card
build decode58
      (register_mcp_tool owner tool_account target_program name description recent_blockhash) =
    build_register_mcp_tool_tx decode58 owner tool_account target_program name description
      recent_blockhash
build decode58 (invoke_mcp_tool caller tool_account log_account input_hash recent_blockhash) =
    build_invoke_mcp_tool_tx decode58 caller tool_account log_account input_hash recent_blockhash
build decode58 (create_swarm creator swarm_account name strategy max_members recent_blockhash) =
    build_create_swarm_tx decode58 creator swarm_account name strategy max_members recent_blockhash
build decode58 (join_swarm agent swarm_account recent_blockhash) =
    build_join_swarm_tx decode58 agent swarm_account recent_blockhash
build decode58 (swarm_propose proposer swarm_account title action_data recent_blockhash) =
    build_swarm_propose_tx decode58 proposer swarm_account title action_data recent_blockhash
build decode58 (swarm_vote voter swarm_account proposal_index vote recent_blockhash) =
    build_swarm_vote_tx decode58 voter swarm_account proposal_index vote recent_blockhash
build decode58 (cross_vm_call caller source_vm target_vm target_address calldata recent_blockhash) =
    build_cross_vm_call_tx decode58 caller source_vm target_vm target_address calldata
      recent_blockhash
build decode58 (wasm_deploy deployer wasm_bytes recent_blockhash) =
    build_wasm_deploy_tx decode58 deployer wasm_bytes recent_blockhash
build decode58 (move_deploy deployer move_bytes recent_blockhash) =
    build_move_deploy_tx decode58 deployer move_bytes recent_blockhash
build decode58 (svm_deploy deployer program_bytes recent_blockhash) =
    build_svm_deploy_tx decode58 deployer program_bytes recent_blockhash
build decode58 (evm_deploy deployer bytecode recent_blockhash) =
    build_evm_deploy_tx decode58 deployer bytecode recent_blockhash
build decode58 (evm_call caller contract calldata recent_blockhash) =
    build_evm_call_tx decode58 caller contract calldata recent_blockhash
