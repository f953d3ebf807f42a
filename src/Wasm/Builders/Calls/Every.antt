-- ===== src/Wasm/Builders/Calls/Every.antt =====
-- Every builder call of src/wasm/index.ts at once: its message, and the call as the message handed
-- on.
use eto_mcp.Prelude.{◌≡◌, refl}
use eto_mcp.Prelude.Result.{Always, ◌>>=◌}
use eto_mcp.Wasm.{Decode58}
use eto_mcp.Wasm.Message.{unsigned_transaction}
use eto_mcp.Wasm.Builders.Calls.Facts.{IsBuilt}
use eto_mcp.Wasm.Builders.Transfers.{
  build_transfer_tx, build_create_account_tx, build_token_transfer_tx,
}
use eto_mcp.Wasm.Builders.Tokens.{
  build_create_mint_tx, build_mint_to_tx, build_burn_tx, build_freeze_tx,
}
use eto_mcp.Wasm.Builders.Stakes.{
  build_create_stake_tx, build_delegate_stake_tx, build_deactivate_stake_tx,
  build_withdraw_stake_tx,
}
use eto_mcp.Wasm.Builders.Agents.{
  build_register_agent_tx, build_set_agent_status_tx, build_set_delegate_tx,
  build_create_a2a_channel_tx,
}
use eto_mcp.Wasm.Builders.Tools.{
  build_register_mcp_tool_tx, build_invoke_mcp_tool_tx, build_cross_vm_call_tx,
}
use eto_mcp.Wasm.Builders.Swarms.{
  build_create_swarm_tx, build_join_swarm_tx, build_swarm_propose_tx, build_swarm_vote_tx,
}
use eto_mcp.Wasm.Builders.Deploys.{build_wasm_deploy_tx, build_move_deploy_tx, build_svm_deploy_tx}
use eto_mcp.Wasm.Builders.Evm.{build_evm_deploy_tx, build_evm_call_tx}
use eto_mcp.Wasm.Builders.Calls.{
  BuilderCall, message_of, build, transfer, create_account, token_transfer, create_mint, mint_to,
  burn, freeze, create_stake, delegate_stake, deactivate_stake, withdraw_stake, register_agent,
  set_agent_status, set_delegate, create_a2a_channel, register_mcp_tool, invoke_mcp_tool,
  create_swarm, join_swarm, swarm_propose, swarm_vote, cross_vm_call, wasm_deploy, move_deploy,
  svm_deploy, evm_deploy, evm_call,
}
use eto_mcp.Wasm.Builders.Calls.Accounts.{
  transfer_IsBuilt, create_account_IsBuilt, token_transfer_IsBuilt, create_mint_IsBuilt,
  mint_to_IsBuilt, burn_IsBuilt, freeze_IsBuilt, create_stake_IsBuilt, delegate_stake_IsBuilt,
  deactivate_stake_IsBuilt, withdraw_stake_IsBuilt,
}
use eto_mcp.Wasm.Builders.Calls.Services.{
  register_agent_IsBuilt, set_agent_status_IsBuilt, set_delegate_IsBuilt,
  create_a2a_channel_IsBuilt, register_mcp_tool_IsBuilt, invoke_mcp_tool_IsBuilt,
  create_swarm_IsBuilt, join_swarm_IsBuilt, swarm_propose_IsBuilt, swarm_vote_IsBuilt,
  cross_vm_call_IsBuilt, wasm_deploy_IsBuilt, move_deploy_IsBuilt, svm_deploy_IsBuilt,
  evm_deploy_IsBuilt, evm_call_IsBuilt,
}

pub message_of-IsBuilt :
    (decode58 : Decode58) (call : BuilderCall)
    → Always (IsBuilt decode58 call) (message_of decode58 call)
unfolding message_of
message_of-IsBuilt decode58 (transfer from to lamports recent_blockhash memo) =
    transfer_IsBuilt decode58 from to lamports recent_blockhash memo
message_of-IsBuilt decode58
      (create_account payer new_account lamports space owner recent_blockhash) =
    create_account_IsBuilt decode58 payer new_account lamports space owner recent_blockhash
message_of-IsBuilt decode58
      (token_transfer authority source destination amount decimals recent_blockhash) =
    token_transfer_IsBuilt decode58 authority source destination amount decimals recent_blockhash
message_of-IsBuilt decode58
      (create_mint payer mint_account mint_authority decimals recent_blockhash) =
    create_mint_IsBuilt decode58 payer mint_account mint_authority decimals recent_blockhash
message_of-IsBuilt decode58 (mint_to mint_authority mint destination amount recent_blockhash) =
    mint_to_IsBuilt decode58 mint_authority mint destination amount recent_blockhash
message_of-IsBuilt decode58 (burn owner token_account mint amount recent_blockhash) =
    burn_IsBuilt decode58 owner token_account mint amount recent_blockhash
message_of-IsBuilt decode58 (freeze freeze_authority token_account mint recent_blockhash) =
    freeze_IsBuilt decode58 freeze_authority token_account mint recent_blockhash
message_of-IsBuilt decode58 (create_stake staker stake_account lamports recent_blockhash) =
    create_stake_IsBuilt decode58 staker stake_account lamports recent_blockhash
message_of-IsBuilt decode58 (delegate_stake staker stake_account vote_account recent_blockhash) =
    delegate_stake_IsBuilt decode58 staker stake_account vote_account recent_blockhash
message_of-IsBuilt decode58 (deactivate_stake staker stake_account recent_blockhash) =
    deactivate_stake_IsBuilt decode58 staker stake_account recent_blockhash
message_of-IsBuilt decode58
      (withdraw_stake staker stake_account recipient lamports recent_blockhash) =
    withdraw_stake_IsBuilt decode58 staker stake_account recipient lamports recent_blockhash
message_of-IsBuilt decode58
      (register_agent authority agent_account name model_id recent_blockhash) =
    register_agent_IsBuilt decode58 authority agent_account name model_id recent_blockhash
message_of-IsBuilt decode58 (set_agent_status authority agent_account status recent_blockhash) =
    set_agent_status_IsBuilt decode58 authority agent_account status recent_blockhash
message_of-IsBuilt decode58
      (set_delegate authority agent_account delegate spend_limit recent_blockhash) =
    set_delegate_IsBuilt decode58 authority agent_account delegate spend_limit recent_blockhash
message_of-IsBuilt decode58
      (create_a2a_channel owner card_account agent_account recent_blockhash card) =
    create_a2a_channel_IsBuilt decode58 owner card_account agent_account recent_blockhash card
message_of-IsBuilt decode58
      (register_mcp_tool owner tool_account target_program name description recent_blockhash) =
    register_mcp_tool_IsBuilt decode58 owner tool_account target_program name description
      recent_blockhash
message_of-IsBuilt decode58
      (invoke_mcp_tool caller tool_account log_account input_hash recent_blockhash) =
    invoke_mcp_tool_IsBuilt decode58 caller tool_account log_account input_hash recent_blockhash
message_of-IsBuilt decode58
      (create_swarm creator swarm_account name strategy max_members recent_blockhash) =
    create_swarm_IsBuilt decode58 creator swarm_account name strategy max_members recent_blockhash
message_of-IsBuilt decode58 (join_swarm agent swarm_account recent_blockhash) =
    join_swarm_IsBuilt decode58 agent swarm_account recent_blockhash
message_of-IsBuilt decode58
      (swarm_propose proposer swarm_account title action_data recent_blockhash) =
    swarm_propose_IsBuilt decode58 proposer swarm_account title action_data recent_blockhash
message_of-IsBuilt decode58 (swarm_vote voter swarm_account proposal_index vote recent_blockhash) =
    swarm_vote_IsBuilt decode58 voter swarm_account proposal_index vote recent_blockhash
message_of-IsBuilt decode58
      (cross_vm_call caller source_vm target_vm target_address calldata recent_blockhash) =
    cross_vm_call_IsBuilt decode58 caller source_vm target_vm target_address calldata
      recent_blockhash
message_of-IsBuilt decode58 (wasm_deploy deployer wasm_bytes recent_blockhash) =
    wasm_deploy_IsBuilt decode58 deployer wasm_bytes recent_blockhash
message_of-IsBuilt decode58 (move_deploy deployer move_bytes recent_blockhash) =
    move_deploy_IsBuilt decode58 deployer move_bytes recent_blockhash
message_of-IsBuilt decode58 (svm_deploy deployer program_bytes recent_blockhash) =
    svm_deploy_IsBuilt decode58 deployer program_bytes recent_blockhash
message_of-IsBuilt decode58 (evm_deploy deployer bytecode recent_blockhash) =
    evm_deploy_IsBuilt decode58 deployer bytecode recent_blockhash
message_of-IsBuilt decode58 (evm_call caller contract calldata recent_blockhash) =
    evm_call_IsBuilt decode58 caller contract calldata recent_blockhash

pub build-message_of :
    (decode58 : Decode58) (call : BuilderCall)
    → build decode58 call ≡ message_of decode58 call >>= unsigned_transaction
unfolding build message_of build_transfer_tx build_create_account_tx build_token_transfer_tx
    build_create_mint_tx build_mint_to_tx build_burn_tx build_freeze_tx build_create_stake_tx
    build_delegate_stake_tx build_deactivate_stake_tx build_withdraw_stake_tx
    build_register_agent_tx build_set_agent_status_tx build_set_delegate_tx
    build_create_a2a_channel_tx build_register_mcp_tool_tx build_invoke_mcp_tool_tx
    build_create_swarm_tx build_join_swarm_tx build_swarm_propose_tx build_swarm_vote_tx
    build_cross_vm_call_tx build_wasm_deploy_tx build_move_deploy_tx build_svm_deploy_tx
    build_evm_deploy_tx build_evm_call_tx
build-message_of decode58 (transfer _ _ _ _ _) = refl
build-message_of decode58 (create_account _ _ _ _ _ _) = refl
build-message_of decode58 (token_transfer _ _ _ _ _ _) = refl
build-message_of decode58 (create_mint _ _ _ _ _) = refl
build-message_of decode58 (mint_to _ _ _ _ _) = refl
build-message_of decode58 (burn _ _ _ _ _) = refl
build-message_of decode58 (freeze _ _ _ _) = refl
build-message_of decode58 (create_stake _ _ _ _) = refl
build-message_of decode58 (delegate_stake _ _ _ _) = refl
build-message_of decode58 (deactivate_stake _ _ _) = refl
build-message_of decode58 (withdraw_stake _ _ _ _ _) = refl
build-message_of decode58 (register_agent _ _ _ _ _) = refl
build-message_of decode58 (set_agent_status _ _ _ _) = refl
build-message_of decode58 (set_delegate _ _ _ _ _) = refl
build-message_of decode58 (create_a2a_channel _ _ _ _ _) = refl
build-message_of decode58 (register_mcp_tool _ _ _ _ _ _) = refl
build-message_of decode58 (invoke_mcp_tool _ _ _ _ _) = refl
build-message_of decode58 (create_swarm _ _ _ _ _ _) = refl
build-message_of decode58 (join_swarm _ _ _) = refl
build-message_of decode58 (swarm_propose _ _ _ _ _) = refl
build-message_of decode58 (swarm_vote _ _ _ _ _) = refl
build-message_of decode58 (cross_vm_call _ _ _ _ _ _) = refl
build-message_of decode58 (wasm_deploy _ _ _) = refl
build-message_of decode58 (move_deploy _ _ _) = refl
build-message_of decode58 (svm_deploy _ _ _) = refl
build-message_of decode58 (evm_deploy _ _ _) = refl
build-message_of decode58 (evm_call _ _ _ _) = refl
