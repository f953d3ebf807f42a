-- ===== src/Wasm/Builders/Calls/Intent.antt =====
-- What the builders of src/wasm/index.ts are meant to put into their messages.
use eto_mcp.Prelude.{
  ℕ, ◌+◌, ◌-◌, ◌<◌, ◌^◌, Bool, true, false, ◌&&◌, List, [], ◌∷◌, String, length, all, take, ltb,
  leb,
}
use eto_mcp.Wasm.Message.{CompiledInstruction, Message}
use eto_mcp.Wasm.Builders.Calls.{
  BuilderCall, transfer, create_account, token_transfer, create_mint, mint_to, burn, freeze,
  create_stake, delegate_stake, deactivate_stake, withdraw_stake, register_agent, set_agent_status,
  set_delegate, create_a2a_channel, register_mcp_tool, invoke_mcp_tool, create_swarm, join_swarm,
  swarm_propose, swarm_vote, cross_vm_call, wasm_deploy, move_deploy, svm_deploy, evm_deploy,
  evm_call,
}

-- The account in whose name the transaction is built: the one that its comment calls the signer.
unfoldable pub authority_of : BuilderCall → String
authority_of (transfer from _ _ _ _) = from
authority_of (create_account payer _ _ _ _ _) = payer
authority_of (token_transfer authority _ _ _ _ _) = authority
authority_of (create_mint payer _ _ _ _) = payer
authority_of (mint_to mint_authority _ _ _ _) = mint_authority
authority_of (burn owner _ _ _ _) = owner
authority_of (freeze freeze_authority _ _ _) = freeze_authority
authority_of (create_stake staker _ _ _) = staker
authority_of (delegate_stake staker _ _ _) = staker
authority_of (deactivate_stake staker _ _) = staker
authority_of (withdraw_stake staker _ _ _ _) = staker
authority_of (register_agent authority _ _ _ _) = authority
authority_of (set_agent_status authority _ _ _) = authority
authority_of (set_delegate authority _ _ _ _) = authority
authority_of (create_a2a_channel owner _ _ _ _) = owner
authority_of (register_mcp_tool owner _ _ _ _ _) = owner
authority_of (invoke_mcp_tool caller _ _ _ _) = caller
authority_of (create_swarm creator _ _ _ _ _) = creator
authority_of (join_swarm agent _ _) = agent
authority_of (swarm_propose proposer _ _ _ _) = proposer
authority_of (swarm_vote voter _ _ _ _) = voter
authority_of (cross_vm_call caller _ _ _ _ _) = caller
authority_of (wasm_deploy deployer _ _) = deployer
authority_of (move_deploy deployer _ _) = deployer
authority_of (svm_deploy deployer _ _) = deployer
authority_of (evm_deploy deployer _ _) = deployer
authority_of (evm_call caller _ _ _) = caller

-- The accounts whose keys the messages have in their first slots, as many as signatures are required.
unfoldable pub signer_slots : BuilderCall → List String
signer_slots (transfer from _ _ _ _) = from ∷ []
signer_slots (create_account payer new_account _ _ _ _) = payer ∷ new_account ∷ []
signer_slots (token_transfer authority _ _ _ _ _) = authority ∷ []
signer_slots (create_mint payer mint_account _ _ _) = payer ∷ mint_account ∷ []
signer_slots (mint_to mint_authority _ _ _ _) = mint_authority ∷ []
signer_slots (burn owner _ _ _ _) = owner ∷ []
signer_slots (freeze _ token_account _ _) = token_account ∷ []
signer_slots (create_stake staker stake_account _ _) = staker ∷ stake_account ∷ []
signer_slots (delegate_stake _ stake_account _ _) = stake_account ∷ []
signer_slots (deactivate_stake _ stake_account _) = stake_account ∷ []
signer_slots (withdraw_stake _ stake_account _ _ _) = stake_account ∷ []
signer_slots (register_agent authority _ _ _ _) = authority ∷ []
signer_slots (set_agent_status _ agent_account _ _) = agent_account ∷ []
signer_slots (set_delegate _ agent_account _ _ _) = agent_account ∷ []
signer_slots (create_a2a_channel owner _ _ _ _) = owner ∷ []
signer_slots (register_mcp_tool owner _ _ _ _ _) = owner ∷ []
signer_slots (invoke_mcp_tool caller _ _ _ _) = caller ∷ []
signer_slots (create_swarm creator _ _ _ _ _) = creator ∷ []
signer_slots (join_swarm agent _ _) = agent ∷ []
signer_slots (swarm_propose proposer _ _ _ _) = proposer ∷ []
signer_slots (swarm_vote voter _ _ _ _) = voter ∷ []
signer_slots (cross_vm_call caller _ _ _ _ _) = caller ∷ []
signer_slots (wasm_deploy deployer _ _) = deployer ∷ []
signer_slots (move_deploy deployer _ _) = deployer ∷ []
signer_slots (svm_deploy deployer _ _) = deployer ∷ []
signer_slots (evm_deploy deployer _ _) = deployer ∷ []
signer_slots (evm_call caller _ _ _) = caller ∷ []

-- The builders that put another account in front of the authority.
unfoldable pub displaces_authority : BuilderCall → Bool
displaces_authority (freeze _ _ _ _) = true
displaces_authority (delegate_stake _ _ _ _) = true
displaces_authority (deactivate_stake _ _ _) = true
displaces_authority (withdraw_stake _ _ _ _ _) = true
displaces_authority (set_agent_status _ _ _ _) = true
displaces_authority (set_delegate _ _ _ _ _) = true
displaces_authority _ = false

-- The account that these builders put first: the one that is acted on.
unfoldable pub account_of : BuilderCall → String
unfolding authority_of
account_of (freeze _ token_account _ _) = token_account
account_of (delegate_stake _ stake_account _ _) = stake_account
account_of (deactivate_stake _ stake_account _) = stake_account
account_of (withdraw_stake _ stake_account _ _ _) = stake_account
account_of (set_agent_status _ agent_account _ _) = agent_account
account_of (set_delegate _ agent_account _ _ _) = agent_account
account_of call = authority_of call

-- The builders whose program id is 30 bytes long.
unfoldable pub uses_short_id : BuilderCall → Bool
uses_short_id (wasm_deploy _ _ _) = true
uses_short_id (move_deploy _ _ _) = true
uses_short_id _ = false

-- An instruction names accounts of the message, and its program is one of the read-only accounts
-- at the end.
abbrev pub is_sound_instruction : Message → CompiledInstruction → Bool
is_sound_instruction msg ix =
    ltb ix.program_id_index (length msg.account_keys)
    && (leb (length msg.account_keys - msg.num_readonly_unsigned) ix.program_id_index
        && all (λ account. ltb account (length msg.account_keys)) ix.accounts)

-- The header counts are those of the accounts: there is a signer, the first signer can be charged,
-- and the signers and the read-only accounts do not overlap.
unfoldable pub is_sound : Message → Bool
is_sound msg =
    ltb msg.num_readonly_signed msg.num_required_signatures
    && (leb (msg.num_required_signatures + msg.num_readonly_unsigned) (length msg.account_keys)
        && all (is_sound_instruction msg) msg.instructions)

-- The keys that have to sign.
abbrev pub signers : Message → List (List ℕ)
signers msg = take msg.num_required_signatures msg.account_keys

abbrev pub IsShort : CompiledInstruction → Type 0
IsShort ix = length ix.data_bytes < 2 ^ 32
