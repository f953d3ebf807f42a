-- ===== src/Wasm/Builders/Agents.antt =====
-- src/wasm/index.ts: the builders for the agent program and for the A2A program.
use eto_mcp.Prelude.{ℕ, Option, none, some, List, [], ◌∷◌, ◌++◌, String, length}
use eto_mcp.Prelude.Result.{Result, ok, ◌>>=◌}
use eto_mcp.Prelude.Text.{utf8}
use eto_mcp.Wasm.{Decode58, WasmError}
use eto_mcp.Wasm.Bytes.{
  write_u8, write_u32_le, write_u64_le, write_vec, pubkey_bytes, blockhash_bytes,
}
use eto_mcp.Wasm.Message.{Message, build_message, instruction, unsigned_transaction}
use eto_mcp.Wasm.ProgramIds.{agent_program_id, a2a_program_id}

module _ (decode58 : Decode58) where
  unfoldable pub register_agent_message :
      String → String → String → String → String → Result WasmError Message
  register_agent_message authority agent_account name model_id recent_blockhash = do
    authority_key ← pubkey_bytes decode58 authority
    agent_account_key ← pubkey_bytes decode58 agent_account
    blockhash ← blockhash_bytes decode58 recent_blockhash
    let payload =
          write_u8 0
          ++ (write_vec (utf8 name)
              ++ (write_vec (utf8 model_id) ++ (write_vec (utf8 "") ++ write_u64_le 0))) in
        ok (
          build_message (authority_key ∷ agent_account_key ∷ authority_key ∷ agent_program_id ∷ [])
            blockhash (instruction 3 (0 ∷ 1 ∷ 2 ∷ []) payload ∷ []) 1 0 2)

  unfoldable pub build_register_agent_tx :
      String → String → String → String → String → Result WasmError (List ℕ)
  build_register_agent_tx authority agent_account name model_id recent_blockhash =
      register_agent_message authority agent_account name model_id recent_blockhash
      >>= unsigned_transaction

  unfoldable pub set_agent_status_message : String → String → ℕ → String → Result WasmError Message
  set_agent_status_message authority agent_account status recent_blockhash = do
    authority_key ← pubkey_bytes decode58 authority
    agent_account_key ← pubkey_bytes decode58 agent_account
    blockhash ← blockhash_bytes decode58 recent_blockhash
    let payload = write_u8 6 ++ write_u8 status in
        ok (
          build_message (agent_account_key ∷ authority_key ∷ agent_program_id ∷ []) blockhash
            (instruction 2 (0 ∷ 1 ∷ []) payload ∷ []) 1 0 1)

  unfoldable pub build_set_agent_status_tx :
      String → String → ℕ → String → Result WasmError (List ℕ)
  build_set_agent_status_tx authority agent_account status recent_blockhash =
      set_agent_status_message authority agent_account status recent_blockhash
      >>= unsigned_transaction

  -- The flag, and the key where there is one.
  unfoldable pub write_delegate : Option String → Result WasmError (List ℕ)
  write_delegate none = ok (write_u8 0)
  write_delegate (some delegate) = do key ← pubkey_bytes decode58 delegate; ok (write_u8 1 ++ key)

  unfoldable pub set_delegate_message :
      String → String → Option String → ℕ → String → Result WasmError Message
  set_delegate_message authority agent_account delegate spend_limit recent_blockhash = do
    authority_key ← pubkey_bytes decode58 authority
    agent_account_key ← pubkey_bytes decode58 agent_account
    blockhash ← blockhash_bytes decode58 recent_blockhash
    delegate_bytes ← write_delegate delegate
    let payload = write_u8 5 ++ (delegate_bytes ++ write_u64_le spend_limit) in
        ok (
          build_message (agent_account_key ∷ authority_key ∷ agent_program_id ∷ []) blockhash
            (instruction 2 (0 ∷ 1 ∷ []) payload ∷ []) 1 0 1)

  unfoldable pub build_set_delegate_tx :
      String → String → Option String → ℕ → String → Result WasmError (List ℕ)
  build_set_delegate_tx authority agent_account delegate spend_limit recent_blockhash =
      set_delegate_message authority agent_account delegate spend_limit recent_blockhash
      >>= unsigned_transaction

-- `writeString`
unfoldable pub write_string : String → List ℕ
write_string s = let bytes = utf8 s in write_u32_le (length bytes) ++ bytes

-- The optional arguments of `buildCreateA2AChannelTx`.
pub record AgentCard : Type 0 where
  pub name : String
  pub description : String
  pub endpoint_uri : String
  pub capabilities_uri : String
  pub version : String

abbrev pub default_card : AgentCard
default_card = record {
  name = "Agent Card";
  description = "A2A agent card";
  endpoint_uri = "";
  capabilities_uri = "";
  version = "1.0";
}

module _ (decode58 : Decode58) where
  unfoldable pub create_a2a_channel_message :
      String → String → String → String → AgentCard → Result WasmError Message
  create_a2a_channel_message owner card_account agent_account recent_blockhash card = do
    owner_key ← pubkey_bytes decode58 owner
    card_key ← pubkey_bytes decode58 card_account
    agent_key ← pubkey_bytes decode58 agent_account
    blockhash ← blockhash_bytes decode58 recent_blockhash
    let payload =
          write_u8 0
          ++ (write_string card.name
              ++ (write_string card.description
                  ++ (write_string card.endpoint_uri
                      ++ (write_string card.capabilities_uri
                          ++ (write_string card.version ++ write_u8 0))))) in
        ok (
          build_message (owner_key ∷ card_key ∷ agent_key ∷ a2a_program_id ∷ []) blockhash
            (instruction 3 (0 ∷ 1 ∷ 2 ∷ 0 ∷ []) payload ∷ []) 1 0 2)

  unfoldable pub build_create_a2a_channel_tx :
      String → String → String → String → AgentCard → Result WasmError (List ℕ)
  build_create_a2a_channel_tx owner card_account agent_account recent_blockhash card =
      create_a2a_channel_message owner card_account agent_account recent_blockhash card
      >>= unsigned_transaction
