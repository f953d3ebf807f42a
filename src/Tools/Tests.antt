-- ===== src/Tools/Tests.antt =====
-- The transactions and accounts of src/tools at concrete inputs.
use eto_mcp.Prelude.{
  arith, or_default, length, [], ◌≡◌, refl, ℕ, some, true, List, ◌∷◌, ◌++◌, String,
}
use eto_mcp.Prelude.Text.{codes}
use eto_mcp.Prelude.Result.{ok, err}
use eto_mcp.Wasm.{expected_32_bytes}
use eto_mcp.Wasm.Bytes.{zeros, pad_left32, pubkey_bytes, blockhash_bytes}
use eto_mcp.Wasm.Message.{unsigned_transaction}
use eto_mcp.Wasm.Fixtures.{plain, shown, key_signs}
use eto_mcp.Wasm.Signing.Slots.{local_sign}
use eto_mcp.Tools.Envelopes.Agreement.{tool_tx, tool_message, agent_tool, tool_tx-agrees}
use eto_mcp.Tools.Zk.{build_zk_tx, zk_message_bytes}
use eto_mcp.Tools.Zk.Corruption.{headless, local_sign_corrupts}
use eto_mcp.Tools.Accounts.{HumanAuthority, parse_agent_state}
use eto_mcp.Tools.Accounts.RoundTrip.{
  AgentLayout, versioned, write_agent, parse_agent_state-write_agent,
}
use eto_mcp.Issuers.Base58.{base58_decode}
use eto_mcp.Tools.Addresses.{derive_tool_address}
use eto_mcp.Tools.Addresses.Collision.{derive_tool_address_collides}

-- The program ids that the configuration falls back to are 31, 31 and 30 bytes long.
default_agent_id :
    length (or_default (base58_decode "EToAgentProgram111111111111111111111111111") []) ≡ 31
unfolding base58_decode eto_mcp.Issuers.Base58.add_digits eto_mcp.Issuers.Base58.base58_lookup
    eto_mcp.Issuers.Base58.add_digit
default_agent_id = refl

default_a2a_id :
    length (or_default (base58_decode "EToA2AProgram1111111111111111111111111111") []) ≡ 30
unfolding base58_decode eto_mcp.Issuers.Base58.add_digits eto_mcp.Issuers.Base58.base58_lookup
    eto_mcp.Issuers.Base58.add_digit
default_a2a_id = refl

abbrev agent_id : List ℕ
agent_id = 7 ∷ zeros 30

tool_tx-agrees_example :
    (tx : List ℕ) × (tool_tx agent_tool plain agent_id "alice" "agent" (6 ∷ 1 ∷ []) "block" ≡ ok tx)
    × (unsigned_transaction (
          tool_message 1
            (pad_left32 (codes "alice") ∷ pad_left32 (codes "agent") ∷ agent_id ∷ [])
            (pad_left32 (codes "block"))
            (0 ∷ 1 ∷ 0 ∷ [])
            (6 ∷ 1 ∷ []))
        ≡ err (expected_32_bytes 31))
unfolding pubkey_bytes blockhash_bytes
tool_tx-agrees_example =
    tool_tx-agrees plain agent_id "alice" "agent" (6 ∷ 1 ∷ []) "block" (pad_left32 (codes "alice"))
      (pad_left32 (codes "agent")) (pad_left32 (codes "block")) refl refl refl agent_tool

local_sign_corrupts_example :
    local_sign key_signs (5 ∷ []) (build_zk_tx (zeros 32) (zeros 32) (1 ∷ []) (zeros 32))
    ≡ ok (
        1
        ∷ 0
        ∷ 0
        ∷ 0
        ∷ ((5 ∷ zeros 63) ++ headless (zk_message_bytes (zeros 32) (zeros 32) (1 ∷ []) (zeros 32))))
local_sign_corrupts_example =
    local_sign_corrupts key_signs (5 ∷ []) (zeros 32) (zeros 32) (1 ∷ []) (zeros 32) (5 ∷ zeros 63)
      refl refl

abbrev human : HumanAuthority
human = record { strategy = codes "worldcoin"; sub = codes "0xab"; slot = 77 }

abbrev agent : AgentLayout
agent = record {
  discriminator = zeros 8;
  authority = 9 ∷ zeros 31;
  name = codes "scout";
  model_id = codes "m1";
  metadata_uri = [];
  reputation = 300;
  status = 1;
  extension = versioned 1 (some human);
}

parse_agent_state-write_agent_example :
    parse_agent_state shown (write_agent agent)
    ≡ some (record {
      authority = shown (9 ∷ zeros 31);
      name = codes "scout";
      model_id = codes "m1";
      metadata_uri = [];
      reputation = 300;
      status_byte = 1;
      schema_version = 1;
      human_authority = some human;
    })
parse_agent_state-write_agent_example = parse_agent_state-write_agent shown agent (
  refl,
  refl,
  omega arith,
  omega arith,
  omega arith,
  omega arith,
  omega arith,
  (omega arith, (omega arith, omega arith, omega arith)),
)

abbrev long_name : String
long_name = "price_of_ether_in_dollars_on_the_first_market"

abbrev other_name : String
other_name = "price_of_ether_in_dollars_on_the_first_venue"

derive_tool_address_collides_example :
    derive_tool_address shown (7 ∷ zeros 31) long_name "alice"
    ≡ derive_tool_address shown (7 ∷ zeros 31) other_name "bob"
unfolding eto_mcp.Prelude.Text.utf8
derive_tool_address_collides_example =
    derive_tool_address_collides shown (7 ∷ zeros 31) long_name other_name "alice" "bob"
      (omega arith) (omega arith) refl
