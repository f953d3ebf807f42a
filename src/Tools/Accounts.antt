-- ===== src/Tools/Accounts.antt =====
-- The accounts that src/tools/agent.ts, swarm.ts and mcp-program.ts parse, from their bytes.
pub mod RoundTrip
pub mod Layouts
pub mod Swarms
use eto_mcp.Prelude.{
  ℕ, ◌*◌, Option, none, some, Bool, List, String, length, ltb, ◌==◌, drop, if◌then◌else◌,
}
use eto_mcp.Prelude.Optional.{◌>>=◌}
use eto_mcp.Wasm.{Encode58}
use eto_mcp.Tools.Borsh.{
  Reader, borsh_u8, borsh_bool, borsh_u32, borsh_u64, borsh_string, borsh_pubkey, borsh_many,
}

pub record HumanAuthority : Type 0 where
  pub strategy : List ℕ
  pub sub : List ℕ
  pub slot : ℕ

pub record AgentState : Type 0 where
  pub authority : String
  pub name : List ℕ
  pub model_id : List ℕ
  pub metadata_uri : List ℕ
  pub reputation : ℕ
  pub status_byte : ℕ
  pub schema_version : ℕ
  pub human_authority : Option HumanAuthority

-- The fields of the extension that are there; one that throws leaves the default.
unfoldable pub read_human_authority : List ℕ → Option HumanAuthority
read_human_authority bytes = do
  (flag, r0) ← borsh_u8 bytes
  (strategy, r1) ← if flag == 1 then borsh_string r0 else none
  (sub, r2) ← borsh_string r1
  (slot, r3) ← borsh_u64 r2
  some (record { strategy = strategy; sub = sub; slot = slot })

unfoldable pub read_extension : List ℕ → ℕ × Option HumanAuthority
read_extension bytes = elim (borsh_u8 bytes) [
  | none ↦ (0, none)
  | some (version, rest) ↦ (version, read_human_authority rest)
]

unfoldable pub parse_agent_state : Encode58 → List ℕ → Option AgentState
parse_agent_state encode58 bytes = do
  (authority, r0) ← if ltb (length bytes) 40 then none else borsh_pubkey encode58 (drop 8 bytes)
  (name, r1) ← borsh_string r0
  (model_id, r2) ← borsh_string r1
  (metadata_uri, r3) ← borsh_string r2
  (reputation, r4) ← borsh_u64 r3
  (status_byte, r5) ← borsh_u8 r4
  let extension = read_extension r5 in
      some (record {
        authority = authority;
        name = name;
        model_id = model_id;
        metadata_uri = metadata_uri;
        reputation = reputation;
        status_byte = status_byte;
        schema_version = extension.0;
        human_authority = extension.1;
      })

pub record SwarmState : Type 0 where
  pub leader : String
  pub sub_task_count : ℕ
  pub status_byte : ℕ
  pub strategy_byte : ℕ
  pub created_slot : ℕ
  pub deadline_slot : ℕ
  pub escrow_total : ℕ
  pub escrow_per_task : ℕ

unfoldable pub parse_swarm_state : Encode58 → List ℕ → Option SwarmState
parse_swarm_state encode58 bytes = do
  (leader, r0) ← if ltb (length bytes) 40 then none else borsh_pubkey encode58 (drop 8 bytes)
  (sub_task_count, r1) ← borsh_u32 r0
  (status_byte, r2) ← borsh_u8 (drop (sub_task_count * 97) r1)
  (strategy_byte, r3) ← borsh_u8 r2
  (created_slot, r4) ← borsh_u64 r3
  (deadline_slot, r5) ← borsh_u64 r4
  (escrow_total, r6) ← borsh_u64 r5
  (escrow_per_task, r7) ← borsh_u64 r6
  some (record {
    leader = leader;
    sub_task_count = sub_task_count;
    status_byte = status_byte;
    strategy_byte = strategy_byte;
    created_slot = created_slot;
    deadline_slot = deadline_slot;
    escrow_total = escrow_total;
    escrow_per_task = escrow_per_task;
  })

pub record ToolState : Type 0 where
  pub owner : String
  pub target_program : String
  pub name : List ℕ
  pub description : List ℕ
  pub input_schema_uri : List ℕ
  pub output_schema_uri : List ℕ
  pub tags : List (List ℕ)
  pub access_control : ℕ
  pub allowlist_count : ℕ
  pub is_active : Bool
  pub invocation_count : ℕ

unfoldable pub parse_tool_state : Encode58 → List ℕ → Option ToolState
parse_tool_state encode58 bytes = do
  (owner, r0) ← if ltb (length bytes) 72 then none else borsh_pubkey encode58 (drop 8 bytes)
  (target_program, r1) ← borsh_pubkey encode58 r0
  (name, r2) ← borsh_string r1
  (description, r3) ← borsh_string r2
  (input_schema_uri, r4) ← borsh_string r3
  (output_schema_uri, r5) ← borsh_string r4
  (tag_count, r6) ← borsh_u32 r5
  (tags, r7) ← borsh_many borsh_string tag_count r6
  (access_control, r8) ← borsh_u8 r7
  (allowlist_count, r9) ← borsh_u32 r8
  (is_active, r10) ← borsh_bool (drop (allowlist_count * 32) r9)
  (invocation_count, r11) ← borsh_u64 r10
  some (record {
    owner = owner;
    target_program = target_program;
    name = name;
    description = description;
    input_schema_uri = input_schema_uri;
    output_schema_uri = output_schema_uri;
    tags = tags;
    access_control = access_control;
    allowlist_count = allowlist_count;
    is_active = is_active;
    invocation_count = invocation_count;
  })
