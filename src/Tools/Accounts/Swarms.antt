-- ===== src/Tools/Accounts/Swarms.antt =====
-- The account of src/tools/swarm.ts in the layout that the file documents.
use eto_mcp.Tools.Accounts.RoundTrip.{long_account, skip_8}
use eto_mcp.Tools.Accounts.{parse_swarm_state}
use eto_mcp.Prelude.{ℕ, ◌^◌, ◌<◌, ◌≡◌, some, List, ◌++◌, length, All}
use eto_mcp.Wasm.{Encode58}
use eto_mcp.Wasm.Bytes.{write_u8, write_u32_le, write_u64_le}
use eto_mcp.Wasm.RoundTrip.Reads.{joined, HasLength}
use eto_mcp.Wasm.RoundTrip.Writes.{itself}
use eto_mcp.Tools.Borsh.Reads.{
  borsh_u8-write_u8, borsh_u32-write_u32_le, borsh_u64-write_u64_le, borsh_pubkey-append,
}
use eto_mcp.Tools.Accounts.Layouts.{skip_parts}

-- A swarm's account. A sub-task takes 97 bytes.
pub record SwarmLayout : Type 0 where
  pub discriminator : List ℕ
  pub leader : List ℕ
  pub sub_tasks : List (List ℕ)
  pub status : ℕ
  pub strategy : ℕ
  pub created_slot : ℕ
  pub deadline_slot : ℕ
  pub escrow_total : ℕ
  pub escrow_per_task : ℕ
  pub remainder : List ℕ

unfoldable pub write_swarm : SwarmLayout → List ℕ
write_swarm s =
    s.discriminator
    ++ (s.leader
        ++ (write_u32_le (length s.sub_tasks)
            ++ (joined itself s.sub_tasks
                ++ (write_u8 s.status
                    ++ (write_u8 s.strategy
                        ++ (write_u64_le s.created_slot
                            ++ (write_u64_le s.deadline_slot
                                ++ (write_u64_le s.escrow_total
                                    ++ (write_u64_le s.escrow_per_task ++ s.remainder)))))))))

abbrev pub IsSwarm : SwarmLayout → Type 0
IsSwarm s =
    HasLength 8 s.discriminator
    × HasLength 32 s.leader
    × (length s.sub_tasks < 2 ^ 32)
    × All (HasLength 97) s.sub_tasks
    × (s.status < 256)
    × (s.strategy < 256)
    × (s.created_slot < 2 ^ 64)
    × (s.deadline_slot < 2 ^ 64)
    × (s.escrow_total < 2 ^ 64)
    × (s.escrow_per_task < 2 ^ 64)

-- `parseSwarmState` reads a swarm's account in the documented layout as what it holds.
pub parse_swarm_state-write_swarm :
    (encode58 : Encode58) (s : SwarmLayout)
    → IsSwarm s
    → parse_swarm_state encode58 (write_swarm s)
      ≡ some (record {
        leader = encode58 s.leader;
        sub_task_count = length s.sub_tasks;
        status_byte = s.status;
        strategy_byte = s.strategy;
        created_slot = s.created_slot;
        deadline_slot = s.deadline_slot;
        escrow_total = s.escrow_total;
        escrow_per_task = s.escrow_per_task;
      })
unfolding parse_swarm_state write_swarm
parse_swarm_state-write_swarm encode58 s (h0, h1, h2, h3, h4, h5, h6, h7, h8, h9) =
    let t8 : List ℕ = write_u64_le s.escrow_per_task ++ s.remainder in
    let t7 : List ℕ = write_u64_le s.escrow_total ++ t8 in
    let t6 : List ℕ = write_u64_le s.deadline_slot ++ t7 in
    let t5 : List ℕ = write_u64_le s.created_slot ++ t6 in
    let t4 : List ℕ = write_u8 s.strategy ++ t5 in
    let t3 : List ℕ = write_u8 s.status ++ t4 in
    let t2 : List ℕ = joined itself s.sub_tasks ++ t3 in
    let t1 : List ℕ = write_u32_le (length s.sub_tasks) ++ t2 in
    rw (
      long_account s.discriminator s.leader t1 h0 h1,
      skip_8 s.discriminator (s.leader ++ t1) h0,
      borsh_pubkey-append encode58 s.leader t1 h1,
      borsh_u32-write_u32_le (length s.sub_tasks) t2 h2,
      skip_parts 97 s.sub_tasks t3 h3,
      borsh_u8-write_u8 s.status t4 h4,
      borsh_u8-write_u8 s.strategy t5 h5,
      borsh_u64-write_u64_le s.created_slot t6 h6,
      borsh_u64-write_u64_le s.deadline_slot t7 h7,
      borsh_u64-write_u64_le s.escrow_total t8 h8,
      borsh_u64-write_u64_le s.escrow_per_task s.remainder h9,
    )
