-- ===== src/Write/Simulator/Tests.antt =====
-- The simulator's reading of a transfer.
use eto_mcp.Wasm.Bytes.{write_u32_le, zeros, pad_left32}
use eto_mcp.Prelude.{ℕ, ◌≡◌, refl, some, List, [], ◌∷◌, ◌++◌, take}
use eto_mcp.Prelude.Text.{codes}
use eto_mcp.Prelude.Result.{ok}
use eto_mcp.Wasm.Message.{serialize_transaction}
use eto_mcp.Wasm.ProgramIds.{system_program_id}
use eto_mcp.Wasm.Fixtures.{shown, pay_message}
use eto_mcp.Wasm.RoundTrip.Writes.{message_bytes}
use eto_mcp.Write.Simulator.{extract_account_keys}
use eto_mcp.Write.Simulator.Misreading.{extract_account_keys-misread}

abbrev pay_bytes : List ℕ
pay_bytes = 1 ∷ 0 ∷ 0 ∷ 0 ∷ (zeros 64 ++ message_bytes pay_message)

pay_written : serialize_transaction pay_message (zeros 64 ∷ []) ≡ ok pay_bytes
unfolding serialize_transaction message_bytes eto_mcp.Wasm.Message.write_signatures
    eto_mcp.Wasm.Message.serialize_message eto_mcp.Wasm.Message.write_keys
    eto_mcp.Wasm.Bytes.write_fixed_bytes32 eto_mcp.Wasm.Bytes.write_u32_le
    eto_mcp.Wasm.RoundTrip.Reads.joined eto_mcp.Wasm.Message.write_instruction
    eto_mcp.Wasm.Message.write_instructions
pay_written = refl

extract_account_keys-misread_example :
    extract_account_keys shown pay_bytes
    ≡ some (shown (0 ∷ 1 ∷ 3 ∷ 0 ∷ 0 ∷ 0 ∷ take 26 (pad_left32 (codes "alice"))) ∷ [])
unfolding write_u32_le
extract_account_keys-misread_example =
    extract_account_keys-misread shown pay_message (zeros 64) (pad_left32 (codes "alice"))
      (pad_left32 (codes "bob") ∷ system_program_id ∷ []) pay_bytes refl refl pay_written
