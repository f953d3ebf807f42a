-- ===== src/Wasm/Fixtures.antt =====
-- Inputs that the tests of src/wasm/index.ts and of its callers share.
use eto_mcp.Prelude.{none, some, [], ◌∷◌, length, ltb, if◌then◌else◌}
use eto_mcp.Prelude.Text.{codes, to_hex}
use eto_mcp.Wasm.{Decode58, Encode58}
use eto_mcp.Wasm.Bytes.{zeros, pad_left32}
use eto_mcp.Wasm.Message.{Message, build_message, instruction}
use eto_mcp.Wasm.ProgramIds.{system_program_id}
use eto_mcp.Wasm.Signing.{Sign}

-- A key is taken as its own bytes.
abbrev pub plain : Decode58
plain s = if ltb 40 (length (codes s)) then none else some (codes s)

abbrev pub shown : Encode58
shown bytes = to_hex bytes

abbrev pub pay_message : Message
pay_message =
    build_message (pad_left32 (codes "alice") ∷ pad_left32 (codes "bob") ∷ system_program_id ∷ [])
      (pad_left32 (codes "block"))
      (instruction 2 (0 ∷ 1 ∷ []) (2 ∷ 0 ∷ 0 ∷ 0 ∷ 5 ∷ 0 ∷ 0 ∷ 0 ∷ 0 ∷ 0 ∷ 0 ∷ 0 ∷ []) ∷ []) 1 0 1

-- A signature that tells the key: its 64 bytes begin with the first byte of the key.
abbrev pub key_signs : Sign
key_signs message [] = none
key_signs message (b ∷ key) = some (b ∷ zeros 63)
