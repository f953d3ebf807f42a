-- ===== src/Tools/Zk.antt =====
-- `buildZkTx` of src/tools/zk.ts. The arrays that it copies by `writeU8` hold bytes, which that
-- leaves as they are.
pub mod Corruption
use eto_mcp.Prelude.{ℕ, List, [], ◌∷◌, ◌++◌, length}
use eto_mcp.Wasm.Bytes.{zeros, write_u8, write_vec}

-- Counts are one byte here.
unfoldable pub zk_instruction_bytes : List ℕ → List ℕ
zk_instruction_bytes instruction_data =
    write_u8 1 ++ (write_u8 1 ++ (write_u8 0 ++ write_vec instruction_data))

unfoldable pub zk_message_bytes : List ℕ → List ℕ → List ℕ → List ℕ → List ℕ
zk_message_bytes caller program instruction_data blockhash =
    1
    ∷ 0
    ∷ 1
    ∷ (write_u8 2
        ++ (caller
            ++ (program ++ (blockhash ++ (write_u8 1 ++ zk_instruction_bytes instruction_data)))))

unfoldable pub build_zk_tx : List ℕ → List ℕ → List ℕ → List ℕ → List ℕ
build_zk_tx caller program instruction_data blockhash =
    write_u8 1 ++ (zeros 64 ++ zk_message_bytes caller program instruction_data blockhash)
