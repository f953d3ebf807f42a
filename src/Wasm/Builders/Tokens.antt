-- ===== src/Wasm/Builders/Tokens.antt =====
-- src/wasm/index.ts: the builders for the SPL token program.
use eto_mcp.Prelude.{ℕ, List, [], ◌∷◌, ◌++◌, String}
use eto_mcp.Prelude.Result.{Result, ok, ◌>>=◌}
use eto_mcp.Wasm.{Decode58, WasmError}
use eto_mcp.Wasm.Bytes.{write_u8, write_u32_le, write_u64_le, pubkey_bytes, blockhash_bytes}
use eto_mcp.Wasm.Message.{Message, build_message, instruction, unsigned_transaction}
use eto_mcp.Wasm.ProgramIds.{system_program_id, token_program_id, sysvar_rent_pubkey}

module _ (decode58 : Decode58) where
  unfoldable pub create_mint_message :
      String → String → String → ℕ → String → Result WasmError Message
  create_mint_message payer mint_account mint_authority decimals recent_blockhash = do
    payer_key ← pubkey_bytes decode58 payer
    mint_key ← pubkey_bytes decode58 mint_account
    mint_authority_key ← pubkey_bytes decode58 mint_authority
    blockhash ← blockhash_bytes decode58 recent_blockhash
    let create_data =
          write_u32_le 0 ++ (write_u64_le 1461600 ++ (write_u64_le 0 ++ token_program_id)) in
        let init_data = write_u8 0 ++ (write_u8 decimals ++ (mint_authority_key ++ write_u8 0)) in
        ok (
          build_message
            (payer_key ∷ mint_key ∷ system_program_id ∷ token_program_id ∷ sysvar_rent_pubkey ∷ [])
            blockhash
            (instruction 2 (0 ∷ 1 ∷ []) create_data ∷ instruction 3 (1 ∷ 4 ∷ []) init_data ∷ []) 2 0
            3)

  unfoldable pub build_create_mint_tx :
      String → String → String → ℕ → String → Result WasmError (List ℕ)
  build_create_mint_tx payer mint_account mint_authority decimals recent_blockhash =
      create_mint_message payer mint_account mint_authority decimals recent_blockhash
      >>= unsigned_transaction

  unfoldable pub mint_to_message : String → String → String → ℕ → String → Result WasmError Message
  mint_to_message mint_authority mint destination amount recent_blockhash = do
    mint_authority_key ← pubkey_bytes decode58 mint_authority
    mint_key ← pubkey_bytes decode58 mint
    destination_key ← pubkey_bytes decode58 destination
    blockhash ← blockhash_bytes decode58 recent_blockhash
    let payload = write_u8 6 ++ write_u64_le amount in
        ok (
          build_message (mint_authority_key ∷ mint_key ∷ destination_key ∷ token_program_id ∷ [])
            blockhash (instruction 3 (1 ∷ 2 ∷ 0 ∷ []) payload ∷ []) 1 0 1)

  unfoldable pub build_mint_to_tx :
      String → String → String → ℕ → String → Result WasmError (List ℕ)
  build_mint_to_tx mint_authority mint destination amount recent_blockhash =
      mint_to_message mint_authority mint destination amount recent_blockhash
      >>= unsigned_transaction

  unfoldable pub burn_message : String → String → String → ℕ → String → Result WasmError Message
  burn_message owner token_account mint amount recent_blockhash = do
    owner_key ← pubkey_bytes decode58 owner
    token_account_key ← pubkey_bytes decode58 token_account
    mint_key ← pubkey_bytes decode58 mint
    blockhash ← blockhash_bytes decode58 recent_blockhash
    let payload = write_u8 7 ++ write_u64_le amount in
        ok (
          build_message (owner_key ∷ token_account_key ∷ mint_key ∷ token_program_id ∷ []) blockhash
            (instruction 3 (1 ∷ 2 ∷ 0 ∷ []) payload ∷ []) 1 0 1)

  unfoldable pub build_burn_tx : String → String → String → ℕ → String → Result WasmError (List ℕ)
  build_burn_tx owner token_account mint amount recent_blockhash =
      burn_message owner token_account mint amount recent_blockhash >>= unsigned_transaction

  unfoldable pub freeze_message : String → String → String → String → Result WasmError Message
  freeze_message freeze_authority token_account mint recent_blockhash = do
    freeze_authority_key ← pubkey_bytes decode58 freeze_authority
    token_account_key ← pubkey_bytes decode58 token_account
    mint_key ← pubkey_bytes decode58 mint
    blockhash ← blockhash_bytes decode58 recent_blockhash
    ok (
        build_message (token_account_key ∷ mint_key ∷ freeze_authority_key ∷ token_program_id ∷ [])
          blockhash (instruction 3 (0 ∷ 1 ∷ 2 ∷ []) (write_u8 9) ∷ []) 1 0 1)

  unfoldable pub build_freeze_tx : String → String → String → String → Result WasmError (List ℕ)
  build_freeze_tx freeze_authority token_account mint recent_blockhash =
      freeze_message freeze_authority token_account mint recent_blockhash >>= unsigned_transaction
