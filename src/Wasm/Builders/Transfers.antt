-- ===== src/Wasm/Builders/Transfers.antt =====
-- src/wasm/index.ts: `buildTransferTx`, `buildCreateAccountTx` and `buildTokenTransferTx`.
use eto_mcp.Prelude.{ℕ, Option, List, [], ◌∷◌, ◌++◌, String, if◌then◌else◌, or_default}
use eto_mcp.Prelude.Result.{Result, ok, ◌>>=◌}
use eto_mcp.Prelude.Text.{utf8, is_present}
use eto_mcp.Wasm.{Decode58, WasmError}
use eto_mcp.Wasm.Bytes.{write_u8, write_u32_le, write_u64_le, pubkey_bytes, blockhash_bytes}
use eto_mcp.Wasm.Message.{Message, build_message, instruction, unsigned_transaction}
use eto_mcp.Wasm.ProgramIds.{system_program_id, token_program_id, memo_program_id}

module _ (decode58 : Decode58) where
  unfoldable pub transfer_message :
      String → String → ℕ → String → Option String → Result WasmError Message
  transfer_message from to lamports recent_blockhash memo = do
    from_key ← pubkey_bytes decode58 from
    to_key ← pubkey_bytes decode58 to
    blockhash ← blockhash_bytes decode58 recent_blockhash
    let transfer_data = write_u32_le 2 ++ write_u64_le lamports in
        let transfer_ix = instruction 2 (0 ∷ 1 ∷ []) transfer_data in
        let memo_ix = instruction 3 [] (utf8 (or_default memo "")) in
        ok (
          if is_present memo
          then build_message (from_key ∷ to_key ∷ system_program_id ∷ memo_program_id ∷ [])
              blockhash (memo_ix ∷ transfer_ix ∷ []) 1 0 2
          else build_message (from_key ∷ to_key ∷ system_program_id ∷ []) blockhash
              (transfer_ix ∷ []) 1 0 1)

  unfoldable pub build_transfer_tx :
      String → String → ℕ → String → Option String → Result WasmError (List ℕ)
  build_transfer_tx from to lamports recent_blockhash memo =
      transfer_message from to lamports recent_blockhash memo >>= unsigned_transaction

  unfoldable pub create_account_message :
      String → String → ℕ → ℕ → String → String → Result WasmError Message
  create_account_message payer new_account lamports space owner recent_blockhash = do
    payer_key ← pubkey_bytes decode58 payer
    new_account_key ← pubkey_bytes decode58 new_account
    owner_key ← pubkey_bytes decode58 owner
    blockhash ← blockhash_bytes decode58 recent_blockhash
    let payload = write_u32_le 0 ++ (write_u64_le lamports ++ (write_u64_le space ++ owner_key)) in
        ok (
          build_message (payer_key ∷ new_account_key ∷ system_program_id ∷ []) blockhash
            (instruction 2 (0 ∷ 1 ∷ []) payload ∷ []) 2 0 1)

  unfoldable pub build_create_account_tx :
      String → String → ℕ → ℕ → String → String → Result WasmError (List ℕ)
  build_create_account_tx payer new_account lamports space owner recent_blockhash =
      create_account_message payer new_account lamports space owner recent_blockhash
      >>= unsigned_transaction

  unfoldable pub token_transfer_message :
      String → String → String → ℕ → ℕ → String → Result WasmError Message
  token_transfer_message authority source destination amount decimals recent_blockhash = do
    authority_key ← pubkey_bytes decode58 authority
    source_key ← pubkey_bytes decode58 source
    destination_key ← pubkey_bytes decode58 destination
    blockhash ← blockhash_bytes decode58 recent_blockhash
    let payload = write_u8 11 ++ (write_u64_le amount ++ write_u8 decimals) in
        ok (
          build_message (authority_key ∷ source_key ∷ destination_key ∷ token_program_id ∷ [])
            blockhash (instruction 3 (1 ∷ 2 ∷ 0 ∷ []) payload ∷ []) 1 0 1)

  unfoldable pub build_token_transfer_tx :
      String → String → String → ℕ → ℕ → String → Result WasmError (List ℕ)
  build_token_transfer_tx authority source destination amount decimals recent_blockhash =
      token_transfer_message authority source destination amount decimals recent_blockhash
      >>= unsigned_transaction
