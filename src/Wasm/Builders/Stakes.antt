-- ===== src/Wasm/Builders/Stakes.antt =====
-- src/wasm/index.ts: the builders for the stake program.
use eto_mcp.Prelude.{ℕ, List, [], ◌∷◌, ◌++◌, String}
use eto_mcp.Prelude.Result.{Result, ok, ◌>>=◌}
use eto_mcp.Wasm.{Decode58, WasmError}
use eto_mcp.Wasm.Bytes.{write_u8, write_u32_le, write_u64_le, pubkey_bytes, blockhash_bytes, zeros}
use eto_mcp.Wasm.Message.{Message, build_message, instruction, unsigned_transaction}
use eto_mcp.Wasm.ProgramIds.{system_program_id, stake_program_id, sysvar_rent_pubkey}

module _ (decode58 : Decode58) where
  unfoldable pub create_stake_message : String → String → ℕ → String → Result WasmError Message
  create_stake_message staker stake_account lamports recent_blockhash = do
    staker_key ← pubkey_bytes decode58 staker
    stake_account_key ← pubkey_bytes decode58 stake_account
    blockhash ← blockhash_bytes decode58 recent_blockhash
    let create_data =
          write_u32_le 0 ++ (write_u64_le lamports ++ (write_u64_le 0 ++ stake_program_id)) in
        let init_data =
          write_u8 0
          ++ (staker_key ++ (staker_key ++ (write_u64_le 0 ++ (write_u64_le 0 ++ zeros 32)))) in
        ok (
          build_message
            (staker_key ∷ stake_account_key ∷ system_program_id ∷ stake_program_id
              ∷ sysvar_rent_pubkey ∷ [])
            blockhash
            (instruction 2 (0 ∷ 1 ∷ []) create_data ∷ instruction 3 (1 ∷ 4 ∷ []) init_data ∷ []) 2 0
            3)

  unfoldable pub build_create_stake_tx : String → String → ℕ → String → Result WasmError (List ℕ)
  build_create_stake_tx staker stake_account lamports recent_blockhash =
      create_stake_message staker stake_account lamports recent_blockhash >>= unsigned_transaction

  unfoldable pub delegate_stake_message :
      String → String → String → String → Result WasmError Message
  delegate_stake_message staker stake_account vote_account recent_blockhash = do
    staker_key ← pubkey_bytes decode58 staker
    stake_account_key ← pubkey_bytes decode58 stake_account
    vote_account_key ← pubkey_bytes decode58 vote_account
    blockhash ← blockhash_bytes decode58 recent_blockhash
    ok (
        build_message (stake_account_key ∷ vote_account_key ∷ staker_key ∷ stake_program_id ∷ [])
          blockhash (instruction 3 (0 ∷ 1 ∷ 2 ∷ []) (write_u32_le 2) ∷ []) 1 0 1)

  unfoldable pub build_delegate_stake_tx :
      String → String → String → String → Result WasmError (List ℕ)
  build_delegate_stake_tx staker stake_account vote_account recent_blockhash =
      delegate_stake_message staker stake_account vote_account recent_blockhash
      >>= unsigned_transaction

  unfoldable pub deactivate_stake_message : String → String → String → Result WasmError Message
  deactivate_stake_message staker stake_account recent_blockhash = do
    staker_key ← pubkey_bytes decode58 staker
    stake_account_key ← pubkey_bytes decode58 stake_account
    blockhash ← blockhash_bytes decode58 recent_blockhash
    ok (
        build_message (stake_account_key ∷ staker_key ∷ stake_program_id ∷ []) blockhash
          (instruction 2 (0 ∷ 1 ∷ []) (write_u32_le 5) ∷ []) 1 0 1)

  unfoldable pub build_deactivate_stake_tx : String → String → String → Result WasmError (List ℕ)
  build_deactivate_stake_tx staker stake_account recent_blockhash =
      deactivate_stake_message staker stake_account recent_blockhash >>= unsigned_transaction

  unfoldable pub withdraw_stake_message :
      String → String → String → ℕ → String → Result WasmError Message
  withdraw_stake_message staker stake_account recipient lamports recent_blockhash = do
    staker_key ← pubkey_bytes decode58 staker
    stake_account_key ← pubkey_bytes decode58 stake_account
    recipient_key ← pubkey_bytes decode58 recipient
    blockhash ← blockhash_bytes decode58 recent_blockhash
    let payload = write_u32_le 4 ++ write_u64_le lamports in
        ok (
          build_message (stake_account_key ∷ recipient_key ∷ staker_key ∷ stake_program_id ∷ [])
            blockhash (instruction 3 (0 ∷ 1 ∷ 2 ∷ []) payload ∷ []) 1 0 1)

  unfoldable pub build_withdraw_stake_tx :
      String → String → String → ℕ → String → Result WasmError (List ℕ)
  build_withdraw_stake_tx staker stake_account recipient lamports recent_blockhash =
      withdraw_stake_message staker stake_account recipient lamports recent_blockhash
      >>= unsigned_transaction
