-- ===== src/Wasm/Builders/Calls/Accounts.antt =====
-- The messages of the builders of src/wasm/index.ts: transfers, tokens and stakes.
use eto_mcp.Prelude.{ℕ, refl, Option, String, arith}
use eto_mcp.Prelude.Text.{is_present}
use eto_mcp.Prelude.Result.{Always, returned, either}
use eto_mcp.Wasm.{Decode58}
use eto_mcp.Wasm.Message.{Message}
use eto_mcp.Wasm.Builders.Calls.Intent.{is_sound, uses_short_id, signer_slots}
use eto_mcp.Wasm.Builders.Calls.Facts.{IsBuilt, after_2_keys, after_3_keys}
use eto_mcp.Wasm.Builders.Calls.{
  transfer, create_account, token_transfer, create_mint, mint_to, burn, freeze, create_stake,
  delegate_stake, deactivate_stake, withdraw_stake,
}
use eto_mcp.Wasm.Builders.Transfers.{
  transfer_message, create_account_message, token_transfer_message,
}
use eto_mcp.Wasm.Builders.Tokens.{
  create_mint_message, mint_to_message, burn_message, freeze_message,
}
use eto_mcp.Wasm.Builders.Stakes.{
  create_stake_message, delegate_stake_message, deactivate_stake_message, withdraw_stake_message,
}

module _ (decode58 : Decode58) where
  pub transfer_IsBuilt :
      (from to : String) (lamports : ℕ) (recent_blockhash : String) (memo : Option String)
      → Always
          (IsBuilt decode58 (transfer from to lamports recent_blockhash memo))
          (transfer_message decode58 from to lamports recent_blockhash memo)
  unfolding transfer_message is_sound uses_short_id signer_slots
  transfer_IsBuilt from to lamports recent_blockhash memo =
      let P : Message → Type 0 =
        IsBuilt decode58 (transfer from to lamports recent_blockhash memo) in
      after_2_keys decode58 P from to recent_blockhash _ (λ k0 k1 b e0 e1 l0 l1 lb. returned P _ (
        either P (is_present memo)
          (refl, λ _. (l0, (l1, (refl, (refl, tt)))), lb, cc, λ h. ground arith)
          (refl, λ _. (l0, (l1, (refl, tt))), lb, cc, λ h. ground arith)))

  pub create_account_IsBuilt :
      (payer new_account : String) (lamports space : ℕ) (owner recent_blockhash : String)
      → Always
          (IsBuilt decode58
            (create_account payer new_account lamports space owner recent_blockhash))
          (create_account_message decode58 payer new_account lamports space owner recent_blockhash)
  unfolding create_account_message is_sound uses_short_id signer_slots
  create_account_IsBuilt payer new_account lamports space owner recent_blockhash =
      let P : Message → Type 0 =
        IsBuilt decode58 (create_account payer new_account lamports space owner recent_blockhash) in
      after_3_keys decode58 P payer new_account owner recent_blockhash _
        (λ k0 k1 k2 b e0 e1 e2 l0 l1 l2 lb.
          returned P _ (refl, λ _. (l0, (l1, (refl, tt))), lb, cc, λ h. ground arith))

  pub token_transfer_IsBuilt :
      (authority source destination : String) (amount decimals : ℕ) (recent_blockhash : String)
      → Always
          (IsBuilt decode58
            (token_transfer authority source destination amount decimals recent_blockhash))
          (token_transfer_message decode58 authority source destination amount decimals
            recent_blockhash)
  unfolding token_transfer_message is_sound uses_short_id signer_slots
  token_transfer_IsBuilt authority source destination amount decimals recent_blockhash =
      let P : Message → Type 0 =
        IsBuilt decode58
          (token_transfer authority source destination amount decimals recent_blockhash) in
      after_3_keys decode58 P authority source destination recent_blockhash _
        (λ k0 k1 k2 b e0 e1 e2 l0 l1 l2 lb.
          returned P _ (refl, λ _. (l0, (l1, (l2, (refl, tt)))), lb, cc, λ h. ground arith))

  pub create_mint_IsBuilt :
      (payer mint_account mint_authority : String) (decimals : ℕ) (recent_blockhash : String)
      → Always
          (IsBuilt decode58
            (create_mint payer mint_account mint_authority decimals recent_blockhash))
          (create_mint_message decode58 payer mint_account mint_authority decimals recent_blockhash)
  unfolding create_mint_message is_sound uses_short_id signer_slots
  create_mint_IsBuilt payer mint_account mint_authority decimals recent_blockhash =
      let P : Message → Type 0 =
        IsBuilt decode58
          (create_mint payer mint_account mint_authority decimals recent_blockhash) in
      after_3_keys decode58 P payer mint_account mint_authority recent_blockhash _
        (λ k0 k1 k2 b e0 e1 e2 l0 l1 l2 lb.
          returned P _
            (refl, λ _. (l0, (l1, (refl, (refl, (refl, tt))))), lb, cc, λ h. ground arith))

  pub mint_to_IsBuilt :
      (mint_authority mint destination : String) (amount : ℕ) (recent_blockhash : String)
      → Always
          (IsBuilt decode58 (mint_to mint_authority mint destination amount recent_blockhash))
          (mint_to_message decode58 mint_authority mint destination amount recent_blockhash)
  unfolding mint_to_message is_sound uses_short_id signer_slots
  mint_to_IsBuilt mint_authority mint destination amount recent_blockhash =
      let P : Message → Type 0 =
        IsBuilt decode58 (mint_to mint_authority mint destination amount recent_blockhash) in
      after_3_keys decode58 P mint_authority mint destination recent_blockhash _
        (λ k0 k1 k2 b e0 e1 e2 l0 l1 l2 lb.
          returned P _ (refl, λ _. (l0, (l1, (l2, (refl, tt)))), lb, cc, λ h. ground arith))

  pub burn_IsBuilt :
      (owner token_account mint : String) (amount : ℕ) (recent_blockhash : String)
      → Always
          (IsBuilt decode58 (burn owner token_account mint amount recent_blockhash))
          (burn_message decode58 owner token_account mint amount recent_blockhash)
  unfolding burn_message is_sound uses_short_id signer_slots
  burn_IsBuilt owner token_account mint amount recent_blockhash =
      let P : Message → Type 0 =
        IsBuilt decode58 (burn owner token_account mint amount recent_blockhash) in
      after_3_keys decode58 P owner token_account mint recent_blockhash _
        (λ k0 k1 k2 b e0 e1 e2 l0 l1 l2 lb.
          returned P _ (refl, λ _. (l0, (l1, (l2, (refl, tt)))), lb, cc, λ h. ground arith))

  pub freeze_IsBuilt :
      (freeze_authority token_account mint recent_blockhash : String)
      → Always
          (IsBuilt decode58 (freeze freeze_authority token_account mint recent_blockhash))
          (freeze_message decode58 freeze_authority token_account mint recent_blockhash)
  unfolding freeze_message is_sound uses_short_id signer_slots
  freeze_IsBuilt freeze_authority token_account mint recent_blockhash =
      let P : Message → Type 0 =
        IsBuilt decode58 (freeze freeze_authority token_account mint recent_blockhash) in
      after_3_keys decode58 P freeze_authority token_account mint recent_blockhash _
        (λ k0 k1 k2 b e0 e1 e2 l0 l1 l2 lb.
          returned P _ (refl, λ _. (l1, (l2, (l0, (refl, tt)))), lb, cc, λ h. ground arith))

  pub create_stake_IsBuilt :
      (staker stake_account : String) (lamports : ℕ) (recent_blockhash : String)
      → Always
          (IsBuilt decode58 (create_stake staker stake_account lamports recent_blockhash))
          (create_stake_message decode58 staker stake_account lamports recent_blockhash)
  unfolding create_stake_message is_sound uses_short_id signer_slots
  create_stake_IsBuilt staker stake_account lamports recent_blockhash =
      let P : Message → Type 0 =
        IsBuilt decode58 (create_stake staker stake_account lamports recent_blockhash) in
      after_2_keys decode58 P staker stake_account recent_blockhash _ (λ k0 k1 b e0 e1 l0 l1 lb.
        returned P _ (refl, λ _. (l0, (l1, (refl, (refl, (refl, tt))))), lb, cc, λ h. ground arith))

  pub delegate_stake_IsBuilt :
      (staker stake_account vote_account recent_blockhash : String)
      → Always
          (IsBuilt decode58 (delegate_stake staker stake_account vote_account recent_blockhash))
          (delegate_stake_message decode58 staker stake_account vote_account recent_blockhash)
  unfolding delegate_stake_message is_sound uses_short_id signer_slots
  delegate_stake_IsBuilt staker stake_account vote_account recent_blockhash =
      let P : Message → Type 0 =
        IsBuilt decode58 (delegate_stake staker stake_account vote_account recent_blockhash) in
      after_3_keys decode58 P staker stake_account vote_account recent_blockhash _
        (λ k0 k1 k2 b e0 e1 e2 l0 l1 l2 lb.
          returned P _ (refl, λ _. (l1, (l2, (l0, (refl, tt)))), lb, cc, λ h. ground arith))

  pub deactivate_stake_IsBuilt :
      (staker stake_account recent_blockhash : String)
      → Always
          (IsBuilt decode58 (deactivate_stake staker stake_account recent_blockhash))
          (deactivate_stake_message decode58 staker stake_account recent_blockhash)
  unfolding deactivate_stake_message is_sound uses_short_id signer_slots
  deactivate_stake_IsBuilt staker stake_account recent_blockhash =
      let P : Message → Type 0 =
        IsBuilt decode58 (deactivate_stake staker stake_account recent_blockhash) in
      after_2_keys decode58 P staker stake_account recent_blockhash _ (λ k0 k1 b e0 e1 l0 l1 lb.
        returned P _ (refl, λ _. (l1, (l0, (refl, tt))), lb, cc, λ h. ground arith))

  pub withdraw_stake_IsBuilt :
      (staker stake_account recipient : String) (lamports : ℕ) (recent_blockhash : String)
      → Always
          (IsBuilt decode58
            (withdraw_stake staker stake_account recipient lamports recent_blockhash))
          (withdraw_stake_message decode58 staker stake_account recipient lamports recent_blockhash)
  unfolding withdraw_stake_message is_sound uses_short_id signer_slots
  withdraw_stake_IsBuilt staker stake_account recipient lamports recent_blockhash =
      let P : Message → Type 0 =
        IsBuilt decode58
          (withdraw_stake staker stake_account recipient lamports recent_blockhash) in
      after_3_keys decode58 P staker stake_account recipient recent_blockhash _
        (λ k0 k1 k2 b e0 e1 e2 l0 l1 l2 lb.
          returned P _ (refl, λ _. (l1, (l2, (l0, (refl, tt)))), lb, cc, λ h. ground arith))
