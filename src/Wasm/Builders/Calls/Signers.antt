-- ===== src/Wasm/Builders/Calls/Signers.antt =====
-- src/wasm/index.ts: whose signatures the builders' messages require.
use eto_mcp.Prelude.Result.{Result, ok}
use eto_mcp.Prelude.{
  ℕ, zero, suc, ◌≤◌, ◌≡◌, ◌≢◌, ap, ◌∙◌, inl, inr, length, take, refl, sym, true, false, List, [],
  ◌∷◌, String, map, Member, arith,
}
use eto_mcp.Wasm.{Decode58}
use eto_mcp.Wasm.Bytes.{pubkey_bytes}
use eto_mcp.Wasm.Message.{Message}
use eto_mcp.Wasm.Builders.Calls.{
  transfer, create_account, token_transfer, create_mint, mint_to, burn, freeze, create_stake,
  delegate_stake, deactivate_stake, withdraw_stake, register_agent, set_agent_status, set_delegate,
  create_a2a_channel, register_mcp_tool, invoke_mcp_tool, create_swarm, join_swarm, swarm_propose,
  swarm_vote, cross_vm_call, wasm_deploy, move_deploy, svm_deploy, evm_deploy, evm_call,
  BuilderCall, message_of,
}
use eto_mcp.Wasm.Builders.Calls.Intent.{
  is_sound, signers, signer_slots, authority_of, displaces_authority, account_of,
}
use eto_mcp.Wasm.Builders.Calls.Every.{message_of-IsBuilt}

-- The header of every builder's message fits its accounts: an instruction names accounts that are
-- there, its program is among the read-only accounts, a first account signs and is writable, and
-- the accounts that sign and the read-only ones do not overlap.
pub message_of_sound :
    (decode58 : Decode58) (call : BuilderCall) (msg : Message)
    → message_of decode58 call ≡ ok msg
    → is_sound msg ≡ true
message_of_sound decode58 call msg e =
    let (sound, _, _, _, _) = message_of-IsBuilt decode58 call msg e in sound

true_ne_false : ¬ (true ≡ false)
true_ne_false e = cc

slots_of :
    (decode58 : Decode58) (call : BuilderCall) (msg : Message)
    → message_of decode58 call ≡ ok msg
    → map (pubkey_bytes decode58) (signer_slots call) ≡ map ok (signers msg)
slots_of decode58 call msg e =
    let (_, _, _, slots, _) = message_of-IsBuilt decode58 call msg e in slots

-- The slots of the builders that keep the authority begin with it; those of the others are the
-- account that is acted on.
slots_kept :
    (call : BuilderCall)
    → displaces_authority call ≡ false
    → (rest : List String) × (signer_slots call ≡ authority_of call ∷ rest)
unfolding displaces_authority authority_of signer_slots
slots_kept (transfer _ _ _ _ _) h = ([], refl)
slots_kept (create_account _ new_account _ _ _ _) h = (new_account ∷ [], refl)
slots_kept (token_transfer _ _ _ _ _ _) h = ([], refl)
slots_kept (create_mint _ mint_account _ _ _) h = (mint_account ∷ [], refl)
slots_kept (mint_to _ _ _ _ _) h = ([], refl)
slots_kept (burn _ _ _ _ _) h = ([], refl)
slots_kept (freeze _ _ _ _) h = absurd (true_ne_false h)
slots_kept (create_stake _ stake_account _ _) h = (stake_account ∷ [], refl)
slots_kept (delegate_stake _ _ _ _) h = absurd (true_ne_false h)
slots_kept (deactivate_stake _ _ _) h = absurd (true_ne_false h)
slots_kept (withdraw_stake _ _ _ _ _) h = absurd (true_ne_false h)
slots_kept (register_agent _ _ _ _ _) h = ([], refl)
slots_kept (set_agent_status _ _ _ _) h = absurd (true_ne_false h)
slots_kept (set_delegate _ _ _ _ _) h = absurd (true_ne_false h)
slots_kept (create_a2a_channel _ _ _ _ _) h = ([], refl)
slots_kept (register_mcp_tool _ _ _ _ _ _) h = ([], refl)
slots_kept (invoke_mcp_tool _ _ _ _ _) h = ([], refl)
slots_kept (create_swarm _ _ _ _ _ _) h = ([], refl)
slots_kept (join_swarm _ _ _) h = ([], refl)
slots_kept (swarm_propose _ _ _ _ _) h = ([], refl)
slots_kept (swarm_vote _ _ _ _ _) h = ([], refl)
slots_kept (cross_vm_call _ _ _ _ _ _) h = ([], refl)
slots_kept (wasm_deploy _ _ _) h = ([], refl)
slots_kept (move_deploy _ _ _) h = ([], refl)
slots_kept (svm_deploy _ _ _) h = ([], refl)
slots_kept (evm_deploy _ _ _) h = ([], refl)
slots_kept (evm_call _ _ _ _) h = ([], refl)

slots_displaced :
    (call : BuilderCall)
    → displaces_authority call ≡ true
    → signer_slots call ≡ account_of call ∷ []
unfolding displaces_authority account_of signer_slots
slots_displaced (freeze _ _ _ _) h = refl
slots_displaced (delegate_stake _ _ _ _) h = refl
slots_displaced (deactivate_stake _ _ _) h = refl
slots_displaced (withdraw_stake _ _ _ _ _) h = refl
slots_displaced (set_agent_status _ _ _ _) h = refl
slots_displaced (set_delegate _ _ _ _ _) h = refl
slots_displaced _ h = absurd (true_ne_false (sym h))

first_ok :
    {E : Type 0} (r : Result E (List ℕ)) (rs : List (Result E (List ℕ))) (ks : List (List ℕ))
    (key : List ℕ)
    → r ∷ rs ≡ map ok ks
    → r ≡ ok key
    → (rest : List (List ℕ)) × (ks ≡ key ∷ rest)
first_ok r rs [] key e h = absurd (cc)
first_ok r rs (k ∷ ks) key e h = (ks, cc)

only_ok :
    {E : Type 0} (r : Result E (List ℕ)) (ks : List (List ℕ))
    → r ∷ [] ≡ map ok ks
    → (key : List ℕ) × (r ≡ ok key) × (ks ≡ key ∷ [])
only_ok r [] e = absurd (cc)
only_ok r (k ∷ []) e = (k, cc, refl)
only_ok r (k ∷ j ∷ ks) e = absurd (cc)

-- As many are taken as there are to take.
length-take : {A : Type 0} (n : ℕ) (xs : List A) → n ≤ length xs → length (take n xs) ≡ n
length-take zero xs h = refl
length-take (suc n) [] h = absurd (omega arith)
length-take (suc n) (x ∷ xs) h = let rest = length-take n xs (omega arith) in omega (arith, rest)

not-Member : (authority account : List ℕ) → authority ≢ account → ¬ Member authority (account ∷ [])
not-Member authority account other (inl same) = other same
not-Member authority account other (inr m) = absurd m

enough_keys :
    (msg : Message) → is_sound msg ≡ true → msg.num_required_signatures ≤ length msg.account_keys
unfolding is_sound
enough_keys msg h = ground (arith, h)

-- Where a builder keeps the authority in front, the first key that has to sign is the authority's.
pub authority_signs :
    (decode58 : Decode58) (call : BuilderCall) (msg : Message) (key : List ℕ)
    → displaces_authority call ≡ false
    → message_of decode58 call ≡ ok msg
    → pubkey_bytes decode58 (authority_of call) ≡ ok key
    → (rest : List (List ℕ)) × (signers msg ≡ key ∷ rest)
authority_signs decode58 call msg key kept e k =
    let (rest, slots) = slots_kept call kept in
    first_ok (pubkey_bytes decode58 (authority_of call)) (map (pubkey_bytes decode58) rest)
      (signers msg) key (rw slots at (slots_of decode58 call msg e)) k

-- The builders for freezing, for delegating, deactivating and withdrawing a stake, and for an
-- agent's status and delegate write a message that requires one signature, that of the account which
-- is acted on: its key is the only one that has to sign, and an authority with another key has not.
pub displaced-signers :
    (decode58 : Decode58) (call : BuilderCall) (msg : Message)
    → displaces_authority call ≡ true
    → message_of decode58 call ≡ ok msg
    → (msg.num_required_signatures ≡ 1)
      × ((account : List ℕ) × (pubkey_bytes decode58 (account_of call) ≡ ok account)
          × (signers msg ≡ account ∷ [])
          × ((authority : List ℕ)
              → pubkey_bytes decode58 (authority_of call) ≡ ok authority
              → authority ≢ account
              → ¬ Member authority (signers msg)))
displaced-signers decode58 call msg displaced e =
    let slots = rw (slots_displaced call displaced) at (slots_of decode58 call msg e) in
    let (account, known, only) =
      only_ok (pubkey_bytes decode58 (account_of call)) (signers msg) slots in
    let count =
      length-take msg.num_required_signatures msg.account_keys
        (enough_keys msg (message_of_sound decode58 call msg e)) in
    (
      sym count ∙ ap length only,
      (
        account,
        known,
        only,
        λ authority k other m. not-Member authority account other (rw only at m),
      ),
    )
