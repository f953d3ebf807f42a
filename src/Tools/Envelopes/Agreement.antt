-- ===== src/Tools/Envelopes/Agreement.antt =====
-- The tools' own transactions (src/tools) against those of src/wasm/index.ts.
use eto_mcp.Prelude.{
  arith, length, ℕ, ◌≡◌, refl, ap, List, [], ◌∷◌, ◌++◌, All, false, Bool-cases, ==→eq,
  if◌then◌else◌, ◌==◌, String, inl, inr,
}
use mathlib.Core.List.{append-nil}
use eto_mcp.Prelude.Result.{ok, Result, err}
use eto_mcp.Wasm.Message.{
  Message, build_message, instruction, unsigned_transaction, write_instruction, blank_signatures,
  serialize_transaction, serialize_message, write_keys,
}
use eto_mcp.Wasm.RoundTrip.Reads.{joined, HasLength}
use eto_mcp.Wasm.RoundTrip.Writes.{
  itself, message_bytes, serialize_transaction-written, write_signatures-joined,
}
use eto_mcp.Wasm.Builders.Calls.Transactions.{blank_64, length-blank}
use eto_mcp.Wasm.Builders.Calls.Facts.{pubkey_bytes_length, blockhash_bytes_length}
use eto_mcp.Wasm.Bytes.{pubkey_bytes, blockhash_bytes, write_fixed_bytes32}
use eto_mcp.Wasm.{Decode58, WasmError, expected_32_bytes}
use eto_mcp.Tools.Envelopes.{
  build_agent_tx, build_swarm_tx, build_a2a_tx, build_mcp_tx, written, tool_message_bytes,
  tool_tx_bytes,
}

written-joined : (xs : List (List ℕ)) → written xs ≡ joined itself xs
unfolding joined
written-joined [] = refl
written-joined (x ∷ xs) = ap (λ rest. x ++ rest) (written-joined xs)

-- The message that such a tool describes.
abbrev pub tool_message : ℕ → List (List ℕ) → List ℕ → List ℕ → List ℕ → Message
tool_message signers keys blockhash accounts payload =
    build_message keys blockhash (instruction 2 accounts payload ∷ []) signers 0 1

same_message :
    (signers : ℕ) (keys : List (List ℕ)) (blockhash accounts payload : List ℕ)
    → message_bytes (tool_message signers keys blockhash accounts payload)
      ≡ tool_message_bytes signers keys blockhash accounts payload
unfolding message_bytes tool_message_bytes joined write_instruction
same_message signers keys blockhash accounts payload = rw (written-joined keys, append-nil)

whole_keys :
    (signers : ℕ) (keys : List (List ℕ)) (blockhash accounts payload : List ℕ)
    → All (HasLength 32) keys
    → HasLength 32 blockhash
    → unsigned_transaction (tool_message signers keys blockhash accounts payload)
      ≡ ok (tool_tx_bytes signers keys blockhash accounts payload)
unfolding unsigned_transaction tool_tx_bytes
whole_keys signers keys blockhash accounts payload h k =
    let msg : Message = tool_message signers keys blockhash accounts payload in
    rw (written-joined (blank_signatures signers)) (
      rw (length-blank signers, same_message signers keys blockhash accounts payload) at
        (serialize_transaction-written msg (blank_signatures signers) (h, k) (blank_64 signers)))

-- With a program id of another length the last key is refused.
wrong_id :
    (signers : ℕ) (k0 k1 program blockhash accounts payload : List ℕ)
    → HasLength 32 k0
    → HasLength 32 k1
    → (length program == 32) ≡ false
    → unsigned_transaction
        (tool_message signers (k0 ∷ k1 ∷ program ∷ []) blockhash accounts payload)
      ≡ err (expected_32_bytes (length program))
unfolding unsigned_transaction serialize_transaction serialize_message write_keys
    write_fixed_bytes32
wrong_id signers k0 k1 program blockhash accounts payload h k l =
    ground (arith, write_signatures-joined (blank_signatures signers) (blank_64 signers))

tool_agrees :
    (signers : ℕ) (k0 k1 program blockhash accounts payload : List ℕ)
    → HasLength 32 k0
    → HasLength 32 k1
    → HasLength 32 blockhash
    → unsigned_transaction
        (tool_message signers (k0 ∷ k1 ∷ program ∷ []) blockhash accounts payload)
      ≡ (if length program == 32
          then ok (tool_tx_bytes signers (k0 ∷ k1 ∷ program ∷ []) blockhash accounts payload)
          else err (expected_32_bytes (length program)))
tool_agrees signers k0 k1 program blockhash accounts payload h k b =
    elim (Bool-cases (length program == 32)) [
      | inl z ↦ rw z (
          whole_keys signers (k0 ∷ k1 ∷ program ∷ []) blockhash accounts payload
            (h, (k, (==→eq _ _ z, tt))) b)
      | inr z ↦ rw z (wrong_id signers k0 k1 program blockhash accounts payload h k z)
    ]

-- A call of one of the tools' builders, which take the same texts.
pub data Tool : Type 0 where
  agent_tool swarm_tool mcp_tool : Tool
  a2a_tool : (signer_count : ℕ) → Tool

abbrev pub signers_of : Tool → ℕ
signers_of (a2a_tool n) = n
signers_of _ = 1

abbrev pub accounts_of : Tool → List ℕ
accounts_of agent_tool = 0 ∷ 1 ∷ 0 ∷ []
accounts_of mcp_tool = 0 ∷ 1 ∷ 2 ∷ []
accounts_of _ = 0 ∷ 1 ∷ []

unfoldable pub tool_tx :
    Tool → Decode58 → List ℕ → String → String → List ℕ → String → Result WasmError (List ℕ)
tool_tx agent_tool decode58 program p a d s = build_agent_tx decode58 program p a d s
tool_tx swarm_tool decode58 program p a d s = build_swarm_tx decode58 program p a d s
tool_tx (a2a_tool n) decode58 program p a d s = build_a2a_tx decode58 program p a d s n
tool_tx mcp_tool decode58 program p a d s = build_mcp_tx decode58 program p a d s

module _ (decode58 : Decode58) (program : List ℕ) (payer account : String) (payload : List ℕ)
    (recent_blockhash : String) (k0 k1 b : List ℕ) (e0 : pubkey_bytes decode58 payer ≡ ok k0)
    (e1 : pubkey_bytes decode58 account ≡ ok k1)
    (eb : blockhash_bytes decode58 recent_blockhash ≡ ok b) where
  tool_tx_bytes_of :
      (tool : Tool)
      → tool_tx tool decode58 program payer account payload recent_blockhash
        ≡ ok (tool_tx_bytes (signers_of tool) (k0 ∷ k1 ∷ program ∷ []) b (accounts_of tool) payload)
  unfolding tool_tx build_agent_tx build_swarm_tx build_a2a_tx build_mcp_tx
  tool_tx_bytes_of agent_tool = rw (e0, e1, eb) refl
  tool_tx_bytes_of swarm_tool = rw (e0, e1, eb) refl
  tool_tx_bytes_of mcp_tool = rw (e0, e1, eb) refl
  tool_tx_bytes_of (a2a_tool n) = rw (e0, e1, eb) refl

  -- Where the keys and the blockhash of a tool's call can be read, the tool returns bytes, whatever
  -- the length of the program id. They are what `unsignedTransaction` writes for the message of
  -- payer, account and program if the id is 32 bytes long; otherwise `unsignedTransaction` refuses
  -- that message.
  pub tool_tx-agrees :
      (tool : Tool)
      → (tx : List ℕ) × (tool_tx tool decode58 program payer account payload recent_blockhash
          ≡ ok tx)
        × (unsigned_transaction
              (tool_message (signers_of tool) (k0 ∷ k1 ∷ program ∷ []) b (accounts_of tool) payload)
            ≡ (if length program == 32 then ok tx else err (expected_32_bytes (length program))))
  tool_tx-agrees tool = (
    _,
    tool_tx_bytes_of tool,
    tool_agrees (signers_of tool) k0 k1 program b (accounts_of tool) payload
        (pubkey_bytes_length decode58 payer k0 e0) (pubkey_bytes_length decode58 account k1 e1)
        (blockhash_bytes_length decode58 recent_blockhash b eb),
  )
