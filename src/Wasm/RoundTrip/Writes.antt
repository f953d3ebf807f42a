-- ===== src/Wasm/RoundTrip/Writes.antt =====
-- The loops of writes of src/wasm/index.ts: when they succeed, and what they append.
use eto_mcp.Prelude.{◌++◌, length, inr, inl, ℕ, ◌≡◌, refl, List, [], ◌∷◌, All, arith}
use eto_mcp.Prelude.Result.{Result-cases, ok}
use eto_mcp.Wasm.Bytes.{write_fixed_bytes32, write_u8, write_u32_le}
use eto_mcp.Wasm.Message.{
  write_keys, write_signatures, write_instruction, write_instructions, CompiledInstruction, Message,
  serialize_message, serialize_transaction,
}
use eto_mcp.Wasm.RoundTrip.Reads.{joined, HasLength}

abbrev pub itself : List ℕ → List ℕ
itself xs = xs

pub write_fixed_bytes32_ok :
    (xs bytes : List ℕ) → write_fixed_bytes32 xs ≡ ok bytes → HasLength 32 xs × (bytes ≡ xs)
unfolding write_fixed_bytes32
write_fixed_bytes32_ok xs bytes e = ground arith

pub write_keys_ok :
    (keys : List (List ℕ)) (bytes : List ℕ)
    → write_keys keys ≡ ok bytes
    → All (HasLength 32) keys × (bytes ≡ joined itself keys)
unfolding write_keys write_fixed_bytes32 joined
write_keys_ok [] bytes e = ground arith
write_keys_ok (key ∷ keys) bytes e = elim (Result-cases (write_keys keys)) [
  | inl (x, w) ↦ ground (arith, w)
  | inr (b, w) ↦ ground (arith, w, write_keys_ok keys b w)
]

pub write_signatures_ok :
    (sigs : List (List ℕ)) (bytes : List ℕ)
    → write_signatures sigs ≡ ok bytes
    → All (HasLength 64) sigs × (bytes ≡ joined itself sigs)
unfolding write_signatures joined
write_signatures_ok [] bytes e = ground arith
write_signatures_ok (sig ∷ sigs) bytes e = elim (Result-cases (write_signatures sigs)) [
  | inl (x, w) ↦ ground (arith, w)
  | inr (b, w) ↦ ground (arith, w, write_signatures_ok sigs b w)
]

pub write_instructions-joined :
    (ixs : List CompiledInstruction) → write_instructions ixs ≡ joined write_instruction ixs
unfolding write_instructions joined
write_instructions-joined [] = refl
write_instructions-joined (ix ∷ ixs) = rw (write_instructions-joined ixs)

-- What `serializeMessage` writes where it does not throw.
unfoldable pub message_bytes : Message → List ℕ
message_bytes msg =
    write_u8 msg.num_required_signatures
    ++ (write_u8 msg.num_readonly_signed
        ++ (write_u8 msg.num_readonly_unsigned
            ++ (write_u32_le (length msg.account_keys)
                ++ (joined itself msg.account_keys
                    ++ (msg.recent_blockhash
                        ++ (write_u32_le (length msg.instructions)
                            ++ joined write_instruction msg.instructions))))))

abbrev pub HasKeyLengths : Message → Type 0
HasKeyLengths msg = All (HasLength 32) msg.account_keys × HasLength 32 msg.recent_blockhash

pub serialize_message_ok :
    (msg : Message) (bytes : List ℕ)
    → serialize_message msg ≡ ok bytes
    → HasKeyLengths msg × (bytes ≡ message_bytes msg)
unfolding serialize_message message_bytes
serialize_message_ok msg bytes e = elim (Result-cases (write_keys msg.account_keys)) [
  | inl (x, w) ↦ ground (arith, w)
  | inr (b, w) ↦ elim (Result-cases (write_fixed_bytes32 msg.recent_blockhash)) [
    | inl (x, v) ↦ ground (arith, w, v)
    | inr (c, v) ↦ ground (
      arith,
      w,
      v,
      write_keys_ok msg.account_keys b w,
      write_fixed_bytes32_ok msg.recent_blockhash c v,
      write_instructions-joined msg.instructions,
    )
  ]
]

-- What `serializeTransaction` writes where it does not throw.
pub serialize_transaction_ok :
    (msg : Message) (sigs : List (List ℕ)) (bytes : List ℕ)
    → serialize_transaction msg sigs ≡ ok bytes
    → All (HasLength 64) sigs
      × HasKeyLengths msg
      × (bytes ≡ write_u32_le (length sigs) ++ (joined itself sigs ++ message_bytes msg))
unfolding serialize_transaction
serialize_transaction_ok msg sigs bytes e = elim (Result-cases (write_signatures sigs)) [
  | inl (x, w) ↦ ground (arith, w)
  | inr (b, w) ↦ elim (Result-cases (serialize_message msg)) [
    | inl (x, v) ↦ ground (arith, w, v)
    | inr (c, v) ↦ ground (arith, w, v, write_signatures_ok sigs b w, serialize_message_ok msg c v)
  ]
]

write_keys-joined :
    (keys : List (List ℕ)) → All (HasLength 32) keys → write_keys keys ≡ ok (joined itself keys)
unfolding write_keys write_fixed_bytes32 joined
write_keys-joined [] h = refl
write_keys-joined (key ∷ keys) (p, h) = ground (arith, write_keys-joined keys h)

pub write_signatures-joined :
    (sigs : List (List ℕ))
    → All (HasLength 64) sigs
    → write_signatures sigs ≡ ok (joined itself sigs)
unfolding write_signatures joined
write_signatures-joined [] h = refl
write_signatures-joined (sig ∷ sigs) (p, h) = ground (arith, write_signatures-joined sigs h)

serialize_message-written :
    (msg : Message) → HasKeyLengths msg → serialize_message msg ≡ ok (message_bytes msg)
unfolding serialize_message message_bytes write_fixed_bytes32
serialize_message-written msg (keys, blockhash) =
    ground
      (arith, write_keys-joined msg.account_keys keys, write_instructions-joined msg.instructions)

-- `serializeTransaction` does not throw where every length is right.
pub serialize_transaction-written :
    (msg : Message) (sigs : List (List ℕ))
    → HasKeyLengths msg
    → All (HasLength 64) sigs
    → serialize_transaction msg sigs
      ≡ ok (write_u32_le (length sigs) ++ (joined itself sigs ++ message_bytes msg))
unfolding serialize_transaction
serialize_transaction-written msg sigs h k =
    rw (write_signatures-joined sigs k, serialize_message-written msg h) refl
