-- ===== src/Wasm/Tests.antt =====
-- Runs of src/wasm/index.ts, and the theorems at concrete inputs.
use eto_mcp.Wasm.Builders.Evm.Binding.{
  fields_of, EvmCall, IsSameCall, hash_of, same_hash-IsSameCall, malformed_contract-deploys,
}
use eto_mcp.Wasm.Builders.Evm.{
  hex_data, build_evm_call_signing_hash, contract_bytes, EvmSignature, Keccak,
  build_signed_evm_call_tx, build_signed_evm_deploy_tx, build_evm_deploy_signing_hash,
}
use eto_mcp.Prelude.Text.{hex_bytes, codes}
use eto_mcp.Wasm.Builders.Calls.Intent.{
  uses_short_id, displaces_authority, is_sound, signers, authority_of, account_of,
}
use eto_mcp.Prelude.{
  ℕ, ◌≡◌, refl, true, none, some, List, [], ◌∷◌, ◌++◌, map, length, ◌⊎◌, arith, ◌≢◌, Member,
}
use eto_mcp.Prelude.Result.{ok, err}
use eto_mcp.Wasm.{Decode58, Encode58, WasmError, expected_32_bytes, invalid_base58}
use eto_mcp.Wasm.Bytes.{zeros, pubkey_bytes, write_u64_le, pad_left32}
use eto_mcp.Wasm.Message.{
  Message, build_message, instruction, serialize_message, serialize_transaction, blank_signatures,
}
use eto_mcp.Wasm.ProgramIds.{memo_program_id, token_program_id}
use eto_mcp.Wasm.Decode.{decode_transaction}
use eto_mcp.Wasm.RoundTrip.{describe, decode_transaction-serialize_transaction}
use eto_mcp.Wasm.RoundTrip.Writes.{message_bytes}
use eto_mcp.Wasm.Signing.{Sign, sign_transaction}
use eto_mcp.Wasm.Fixtures.{plain, shown, pay_message, key_signs}
use eto_mcp.Wasm.Signing.Slots.{sign_create_stake, local_sign}
use eto_mcp.Wasm.Signing.Slots.Filling.{sign_create_stake_fills}
use eto_mcp.Wasm.Signing.Unsigned.{sign_transaction-serialize_transaction}
use eto_mcp.Wasm.Rlp.{base16, flat, bigint_to_be_bytes, rlp_encode_item, rlp_encode_list}
use eto_mcp.Wasm.Rlp.Reader.{rlp_read_list}
use eto_mcp.Wasm.Rlp.RoundTrip.{rlp_read_list-rlp_encode_list}
use eto_mcp.Wasm.Builders.Calls.{message_of, build, transfer, freeze, wasm_deploy, BuilderCall}
use eto_mcp.Wasm.Builders.Calls.Signers.{message_of_sound, authority_signs, displaced-signers}
use eto_mcp.Wasm.Builders.Calls.Transactions.{build-decodes}
use eto_mcp.Wasm.Builders.Calls.ShortIds.{deploy_refused}
use eto_mcp.Issuers.Base58.{base58_decode}

memo_program : base58_decode "MemoSq4gqABAXKb96qnH8TysNcWxMyWCqXgDLGmfcHr" ≡ some memo_program_id
unfolding base58_decode eto_mcp.Issuers.Base58.add_digits eto_mcp.Issuers.Base58.base58_lookup
    eto_mcp.Issuers.Base58.add_digit
memo_program = refl

amount_bytes : write_u64_le 0x1_0203_0405 ≡ 5 ∷ 4 ∷ 3 ∷ 2 ∷ 1 ∷ 0 ∷ 0 ∷ 0 ∷ []
unfolding write_u64_le eto_mcp.Wasm.Bytes.write_u32_le
amount_bytes = refl

rlp_dog : rlp_encode_item (codes "dog") ≡ 0x83 ∷ codes "dog"
unfolding rlp_encode_item
rlp_dog = refl

abbrev pay : BuilderCall
pay = transfer "alice" "bob" 5 "block" none

pay-message_of : message_of plain pay ≡ ok pay_message
unfolding message_of eto_mcp.Wasm.Builders.Transfers.transfer_message pubkey_bytes
    eto_mcp.Wasm.Bytes.blockhash_bytes eto_mcp.Wasm.Bytes.write_u32_le write_u64_le
pay-message_of = refl

pay_serialized : serialize_message pay_message ≡ ok (message_bytes pay_message)
unfolding serialize_message message_bytes eto_mcp.Wasm.Message.write_keys
    eto_mcp.Wasm.Bytes.write_fixed_bytes32 eto_mcp.Wasm.RoundTrip.Reads.joined
    eto_mcp.Wasm.Message.write_instruction eto_mcp.Wasm.Message.write_instructions
pay_serialized = refl

abbrev pay_bytes : List ℕ
pay_bytes = 1 ∷ 0 ∷ 0 ∷ 0 ∷ (zeros 64 ++ message_bytes pay_message)

pay_written : serialize_transaction pay_message (zeros 64 ∷ []) ≡ ok pay_bytes
unfolding serialize_transaction message_bytes eto_mcp.Wasm.Message.write_signatures
    serialize_message eto_mcp.Wasm.Message.write_keys eto_mcp.Wasm.Bytes.write_fixed_bytes32
    eto_mcp.Wasm.Bytes.write_u32_le eto_mcp.Wasm.RoundTrip.Reads.joined
    eto_mcp.Wasm.Message.write_instruction eto_mcp.Wasm.Message.write_instructions
pay_written = refl

decode_transaction-serialize_transaction_example :
    decode_transaction shown (pay_bytes ++ 7 ∷ []) ≡ describe shown pay_message (zeros 64 ∷ [])
decode_transaction-serialize_transaction_example =
    decode_transaction-serialize_transaction shown pay_message (zeros 64 ∷ []) pay_bytes (7 ∷ [])
      (
        omega arith,
        omega arith,
        omega arith,
        omega arith,
        omega arith,
        ((omega arith, omega arith, omega arith), tt),
      )
      (omega arith) pay_written

abbrev signing : Sign
signing message key = some (zeros 64)

sign_transaction-serialize_transaction_example :
    sign_transaction signing pay_bytes "00" ≡ serialize_transaction pay_message (zeros 64 ∷ [])
sign_transaction-serialize_transaction_example =
    sign_transaction-serialize_transaction signing pay_message (zeros 64 ∷ []) pay_bytes
      (message_bytes pay_message) "00" (zeros 64) pay_written pay_serialized (omega arith) refl refl

message_of_sound_example : is_sound pay_message ≡ true
message_of_sound_example = message_of_sound plain pay pay_message pay-message_of

authority_signs_example :
    (rest : List (List ℕ)) × (signers pay_message ≡ pad_left32 (codes "alice") ∷ rest)
unfolding displaces_authority authority_of pubkey_bytes
authority_signs_example =
    authority_signs plain pay pay_message (pad_left32 (codes "alice")) refl pay-message_of refl

abbrev freezing : BuilderCall
freezing = freeze "owner" "card" "mint" "block"

abbrev freeze_example_message : Message
freeze_example_message =
    build_message
      (pad_left32 (codes "card")
        ∷ pad_left32 (codes "mint")
        ∷ pad_left32 (codes "owner")
        ∷ token_program_id
        ∷ [])
      (pad_left32 (codes "block")) (instruction 3 (0 ∷ 1 ∷ 2 ∷ []) (9 ∷ []) ∷ []) 1 0 1

freezing-message_of : message_of plain freezing ≡ ok freeze_example_message
unfolding message_of eto_mcp.Wasm.Builders.Tokens.freeze_message pubkey_bytes
    eto_mcp.Wasm.Bytes.blockhash_bytes eto_mcp.Wasm.Bytes.write_u8
freezing-message_of = refl

displaced-signers_example :
    (freeze_example_message.num_required_signatures ≡ 1)
    × ((account : List ℕ) × (pubkey_bytes plain (account_of freezing) ≡ ok account)
        × (signers freeze_example_message ≡ account ∷ [])
        × ((authority : List ℕ)
            → pubkey_bytes plain (authority_of freezing) ≡ ok authority
            → authority ≢ account
            → ¬ Member authority (signers freeze_example_message)))
unfolding displaces_authority
displaced-signers_example =
    displaced-signers plain freezing freeze_example_message refl freezing-message_of

build-decodes_example :
    (tx : List ℕ) × (build plain pay ≡ ok tx)
    × (decode_transaction shown tx ≡ describe shown pay_message (blank_signatures 1))
unfolding uses_short_id
build-decodes_example =
    build-decodes plain shown pay pay_message refl pay-message_of (omega arith, tt)

deploy_refused_example :
    (build plain (wasm_deploy "alice" (0 ∷ 97 ∷ []) "block") ≡ err (expected_32_bytes 30))
    ⊎ ((e : WasmError) × (message_of plain (wasm_deploy "alice" (0 ∷ 97 ∷ []) "block") ≡ err e)
        × (build plain (wasm_deploy "alice" (0 ∷ 97 ∷ []) "block") ≡ err e))
unfolding uses_short_id
deploy_refused_example = deploy_refused plain (wasm_deploy "alice" (0 ∷ 97 ∷ []) "block") refl

rlp_read_list-rlp_encode_list_example :
    rlp_read_list (rlp_encode_list (map rlp_encode_item (codes "cat" ∷ [] ∷ [])))
    ≡ some (codes "cat" ∷ [] ∷ [], [])
unfolding rlp_encode_item
rlp_read_list-rlp_encode_list_example =
    rlp_read_list-rlp_encode_list (codes "cat" ∷ [] ∷ []) (omega arith, (omega arith, tt))
      (omega arith)

abbrev plain_hash : Keccak
plain_hash bytes = bytes

abbrev evm_call_a : EvmCall
evm_call_a = record {
  contract = "0x0000000000000000000000000000000000000001";
  calldata = "0xAB";
  chain_id = 17743;
  nonce = 0;
  gas_price = 1;
  gas_limit = 21000;
  value = 5;
}

abbrev evm_call_b : EvmCall
evm_call_b = record evm_call_a { contract = "0x1"; calldata = "ab" }

payload_a : length (flat (map rlp_encode_item (fields_of evm_call_a))) ≡ 34
unfolding rlp_encode_item bigint_to_be_bytes contract_bytes hex_data base16 hex_bytes
payload_a = refl

payload_b : length (flat (map rlp_encode_item (fields_of evm_call_b))) ≡ 34
unfolding rlp_encode_item bigint_to_be_bytes contract_bytes hex_data base16 hex_bytes
payload_b = refl

same_hash-IsSameCall_example : IsSameCall evm_call_a evm_call_b
unfolding build_evm_call_signing_hash contract_bytes hex_data hex_bytes
same_hash-IsSameCall_example =
    same_hash-IsSameCall plain_hash evm_call_a evm_call_b (omega (arith, payload_a))
      (omega (arith, payload_b)) (λ e. e) refl

abbrev bad_call : EvmCall
bad_call = record evm_call_a { contract = "zz00000000000000000000000000000000000000" }

abbrev blank_signature : EvmSignature
blank_signature = record { r = 1 ∷ []; s = 2 ∷ []; v = 27 }

malformed_contract-deploys_example :
    (hash_of plain_hash bad_call
      ≡ build_evm_deploy_signing_hash plain_hash "0xAB" 17743 0 1 21000 5)
    × (build_signed_evm_call_tx plain "alice" "zz00000000000000000000000000000000000000" "0xAB"
          blank_signature 0 1 21000 5 "block"
        ≡ build_signed_evm_deploy_tx plain "alice" "0xAB" blank_signature 0 1 21000 5 "block")
unfolding contract_bytes hex_bytes
malformed_contract-deploys_example =
    malformed_contract-deploys plain plain_hash bad_call "alice" "block" blank_signature refl

abbrev pair_message : Message
pair_message = record pay_message { num_required_signatures = 2 }

pair_serialized : serialize_message pair_message ≡ ok (message_bytes pair_message)
unfolding serialize_message message_bytes eto_mcp.Wasm.Message.write_keys
    eto_mcp.Wasm.Bytes.write_fixed_bytes32 eto_mcp.Wasm.RoundTrip.Reads.joined
    eto_mcp.Wasm.Message.write_instruction eto_mcp.Wasm.Message.write_instructions
pair_serialized = refl

abbrev pair_bytes : List ℕ
pair_bytes = 2 ∷ 0 ∷ 0 ∷ 0 ∷ (zeros 64 ++ (zeros 64 ++ message_bytes pair_message))

pair_written : serialize_transaction pair_message (zeros 64 ∷ zeros 64 ∷ []) ≡ ok pair_bytes
unfolding serialize_transaction message_bytes eto_mcp.Wasm.Message.write_signatures
    serialize_message eto_mcp.Wasm.Message.write_keys eto_mcp.Wasm.Bytes.write_fixed_bytes32
    eto_mcp.Wasm.Bytes.write_u32_le eto_mcp.Wasm.RoundTrip.Reads.joined
    eto_mcp.Wasm.Message.write_instruction eto_mcp.Wasm.Message.write_instructions
pair_written = refl

sign_create_stake_fills_example :
    sign_create_stake key_signs (local_sign key_signs (7 ∷ [])) "09" pair_bytes
    ≡ serialize_transaction pair_message ((7 ∷ zeros 63) ∷ (9 ∷ zeros 63) ∷ [])
unfolding hex_bytes
sign_create_stake_fills_example =
    sign_create_stake_fills pair_message (message_bytes pair_message) pair_serialized key_signs
      (7 ∷ []) "09" (7 ∷ zeros 63) (9 ∷ zeros 63) pair_bytes (zeros 64) (zeros 64) pair_written refl
      refl refl refl
