-- ===== src/Wasm/Builders/Evm/Binding.antt =====
-- src/wasm/index.ts: what the EVM signing hashes and envelopes say of the call that is signed.
use eto_mcp.Prelude.{
  ℕ, ◌^◌, ◌<◌, ◌≤◌, ◌≡◌, refl, ap, sym, ◌∙◌, List, [], ◌∷◌, map, length, length-append, All, String,
  arith,
}
use eto_mcp.Wasm.{Decode58}
use eto_mcp.Wasm.Rlp.{bigint_to_be_bytes, rlp_encode_item, rlp_encode_int, rlp_encode_list, flat}
use eto_mcp.Wasm.Rlp.Digits.{be_value, be_value-bigint_to_be_bytes}
use eto_mcp.Wasm.Rlp.RoundTrip.{IsSized, rlp_read_list-rlp_encode_list}
use eto_mcp.Wasm.Builders.Evm.{
  Keccak, EvmSignature, contract_bytes, hex_data, build_evm_call_signing_hash,
  build_evm_deploy_signing_hash, signed_call_rlp, signed_deploy_rlp, build_signed_evm_call_tx,
  build_signed_evm_deploy_tx,
}

-- The strings that the hash of a call is taken of.
abbrev pub call_fields : String → String → ℕ → ℕ → ℕ → ℕ → ℕ → List (List ℕ)
call_fields contract calldata chain_id nonce gas_price gas_limit value =
    bigint_to_be_bytes nonce
    ∷ bigint_to_be_bytes gas_price
    ∷ bigint_to_be_bytes gas_limit
    ∷ contract_bytes contract
    ∷ bigint_to_be_bytes value
    ∷ hex_data calldata
    ∷ bigint_to_be_bytes chain_id
    ∷ []
    ∷ []
    ∷ []

pub call_payload : List (List ℕ) → List ℕ
call_payload fields = rlp_encode_list (map rlp_encode_item fields)

hash-call_payload :
    (keccak_256 : Keccak) (contract calldata : String)
    (chain_id nonce gas_price gas_limit value : ℕ)
    → build_evm_call_signing_hash keccak_256 contract calldata chain_id nonce gas_price gas_limit
        value
      ≡ keccak_256
          (call_payload (call_fields contract calldata chain_id nonce gas_price gas_limit value))
unfolding build_evm_call_signing_hash call_payload rlp_encode_int
hash-call_payload keccak_256 contract calldata chain_id nonce gas_price gas_limit value =
    unfold bigint_to_be_bytes in refl

abbrev pub IsPayload : List (List ℕ) → Type 0
IsPayload fields = length (flat (map rlp_encode_item fields)) < 2 ^ 64

length-le-encode : (bytes : List ℕ) → length bytes ≤ length (rlp_encode_item bytes)
unfolding rlp_encode_item
length-le-encode [] = omega arith
length-le-encode (b ∷ []) = ground arith
length-le-encode (b ∷ c ∷ bytes) =
    ground (arith, length-append (bigint_to_be_bytes (length (b ∷ c ∷ bytes))) (b ∷ c ∷ bytes))

all-IsSized : (fields : List (List ℕ)) → IsPayload fields → All IsSized fields
all-IsSized [] h = tt
all-IsSized (bytes ∷ fields) h =
    let whole = length-append (rlp_encode_item bytes) (flat (map rlp_encode_item fields)) in
    let part = length-le-encode bytes in (omega arith, all-IsSized fields (omega arith))

-- The payload tells its strings.
call_payload_injective :
    (xs ys : List (List ℕ))
    → IsPayload xs
    → IsPayload ys
    → call_payload xs ≡ call_payload ys
    → xs ≡ ys
unfolding call_payload
call_payload_injective xs ys h k e =
    let left = rlp_read_list-rlp_encode_list xs (all-IsSized xs h) h in
    let right = rlp_read_list-rlp_encode_list ys (all-IsSized ys k) k in cc

number_injective : (n m : ℕ) → bigint_to_be_bytes n ≡ bigint_to_be_bytes m → n ≡ m
number_injective n m e =
    sym (be_value-bigint_to_be_bytes n) ∙ ap (be_value 0) e ∙ be_value-bigint_to_be_bytes m

-- What two calls have in common that share their signature.
pub record EvmCall : Type 0 where
  pub contract : String
  pub calldata : String
  pub chain_id : ℕ
  pub nonce : ℕ
  pub gas_price : ℕ
  pub gas_limit : ℕ
  pub value : ℕ

abbrev pub fields_of : EvmCall → List (List ℕ)
fields_of c = call_fields c.contract c.calldata c.chain_id c.nonce c.gas_price c.gas_limit c.value

abbrev pub hash_of : Keccak → EvmCall → List ℕ
hash_of keccak_256 c =
    build_evm_call_signing_hash keccak_256 c.contract c.calldata c.chain_id c.nonce c.gas_price
      c.gas_limit c.value

abbrev pub IsSameCall : EvmCall → EvmCall → Type 0
IsSameCall c d =
    (c.nonce ≡ d.nonce)
    × (c.gas_price ≡ d.gas_price)
    × (c.gas_limit ≡ d.gas_limit)
    × (contract_bytes c.contract ≡ contract_bytes d.contract)
    × (c.value ≡ d.value)
    × (hex_data c.calldata ≡ hex_data d.calldata)
    × (c.chain_id ≡ d.chain_id)

fields-IsSameCall : (c d : EvmCall) → fields_of c ≡ fields_of d → IsSameCall c d
fields-IsSameCall c d e = (
  number_injective c.nonce d.nonce (cc),
  number_injective c.gas_price d.gas_price (cc),
  number_injective c.gas_limit d.gas_limit (cc),
  cc,
  number_injective c.value d.value (cc),
  cc,
  number_injective c.chain_id d.chain_id (cc),
)

-- Calls with the same signing hash have the same nonce, gas price, gas limit, contract bytes, value,
-- call data bytes and chain id, where `keccak_256` does not collide on the two encodings. The
-- encoded fields take less than 2^64 bytes.
pub same_hash-IsSameCall :
    (keccak_256 : Keccak) (c d : EvmCall)
    → IsPayload (fields_of c)
    → IsPayload (fields_of d)
    → (keccak_256 (call_payload (fields_of c)) ≡ keccak_256 (call_payload (fields_of d))
        → call_payload (fields_of c) ≡ call_payload (fields_of d))
    → hash_of keccak_256 c ≡ hash_of keccak_256 d
    → IsSameCall c d
same_hash-IsSameCall keccak_256 c d h k apart e =
    let left =
      hash-call_payload keccak_256 c.contract c.calldata c.chain_id c.nonce c.gas_price c.gas_limit
        c.value in
    let right =
      hash-call_payload keccak_256 d.contract d.calldata d.chain_id d.nonce d.gas_price d.gas_limit
        d.value in
    fields-IsSameCall c d (call_payload_injective _ _ h k (apart (sym left ∙ e ∙ right)))

-- Where no bytes are read from a contract's text, as from 40 characters that begin with no
-- hexadecimal digit, what is built for the call is the deployment of its call data: the same hash
-- to sign, and the same transaction.
pub malformed_contract-deploys :
    (decode58 : Decode58) (keccak_256 : Keccak) (c : EvmCall) (caller recent_blockhash : String)
    (sig : EvmSignature)
    → contract_bytes c.contract ≡ []
    → (hash_of keccak_256 c
        ≡ build_evm_deploy_signing_hash keccak_256 c.calldata c.chain_id c.nonce c.gas_price
            c.gas_limit c.value)
      × (build_signed_evm_call_tx decode58 caller c.contract c.calldata sig c.nonce c.gas_price
            c.gas_limit c.value recent_blockhash
          ≡ build_signed_evm_deploy_tx decode58 caller c.calldata sig c.nonce c.gas_price
              c.gas_limit c.value recent_blockhash)
unfolding build_evm_call_signing_hash build_evm_deploy_signing_hash build_signed_evm_call_tx
    build_signed_evm_deploy_tx signed_call_rlp signed_deploy_rlp
malformed_contract-deploys decode58 keccak_256 c caller recent_blockhash sig h =
    rw h (unfold rlp_encode_item in (refl, refl))
