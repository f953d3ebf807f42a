-- ===== src/Write/Simulator/Misreading.antt =====
-- src/write/simulator.ts reads compact counts, where src/wasm/index.ts writes counts of four bytes.
use eto_mcp.Wasm.Bytes.{write_u8, write_u32_le}
use eto_mcp.Prelude.{
  take-within, ℕ, zero, suc, ◌+◌, ◌%◌, ◌≤◌, ◌≡◌, refl, subst, ◌∙◌, some, List, [], ◌∷◌, ◌++◌,
  length, length-append, take, drop, drop-append, All, arith, le→leb,
}
use eto_mcp.Prelude.Result.{ok}
use eto_mcp.Wasm.{Encode58}
use eto_mcp.Wasm.Message.{Message, serialize_transaction, write_instruction}
use eto_mcp.Wasm.RoundTrip.Reads.{joined, HasLength}
use eto_mcp.Wasm.RoundTrip.Writes.{itself, message_bytes, serialize_transaction_ok}
use eto_mcp.Write.Simulator.{extract_account_keys, read_compact, read_account_keys}
use mathlib.Core.List.{append_assoc, append-nil}
use native.Mathlib.Nat.{zero-add}

drop_nil : (n : ℕ) → drop {A = ℕ} n [] ≡ []
drop_nil zero = refl
drop_nil (suc n) = refl

drop-drop : (a b : ℕ) (xs : List ℕ) → drop a (drop b xs) ≡ drop (b + a) xs
drop-drop a zero xs = rw zero-add refl
drop-drop a (suc b) [] = rw (drop_nil a, drop_nil (suc b + a))
drop-drop a (suc b) (x ∷ xs) =
    let next : suc b + a ≡ suc (b + a) = omega arith in rw next (drop-drop a b xs)

-- The three zeros of the count and the last 61 bytes of the signature are taken for the signature,
-- and its last three for the header.
header_skipped :
    (sig bytes : List ℕ) → HasLength 64 sig → drop 3 (drop 64 (0 ∷ 0 ∷ 0 ∷ (sig ++ bytes))) ≡ bytes
header_skipped sig bytes h =
    drop-drop 3 61 (sig ++ bytes)
    ∙ subst (λ n. drop n (sig ++ bytes) ≡ bytes) h (drop-append sig bytes)

read_one : (rest : List ℕ) → read_compact 0 0 (1 ∷ rest) ≡ some (1, rest)
unfolding read_compact
read_one rest = refl

one_key :
    (encode58 : Encode58) (s u : ℕ) (count key rest : List ℕ)
    → length count ≡ 4
    → HasLength 32 key
    → read_account_keys encode58 1 (s ∷ u ∷ (count ++ (key ++ rest)))
      ≡ encode58 (s ∷ u ∷ (count ++ take 26 key)) ∷ []
unfolding read_account_keys
one_key encode58 s u (a ∷ b ∷ c ∷ d ∷ []) key rest e h =
    let enough : 32 ≤ length (s ∷ u ∷ a ∷ b ∷ c ∷ d ∷ (key ++ rest)) =
      omega (arith, length-append key rest) in
    rw (le→leb _ _ enough, take-within 26 key rest (omega arith))
one_key encode58 s u [] key rest e h = absurd (omega arith)
one_key encode58 s u (a ∷ []) key rest e h = absurd (omega arith)
one_key encode58 s u (a ∷ b ∷ []) key rest e h = absurd (omega arith)
one_key encode58 s u (a ∷ b ∷ c ∷ []) key rest e h = absurd (omega arith)
one_key encode58 s u (a ∷ b ∷ c ∷ d ∷ x ∷ count) key rest e h = absurd (omega arith)

misread :
    (encode58 : Encode58) (sig count key rest : List ℕ) (s u : ℕ)
    → HasLength 64 sig
    → length count ≡ 4
    → HasLength 32 key
    → extract_account_keys encode58
        (1 ∷ 0 ∷ 0 ∷ 0 ∷ (sig ++ (1 ∷ s ∷ u ∷ (count ++ (key ++ rest)))))
      ≡ some (encode58 (s ∷ u ∷ (count ++ take 26 key)) ∷ [])
unfolding extract_account_keys
misread encode58 sig count key rest s u h e k = rw (
  read_one (0 ∷ 0 ∷ 0 ∷ (sig ++ (1 ∷ s ∷ u ∷ (count ++ (key ++ rest))))),
  header_skipped sig (1 ∷ s ∷ u ∷ (count ++ (key ++ rest))) h,
  read_one (s ∷ u ∷ (count ++ (key ++ rest))),
  one_key encode58 s u count key rest e k,
)

-- What follows the first key.
after_key : Message → List (List ℕ) → List ℕ
after_key msg keys =
    joined itself keys
    ++ (msg.recent_blockhash
        ++ (write_u32_le (length msg.instructions) ++ joined write_instruction msg.instructions))

message_shape :
    (msg : Message) (key : List ℕ) (keys : List (List ℕ))
    → msg.num_required_signatures ≡ 1
    → msg.account_keys ≡ key ∷ keys
    → message_bytes msg
      ≡ 1
        ∷ (msg.num_readonly_signed % 256)
        ∷ (msg.num_readonly_unsigned % 256)
        ∷ (write_u32_le (length msg.account_keys) ++ (key ++ after_key msg keys))
unfolding message_bytes after_key write_u8 joined
message_shape msg key keys one first = rw (one, first) (simp append_assoc)

tx_shape :
    (sig bytes : List ℕ)
    → write_u32_le 1 ++ (joined itself (sig ∷ []) ++ bytes) ≡ 1 ∷ 0 ∷ 0 ∷ 0 ∷ (sig ++ bytes)
unfolding write_u32_le joined
tx_shape sig bytes = rw append-nil

-- A transaction with one signature is misread: the count of the signers is taken for the count of
-- the keys, and the one key that is given consists of the other header bytes, the count of the keys
-- and the first 26 bytes of the first key.
pub extract_account_keys-misread :
    (encode58 : Encode58) (msg : Message) (sig key : List ℕ) (keys : List (List ℕ)) (tx : List ℕ)
    → msg.num_required_signatures ≡ 1
    → msg.account_keys ≡ key ∷ keys
    → serialize_transaction msg (sig ∷ []) ≡ ok tx
    → extract_account_keys encode58 tx
      ≡ some (
          encode58 (
            msg.num_readonly_signed % 256
            ∷ msg.num_readonly_unsigned % 256
            ∷ (write_u32_le (length msg.account_keys) ++ take 26 key))
          ∷ [])
extract_account_keys-misread encode58 msg sig key keys tx one first e =
    let (h, (keys_h, blockhash_h), w) = serialize_transaction_ok msg (sig ∷ []) tx e in
    let (k, ks) = subst (All (HasLength 32)) first keys_h in
    let count : length (write_u32_le (length msg.account_keys)) ≡ 4 = unfold write_u32_le in refl in
    rw (w, tx_shape, message_shape msg key keys one first)
      (misread encode58 sig (write_u32_le (length msg.account_keys)) key (after_key msg keys) _ _
        h.0 count k)
