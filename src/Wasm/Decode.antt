-- ===== src/Wasm/Decode.antt =====
-- src/wasm/index.ts: `decodeTransaction` and `decodeUth`. The offset into the bytes is the rest
-- that is still to be read: past the end a slice is short and an element is `undefined`.
use eto_mcp.Prelude.{
  ℕ, zero, suc, ◌+◌, ◌*◌, ◌^◌, Option, none, some, Bool, not, List, [], ◌∷◌, String, length, ltb,
  ◌==◌, if◌then◌else◌, take, drop,
}
use eto_mcp.Prelude.Text.{to_hex}
use eto_mcp.Wasm.{Encode58}

pub record DecodedInstruction : Type 0 where
  pub program_id_index : Option ℕ
  pub accounts : List ℕ
  pub data_hex : String

pub record DecodedTransaction : Type 0 where
  pub signatures : List String
  pub num_required_signatures : Option ℕ
  pub num_readonly_signed : Option ℕ
  pub num_readonly_unsigned : Option ℕ
  pub account_keys : List String
  pub recent_blockhash : String
  pub instructions : List DecodedInstruction

unfoldable pub read_u8 : List ℕ → Option ℕ × List ℕ
read_u8 [] = (none, [])
read_u8 (b ∷ bytes) = (some b, bytes)

-- `txBytes[i]` as an operand of `|`: `undefined` counts as 0.
abbrev pub byte_at : ℕ → List ℕ → ℕ
byte_at i [] = 0
byte_at zero (b ∷ bytes) = b
byte_at (suc i) (b ∷ bytes) = byte_at i bytes

-- The four bytes do not overlap, so that `|` adds them.
abbrev pub u32_le : List ℕ → ℕ
u32_le bytes =
    byte_at 0 bytes
    + byte_at 1 bytes * 0x100
    + byte_at 2 bytes * 0x10000
    + byte_at 3 bytes * 0x1000000

unfoldable pub read_u32_le : List ℕ → ℕ × List ℕ
read_u32_le bytes = (u32_le bytes, drop 4 bytes)

unfoldable pub read_bytes : ℕ → List ℕ → List ℕ × List ℕ
read_bytes n bytes = (take n bytes, drop n bytes)

unfoldable pub read_vec : List ℕ → List ℕ × List ℕ
read_vec bytes = let (len, rest) = read_u32_le bytes in read_bytes len rest

-- `for (let i = 0; i < count; i++) out.push(read())`
unfoldable pub read_many : {A : Type 0} → (List ℕ → A × List ℕ) → ℕ → List ℕ → List A × List ℕ
read_many read zero bytes = ([], bytes)
read_many read (suc n) bytes =
    let (x, rest) = read bytes in let (xs, left) = read_many read n rest in (x ∷ xs, left)

unfoldable pub read_signature : List ℕ → String × List ℕ
read_signature bytes = let (sig, rest) = read_bytes 64 bytes in (to_hex sig, rest)

unfoldable pub read_key : Encode58 → List ℕ → String × List ℕ
read_key encode58 bytes = let (key, rest) = read_bytes 32 bytes in (encode58 key, rest)

unfoldable pub read_instruction : List ℕ → DecodedInstruction × List ℕ
read_instruction bytes =
    let (index, rest) = read_u8 bytes in
    let (accounts, more) = read_vec rest in
    let (payload, left) = read_vec more in
    (record { program_id_index = index; accounts = accounts; data_hex = to_hex payload }, left)

unfoldable pub decode_transaction : Encode58 → List ℕ → DecodedTransaction
decode_transaction encode58 bytes =
    let (sig_count, r0) = read_u32_le bytes in
    let (signatures, r1) = read_many read_signature sig_count r0 in
    let (required, r2) = read_u8 r1 in
    let (signed, r3) = read_u8 r2 in
    let (unsigned, r4) = read_u8 r3 in
    let (key_count, r5) = read_u32_le r4 in
    let (keys, r6) = read_many (read_key encode58) key_count r5 in
    let (blockhash, r7) = read_key encode58 r6 in
    let (ix_count, r8) = read_u32_le r7 in
    let (instructions, r9) = read_many read_instruction ix_count r8 in
    record {
      signatures = signatures;
      num_required_signatures = required;
      num_readonly_signed = signed;
      num_readonly_unsigned = unsigned;
      account_keys = keys;
      recent_blockhash = blockhash;
      instructions = instructions;
    }

pub record UniversalTokenHeader : Type 0 where
  pub version : ℕ
  pub vm_origin : ℕ
  pub mint : String
  pub owner : String
  pub amount : ℕ
  pub decimals : ℕ
  pub frozen : Bool

unfoldable pub decode_uth : List ℕ → Option UniversalTokenHeader
decode_uth bytes =
    if ltb (length bytes) 76
    then none
    else some (record {
      version = byte_at 0 bytes;
      vm_origin = byte_at 1 bytes;
      mint = to_hex (take 32 (drop 2 bytes));
      owner = to_hex (take 32 (drop 34 bytes));
      amount = u32_le (drop 70 bytes) * 2 ^ 32 + u32_le (drop 66 bytes);
      decimals = byte_at 74 bytes;
      frozen = not (byte_at 75 bytes == 0);
    })
