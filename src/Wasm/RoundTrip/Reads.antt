-- ===== src/Wasm/RoundTrip/Reads.antt =====
-- Each reader of src/wasm/index.ts after its writer, with bytes behind.
use eto_mcp.Prelude.{
  sym, ℕ, ◌+◌, ◌*◌, ◌/◌, ◌%◌, ◌^◌, ◌<◌, ◌≡◌, refl, List, [], ◌∷◌, ◌++◌, map, some, length,
  take-append, drop-append, All, arith,
}
use eto_mcp.Prelude.Text.{to_hex}
use eto_mcp.Wasm.{Encode58}
use eto_mcp.Wasm.Bytes.{write_u8, write_u32_le, write_vec}
use eto_mcp.Wasm.Message.{CompiledInstruction, write_instruction}
use eto_mcp.Wasm.Decode.{
  DecodedInstruction, read_u8, read_u32_le, read_bytes, read_vec, read_many, read_signature,
  read_key, read_instruction,
}
use mathlib.Core.List.{append_assoc}

pub read_u8-write_u8 :
    (v : ℕ) (rest : List ℕ) → v < 256 → read_u8 (write_u8 v ++ rest) ≡ (some v, rest)
unfolding read_u8 write_u8
read_u8-write_u8 v rest h = ground arith

pub u32_whole :
    (v : ℕ)
    → v < 2 ^ 32
    → v % 256
        + v / 0x100 % 256 * 0x100
        + v / 0x10000 % 256 * 0x10000
        + v / 0x1000000 % 256 * 0x1000000
      ≡ v
u32_whole v h = omega arith

pub read_u32_le-write_u32_le :
    (v : ℕ) (rest : List ℕ) → v < 2 ^ 32 → read_u32_le (write_u32_le v ++ rest) ≡ (v, rest)
unfolding read_u32_le write_u32_le
read_u32_le-write_u32_le v rest h = rw (u32_whole v h)

pub read_bytes-append :
    (xs rest : List ℕ) (n : ℕ) → length xs ≡ n → read_bytes n (xs ++ rest) ≡ (xs, rest)
unfolding read_bytes
read_bytes-append xs rest n e = rw (sym e, take-append, drop-append)

pub read_vec-write_vec :
    (xs rest : List ℕ) → length xs < 2 ^ 32 → read_vec (write_vec xs ++ rest) ≡ (xs, rest)
unfolding read_vec write_vec
read_vec-write_vec xs rest h =
    rw (append_assoc, read_u32_le-write_u32_le (length xs) (xs ++ rest) h)
      (read_bytes-append xs rest (length xs) refl)

-- What a loop of writes appends.
unfoldable pub joined : {A : Type 0} → (A → List ℕ) → List A → List ℕ
joined write [] = []
joined write (x ∷ xs) = write x ++ joined write xs

-- A loop of reads undoes a loop of writes whose steps it undoes.
pub read_many-joined :
    {A B : Type 0} (read : List ℕ → B × List ℕ) (write : A → List ℕ) (shown : A → B)
    (P : A → Type 0)
    → ((x : A) (rest : List ℕ) → P x → read (write x ++ rest) ≡ (shown x, rest))
    → (xs : List A) (rest : List ℕ) → All P xs
    → read_many read (length xs) (joined write xs ++ rest) ≡ (map shown xs, rest)
unfolding read_many joined
read_many-joined read write shown P step [] rest h = refl
read_many-joined read write shown P step (x ∷ xs) rest (p, h) = rw (
  append_assoc,
  step x (joined write xs ++ rest) p,
  read_many-joined read write shown P step xs rest h,
)

abbrev pub HasLength : ℕ → List ℕ → Type 0
HasLength n xs = length xs ≡ n

pub read_signature-append :
    (sig rest : List ℕ) → HasLength 64 sig → read_signature (sig ++ rest) ≡ (to_hex sig, rest)
unfolding read_signature
read_signature-append sig rest h = rw (read_bytes-append sig rest 64 h)

pub read_key-append :
    (encode58 : Encode58) (key rest : List ℕ)
    → HasLength 32 key
    → read_key encode58 (key ++ rest) ≡ (encode58 key, rest)
unfolding read_key
read_key-append encode58 key rest h = rw (read_bytes-append key rest 32 h)

abbrev pub IsCompactInstruction : CompiledInstruction → Type 0
IsCompactInstruction ix =
    (ix.program_id_index < 256) × (length ix.accounts < 2 ^ 32) × (length ix.data_bytes < 2 ^ 32)

abbrev pub describe_instruction : CompiledInstruction → DecodedInstruction
describe_instruction ix = record {
  program_id_index = some ix.program_id_index;
  accounts = ix.accounts;
  data_hex = to_hex ix.data_bytes;
}

pub read_instruction-write_instruction :
    (ix : CompiledInstruction) (rest : List ℕ)
    → IsCompactInstruction ix
    → read_instruction (write_instruction ix ++ rest) ≡ (describe_instruction ix, rest)
unfolding read_instruction write_instruction read_u8 read_vec to_hex write_u8 read_bytes
read_instruction-write_instruction ix rest (h, k, l) = cc (
  append_assoc (write_u8 ix.program_id_index) (write_vec ix.accounts ++ write_vec ix.data_bytes)
      rest,
  append_assoc (write_vec ix.accounts) (write_vec ix.data_bytes) rest,
  read_u8-write_u8 ix.program_id_index (write_vec ix.accounts ++ (write_vec ix.data_bytes ++ rest))
      h,
  read_vec-write_vec ix.accounts (write_vec ix.data_bytes ++ rest) k,
  read_vec-write_vec ix.data_bytes rest l,
)
