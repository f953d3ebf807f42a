-- ===== src/Tools/Borsh.antt =====
-- `BorshReader` of src/utils/borsh-reader.ts. The offset is the rest that is still to be read; `none`
-- is a RangeError. A text is given as its bytes, which `toString("utf8")` turns into a string.
pub mod Reads
use eto_mcp.Prelude.{
  ℕ, zero, suc, ◌+◌, ◌*◌, ◌^◌, Option, none, some, Bool, not, List, [], ◌∷◌, String, length, ltb,
  ◌==◌, take, drop, if◌then◌else◌,
}
use eto_mcp.Prelude.Optional.{◌>>=◌}
use eto_mcp.Wasm.{Encode58}
use eto_mcp.Wasm.Decode.{u32_le}

abbrev pub Reader : Type 0 → Type 0
Reader A = List ℕ → Option (A × List ℕ)

unfoldable pub borsh_u8 : Reader ℕ
borsh_u8 [] = none
borsh_u8 (b ∷ bytes) = some (b, bytes)

unfoldable pub borsh_bool : Reader Bool
borsh_bool bytes = do (tag, rest) ← borsh_u8 bytes; some (not (tag == 0), rest)

unfoldable pub borsh_u32 : Reader ℕ
borsh_u32 bytes = if ltb (length bytes) 4 then none else some (u32_le bytes, drop 4 bytes)

unfoldable pub borsh_u64 : Reader ℕ
borsh_u64 bytes =
    if ltb (length bytes) 8
    then none
    else some (u32_le (drop 4 bytes) * 2 ^ 32 + u32_le bytes, drop 8 bytes)

-- `slice` is short at the end, and does not throw.
unfoldable pub borsh_bytes : ℕ → Reader (List ℕ)
borsh_bytes n bytes = some (take n bytes, drop n bytes)

-- `readString` and `readVecU8`
unfoldable pub borsh_string : Reader (List ℕ)
borsh_string bytes = do (n, rest) ← borsh_u32 bytes; borsh_bytes n rest

unfoldable pub borsh_pubkey : Encode58 → Reader String
borsh_pubkey encode58 bytes = do (key, rest) ← borsh_bytes 32 bytes; some (encode58 key, rest)

-- A loop that reads so many elements.
unfoldable pub borsh_many : {A : Type 0} → Reader A → ℕ → Reader (List A)
borsh_many read zero bytes = some ([], bytes)
borsh_many read (suc n) bytes = do
  (x, rest) ← read bytes
  (xs, left) ← borsh_many read n rest
  some (x ∷ xs, left)
