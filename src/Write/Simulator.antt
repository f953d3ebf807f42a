-- ===== src/Write/Simulator.antt =====
-- `extractAccountKeys` of src/write/simulator.ts, on the bytes of a transaction. A count of more
-- than four bytes, where the shifts of 32-bit integers overflow, is not modelled: it gives `none`.
pub mod Misreading
mod Tests
use eto_mcp.Prelude.{
  ℕ, zero, suc, ◌+◌, ◌*◌, ◌%◌, ◌^◌, Option, none, some, List, [], ◌∷◌, String, length, ltb, leb,
  take, drop, if◌then◌else◌,
}
use eto_mcp.Prelude.Optional.{◌>>=◌}
use eto_mcp.Wasm.{Encode58}

-- The loop that reads a compact count; it ends with the bytes at the latest. The seven bits of a
-- byte do not overlap those before, so that `|` adds them.
unfoldable pub read_compact : ℕ → ℕ → List ℕ → Option (ℕ × List ℕ)
read_compact shift count [] = some (count, [])
read_compact shift count (b ∷ bytes) =
    let count' = count + b % 128 * 2 ^ shift in
    let more = read_compact (shift + 7) count' bytes in
    if leb 28 shift then none else if ltb b 128 then some (count', bytes) else more

-- Keys as long as there are 32 bytes.
unfoldable pub read_account_keys : Encode58 → ℕ → List ℕ → List String
read_account_keys encode58 zero bytes = []
read_account_keys encode58 (suc n) bytes =
    let rest = read_account_keys encode58 n (drop 32 bytes) in
    if leb 32 (length bytes) then encode58 (take 32 bytes) ∷ rest else []

-- The count of the signatures, the signatures, three bytes of the header, the count of the keys.
unfoldable pub extract_account_keys : Encode58 → List ℕ → Option (List String)
extract_account_keys encode58 tx_bytes = do
  (sig_count, rest) ← read_compact 0 0 tx_bytes
  (account_count, keys) ← read_compact 0 0 (drop 3 (drop (sig_count * 64) rest))
  some (read_account_keys encode58 account_count keys)
