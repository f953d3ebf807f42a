-- ===== src/Bank/Digest.antt =====
-- The ids that the handlers of keeper/bpps/bank/handlers derive: `createHash("sha256")` of
-- `node:crypto` is a parameter, from bytes to a hexadecimal text; here are the bytes.
pub mod Bytes
pub mod Hex
use eto_mcp.Prelude.{ℕ, zero, suc, ◌/◌, ◌%◌, ◌++◌, List, [], ◌∷◌, String}
use eto_mcp.Prelude.Text.{codes, hex_bytes}

abbrev pub Sha256 : Type 0
Sha256 = List ℕ → String

-- The lowest k bytes of n, the highest first.
unfoldable pub be_bytes : ℕ → ℕ → List ℕ
be_bytes zero n = []
be_bytes (suc k) n = be_bytes k (n / 256) ++ (n % 256) ∷ []

-- `Buffer.from(BigInt(n).toString(16).padStart(16, "0"), "hex")`, for n below 2^64.
unfoldable pub u64_be : ℕ → List ℕ
unfolding be_bytes
u64_be n = be_bytes 8 n

-- `Buffer.from(s, "hex")`
unfoldable pub from_hex : String → List ℕ
unfolding hex_bytes
from_hex s = hex_bytes (codes s)
