-- ===== src/Wasm/Builders/Calls/Facts.antt =====
-- What holds of the message of every builder call, read off the builders of src/wasm/index.ts.
use eto_mcp.Prelude.{
  true, false, ◌≡◌, length, ltb, ℕ, List, ◌-◌, refl, inl, inr, Option-cases, String, map, All,
  length-append, arith, zero, suc,
}
use eto_mcp.Wasm.Bytes.{pad_left32, pubkey_bytes, blockhash_bytes, zeros}
use eto_mcp.Prelude.Result.{Result, ◌>>=◌, Always, after, ok}
use eto_mcp.Wasm.{Decode58, WasmError}
use eto_mcp.Wasm.Message.{Message}
use eto_mcp.Wasm.Builders.Calls.{BuilderCall}
use eto_mcp.Wasm.Builders.Calls.Intent.{is_sound, uses_short_id, signer_slots, signers, IsShort}
use eto_mcp.Wasm.RoundTrip.Reads.{HasLength}
use eto_mcp.Wasm.RoundTrip.{IsCompact}

length-zeros : (n : ℕ) → length (zeros n) ≡ n
length-zeros zero = refl
length-zeros (suc n) = omega (arith, length-zeros n)

pad_left32-length :
    (bytes : List ℕ) → ltb 32 (length bytes) ≡ false → HasLength 32 (pad_left32 bytes)
pad_left32-length bytes h =
    ground
      (arith, length-append (zeros (32 - length bytes)) bytes, length-zeros (32 - length bytes))

pub pubkey_bytes_length :
    (decode58 : Decode58) (s : String) (key : List ℕ)
    → pubkey_bytes decode58 s ≡ ok key
    → HasLength 32 key
unfolding pubkey_bytes
pubkey_bytes_length decode58 s key e = elim (Option-cases (decode58 s)) [
  | inl n ↦ ground (arith, n)
  | inr (d, n) ↦ ground (arith, n, pad_left32-length d)
]

pub blockhash_bytes_length :
    (decode58 : Decode58) (s : String) (key : List ℕ)
    → blockhash_bytes decode58 s ≡ ok key
    → HasLength 32 key
unfolding blockhash_bytes
blockhash_bytes_length decode58 s key e = elim (Option-cases (decode58 s)) [
  | inl n ↦ ground (arith, n)
  | inr (d, n) ↦ ground (arith, n, pad_left32-length d)
]

module _ (decode58 : Decode58) where
  abbrev pub IsBuilt : BuilderCall → Message → Type 0
  IsBuilt call msg =
      (is_sound msg ≡ true)
      × (uses_short_id call ≡ false → All (HasLength 32) msg.account_keys)
      × HasLength 32 msg.recent_blockhash
      × (map (pubkey_bytes decode58) (signer_slots call) ≡ map ok (signers msg))
      × (All IsShort msg.instructions → IsCompact msg)

  -- A builder that reads one key, two or three, and then the blockhash.
  pub after_key :
      (P : Message → Type 0) (s0 sb : String) (f : List ℕ → List ℕ → Result WasmError Message)
      → ((k0 b : List ℕ)
          → pubkey_bytes decode58 s0 ≡ ok k0
          → HasLength 32 k0
          → HasLength 32 b
          → Always P (f k0 b))
      → Always P (pubkey_bytes decode58 s0 >>= λ k0. blockhash_bytes decode58 sb >>= λ b. f k0 b)
  after_key P s0 sb f h = after P (pubkey_bytes decode58 s0) _ (λ k0 e0.
      after P (blockhash_bytes decode58 sb) _ (λ b eb.
        h k0 b e0 (pubkey_bytes_length decode58 s0 k0 e0)
          (blockhash_bytes_length decode58 sb b eb)))

  pub after_2_keys :
      (P : Message → Type 0) (s0 s1 sb : String)
      (f : List ℕ → List ℕ → List ℕ → Result WasmError Message)
      → ((k0 k1 b : List ℕ)
          → pubkey_bytes decode58 s0 ≡ ok k0
          → pubkey_bytes decode58 s1 ≡ ok k1
          → HasLength 32 k0
          → HasLength 32 k1
          → HasLength 32 b
          → Always P (f k0 k1 b))
      → Always P (
          pubkey_bytes decode58 s0 >>= λ k0.
          pubkey_bytes decode58 s1 >>= λ k1. blockhash_bytes decode58 sb >>= λ b. f k0 k1 b)
  after_2_keys P s0 s1 sb f h = after P (pubkey_bytes decode58 s0) _ (λ k0 e0.
      after_key P s1 sb (λ k1 b. f k0 k1 b)
        (λ k1 b e1 l1 lb. h k0 k1 b e0 e1 (pubkey_bytes_length decode58 s0 k0 e0) l1 lb))

  pub after_3_keys :
      (P : Message → Type 0) (s0 s1 s2 sb : String)
      (f : List ℕ → List ℕ → List ℕ → List ℕ → Result WasmError Message)
      → ((k0 k1 k2 b : List ℕ)
          → pubkey_bytes decode58 s0 ≡ ok k0
          → pubkey_bytes decode58 s1 ≡ ok k1
          → pubkey_bytes decode58 s2 ≡ ok k2
          → HasLength 32 k0
          → HasLength 32 k1
          → HasLength 32 k2
          → HasLength 32 b
          → Always P (f k0 k1 k2 b))
      → Always P (
          pubkey_bytes decode58 s0 >>= λ k0. pubkey_bytes decode58 s1 >>= λ k1.
          pubkey_bytes decode58 s2 >>= λ k2. blockhash_bytes decode58 sb >>= λ b. f k0 k1 k2 b)
  after_3_keys P s0 s1 s2 sb f h = after P (pubkey_bytes decode58 s0) _ (λ k0 e0.
      after_2_keys P s1 s2 sb (λ k1 k2 b. f k0 k1 k2 b)
        (λ k1 k2 b e1 e2 l1 l2 lb.
          h k0 k1 k2 b e0 e1 e2 (pubkey_bytes_length decode58 s0 k0 e0) l1 l2 lb))
