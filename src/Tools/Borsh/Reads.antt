-- ===== src/Tools/Borsh/Reads.antt =====
-- Each reader of src/utils/borsh-reader.ts on what the writers of src/wasm/index.ts append.
use eto_mcp.Prelude.{
  ℕ, ◌+◌, ◌*◌, ◌/◌, ◌%◌, ◌^◌, ◌<◌, ◌≡◌, refl, sym, Option, map, some, List, [], ◌∷◌, ◌++◌, length,
  le→ltb, take-append, drop-append, All, arith,
}
use eto_mcp.Wasm.{Encode58}
use eto_mcp.Wasm.Bytes.{write_u8, write_u32_le, write_u64_le, write_vec}
use eto_mcp.Wasm.RoundTrip.Reads.{u32_whole, joined, HasLength}
use eto_mcp.Wasm.Signing.Unsigned.{count_read, long_enough}
use eto_mcp.Tools.Borsh.{
  borsh_u8, borsh_u32, borsh_u64, borsh_bytes, borsh_string, borsh_pubkey, borsh_many,
}
use mathlib.Core.List.{append_assoc}

pub borsh_u8-write_u8 :
    (v : ℕ) (rest : List ℕ) → v < 256 → borsh_u8 (write_u8 v ++ rest) ≡ some (v, rest)
unfolding borsh_u8 write_u8
borsh_u8-write_u8 v rest h = ground arith

pub borsh_u32-write_u32_le :
    (v : ℕ) (rest : List ℕ) → v < 2 ^ 32 → borsh_u32 (write_u32_le v ++ rest) ≡ some (v, rest)
unfolding borsh_u32
borsh_u32-write_u32_le v rest h =
    rw (long_enough v rest, count_read v rest h) (unfold write_u32_le in refl)

pub borsh_u64-write_u64_le :
    (v : ℕ) (rest : List ℕ) → v < 2 ^ 64 → borsh_u64 (write_u64_le v ++ rest) ≡ some (v, rest)
unfolding borsh_u64 write_u64_le write_u32_le
borsh_u64-write_u64_le v rest h =
    let lo : ℕ = v % 2 ^ 32 in
    let hi : ℕ = v / 2 ^ 32 % 2 ^ 32 in
    let whole : hi * 2 ^ 32 + lo ≡ v = omega arith in
    rw (
      le→ltb (length (write_u64_le v ++ rest)) 8 (omega arith),
      u32_whole lo (omega arith),
      u32_whole hi (omega arith),
      whole,
    )

pub borsh_bytes-append :
    (xs rest : List ℕ) (n : ℕ) → length xs ≡ n → borsh_bytes n (xs ++ rest) ≡ some (xs, rest)
unfolding borsh_bytes
borsh_bytes-append xs rest n e = rw (sym e, take-append, drop-append)

pub borsh_string-write_vec :
    (xs rest : List ℕ) → length xs < 2 ^ 32 → borsh_string (write_vec xs ++ rest) ≡ some (xs, rest)
unfolding borsh_string write_vec
borsh_string-write_vec xs rest h =
    rw (append_assoc, borsh_u32-write_u32_le (length xs) (xs ++ rest) h)
      (borsh_bytes-append xs rest (length xs) refl)

pub borsh_pubkey-append :
    (encode58 : Encode58) (key rest : List ℕ)
    → HasLength 32 key
    → borsh_pubkey encode58 (key ++ rest) ≡ some (encode58 key, rest)
unfolding borsh_pubkey
borsh_pubkey-append encode58 key rest h = rw (borsh_bytes-append key rest 32 h)

pub borsh_many-joined :
    {A B : Type 0} (read : List ℕ → Option (B × List ℕ)) (write : A → List ℕ) (shown : A → B)
    (P : A → Type 0)
    → ((x : A) (rest : List ℕ) → P x → read (write x ++ rest) ≡ some (shown x, rest))
    → (xs : List A) (rest : List ℕ) → All P xs
    → borsh_many read (length xs) (joined write xs ++ rest) ≡ some (map shown xs, rest)
unfolding borsh_many joined
borsh_many-joined read write shown P step [] rest h = refl
borsh_many-joined read write shown P step (x ∷ xs) rest (p, h) = rw (
  append_assoc,
  step x (joined write xs ++ rest) p,
  borsh_many-joined read write shown P step xs rest h,
)
