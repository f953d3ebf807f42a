-- ===== src/Bank/Digest/Hex.antt =====
-- A hexadecimal key of 64 digits is 32 bytes, and the bytes tell the digits up to their case.
use eto_mcp.Prelude.{
  ◌∙◌, ◌*◌, sym, ==→eq, refl, ◌==◌, arith, and-true, all, zero, ◌∷◌, ◌+◌, suc, ◌<◌, map, true, [],
  length, List, ◌≡◌, String, ℕ,
}
use eto_mcp.Prelude.Text.{
  lower_code, codes, hex_value, is_hex64, hex_bytes, is_hex_digit, lower_case,
}
use eto_mcp.Bank.Digest.{from_hex}

-- The key has 2 * k digits and nothing else.
abbrev pub IsHex : ℕ → List ℕ → Type 0
IsHex zero cs = cs ≡ []
IsHex (suc k) [] = ⊥
IsHex (suc k) (a ∷ []) = ⊥
IsHex (suc k) (a ∷ b ∷ cs) = (is_hex_digit a ≡ true) × (is_hex_digit b ≡ true) × IsHex k cs

all-IsHex : (k : ℕ) (cs : List ℕ) → length cs ≡ k + k → all is_hex_digit cs ≡ true → IsHex k cs
all-IsHex zero [] n h = refl
all-IsHex zero (a ∷ cs) n h = absurd (omega arith)
all-IsHex (suc k) [] n h = absurd (omega arith)
all-IsHex (suc k) (a ∷ []) n h = absurd (omega arith)
all-IsHex (suc k) (a ∷ b ∷ cs) n h =
    let (p, q) = and-true (is_hex_digit a) _ h in
    let (q, r) = and-true (is_hex_digit b) _ q in (p, q, all-IsHex k cs (omega arith) r)

pub is_hex64-IsHex : (s : String) → is_hex64 s ≡ true → IsHex 32 (codes s)
unfolding is_hex64
is_hex64-IsHex s h =
    let (n, a) = and-true (length (codes s) == 64) _ h in all-IsHex 32 (codes s) (==→eq _ _ n) a

length-hex_bytes : (k : ℕ) (cs : List ℕ) → IsHex k cs → length (hex_bytes cs) ≡ k
unfolding hex_bytes
length-hex_bytes zero [] h = refl
length-hex_bytes zero (a ∷ cs) h = cc
length-hex_bytes (suc k) [] h = absurd h
length-hex_bytes (suc k) (a ∷ []) h = absurd h
length-hex_bytes (suc k) (a ∷ b ∷ cs) (p, q, h) = ground (arith, length-hex_bytes k cs h)

pub hex_value-lt : (c : ℕ) → is_hex_digit c ≡ true → hex_value c < 16
unfolding is_hex_digit hex_value
hex_value-lt c h = ground arith

hex_value_injective :
    (c d : ℕ)
    → is_hex_digit c ≡ true
    → is_hex_digit d ≡ true
    → hex_value c ≡ hex_value d
    → lower_code c ≡ lower_code d
unfolding is_hex_digit hex_value
hex_value_injective c d p q e = ground arith

hex_pair_injective :
    (a b c d : ℕ) (ms ns : List ℕ)
    → is_hex_digit a ≡ true
    → is_hex_digit b ≡ true
    → is_hex_digit c ≡ true
    → is_hex_digit d ≡ true
    → (hex_value a * 16 + hex_value b) ∷ ms ≡ (hex_value c * 16 + hex_value d) ∷ ns
    → (lower_code a ≡ lower_code c) × (lower_code b ≡ lower_code d) × (ms ≡ ns)
hex_pair_injective a b c d ms ns pa pb pc pd e =
    let sums : hex_value a * 16 + hex_value b ≡ hex_value c * 16 + hex_value d = cc in
    let low_b = hex_value-lt b pb in
    let low_d = hex_value-lt d pd in
    let high : hex_value a ≡ hex_value c = omega arith in
    let low : hex_value b ≡ hex_value d = omega arith in
    (hex_value_injective a c pa pc high, hex_value_injective b d pb pd low, cc)

hex_bytes-cons :
    (a b : ℕ) (cs : List ℕ)
    → is_hex_digit a ≡ true
    → is_hex_digit b ≡ true
    → hex_bytes (a ∷ b ∷ cs) ≡ (hex_value a * 16 + hex_value b) ∷ hex_bytes cs
unfolding hex_bytes
hex_bytes-cons a b cs p q = ground arith

hex_bytes_injective :
    (k : ℕ) (cs ds : List ℕ)
    → IsHex k cs
    → IsHex k ds
    → hex_bytes cs ≡ hex_bytes ds
    → map lower_code cs ≡ map lower_code ds
hex_bytes_injective zero cs ds h h' e = rw (h, h')
hex_bytes_injective (suc k) (a ∷ b ∷ cs) (c ∷ d ∷ ds) (pa, pb, h) (pc, pd, h') e =
    let same = sym (hex_bytes-cons a b cs pa pb) ∙ e ∙ hex_bytes-cons c d ds pc pd in
    let (first, second, rest) = hex_pair_injective a b c d _ _ pa pb pc pd same in
    let later = hex_bytes_injective k cs ds h h' rest in cc
hex_bytes_injective (suc k) [] _ h h' e = absurd h
hex_bytes_injective (suc k) (a ∷ []) _ h h' e = absurd h
hex_bytes_injective (suc k) _ [] h h' e = absurd h'
hex_bytes_injective (suc k) _ (c ∷ []) h h' e = absurd h'

pub length-from_hex : (s : String) → is_hex64 s ≡ true → length (from_hex s) ≡ 32
unfolding from_hex
length-from_hex s h = length-hex_bytes 32 (codes s) (is_hex64-IsHex s h)

-- Keys with the same bytes are the same key up to the case of their letters.
pub from_hex_injective :
    (s t : String)
    → is_hex64 s ≡ true
    → is_hex64 t ≡ true
    → from_hex s ≡ from_hex t
    → lower_case s ≡ lower_case t
unfolding from_hex lower_case
from_hex_injective s t p q e =
    hex_bytes_injective 32 (codes s) (codes t) (is_hex64-IsHex s p) (is_hex64-IsHex t q) e
