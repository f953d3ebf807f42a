-- ===== src/Wasm/Rlp/Digits.antt =====
-- src/wasm/index.ts: the bytes of `bigintToBeBytes` are those of the number.
use eto_mcp.Prelude.{
  ℕ, zero, suc, ◌+◌, ◌*◌, ◌/◌, ◌%◌, ◌^◌, ◌<◌, ◌≤◌, ◌≡◌, refl, ◌∙◌, true, List, [], ◌∷◌, ◌++◌,
  length, length-append, All, All-append, ◌==◌, Bool-cases, inl, inr, arith,
}
use eto_mcp.Prelude.Text.{is_hex_digit, hex_value, hex_bytes}
use eto_mcp.Wasm.Rlp.{hex_digit, base16, even_digits, bigint_to_be_bytes}
use eto_mcp.Bank.Digest.Hex.{hex_value-lt}

abbrev pub IsHexDigit : ℕ → Type 0
IsHexDigit c = is_hex_digit c ≡ true

abbrev pub IsByte : ℕ → Type 0
IsByte b = b < 256

-- The number that bytes stand for, and the one that hexadecimal digits stand for, behind others.
unfoldable pub be_value : ℕ → List ℕ → ℕ
be_value acc [] = acc
be_value acc (b ∷ bytes) = be_value (acc * 256 + b) bytes

hex_number : ℕ → List ℕ → ℕ
hex_number acc [] = acc
hex_number acc (c ∷ cs) = hex_number (acc * 16 + hex_value c) cs

hex_number-append :
    (acc c : ℕ) (cs : List ℕ) → hex_number acc (cs ++ c ∷ []) ≡ hex_number acc cs * 16 + hex_value c
unfolding hex_number
hex_number-append acc c [] = refl
hex_number-append acc c (d ∷ cs) = hex_number-append (acc * 16 + hex_value d) c cs

hex_digit-value : (v : ℕ) → v < 16 → hex_value (hex_digit v) ≡ v
unfolding hex_value
hex_digit-value v h = ground arith

hex_digit-IsHexDigit : (v : ℕ) → v < 16 → IsHexDigit (hex_digit v)
unfolding is_hex_digit
hex_digit-IsHexDigit v h = ground arith

base16-number : (fuel n : ℕ) → n ≤ fuel → hex_number 0 (base16 fuel n) ≡ n
unfolding base16 hex_number
base16-number zero n h = omega arith
base16-number (suc fuel) n h = ground (
  arith,
  hex_number-append 0 (hex_digit (n % 16)) (base16 fuel (n / 16)),
  hex_digit-value (n % 16) (omega arith),
  base16-number fuel (n / 16),
)

base16-IsHexDigit : (fuel n : ℕ) → All IsHexDigit (base16 fuel n)
unfolding base16
base16-IsHexDigit zero n = tt
base16-IsHexDigit (suc fuel) n = elim (Bool-cases (n == 0)) [
  | inl z ↦ rw z tt
  | inr z ↦ rw z (
      All-append IsHexDigit (base16 fuel (n / 16)) _ (base16-IsHexDigit fuel (n / 16))
        (hex_digit-IsHexDigit (n % 16) (omega arith), tt))
]

abbrev digits_bound : ℕ → ℕ
digits_bound zero = 1
digits_bound (suc k) = 16 * digits_bound k

length-base16 : (k fuel n : ℕ) → n < digits_bound k → length (base16 fuel n) ≤ k
unfolding base16
length-base16 k zero n h = omega arith
length-base16 zero (suc fuel) n h = ground arith
length-base16 (suc k) (suc fuel) n h = ground (
  arith,
  length-append (base16 fuel (n / 16)) (hex_digit (n % 16) ∷ []),
  length-base16 k fuel (n / 16) (omega arith),
)

-- Pairs of digits are bytes.
hex_bytes-value :
    (acc : ℕ) (cs : List ℕ)
    → All IsHexDigit cs
    → length cs % 2 ≡ 0
    → be_value acc (hex_bytes cs) ≡ hex_number acc cs
unfolding be_value hex_number hex_bytes
hex_bytes-value acc [] h e = refl
hex_bytes-value acc (a ∷ []) h e = absurd (omega arith)
hex_bytes-value acc (a ∷ b ∷ cs) (p, (q, h)) e =
    let shifted : acc * 256 + (hex_value a * 16 + hex_value b)
        ≡ (acc * 16 + hex_value a) * 16 + hex_value b =
      omega arith in
    rw (p, q, shifted)
      (hex_bytes-value ((acc * 16 + hex_value a) * 16 + hex_value b) cs h (omega arith))

hex_bytes-IsByte : (cs : List ℕ) → All IsHexDigit cs → All IsByte (hex_bytes cs)
unfolding hex_bytes
hex_bytes-IsByte [] h = tt
hex_bytes-IsByte (a ∷ []) h = tt
hex_bytes-IsByte (a ∷ b ∷ cs) (p, (q, h)) =
    let high = hex_value-lt a p in
    let low = hex_value-lt b q in rw (p, q) (omega arith, hex_bytes-IsByte cs h)

length-hex_bytes : (cs : List ℕ) → All IsHexDigit cs → length (hex_bytes cs) ≡ length cs / 2
unfolding hex_bytes
length-hex_bytes [] h = omega arith
length-hex_bytes (a ∷ []) h = omega arith
length-hex_bytes (a ∷ b ∷ cs) (p, (q, h)) = rw (p, q) (omega (arith, length-hex_bytes cs h))

even_digits-IsHexDigit : (cs : List ℕ) → All IsHexDigit cs → All IsHexDigit (even_digits cs)
unfolding is_hex_digit
even_digits-IsHexDigit cs h = elim (Bool-cases (length cs % 2 == 0)) [
  | inl z ↦ rw z h
  | inr z ↦ rw z (refl, h)
]

even_digits-even : (cs : List ℕ) → length (even_digits cs) % 2 ≡ 0
even_digits-even cs = ground arith

even_digits-number : (cs : List ℕ) → hex_number 0 (even_digits cs) ≡ hex_number 0 cs
unfolding hex_number hex_value
even_digits-number cs = elim (Bool-cases (length cs % 2 == 0)) [
  | inl z ↦ rw z refl
  | inr z ↦ rw z refl
]

-- `bigintToBeBytes` gives the number back.
pub be_value-bigint_to_be_bytes : (n : ℕ) → be_value 0 (bigint_to_be_bytes n) ≡ n
unfolding bigint_to_be_bytes
be_value-bigint_to_be_bytes n = elim (Bool-cases (n == 0)) [
  | inl z ↦ rw z (unfold be_value in ground arith)
  | inr z ↦ rw z (
      hex_bytes-value 0 (even_digits (base16 n n))
        (even_digits-IsHexDigit _ (base16-IsHexDigit n n)) (even_digits-even (base16 n n))
      ∙ even_digits-number (base16 n n)
      ∙ base16-number n n (omega arith))
]

pub bigint_to_be_bytes-IsByte : (n : ℕ) → All IsByte (bigint_to_be_bytes n)
unfolding bigint_to_be_bytes
bigint_to_be_bytes-IsByte n = elim (Bool-cases (n == 0)) [
  | inl z ↦ rw z tt
  | inr z ↦ rw z (hex_bytes-IsByte _ (even_digits-IsHexDigit _ (base16-IsHexDigit n n)))
]

pub length-bigint_to_be_bytes : (n : ℕ) → n < 2 ^ 64 → length (bigint_to_be_bytes n) ≤ 8
unfolding bigint_to_be_bytes
length-bigint_to_be_bytes n h = ground (
  arith,
  length-base16 16 n n (omega arith),
  length-hex_bytes (even_digits (base16 n n)) (even_digits-IsHexDigit _ (base16-IsHexDigit n n)),
)
