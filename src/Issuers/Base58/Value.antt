-- ===== src/Issuers/Base58/Value.antt =====
-- The number that a base 58 text and its bytes stand for.
use eto_mcp.Prelude.{
  ℕ, zero, suc, ◌+◌, ◌*◌, ◌/◌, ◌<◌, ◌≤◌, ◌≡◌, refl, some, Option-cases, inl, inr, List, [], ◌∷◌,
  ◌++◌, String, ltb, ◌==◌, arith, All, All-append, or_default, Bool-cases, sym,
}
use eto_mcp.Prelude.Text.{codes}
use eto_mcp.Issuers.Base58.{
  base58_lookup, push_carry, add_digit, add_digits, leading, reversed, base58_decode,
}

-- Of the digits, with what stands in front of them.
abbrev pub digits_value : ℕ → List ℕ → ℕ
digits_value acc [] = acc
digits_value acc (c ∷ cs) = digits_value (acc * 58 + or_default (base58_lookup c) 0) cs

-- Of big endian bytes.
abbrev pub bytes_value : ℕ → List ℕ → ℕ
bytes_value acc [] = acc
bytes_value acc (b ∷ bytes) = bytes_value (acc * 256 + b) bytes

-- Of little endian bytes.
abbrev pub low_value : List ℕ → ℕ
low_value [] = 0
low_value (b ∷ bytes) = b + 256 * low_value bytes

abbrev pub IsByte : ℕ → Type 0
IsByte b = b < 256

pub low_value-push_carry :
    (fuel carry : ℕ) → carry ≤ fuel → low_value (push_carry fuel carry) ≡ carry
low_value-push_carry zero carry h = omega arith
low_value-push_carry (suc fuel) carry h = elim (Bool-cases (ltb 0 carry)) [
  | inl e ↦
      let smaller : carry / 256 ≤ fuel = ground arith in
      rw (e, low_value-push_carry fuel (carry / 256) smaller) (omega arith)
  | inr e ↦ rw e (ground arith)
]

pub low_value-add_digit :
    (carry : ℕ) (bytes : List ℕ) → low_value (add_digit carry bytes) ≡ low_value bytes * 58 + carry
unfolding add_digit
low_value-add_digit carry [] = rw (low_value-push_carry carry carry (omega arith)) (omega arith)
low_value-add_digit carry (b ∷ bytes) =
    rw (low_value-add_digit ((carry + b * 58) / 256) bytes) (omega arith)

pub low_value-add_digits :
    (cs bytes out : List ℕ)
    → add_digits cs bytes ≡ some out
    → low_value out ≡ digits_value (low_value bytes) cs
unfolding add_digits
low_value-add_digits [] bytes out e = ground arith
low_value-add_digits (c ∷ cs) bytes out e = elim (Option-cases (base58_lookup c)) [
  | inl q ↦ let bad = rw (q, add_digits) at e in cc
  | inr (v, q) ↦
      rw (q, sym (low_value-add_digit v bytes))
        (low_value-add_digits cs (add_digit v bytes) out (rw (q, add_digits) at e))
]

bytes_value-append :
    (xs ys : List ℕ) (acc : ℕ) → bytes_value acc (xs ++ ys) ≡ bytes_value (bytes_value acc xs) ys
bytes_value-append [] ys acc = refl
bytes_value-append (x ∷ xs) ys acc = bytes_value-append xs ys (acc * 256 + x)

bytes_value-reversed : (bytes : List ℕ) → bytes_value 0 (reversed bytes) ≡ low_value bytes
bytes_value-reversed [] = refl
bytes_value-reversed (b ∷ bytes) =
    rw (bytes_value-append (reversed bytes) (b ∷ []) 0, bytes_value-reversed bytes) (omega arith)

-- The leading digits 1 are zeros, on both sides.
pub leading_value :
    (cs : List ℕ)
    → (bytes_value 0 (leading cs).0 ≡ 0) × (digits_value 0 cs ≡ digits_value 0 (leading cs).1)
unfolding base58_lookup
leading_value [] = (refl, refl)
leading_value (c ∷ cs) = elim (Bool-cases (c == b'1')) [
  | inl e ↦ let one : c ≡ b'1' = ground arith in rw one (leading_value cs)
  | inr e ↦ rw e (refl, refl)
]

push_carry-All : (fuel carry : ℕ) → All IsByte (push_carry fuel carry)
push_carry-All zero carry = tt
push_carry-All (suc fuel) carry = elim (Bool-cases (ltb 0 carry)) [
  | inl e ↦ rw e (omega arith, push_carry-All fuel (carry / 256))
  | inr e ↦ rw e tt
]

add_digit-All : (carry : ℕ) (bytes : List ℕ) → All IsByte (add_digit carry bytes)
unfolding add_digit
add_digit-All carry [] = push_carry-All carry carry
add_digit-All carry (b ∷ bytes) = (omega arith, add_digit-All ((carry + b * 58) / 256) bytes)

add_digits-All :
    (cs bytes out : List ℕ) → All IsByte bytes → add_digits cs bytes ≡ some out → All IsByte out
unfolding add_digits
add_digits-All [] bytes out h e = ground (arith, h)
add_digits-All (c ∷ cs) bytes out h e = elim (Option-cases (base58_lookup c)) [
  | inl q ↦ let bad = rw (q, add_digits) at e in cc
  | inr (v, q) ↦
      add_digits-All cs (add_digit v bytes) out (add_digit-All v bytes) (rw (q, add_digits) at e)
]

reversed-All : (bytes : List ℕ) → All IsByte bytes → All IsByte (reversed bytes)
reversed-All [] h = tt
reversed-All (b ∷ bytes) (p, h) =
    All-append IsByte (reversed bytes) (b ∷ []) (reversed-All bytes h) (p, tt)

leading-All : (cs : List ℕ) → All IsByte (leading cs).0
leading-All [] = tt
leading-All (c ∷ cs) = elim (Bool-cases (c == b'1')) [
  | inl e ↦ rw e (omega arith, leading-All cs)
  | inr e ↦ rw e tt
]

-- A text that decodes gives bytes, and they stand for the same number in base 256 as its digits do
-- in base 58.
pub base58_decode_value :
    (s : String) (out : List ℕ)
    → base58_decode s ≡ some out
    → All IsByte out × (bytes_value 0 out ≡ digits_value 0 (codes s))
unfolding base58_decode
base58_decode_value s out e = elim (Option-cases (add_digits (leading (codes s)).1 [])) [
  | inl q ↦ let bad = rw (q, base58_decode) at e in cc
  | inr (bytes, q) ↦
      let zeros = (leading (codes s)).0 in
      let same : some (zeros ++ reversed bytes) ≡ some out = rw (q, base58_decode) at e in
      let whole : out ≡ zeros ++ reversed bytes = ground (arith, same) in
      let none_lost = leading_value (codes s) in
      rw whole (
        All-append IsByte zeros (reversed bytes) (leading-All (codes s))
            (reversed-All bytes (add_digits-All (leading (codes s)).1 [] bytes tt q)),
        rw
            (
              bytes_value-append zeros (reversed bytes) 0,
              none_lost.0,
              bytes_value-reversed bytes,
              none_lost.1,
            )
            (low_value-add_digits (leading (codes s)).1 [] bytes q),
      )
]
