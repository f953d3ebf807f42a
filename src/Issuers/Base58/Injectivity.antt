-- ===== src/Issuers/Base58/Injectivity.antt =====
-- Two texts in base 58 with the same bytes are the same.
use eto_mcp.Prelude.{
  subst, ℕ, zero, suc, ◌+◌, ◌*◌, ◌/◌, ◌%◌, ◌<◌, ◌≤◌, ◌≡◌, refl, some, Option-cases, inl, inr, List,
  [], ◌∷◌, ◌++◌, String, if◌then◌else◌, ltb, ◌==◌, arith, All, or_default, Bool-cases, sym, ap,
  length, false, ◌∙◌,
}
use eto_mcp.Prelude.Text.{codes}
use eto_mcp.Issuers.Base58.{
  base58_lookup, push_carry, add_digit, add_digits, leading, reversed, base58_decode,
}
use eto_mcp.Issuers.Base58.Value.{
  leading_value, low_value, low_value-push_carry, low_value-add_digit, digits_value, bytes_value,
  base58_decode_value,
}
use eto_mcp.Issuers.Base58.Digits.{
  digit_injective, IsDigit, IsTight, add_digits-IsDigit, digits_value_injective,
}

-- The highest byte of little endian bytes is not zero.
abbrev IsTrimmed : List ℕ → Type 0
IsTrimmed [] = Unit
IsTrimmed (b ∷ []) = 0 < b
IsTrimmed (b ∷ c ∷ bytes) = IsTrimmed (c ∷ bytes)

-- How many zeros bytes begin with.
abbrev zeros_of : List ℕ → ℕ
zeros_of [] = 0
zeros_of (b ∷ bytes) = let rest = zeros_of bytes in if b == 0 then suc rest else 0

IsTrimmed-cons :
    (b : ℕ) (bytes : List ℕ)
    → IsTrimmed bytes
    → (low_value bytes ≡ 0 → 0 < b)
    → IsTrimmed (b ∷ bytes)
IsTrimmed-cons b [] h p = p refl
IsTrimmed-cons b (c ∷ bytes) h p = h

IsTrimmed-tail : (b : ℕ) (bytes : List ℕ) → IsTrimmed (b ∷ bytes) → IsTrimmed bytes
IsTrimmed-tail b [] h = tt
IsTrimmed-tail b (c ∷ bytes) h = h

low_value-lt : (b : ℕ) (bytes : List ℕ) → IsTrimmed (b ∷ bytes) → 0 < low_value (b ∷ bytes)
low_value-lt b [] h = omega (arith, h)
low_value-lt b (c ∷ bytes) h = omega (arith, low_value-lt c bytes h)

push_carry-IsTrimmed : (fuel carry : ℕ) → carry ≤ fuel → IsTrimmed (push_carry fuel carry)
push_carry-IsTrimmed zero carry h = tt
push_carry-IsTrimmed (suc fuel) carry h = elim (Bool-cases (ltb 0 carry)) [
  | inl e ↦
      let smaller : carry / 256 ≤ fuel = ground arith in
      let value = low_value-push_carry fuel (carry / 256) smaller in
      let positive : 0 < carry = ground arith in
      rw e (
        IsTrimmed-cons (carry % 256) (push_carry fuel (carry / 256))
          (push_carry-IsTrimmed fuel (carry / 256) smaller) (λ q. omega arith))
  | inr e ↦ rw e tt
]

add_digit-IsTrimmed :
    (carry : ℕ) (bytes : List ℕ) → IsTrimmed bytes → IsTrimmed (add_digit carry bytes)
unfolding add_digit
add_digit-IsTrimmed carry [] h = push_carry-IsTrimmed carry carry (omega arith)
add_digit-IsTrimmed carry (b ∷ bytes) h =
    let sum = carry + b * 58 in
    let value = low_value-add_digit (sum / 256) bytes in
    let positive = low_value-lt b bytes h in
    IsTrimmed-cons (sum % 256) (add_digit (sum / 256) bytes)
      (add_digit-IsTrimmed (sum / 256) bytes (IsTrimmed-tail b bytes h)) (λ q. omega arith)

add_digits-IsTrimmed :
    (cs bytes out : List ℕ) → IsTrimmed bytes → add_digits cs bytes ≡ some out → IsTrimmed out
unfolding add_digits
add_digits-IsTrimmed [] bytes out h e =
    let same : bytes ≡ out = ground (arith, e) in subst IsTrimmed same h
add_digits-IsTrimmed (c ∷ cs) bytes out h e = elim (Option-cases (base58_lookup c)) [
  | inl q ↦ let bad = rw (q, add_digits) at e in cc
  | inr (v, q) ↦
      add_digits-IsTrimmed cs (add_digit v bytes) out (add_digit-IsTrimmed v bytes h)
        (rw (q, add_digits) at e)
]

-- Bytes that begin with no zero.
abbrev IsHeaded : List ℕ → Type 0
IsHeaded [] = Unit
IsHeaded (b ∷ bytes) = 0 < b

IsHeaded-append :
    (xs : List ℕ) (c b : ℕ) → IsHeaded (xs ++ c ∷ []) → IsHeaded ((xs ++ c ∷ []) ++ b ∷ [])
IsHeaded-append [] c b h = h
IsHeaded-append (x ∷ xs) c b h = h

reversed-IsHeaded : (bytes : List ℕ) → IsTrimmed bytes → IsHeaded (reversed bytes)
reversed-IsHeaded [] h = tt
reversed-IsHeaded (b ∷ []) h = h
reversed-IsHeaded (b ∷ c ∷ bytes) h =
    IsHeaded-append (reversed bytes) c b (reversed-IsHeaded (c ∷ bytes) h)

zeros_of-headed : (xs : List ℕ) → IsHeaded xs → zeros_of xs ≡ 0
zeros_of-headed [] h = refl
zeros_of-headed (b ∷ xs) h = ground arith

tight_digit :
    (c v : ℕ) → (c == b'1') ≡ false → base58_lookup c ≡ some v → 0 < or_default (base58_lookup c) 0
unfolding base58_lookup
tight_digit c zero e p =
    let one : c ≡ b'1' = digit_injective c b'1' 0 p refl in absurd (ground arith)
tight_digit c (suc v) e p = rw p (omega arith)

leading-IsTight : (cs : List ℕ) → All IsDigit (leading cs).1 → IsTight (leading cs).1
leading-IsTight [] h = tt
leading-IsTight (c ∷ cs) h = elim (Bool-cases (c == b'1')) [
  | inl e ↦ rw e (leading-IsTight cs (rw e at h))
  | inr e ↦
      let digits : All IsDigit (c ∷ cs) = rw e at h in rw e (tight_digit c digits.0.0 e digits.0.1)
]

zeros_of-append :
    (cs : List ℕ) (ys : List ℕ)
    → zeros_of ys ≡ 0
    → zeros_of ((leading cs).0 ++ ys) ≡ length (leading cs).0
zeros_of-append [] ys h = h
zeros_of-append (c ∷ cs) ys h = elim (Bool-cases (c == b'1')) [
  | inl e ↦ rw (e, zeros_of-append cs ys h) refl
  | inr e ↦ rw e h
]

-- The text from the number of its leading ones and the rest.
leading_determines :
    (cs ds : List ℕ)
    → length (leading cs).0 ≡ length (leading ds).0
    → (leading cs).1 ≡ (leading ds).1
    → cs ≡ ds
leading_determines [] [] l e = refl
leading_determines [] (d ∷ ds) l e = ground arith
leading_determines (c ∷ cs) [] l e = ground arith
leading_determines (c ∷ cs) (d ∷ ds) l e = ground (arith, leading_determines cs ds)

-- What a decoded text is made of.
record Decoded (cs out : List ℕ) : Type 0 where
  ones : length (leading cs).0 ≡ zeros_of out
  digits : All IsDigit (leading cs).1
  tight : IsTight (leading cs).1
  value : digits_value 0 (leading cs).1 ≡ bytes_value 0 out

base58_decode-Decoded :
    (s : String) (out : List ℕ) → base58_decode s ≡ some out → Decoded (codes s) out
unfolding base58_decode
base58_decode-Decoded s out e = elim (Option-cases (add_digits (leading (codes s)).1 [])) [
  | inl q ↦ let bad = rw (q, base58_decode) at e in cc
  | inr (bytes, q) ↦
      let (zeros, rest) = leading (codes s) in
      let same : some (zeros ++ reversed bytes) ≡ some out = rw (q, base58_decode) at e in
      let whole : zeros ++ reversed bytes ≡ out = ground (arith, same) in
      let headed = reversed-IsHeaded bytes (add_digits-IsTrimmed rest [] bytes tt q) in
      let count = zeros_of-append (codes s) (reversed bytes) (zeros_of-headed _ headed) in
      let digits = add_digits-IsDigit rest [] bytes q in
      record {
        ones = sym count ∙ ap zeros_of whole;
        digits = digits;
        tight = leading-IsTight (codes s) digits;
        value = sym (leading_value (codes s)).1 ∙ sym (base58_decode_value s out e).1;
      }
]

-- Two texts that decode to the same bytes have the same code points.
pub base58_decode_injective :
    (s t : String) (out : List ℕ)
    → base58_decode s ≡ some out
    → base58_decode t ≡ some out
    → codes s ≡ codes t
base58_decode_injective s t out e e' =
    let d = base58_decode-Decoded s out e in
    let d' = base58_decode-Decoded t out e' in
    leading_determines (codes s) (codes t) (d.ones ∙ sym d'.ones)
      (digits_value_injective _ _ d.digits d'.digits d.tight d'.tight (d.value ∙ sym d'.value))
