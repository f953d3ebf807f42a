-- ===== src/Issuers/Base58/Digits.antt =====
-- Digits in base 58 and the numbers they stand for determine one another.
use eto_mcp.Issuers.Base58.{add_digit, base58_lookup, index_in, base58_alphabet, add_digits}
use eto_mcp.Prelude.{
  sym, ℕ, zero, suc, ◌+◌, ◌*◌, ◌<◌, ◌≡◌, refl, some, Option-cases, inl, inr, List, [], ◌∷◌, arith,
  All, or_default, length, ◌⊎◌,
}
use eto_mcp.Prelude.Text.{codes}
use eto_mcp.Issuers.Base58.Value.{digits_value}

index_in_injective :
    (letters : List ℕ) (c d v : ℕ)
    → index_in letters c ≡ some v
    → index_in letters d ≡ some v
    → c ≡ d
index_in_injective [] c d v e e' = cc
index_in_injective (a ∷ letters) c d zero e e' = ground arith
index_in_injective (a ∷ letters) c d (suc v) e e' = ground (arith, index_in_injective letters c d v)

index_in-lt : (letters : List ℕ) (c v : ℕ) → index_in letters c ≡ some v → v < length letters
index_in-lt [] c v e = cc
index_in-lt (a ∷ letters) c zero e = omega arith
index_in-lt (a ∷ letters) c (suc v) e = ground (arith, index_in-lt letters c v)

abbrev pub IsDigit : ℕ → Type 0
IsDigit c = (v : ℕ) × (base58_lookup c ≡ some v)

digit-lt : (c v : ℕ) → base58_lookup c ≡ some v → v < 58
unfolding base58_lookup
digit-lt c v e = index_in-lt (codes base58_alphabet) c v e

pub digit_injective : (c d v : ℕ) → base58_lookup c ≡ some v → base58_lookup d ≡ some v → c ≡ d
unfolding base58_lookup
digit_injective c d v e e' = index_in_injective (codes base58_alphabet) c d v e e'

pub add_digits-IsDigit : (cs bytes out : List ℕ) → add_digits cs bytes ≡ some out → All IsDigit cs
unfolding add_digits
add_digits-IsDigit [] bytes out e = tt
add_digits-IsDigit (c ∷ cs) bytes out e = elim (Option-cases (base58_lookup c)) [
  | inl q ↦ let bad = rw (q, add_digits) at e in cc
  | inr (v, q) ↦ ((v, q), add_digits-IsDigit cs (add_digit v bytes) out (rw (q, add_digits) at e))
]

same_length_unique :
    (a b : ℕ) (cs ds : List ℕ)
    → All IsDigit cs
    → All IsDigit ds
    → length cs ≡ length ds
    → digits_value a cs ≡ digits_value b ds
    → (a ≡ b) × (cs ≡ ds)
same_length_unique a b [] [] h k l e = (e, refl)
same_length_unique a b [] (d ∷ ds) h k l e = ground arith
same_length_unique a b (c ∷ cs) [] h k l e = ground arith
same_length_unique a b (c ∷ cs) (d ∷ ds) ((v, p), h) ((w, q), k) l e =
    let (top, rest) =
      same_length_unique (a * 58 + v) (b * 58 + w) cs ds h k (omega arith) (rw (p, q) at e) in
    let v_lt = digit-lt c v p in
    let w_lt = digit-lt d w q in
    let same_digit : v ≡ w = omega arith in
    let same_code : c ≡ d = digit_injective c d w (rw same_digit at p) q in
    (omega arith, λ i. same_code i ∷ rest i)

no_longer :
    (n a : ℕ) (cs ds : List ℕ)
    → All IsDigit cs
    → All IsDigit ds
    → 0 < a
    → length cs ≡ n + length ds
    → digits_value a cs ≡ digits_value 0 ds
    → ⊥
no_longer zero a cs ds h k pos l e =
    let (top, rest) = same_length_unique a 0 cs ds h k (omega arith) e in omega arith
no_longer (suc n) a [] ds h k pos l e = omega arith
no_longer (suc n) a (c ∷ cs) ds ((v, p), h) k pos l e =
    no_longer n (a * 58 + v) cs ds h k (omega arith) (omega arith) (rw p at e)

-- The first digit is not zero.
abbrev pub IsTight : List ℕ → Type 0
IsTight [] = Unit
IsTight (c ∷ cs) = 0 < or_default (base58_lookup c) 0

compare_lengths :
    (cs ds : List ℕ)
    → (length cs ≡ length ds)
      ⊎ (((n : ℕ) × (length cs ≡ n + suc (length ds)))
          ⊎ ((n : ℕ) × (length ds ≡ n + suc (length cs))))
compare_lengths [] [] = inl refl
compare_lengths [] (d ∷ ds) = inr (inr (length ds, omega arith))
compare_lengths (c ∷ cs) [] = inr (inl (length cs, omega arith))
compare_lengths (c ∷ cs) (d ∷ ds) = elim (compare_lengths cs ds) [
  | inl l ↦ inl (omega (arith, l))
  | inr (inl (n, l)) ↦ inr (inl (n, omega (arith, l)))
  | inr (inr (n, l)) ↦ inr (inr (n, omega (arith, l)))
]

abbrev first : ℕ → ℕ
first c = 0 * 58 + or_default (base58_lookup c) 0

pub digits_value_injective :
    (cs ds : List ℕ)
    → All IsDigit cs
    → All IsDigit ds
    → IsTight cs
    → IsTight ds
    → digits_value 0 cs ≡ digits_value 0 ds
    → cs ≡ ds
digits_value_injective [] [] h k t u e = refl
digits_value_injective [] (d ∷ ds) h (p, k) t u e =
    absurd (no_longer (length ds) (first d) ds [] k tt (omega (arith, u)) (omega arith) (sym e))
digits_value_injective (c ∷ cs) [] (p, h) k t u e =
    absurd (no_longer (length cs) (first c) cs [] h tt (omega (arith, t)) (omega arith) e)
digits_value_injective (c ∷ cs) (d ∷ ds) (p, h) (q, k) t u e = elim (compare_lengths cs ds) [
  | inl l ↦ (same_length_unique 0 0 (c ∷ cs) (d ∷ ds) (p, h) (q, k) (omega arith) e).1
  | inr (inl (n, l)) ↦
      absurd (no_longer n (first c) cs (d ∷ ds) h (q, k) (omega (arith, t)) (omega arith) e)
  | inr (inr (n, l)) ↦
      absurd (no_longer n (first d) ds (c ∷ cs) k (p, h) (omega (arith, u)) (omega arith) (sym e))
]
