-- ===== src/Bank/Digest/Bytes.antt =====
-- Bytes that are joined can be taken apart again where the parts have known lengths.
use eto_mcp.Prelude.{
  ◌%◌, refl, ◌/◌, length-append, ◌∷◌, arith, zero, [], ◌^◌, ◌≡◌, ◌*◌, suc, ◌<◌, ◌++◌, length, ℕ,
  List,
}
use eto_mcp.Bank.Digest.{be_bytes, u64_be}

module _ {ℓ} {A : Type ℓ} where
  pub append-cancel_left : (xs : List A) {ys zs : List A} → xs ++ ys ≡ xs ++ zs → ys ≡ zs
  append-cancel_left [] e = e
  append-cancel_left (x ∷ xs) e = append-cancel_left xs (cc)

  -- Two joins are equal only part by part, if the first parts have one length.
  pub append-cancel :
      (xs ys : List A) {vs ws : List A}
      → length xs ≡ length ys
      → xs ++ vs ≡ ys ++ ws
      → (xs ≡ ys) × (vs ≡ ws)
  append-cancel [] [] n e = (refl, e)
  append-cancel [] (y ∷ ys) n e = absurd (omega arith)
  append-cancel (x ∷ xs) [] n e = absurd (omega arith)
  append-cancel (x ∷ xs) (y ∷ ys) n e =
      let (p, q) = append-cancel xs ys (omega arith) (cc) in (cc, q)

pub length-be_bytes : (k n : ℕ) → length (be_bytes k n) ≡ k
unfolding be_bytes
length-be_bytes zero n = refl
length-be_bytes (suc k) n =
    omega
      (arith, length-append (be_bytes k (n / 256)) ((n % 256) ∷ []), length-be_bytes k (n / 256))

-- 256 ^ k
abbrev pub bytes_bound : ℕ → ℕ
bytes_bound zero = 1
bytes_bound (suc k) = 256 * bytes_bound k

be_bytes_injective :
    (k n m : ℕ) → n < bytes_bound k → m < bytes_bound k → be_bytes k n ≡ be_bytes k m → n ≡ m
unfolding be_bytes
be_bytes_injective zero n m p q e = omega arith
be_bytes_injective (suc k) n m p q e =
    let same : length (be_bytes k (n / 256)) ≡ length (be_bytes k (m / 256)) =
      omega (arith, length-be_bytes k (n / 256), length-be_bytes k (m / 256)) in
    let (high, low) = append-cancel (be_bytes k (n / 256)) (be_bytes k (m / 256)) same e in
    let quotients = be_bytes_injective k (n / 256) (m / 256) (omega arith) (omega arith) high in
    let remainders : n % 256 ≡ m % 256 = cc in omega arith

pub u64_be_injective : (n m : ℕ) → n < 2 ^ 64 → m < 2 ^ 64 → u64_be n ≡ u64_be m → n ≡ m
unfolding u64_be
u64_be_injective n m p q e = be_bytes_injective 8 n m p q e

pub length-u64_be : (n : ℕ) → length (u64_be n) ≡ 8
unfolding u64_be
length-u64_be n = length-be_bytes 8 n
