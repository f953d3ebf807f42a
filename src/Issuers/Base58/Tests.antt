-- ===== src/Issuers/Base58/Tests.antt =====
-- Texts in base 58, and their theorem at a concrete one.
use eto_mcp.Prelude.{ℕ, ◌≡◌, refl, some, none, List, [], ◌∷◌}
use eto_mcp.Prelude.Text.{codes}
use eto_mcp.Issuers.Base58.{base58_decode, base58_lookup, add_digits, add_digit}
use eto_mcp.Issuers.Base58.Injectivity.{base58_decode_injective}

abbrev hello : List ℕ
hello = 0 ∷ 0x68 ∷ 0x65 ∷ 0x6c ∷ 0x6c ∷ 0x6f ∷ []

decoded : base58_decode "1Cn8eVZg" ≡ some hello
unfolding base58_decode add_digits add_digit base58_lookup
decoded = refl

refused : base58_decode "1Cn0" ≡ none
unfolding base58_decode add_digits add_digit base58_lookup
refused = refl

base58_decode_injective_example : codes "1Cn8eVZg" ≡ codes "1Cn8eVZg"
base58_decode_injective_example =
    base58_decode_injective "1Cn8eVZg" "1Cn8eVZg" hello decoded decoded
