-- ===== src/Bank/Auth/Matching.antt =====
-- When a caller is let through.
use eto_mcp.Prelude.{refl, ◌∷◌, [], arith, ap, length, ◌≢◌, ◌↔◌, true, ◌≡◌, ℕ, some, List, String}
use eto_mcp.Prelude.Text.{str_eq_iff, lower_case}
use eto_mcp.Bank.Auth.{assert_caller_equals, same_codes}

same_codes_iff : (cs ds : List ℕ) → (same_codes cs ds ≡ true) ↔ (cs ≡ ds)
unfolding same_codes
same_codes_iff [] [] = (λ h. refl, λ h. refl)
same_codes_iff [] (b ∷ ds) = (λ h. cc, λ h. cc)
same_codes_iff (a ∷ cs) [] = (λ h. cc, λ h. cc)
same_codes_iff (a ∷ cs) (b ∷ ds) =
    let (to, from) = same_codes_iff cs ds in (λ h. ground (arith, to), λ h. ground (arith, from))

-- A caller is let through exactly when neither text is empty and they are the same up to the case
-- of their letters.
pub assert_caller_equals_iff :
    (caller expected : String)
    → (assert_caller_equals (some caller) expected ≡ true)
      ↔ ((caller ≢ "") × (expected ≢ "") × (lower_case caller ≡ lower_case expected))
unfolding assert_caller_equals
assert_caller_equals_iff caller expected =
    let (to, from) = same_codes_iff (lower_case caller) (lower_case expected) in
    let same_length : (lower_case caller ≡ lower_case expected)
        → length (lower_case caller) ≡ length (lower_case expected) =
      λ e. ap length e in
    (
      λ h. ground (arith, str_eq_iff caller "", str_eq_iff expected "", to),
      λ h. ground (arith, str_eq_iff caller "", str_eq_iff expected "", from, same_length),
    )
