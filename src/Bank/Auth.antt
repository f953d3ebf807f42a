-- ===== src/Bank/Auth.antt =====
-- keeper/bpps/bank/auth.ts: the caller of a request is the subject that it acts on. Texts are
-- compared without regard to case as far as ASCII goes, which is all that a hexadecimal key has.
pub mod Matching
mod Tests
use eto_mcp.Prelude.{
  ◌∷◌, true, [], none, ◌==◌, length, ◌&&◌, ◌||◌, not, some, false, Bool, ℕ, List, Option, String,
}
use eto_mcp.Prelude.Text.{lower_case, is_empty}

-- `timingSafeEqual` on buffers of one length.
unfoldable pub same_codes : List ℕ → List ℕ → Bool
same_codes [] [] = true
same_codes (a ∷ cs) (b ∷ ds) = (a == b) && same_codes cs ds
same_codes _ _ = false

-- `assertCallerEquals`: false where it throws.
unfoldable pub assert_caller_equals : Option String → String → Bool
unfolding same_codes lower_case
assert_caller_equals none expected = false
assert_caller_equals (some caller) expected =
    not (is_empty caller || is_empty expected)
    && ((length (lower_case caller) == length (lower_case expected))
        && same_codes (lower_case caller) (lower_case expected))

-- `AuthenticatedRequest<T>`
pub record AuthenticatedRequest (T : Type 0) : Type 0 where
  pub caller_pubkey : String
  pub body : T
