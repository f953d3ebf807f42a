-- ===== src/Bank/Auth/Tests.antt =====
-- The comparison of callers at concrete inputs.
use eto_mcp.Prelude.{refl, true, ◌≡◌, some}
use eto_mcp.Bank.Auth.{assert_caller_equals}

folds_case : assert_caller_equals (some "aB") "Ab" ≡ true
unfolding assert_caller_equals
folds_case = refl
