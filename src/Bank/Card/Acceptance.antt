-- ===== src/Bank/Card/Acceptance.antt =====
-- Which limits a card is issued with.
use eto_mcp.Prelude.{arith, true, or_default, ◌≤◌, ◌≡◌}
use eto_mcp.Prelude.Text.{lower_case}
use eto_mcp.Prelude.Number.{nat}
use eto_mcp.Prelude.Result.{ok}
use eto_mcp.Bank.Auth.{AuthenticatedRequest}
use eto_mcp.Bank.Auth.Matching.{assert_caller_equals_iff}
use eto_mcp.Bank.Card.{IssueCardRequest, Limits, validate, is_jurisdiction}

-- An accepted card has a limit per transaction within its limit per day, both as requested or by
-- default, and a jurisdiction of two small letters; the caller is the subject but for case.
pub validate_limits :
    (req : AuthenticatedRequest IssueCardRequest) (limits : Limits)
    → validate req ≡ ok limits
    → (limits.per_tx ≤ limits.per_day)
      × (or_default req.body.spending_limit_per_tx_atomic (nat 500000000) ≡ nat limits.per_tx)
      × (or_default req.body.spending_limit_per_day_atomic (nat 5000000000) ≡ nat limits.per_day)
      × (is_jurisdiction limits.jurisdiction ≡ true)
      × (lower_case req.caller_pubkey ≡ lower_case req.body.subject)
unfolding validate
validate_limits req limits h =
    let tx = or_default req.body.spending_limit_per_tx_atomic (nat 500000000) in
    let day = or_default req.body.spending_limit_per_day_atomic (nat 5000000000) in
    let (matches, _) = assert_caller_equals_iff req.caller_pubkey req.body.subject in
    ground (arith, matches)
