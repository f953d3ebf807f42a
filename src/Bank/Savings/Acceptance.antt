-- ===== src/Bank/Savings/Acceptance.antt =====
-- Which terms a savings account is opened on.
use eto_mcp.Prelude.Number.{gt_nat, lt_zero, nat}
use eto_mcp.Prelude.Text.{str_eq_iff}
use eto_mcp.Prelude.{arith, or_default, false, ◌⊎◌, ◌≡◌}
use eto_mcp.Prelude.Result.{ok}
use eto_mcp.Bank.Savings.{OpenSavingsRequest, Terms, validate}

-- For accepted terms the caller is the subject, the tier is one of the three, the rate is neither
-- below 0 nor above 10000 (which a NaN is not either), and the minimal balance is the one asked for.
pub validate_terms :
    (req : OpenSavingsRequest) (terms : Terms)
    → validate req ≡ ok terms
    → (req.caller_pubkey ≡ req.subject)
      × ((terms.tier ≡ "standard") ⊎ (terms.tier ≡ "premium") ⊎ (terms.tier ≡ "private"))
      × (gt_nat terms.apy_bps 10000 ≡ false)
      × (lt_zero terms.apy_bps ≡ false)
      × (terms.min_balance ≡ or_default req.min_balance (nat 0))
unfolding validate
validate_terms req terms h =
    let tier = or_default req.tier "standard" in
    let apy_bps = or_default req.apy_bps (nat 400) in
    ground (
      arith,
      str_eq_iff req.caller_pubkey req.subject,
      str_eq_iff tier "standard",
      str_eq_iff tier "premium",
      str_eq_iff tier "private",
    )
