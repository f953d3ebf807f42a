-- ===== src/Bank/Onramp/Acceptance.antt =====
-- When the guards of the onramp let a request through.
use eto_mcp.Prelude.Number.{positive_integer_of_nat, positive_integer_nat, nat, positive_integer}
use eto_mcp.Prelude.Text.{str_eq_iff, is_hex64}
use eto_mcp.Prelude.{inr, inl, Option-cases, ◌↔◌, arith, true, ◌≡◌, ◌<◌, ℕ}
use eto_mcp.Prelude.Result.{ok}
use eto_mcp.Bank.Onramp.{OnrampRequest, validate}

pub record IsAccepted (req : OnrampRequest) (cents : ℕ) : Type 0 where
  pub caller : is_hex64 req.caller_pubkey ≡ true
  pub account : is_hex64 req.recipient_token_account_pda ≡ true
  pub bound : req.caller_pubkey ≡ req.recipient
  pub amount : req.usd_amount_cents ≡ nat cents
  pub positive : 0 < cents

-- An onramp is accepted exactly when the keys are hexadecimal, the caller is the recipient, and the
-- amount is a positive integer.
pub onramp_accepts_iff :
    (req : OnrampRequest) (cents : ℕ) → (validate req ≡ ok cents) ↔ IsAccepted req cents
unfolding validate
onramp_accepts_iff req cents = (
  λ h. elim (Option-cases (positive_integer req.usd_amount_cents)) [
    | inl e ↦ ground arith
    | inr (c, e) ↦ ground (
      arith,
      positive_integer_nat req.usd_amount_cents c e,
      str_eq_iff req.caller_pubkey req.recipient,
    )
  ],
  λ h. ground (arith, positive_integer_of_nat cents, str_eq_iff req.caller_pubkey req.recipient),
)
