-- ===== src/Bank/Wire/Acceptance.antt =====
-- When the guards of the wire let a request through.
use eto_mcp.Prelude.Number.{positive_integer_of_nat, positive_integer_nat, positive_integer, nat}
use eto_mcp.Prelude.Text.{str_eq_iff, is_hex64}
use eto_mcp.Prelude.{inr, arith, ◌≢◌, inl, ◌<◌, Option-cases, true, ◌↔◌, ◌≡◌, ℕ}
use eto_mcp.Prelude.Result.{ok}
use eto_mcp.Bank.Wire.{WireRequest, validate, has_routing}

pub record IsAccepted (req : WireRequest) (amount : ℕ) : Type 0 where
  pub holder : is_hex64 req.holder ≡ true
  pub account : is_hex64 req.checking_account_pda ≡ true
  pub bound : req.caller_pubkey ≡ req.holder
  pub is_amount : req.amount ≡ nat amount
  pub positive : 0 < amount
  pub routed : has_routing req.kind req.recipient ≡ true
  pub named : req.recipient.name ≢ ""

-- A wire is accepted exactly when the keys are hexadecimal, the caller is the holder, the amount
-- is a positive integer, and the recipient has a name and the routing of its kind.
pub wire_accepts_iff :
    (req : WireRequest) (amount : ℕ) → (validate req ≡ ok amount) ↔ IsAccepted req amount
unfolding validate
wire_accepts_iff req amount = (
  λ h. elim (Option-cases (positive_integer req.amount)) [
    | inl e ↦ ground arith
    | inr (c, e) ↦ ground (
      arith,
      positive_integer_nat req.amount c e,
      str_eq_iff req.caller_pubkey req.holder,
      str_eq_iff req.recipient.name "",
    )
  ],
  λ h. ground (
    arith,
    positive_integer_of_nat amount,
    str_eq_iff req.caller_pubkey req.holder,
    str_eq_iff req.recipient.name "",
  ),
)
