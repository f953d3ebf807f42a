-- ===== src/Bank/Savings/Request.antt =====
-- The request of keeper/bpps/bank/handlers/open-savings.ts and the guards of its handler.
use eto_mcp.Prelude.Number.{gt_nat, lt_zero, nat, Number}
use eto_mcp.Prelude.{◌||◌, or_default, Option, Bool, ℕ, not, String}
use eto_mcp.Prelude.Text.{str_eq, is_hex64}
use eto_mcp.Prelude.Result.{Result, ok, ◌>>◌, refuse_if}

-- The tier is checked when it comes, so it is a text here.
pub record OpenSavingsRequest : Type 0 where
  pub caller_pubkey : String
  pub subject : String
  pub linked_checking_account_pda : String
  pub bank_issuer : String
  pub opened_slot : ℕ
  pub tier : Option String
  pub min_balance : Option Number
  pub apy_bps : Option Number

pub data OpenSavingsReason : Type 0 where
  no_checking_credential invalid_pda caller_mismatch invalid_tier invalid_apy : OpenSavingsReason

-- What the defaults leave.
pub record Terms : Type 0 where
  pub tier : String
  pub min_balance : Number
  pub apy_bps : Number

abbrev pub is_tier : String → Bool
is_tier tier = str_eq tier "standard" || (str_eq tier "premium" || str_eq tier "private")

unfoldable pub validate : OpenSavingsRequest → Result OpenSavingsReason Terms
validate req = do
  refuse_if (not (is_hex64 req.caller_pubkey)) invalid_pda
  refuse_if (not (is_hex64 req.subject)) invalid_pda
  refuse_if (not (is_hex64 req.linked_checking_account_pda)) invalid_pda
  refuse_if (not (is_hex64 req.bank_issuer)) invalid_pda
  refuse_if (not (str_eq req.caller_pubkey req.subject)) caller_mismatch
  let tier = or_default req.tier "standard"
  refuse_if (not (is_tier tier)) invalid_tier
  let apy_bps = or_default req.apy_bps (nat 400)
  refuse_if (lt_zero apy_bps || gt_nat apy_bps 10000) invalid_apy
  ok (record { tier = tier; min_balance = or_default req.min_balance (nat 0); apy_bps = apy_bps })
