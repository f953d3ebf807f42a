-- ===== src/Bank/Onramp/Request.antt =====
-- The request of keeper/bpps/bank/handlers/onramp.ts and the guards at the head of its handler.
use eto_mcp.Prelude.Number.{positive_integer, Number}
use eto_mcp.Prelude.{not, ℕ, String}
use eto_mcp.Prelude.Result.{Result, ◌>>◌, refuse_if, or_refuse}
use eto_mcp.Prelude.Text.{is_hex64, str_eq}

pub data FundingMethod : Type 0 where
  ach wire card mock : FundingMethod

pub record OnrampRequest : Type 0 where
  pub caller_pubkey : String
  pub recipient : String
  pub recipient_token_account_pda : String
  pub usd_amount_cents : Number
  pub funding_method : FundingMethod
  pub external_payment_ref : String
  pub initiated_slot : ℕ

pub data OnrampReason : Type 0 where
  invalid_pubkey caller_mismatch invalid_amount usd_pull_failed mint_failed : OnrampReason

-- The checks in their order; the amount goes on as the positive integer that it then is.
unfoldable pub validate : OnrampRequest → Result OnrampReason ℕ
validate req = do
  refuse_if (not (is_hex64 req.caller_pubkey)) invalid_pubkey
  refuse_if (not (is_hex64 req.recipient)) invalid_pubkey
  refuse_if (not (is_hex64 req.recipient_token_account_pda)) invalid_pubkey
  refuse_if (not (str_eq req.caller_pubkey req.recipient)) caller_mismatch
  or_refuse (positive_integer req.usd_amount_cents) invalid_amount
