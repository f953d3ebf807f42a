-- ===== src/Bank/Checking/Request.antt =====
-- The request of keeper/bpps/bank/handlers/open-checking.ts and the guards of its handler.
use eto_mcp.Prelude.Number.{nat, non_negative_integer, Number}
use eto_mcp.Prelude.{or_default, some, Option, not, ℕ, String}
use eto_mcp.Prelude.Text.{is_hex64}
use eto_mcp.Prelude.Result.{Result, ◌>>◌, refuse_if, or_refuse}
use eto_mcp.Bank.Auth.{AuthenticatedRequest, assert_caller_equals}

pub record OpenCheckingRequest : Type 0 where
  pub subject : String
  pub bank_issuer : String
  pub opened_slot : ℕ
  pub opening_deposit_atomic : Option Number

pub data OpenCheckingReason : Type 0 where
  unauthorized_caller invalid_pubkey invalid_deposit credentials_missing : OpenCheckingReason
  issue_failed ledger_failed : OpenCheckingReason

-- The checks in front of the first call, with the opening deposit that they leave.
unfoldable pub validate : AuthenticatedRequest OpenCheckingRequest → Result OpenCheckingReason ℕ
validate req = do
  refuse_if (not (assert_caller_equals (some req.caller_pubkey) req.body.subject))
      unauthorized_caller
  refuse_if (not (is_hex64 req.body.subject)) invalid_pubkey
  refuse_if (not (is_hex64 req.body.bank_issuer)) invalid_pubkey
  or_refuse (non_negative_integer (or_default req.body.opening_deposit_atomic (nat 0)))
      invalid_deposit
