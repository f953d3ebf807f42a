-- ===== src/Bank/Card/Request.antt =====
-- The request of keeper/bpps/bank/handlers/issue-card.ts and the guards of its handler.
use eto_mcp.Prelude.{
  ltb, all, ◌==◌, ◌&&◌, List, or_default, length, leb, Bool, some, Option, ℕ, String, not,
}
use eto_mcp.Prelude.Number.{nat, non_negative_integer, Number}
use eto_mcp.Prelude.Text.{is_hex64, codes}
use eto_mcp.Prelude.Result.{Result, ok, ◌>>=◌, ◌>>◌, refuse_if, or_refuse}
use eto_mcp.Bank.Auth.{AuthenticatedRequest, assert_caller_equals}

pub record IssueCardRequest : Type 0 where
  pub subject : String
  pub bank_issuer : String
  pub linked_account_pda : String
  pub issued_slot : ℕ
  pub jurisdiction : Option String
  pub spending_limit_per_day_atomic : Option Number
  pub spending_limit_per_tx_atomic : Option Number
  pub expires_slot : Option ℕ
  pub merchant_category_blocklist : Option (List String)

pub data IssueCardReason : Type 0 where
  unauthorized_caller invalid_pubkey invalid_jurisdiction invalid_limit : IssueCardReason
  credentials_missing account_not_found issue_failed ledger_failed : IssueCardReason

-- `/^[a-z]{2}$/`
abbrev pub is_lower : ℕ → Bool
is_lower c = leb b'a' c && leb c b'z'

unfoldable pub is_jurisdiction : String → Bool
is_jurisdiction s = (length (codes s) == 2) && all is_lower (codes s)

-- What the defaults and the checks leave.
pub record Limits : Type 0 where
  pub jurisdiction : String
  pub per_day : ℕ
  pub per_tx : ℕ

unfoldable pub validate : AuthenticatedRequest IssueCardRequest → Result IssueCardReason Limits
validate req = do
  refuse_if (not (assert_caller_equals (some req.caller_pubkey) req.body.subject))
      unauthorized_caller
  let jurisdiction = or_default req.body.jurisdiction "us"
  refuse_if (not (is_hex64 req.body.subject)) invalid_pubkey
  refuse_if (not (is_hex64 req.body.bank_issuer)) invalid_pubkey
  refuse_if (not (is_hex64 req.body.linked_account_pda)) invalid_pubkey
  refuse_if (not (is_jurisdiction jurisdiction)) invalid_jurisdiction
  per_day ←
      or_refuse
        (non_negative_integer (or_default req.body.spending_limit_per_day_atomic (nat 5000000000)))
        invalid_limit
  per_tx ←
      or_refuse
        (non_negative_integer (or_default req.body.spending_limit_per_tx_atomic (nat 500000000)))
        invalid_limit
  refuse_if (ltb per_day per_tx) invalid_limit
  ok (record { jurisdiction = jurisdiction; per_day = per_day; per_tx = per_tx })
