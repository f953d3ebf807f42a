-- ===== src/Bank/Savings.antt =====
-- keeper/bpps/bank/handlers/open-savings.ts: the account is recorded, then its credential is
-- issued; neither call stands in a `try`. A slot is a natural number below 2^64.
mod Request
pub mod Acceptance
pub mod Settlement
mod Tests
unfoldable pub use Request.*
use eto_mcp.Prelude.{◌++◌, Bool, Option, ℕ, List, not, String}
use eto_mcp.Prelude.Number.{Number}
use eto_mcp.Prelude.Text.{utf8}
use eto_mcp.Bank.Digest.{Sha256, u64_be, from_hex}
use eto_mcp.Effects.{
  Action, attempt, check, or_reject, or_throw, reject, reject_if, pure, ◌>>=◌, ◌>>◌,
}

-- The body's currency is the constant "eUSD".
pub record SavingsCredentialBody : Type 0 where
  pub account_pda : String
  pub holder : String
  pub opened_slot : ℕ
  pub min_balance : Number
  pub apy_bps : Number
  pub tier : String

pub record SavingsCredential : Type 0 where
  pub schema : String
  pub subject : String
  pub issuer : String
  pub body : SavingsCredentialBody

pub record SavingsAccount : Type 0 where
  pub holder : String
  pub opened_slot : ℕ
  pub min_balance : Number
  pub apy_bps : Number
  pub tier : String

pub data SavingsEvent : Type 0 where
  verified : String → String → Option Bool → SavingsEvent
  recorded : String → SavingsAccount → Option (Unit {0}) → SavingsEvent
  issued : SavingsCredential → Option (Unit {0}) → SavingsEvent

pub record OpenSavingsDeps : Type 0 where
  pub verify_checking_credential : List SavingsEvent → String → String → Option Bool
  pub record_savings_account : List SavingsEvent → String → SavingsAccount → Option (Unit {0})
  pub issue_savings_credential : List SavingsEvent → SavingsCredential → Option (Unit {0})

pub record OpenSavingsResult : Type 0 where
  pub savings_account_pda : String
  pub credential : SavingsCredential
  pub fulfillment_uri : String

-- What `savings_account_pda` is the hash of.
unfoldable pub savings_preimage : OpenSavingsRequest → List ℕ
savings_preimage req = utf8 "savings_account" ++ (from_hex req.subject ++ u64_be req.opened_slot)

unfoldable pub savings_pda : Sha256 → OpenSavingsRequest → String
savings_pda sha256 req = sha256 (savings_preimage req)

abbrev pub account_of : OpenSavingsRequest → Terms → SavingsAccount
account_of req terms = record {
  holder = req.subject;
  opened_slot = req.opened_slot;
  min_balance = terms.min_balance;
  apy_bps = terms.apy_bps;
  tier = terms.tier;
}

abbrev pub credential_of : Sha256 → OpenSavingsRequest → Terms → SavingsCredential
credential_of sha256 req terms = record {
  schema = "account.savings.v1";
  subject = req.subject;
  issuer = req.bank_issuer;
  body = record {
    account_pda = savings_pda sha256 req;
    holder = req.subject;
    opened_slot = req.opened_slot;
    min_balance = terms.min_balance;
    apy_bps = terms.apy_bps;
    tier = terms.tier;
  };
}

unfoldable pub open_savings :
    Sha256
    → OpenSavingsRequest
    → OpenSavingsDeps
    → Action SavingsEvent OpenSavingsReason OpenSavingsResult
open_savings sha256 req deps = do
  terms ← check (validate req)
  let pda = savings_pda sha256 req
  let account = account_of req terms
  let credential = credential_of sha256 req terms
  verify ←
      attempt
        (λ log. deps.verify_checking_credential log req.subject req.linked_checking_account_pda)
        (verified req.subject req.linked_checking_account_pda)
  has_checking ← or_throw verify
  reject_if (not has_checking) no_checking_credential
  recording ← attempt (λ log. deps.record_savings_account log pda account) (recorded pda account)
  _ ← or_throw recording
  issuance ← attempt (λ log. deps.issue_savings_credential log credential) (issued credential)
  _ ← or_throw issuance
  pure (record {
    savings_account_pda = pda;
    credential = credential;
    fulfillment_uri = Prim.Native.String.◌++◌ "eto://savings/" pda;
  })
