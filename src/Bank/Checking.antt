-- ===== src/Bank/Checking.antt =====
-- keeper/bpps/bank/handlers/open-checking.ts: the account is recorded in the local ledger, then
-- its credential is issued on chain; an account whose credential could not be issued is flagged.
-- A slot is a natural number below 2^64.
mod Request
pub mod Settlement
pub mod Address
mod Tests
unfoldable pub use Request.*
use eto_mcp.Prelude.{none, ◌++◌, Bool, [], some, ◌∷◌, Option, List, ℕ, not, String}
use eto_mcp.Prelude.Text.{utf8}
use eto_mcp.Bank.Auth.{AuthenticatedRequest}
use eto_mcp.Bank.CredentialLedger.{CheckingAccount}
use eto_mcp.Bank.Digest.{Sha256, u64_be, from_hex}
use eto_mcp.Effects.{
  Action, attempt, check, or_reject, or_throw, reject, reject_if, pure, ◌>>=◌, ◌>>◌,
}

-- The body's currency is the constant "eUSD".
pub record CheckingCredentialBody : Type 0 where
  pub account_pda : String
  pub holder : String
  pub opened_slot : ℕ
  pub opening_balance : ℕ

pub record CheckingCredential : Type 0 where
  pub schema : String
  pub subject : String
  pub issuer : String
  pub body : CheckingCredentialBody

-- `REQUIRED_SCHEMAS`
abbrev pub required_schemas : List String
required_schemas = "eto.beckn.schema.verified-human.v1" ∷ "eto.beckn.schema.kyc.us-test.v1" ∷ []

pub data CheckingEvent : Type 0 where
  verified : String → List String → Option Bool → CheckingEvent
  recorded : String → CheckingAccount → Option (Unit {0}) → CheckingEvent
  issued : CheckingCredential → Option (Unit {0}) → CheckingEvent
  flagged : String → CheckingAccount → Option (Unit {0}) → CheckingEvent

pub record OpenCheckingDeps : Type 0 where
  pub verify_holder_credentials : List CheckingEvent → String → List String → Option Bool
  pub record_checking_account : List CheckingEvent → String → CheckingAccount → Option (Unit {0})
  pub issue_checking_credential : List CheckingEvent → CheckingCredential → Option (Unit {0})
  pub flag_reconciliation : List CheckingEvent → String → CheckingAccount → Option (Unit {0})

pub record OpenCheckingResult : Type 0 where
  pub checking_account_pda : String
  pub credential : CheckingCredential
  pub fulfillment_uri : String

-- What `checking_account_pda` is the hash of.
unfoldable pub checking_preimage : OpenCheckingRequest → List ℕ
checking_preimage body =
    utf8 "checking_account" ++ (from_hex body.subject ++ u64_be body.opened_slot)

unfoldable pub checking_pda : Sha256 → OpenCheckingRequest → String
checking_pda sha256 body = sha256 (checking_preimage body)

abbrev pub account_of : OpenCheckingRequest → ℕ → CheckingAccount
account_of body opening = record {
  holder = body.subject;
  opened_slot = body.opened_slot;
  opening_balance = opening;
}

abbrev pub credential_of : Sha256 → OpenCheckingRequest → ℕ → CheckingCredential
credential_of sha256 body opening = record {
  schema = "account.checking.v1";
  subject = body.subject;
  issuer = body.bank_issuer;
  body = record {
    account_pda = checking_pda sha256 body;
    holder = body.subject;
    opened_slot = body.opened_slot;
    opening_balance = opening;
  };
}

-- The `catch` of the issuance: flag the account, swallow what that throws, reject.
abbrev pub issued_or_flag :
    OpenCheckingDeps
    → String
    → CheckingAccount
    → Option (Unit {0})
    → Action CheckingEvent OpenCheckingReason (Unit {0})
issued_or_flag deps pda account (some _) = pure tt
issued_or_flag deps pda account none = do
  _ ← attempt (λ log. deps.flag_reconciliation log pda account) (flagged pda account)
  reject issue_failed

unfoldable pub open_checking :
    Sha256
    → AuthenticatedRequest OpenCheckingRequest
    → OpenCheckingDeps
    → Action CheckingEvent OpenCheckingReason OpenCheckingResult
open_checking sha256 req deps = do
  opening ← check (validate req)
  let pda = checking_pda sha256 req.body
  let account = account_of req.body opening
  let credential = credential_of sha256 req.body opening
  verify ←
      attempt (λ log. deps.verify_holder_credentials log req.body.subject required_schemas)
        (verified req.body.subject required_schemas)
  verified_ok ← or_throw verify
  reject_if (not verified_ok) credentials_missing
  recording ← attempt (λ log. deps.record_checking_account log pda account) (recorded pda account)
  _ ← or_reject recording ledger_failed
  issuance ← attempt (λ log. deps.issue_checking_credential log credential) (issued credential)
  issued_or_flag deps pda account issuance
  pure (record {
    checking_account_pda = pda;
    credential = credential;
    fulfillment_uri = Prim.Native.String.◌++◌ "eto://checking/" pda;
  })
