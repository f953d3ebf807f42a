-- ===== src/Bank/Card.antt =====
-- keeper/bpps/bank/handlers/issue-card.ts: a debit card is recorded in the local ledger, then its
-- credential is issued on chain; a card whose credential could not be issued is flagged. Slots are
-- natural numbers below 2^64.
mod Request
pub mod Acceptance
pub mod Settlement
pub mod Address
mod Tests
unfoldable pub use Request.*
use eto_mcp.Prelude.{none, [], ◌++◌, Bool, some, ℕ, ◌∷◌, or_default, List, not, String, Option}
use eto_mcp.Prelude.Text.{utf8}
use eto_mcp.Bank.Auth.{AuthenticatedRequest}
use eto_mcp.Bank.CredentialLedger.{CardDebitCredentialBody}
use eto_mcp.Bank.Digest.{Sha256, u64_be, from_hex}
use eto_mcp.Effects.{
  Action, attempt, check, or_reject, or_throw, reject, reject_if, pure, ◌>>=◌, ◌>>◌,
}

pub record IssueCardCredential : Type 0 where
  pub schema : String
  pub subject : String
  pub issuer : String
  pub body : CardDebitCredentialBody

-- `REQUIRED_SCHEMAS`
abbrev pub required_schemas : List String
required_schemas = "eto.beckn.schema.verified-human.v1" ∷ "eto.beckn.schema.kyc.us-test.v1" ∷ []

pub data CardEvent : Type 0 where
  verified : String → List String → Option Bool → CardEvent
  linked : String → String → Option Bool → CardEvent
  recorded : String → CardDebitCredentialBody → Option (Unit {0}) → CardEvent
  issued : IssueCardCredential → Option (Unit {0}) → CardEvent
  flagged : String → String → CardDebitCredentialBody → Option (Unit {0}) → CardEvent

pub record IssueCardDeps : Type 0 where
  pub verify_holder_credentials : List CardEvent → String → List String → Option Bool
  pub verify_linked_account : List CardEvent → String → String → Option Bool
  pub record_card : List CardEvent → String → CardDebitCredentialBody → Option (Unit {0})
  pub issue_card_credential : List CardEvent → IssueCardCredential → Option (Unit {0})
  pub flag_reconciliation :
      List CardEvent → String → String → CardDebitCredentialBody → Option (Unit {0})

pub record IssueCardResult : Type 0 where
  pub card_pda : String
  pub credential : IssueCardCredential
  pub fulfillment_uri : String

-- What `card_pda` and `card_id_hash` are the hashes of.
unfoldable pub card_preimage : IssueCardRequest → List ℕ
card_preimage body =
    utf8 "card_debit"
    ++ (from_hex body.subject ++ (from_hex body.linked_account_pda ++ u64_be body.issued_slot))

unfoldable pub card_pda : Sha256 → IssueCardRequest → String
card_pda sha256 body = sha256 (card_preimage body)

unfoldable pub card_id_hash : Sha256 → IssueCardRequest → String
card_id_hash sha256 body = sha256 (utf8 "card_id_v0_stub" ++ from_hex (card_pda sha256 body))

-- An empty blocklist is left out, as an absent one is.
abbrev pub blocklist_of : Option (List String) → Option (List String)
blocklist_of (some (code ∷ codes)) = some (code ∷ codes)
blocklist_of _ = none

abbrev pub card_of : Sha256 → IssueCardRequest → Limits → CardDebitCredentialBody
card_of sha256 body limits = record {
  holder = body.subject;
  linked_account_pda = body.linked_account_pda;
  jurisdiction = limits.jurisdiction;
  card_id_hash = card_id_hash sha256 body;
  issued_slot = body.issued_slot;
  expires_slot = or_default body.expires_slot 0;
  spending_limit_per_day = limits.per_day;
  spending_limit_per_tx = limits.per_tx;
  merchant_category_blocklist = blocklist_of body.merchant_category_blocklist;
}

abbrev pub credential_of : Sha256 → IssueCardRequest → Limits → IssueCardCredential
credential_of sha256 body limits = record {
  schema =
      Prim.Native.String.◌++◌ "card.debit." (Prim.Native.String.◌++◌ limits.jurisdiction ".v1");
  subject = body.subject;
  issuer = body.bank_issuer;
  body = card_of sha256 body limits;
}

-- The `catch` of the issuance: flag the card, swallow what that throws, reject.
abbrev pub issued_or_flag :
    IssueCardDeps
    → String
    → CardDebitCredentialBody
    → Option (Unit {0})
    → Action CardEvent IssueCardReason (Unit {0})
issued_or_flag deps pda card (some _) = pure tt
issued_or_flag deps pda card none = do
  _ ←
      attempt (λ log. deps.flag_reconciliation log pda card.holder card)
        (flagged pda card.holder card)
  reject issue_failed

unfoldable pub issue_card :
    Sha256
    → AuthenticatedRequest IssueCardRequest
    → IssueCardDeps
    → Action CardEvent IssueCardReason IssueCardResult
issue_card sha256 req deps = do
  limits ← check (validate req)
  verify ←
      attempt (λ log. deps.verify_holder_credentials log req.body.subject required_schemas)
        (verified req.body.subject required_schemas)
  credentials_ok ← or_throw verify
  reject_if (not credentials_ok) credentials_missing
  link ←
      attempt (λ log. deps.verify_linked_account log req.body.linked_account_pda req.body.subject)
        (linked req.body.linked_account_pda req.body.subject)
  account_ok ← or_throw link
  reject_if (not account_ok) account_not_found
  let pda = card_pda sha256 req.body
  let card = card_of sha256 req.body limits
  let credential = credential_of sha256 req.body limits
  recording ← attempt (λ log. deps.record_card log pda card) (recorded pda card)
  _ ← or_reject recording ledger_failed
  issuance ← attempt (λ log. deps.issue_card_credential log credential) (issued credential)
  issued_or_flag deps pda card issuance
  pure (record {
    card_pda = pda;
    credential = credential;
    fulfillment_uri = Prim.Native.String.◌++◌ "eto://card/" pda;
  })
