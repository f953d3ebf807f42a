-- ===== src/Bank/Card/Tests.antt =====
-- Runs of the issuing of a card, and its theorems at concrete inputs.
use eto_mcp.Prelude.{refl, true, [], none, some, ◌≡◌}
use eto_mcp.Prelude.Result.{err, ok}
use eto_mcp.Prelude.Number.{nat}
use eto_mcp.Prelude.Text.{is_hex64}
use eto_mcp.Bank.Fixtures.{alice, bob, digest}
use eto_mcp.Bank.Auth.{AuthenticatedRequest}
use eto_mcp.Effects.{rejected}
use eto_mcp.Bank.Card.{
  IssueCardRequest, IssueCardDeps, Limits, validate, issue_card, ledger_failed, invalid_limit,
  is_jurisdiction,
}
use eto_mcp.Bank.Card.Settlement.{Settles, issue_card-Settles}

abbrev card : IssueCardRequest
card = record {
  subject = alice;
  bank_issuer = bob;
  linked_account_pda = bob;
  issued_slot = 5;
  jurisdiction = none;
  spending_limit_per_day_atomic = some (nat 1000);
  spending_limit_per_tx_atomic = some (nat 300);
  expires_slot = none;
  merchant_category_blocklist = some [];
}

abbrev request : AuthenticatedRequest IssueCardRequest
request = record { caller_pubkey = alice; body = card }

abbrev limits : Limits
limits = record { jurisdiction = "us"; per_day = 1000; per_tx = 300 }

abbrev unrecorded : IssueCardDeps
unrecorded = record {
  verify_holder_credentials = λ log subject schemas. some true;
  verify_linked_account = λ log pda holder. some true;
  record_card = λ log pda card. none;
  issue_card_credential = λ log credential. some tt;
  flag_reconciliation = λ log pda holder card. some tt;
}

accepted : validate request ≡ ok limits
unfolding validate eto_mcp.Bank.Auth.assert_caller_equals is_hex64 is_jurisdiction
accepted = refl

over_limit :
    validate (record {
      caller_pubkey = alice;
      body = record card { spending_limit_per_tx_atomic = some (nat 1001) };
    })
    ≡ err invalid_limit
unfolding validate eto_mcp.Bank.Auth.assert_caller_equals is_hex64 is_jurisdiction
over_limit = refl

refused : (issue_card digest request unrecorded []).0 ≡ err (rejected ledger_failed)
unfolding issue_card validate eto_mcp.Bank.Auth.assert_caller_equals is_hex64 is_jurisdiction
refused = refl

issue_card-Settles_example :
    Settles digest request unrecorded limits [] (issue_card digest request unrecorded [])
issue_card-Settles_example = issue_card-Settles digest request unrecorded limits [] accepted
