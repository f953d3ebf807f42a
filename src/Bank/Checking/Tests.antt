-- ===== src/Bank/Checking/Tests.antt =====
-- Runs of the opening of a checking account, and its theorems at concrete inputs.
use eto_mcp.Prelude.{refl, true, [], none, some, ◌≡◌}
use eto_mcp.Prelude.Result.{err, ok}
use eto_mcp.Prelude.Text.{is_hex64}
use eto_mcp.Bank.Fixtures.{alice, bob, digest}
use eto_mcp.Bank.Auth.{AuthenticatedRequest}
use eto_mcp.Effects.{rejected}
use eto_mcp.Bank.Checking.{
  OpenCheckingRequest, OpenCheckingDeps, validate, open_checking, issue_failed,
}
use eto_mcp.Bank.Checking.Settlement.{Settles, open_checking-Settles}

abbrev account : OpenCheckingRequest
account = record {
  subject = alice;
  bank_issuer = bob;
  opened_slot = 5;
  opening_deposit_atomic = none;
}

abbrev request : AuthenticatedRequest OpenCheckingRequest
request = record { caller_pubkey = alice; body = account }

-- The chain refuses, and the flag throws.
abbrev refusing : OpenCheckingDeps
refusing = record {
  verify_holder_credentials = λ log subject schemas. some true;
  record_checking_account = λ log pda account. some tt;
  issue_checking_credential = λ log credential. none;
  flag_reconciliation = λ log pda account. none;
}

accepted : validate request ≡ ok 0
unfolding validate eto_mcp.Bank.Auth.assert_caller_equals is_hex64
accepted = refl

issue_refused : (open_checking digest request refusing []).0 ≡ err (rejected issue_failed)
unfolding open_checking validate eto_mcp.Bank.Auth.assert_caller_equals is_hex64
issue_refused = refl

open_checking-Settles_example :
    Settles digest request refusing 0 [] (open_checking digest request refusing [])
open_checking-Settles_example = open_checking-Settles digest request refusing 0 [] accepted
