-- ===== src/Bank/Savings/Tests.antt =====
-- Runs of the opening of a savings account, and its theorems at concrete inputs.
use eto_mcp.Prelude.Number.{nan, nat}
use eto_mcp.Prelude.{refl, false, none, [], some, ◌≡◌}
use eto_mcp.Prelude.Result.{err, ok}
use eto_mcp.Prelude.Text.{is_hex64}
use eto_mcp.Bank.Fixtures.{alice, bob, digest}
use eto_mcp.Effects.{rejected}
use eto_mcp.Bank.Savings.{
  OpenSavingsRequest, OpenSavingsDeps, Terms, validate, open_savings, no_checking_credential,
}
use eto_mcp.Bank.Savings.Settlement.{Settles, open_savings-Settles}

abbrev request : OpenSavingsRequest
request = record {
  caller_pubkey = alice;
  subject = alice;
  linked_checking_account_pda = bob;
  bank_issuer = bob;
  opened_slot = 5;
  tier = some "premium";
  min_balance = none;
  apy_bps = none;
}

abbrev terms : Terms
terms = record { tier = "premium"; min_balance = nat 0; apy_bps = nat 400 }

abbrev unlinked : OpenSavingsDeps
unlinked = record {
  verify_checking_credential = λ log subject pda. some false;
  record_savings_account = λ log pda account. some tt;
  issue_savings_credential = λ log credential. some tt;
}

accepted : validate request ≡ ok terms
unfolding validate is_hex64
accepted = refl

-- A rate that is no number passes the check of its bounds.
nan_accepted :
    validate (record request { apy_bps = some nan }) ≡ ok (record terms { apy_bps = nan })
unfolding validate is_hex64
nan_accepted = refl

refused : (open_savings digest request unlinked []).0 ≡ err (rejected no_checking_credential)
unfolding open_savings validate is_hex64
refused = refl

open_savings-Settles_example :
    Settles digest request unlinked terms [] (open_savings digest request unlinked [])
open_savings-Settles_example = open_savings-Settles digest request unlinked terms [] accepted
