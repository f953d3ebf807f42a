-- ===== src/Bank/Wire/Tests.antt =====
-- Runs of the wire, and its theorems at concrete inputs.
use eto_mcp.Prelude.{refl, [], none, some, ◌≡◌}
use eto_mcp.Prelude.Result.{err, ok}
use eto_mcp.Prelude.Text.{is_hex64}
use eto_mcp.Prelude.Number.{nat}
use eto_mcp.Bank.Fixtures.{alice, bob, digest}
use eto_mcp.Effects.{rejected}
use eto_mcp.Bank.Wire.{
  WireRequest, Recipient, Platform, WireDeps, domestic, validate, execute_wire, release_failed,
}
use eto_mcp.Bank.Wire.Escrow.{Leaves, execute_wire-Leaves}

abbrev payee : Recipient
payee = record {
  routing_number = some "1";
  account_number = none;
  swift_bic = none;
  iban = none;
  name = "B";
}

abbrev request : WireRequest
request = record {
  caller_pubkey = alice;
  holder = alice;
  checking_account_pda = bob;
  amount = nat 250;
  recipient = payee;
  memo = none;
  kind = domestic;
  initiated_slot = 7;
}

abbrev platform : Platform
platform = record { sha256 = digest; stringify = λ d. "{}" }

abbrev flat_fee : WireDeps
flat_fee = record {
  lock_escrow = λ log args. some "lock";
  release_escrow = λ log args. some (record { confirmed_at_slot = 9; external_ref = "ext" });
  refund_escrow = λ log args. some "refund";
  fee_for = λ kind amount. 5000000;
}

abbrev broken : WireDeps
broken = record flat_fee { release_escrow = λ log args. none; refund_escrow = λ log args. none }

accepted : validate request ≡ ok 250
unfolding validate is_hex64
accepted = refl

release_refused : (execute_wire platform request broken []).0 ≡ err (rejected release_failed)
unfolding execute_wire validate is_hex64
release_refused = refl

execute_wire-Leaves_example : Leaves [] (execute_wire platform request broken [])
execute_wire-Leaves_example = execute_wire-Leaves platform request broken []
