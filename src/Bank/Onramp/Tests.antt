-- ===== src/Bank/Onramp/Tests.antt =====
-- Runs of the onramp, and its theorems at concrete inputs.
use eto_mcp.Prelude.{arith, ◌↔◌, refl, true, ◌*◌, [], none, some, ◌≡◌}
use eto_mcp.Prelude.Result.{err, ok}
use eto_mcp.Prelude.Int.{pos}
use eto_mcp.Prelude.Text.{is_hex64}
use eto_mcp.Prelude.Number.{nat}
use eto_mcp.Bank.Fixtures.{alice, bob, digest}
use eto_mcp.Bank.Fee.{one_bip_fee_of}
use eto_mcp.Effects.{rejected}
use eto_mcp.Bank.Onramp.{
  OnrampRequest, OnrampDeps, OnrampOutcome, minted_phase, mock, validate, execute_onramp,
  mint_failed,
}
use eto_mcp.Bank.Onramp.Settlement.{Settles, execute_onramp-Settles}

abbrev ten_dollars : OnrampRequest
ten_dollars = record {
  caller_pubkey = alice;
  recipient = alice;
  recipient_token_account_pda = bob;
  usd_amount_cents = nat 1000;
  funding_method = mock;
  external_payment_ref = "ref";
  initiated_slot = 7;
}

abbrev cleared : OnrampDeps
cleared = record {
  verify_usd_pull = λ log method ref cents. some true;
  mint_on_chain = λ log pda amount. some "mint";
  fee_for = one_bip_fee_of;
  remit_to_treasury = λ log args. some "remit";
}

abbrev out : OnrampOutcome
out = record {
  onramp_id = bob;
  phase = minted_phase;
  eusd_amount = pos 9999000;
  fee = 1000;
  fulfillment_uri = Prim.Native.String.◌++◌ "eto://onramp/" bob;
  mint_tx_signature = "mint";
  treasury_remit_tx_signature = "remit";
}

accepted : validate ten_dollars ≡ ok 1000
unfolding validate is_hex64
accepted = refl

minted_ten : (execute_onramp digest ten_dollars cleared []).0 ≡ ok out
unfolding execute_onramp validate is_hex64 eto_mcp.Bank.Onramp.onramp_id eto_mcp.Prelude.Int.sub_f64
    one_bip_fee_of eto_mcp.Bank.Onramp.usd_cents_to_atomic_eusd eto_mcp.Prelude.Number.f64
minted_ten = refl

mint_refused :
    (execute_onramp digest ten_dollars
      (record cleared { mint_on_chain = λ log pda amount. none })
      []).0
    ≡ err (rejected mint_failed)
unfolding execute_onramp validate is_hex64
mint_refused = refl

execute_onramp-Settles_example :
    Settles digest ten_dollars cleared 1000 [] (execute_onramp digest ten_dollars cleared [])
execute_onramp-Settles_example = execute_onramp-Settles digest ten_dollars cleared 1000 [] accepted
