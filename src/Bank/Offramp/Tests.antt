-- ===== src/Bank/Offramp/Tests.antt =====
-- Runs of the offramp, and its theorems at concrete inputs.
use eto_mcp.Prelude.{◌<◌, refl, ◌+◌, ◌≤◌, arith, [], ℕ, ◌*◌, none, some, ◌≡◌}
use eto_mcp.Prelude.Result.{err, ok}
use eto_mcp.Prelude.Number.{nat}
use eto_mcp.Prelude.Text.{is_hex64}
use eto_mcp.Bank.Fixtures.{alice, bob, digest}
use eto_mcp.Bank.Fee.{one_bip_fee_of}
use eto_mcp.Effects.{rejected}
use eto_mcp.Bank.Offramp.{
  OfframpRequest, Destination, Platform, OfframpDeps, OfframpEvent, OfframpOutcome, pushed_phase,
  validate, execute_offramp, push_failed_post_burn,
}
use eto_mcp.Bank.Offramp.Settlement.{Settles, execute_offramp-Settles}
use eto_mcp.Bank.Offramp.Conservation.{execute_offramp_conserves, execute_offramp_dust}

abbrev account : Destination
account = record {
  account_holder_name = "A";
  routing_number = some "1";
  account_number = some "2";
  swift_bic = none;
  iban = none;
}

abbrev request : ℕ → OfframpRequest
request amount = record {
  caller_pubkey = alice;
  holder = alice;
  holder_token_account_pda = bob;
  eusd_amount_atomic = nat amount;
  destination = account;
  initiated_slot = 7;
}

abbrev platform : Platform
platform = record { sha256 = digest; stringify = λ d. "{}" }

abbrev working : OfframpDeps
working = record {
  burn_on_chain = λ log pda amount. some "burn";
  push_usd = λ log cents dest. some "push";
  flag_reconciliation = λ log id holder amount. some tt;
  fee_for = one_bip_fee_of;
  remit_to_treasury = λ log args. some "remit";
}

abbrev out : ℕ → ℕ → ℕ → OfframpOutcome
out amount fee cents = record {
  offramp_id = bob;
  phase = pushed_phase;
  burned_atomic = amount;
  fee_atomic = fee;
  usd_cents_pushed = cents;
  fulfillment_uri = Prim.Native.String.◌++◌ "eto://offramp/" bob;
  burn_tx_signature = "burn";
  external_ref = "push";
  treasury_remit_tx_signature = "remit";
}

accepted : validate one_bip_fee_of (request 10005000) ≡ ok 10005000
unfolding validate is_hex64 one_bip_fee_of
accepted = refl

pushed_ten :
    (execute_offramp platform (request 10005000) working []).0 ≡ ok (out 10005000 1000 1000)
unfolding execute_offramp validate is_hex64 one_bip_fee_of eto_mcp.Bank.Offramp.offramp_id
    eto_mcp.Bank.Offramp.atomic_eusd_to_usd_cents eto_mcp.Prelude.Number.f64
pushed_ten = refl

push_refused :
    (execute_offramp platform
      (request 10005000)
      (record working { push_usd = λ log cents dest. none })
      []).0
    ≡ err (rejected push_failed_post_burn)
unfolding execute_offramp validate is_hex64 one_bip_fee_of
push_refused = refl

execute_offramp-Settles_example :
    Settles platform
      (request 10005000)
      working
      10005000
      []
      (execute_offramp platform (request 10005000) working [])
execute_offramp-Settles_example =
    execute_offramp-Settles platform (request 10005000) working 10005000 [] accepted

execute_offramp_conserves_example :
    (1000 * 10000 ≤ (out 10005000 1000 1000).burned_atomic)
    × (1000 * 10000 + 1000 ≤ (out 10005000 1000 1000).burned_atomic)
    × ((out 10005000 1000 1000).burned_atomic < (1000 + 1) * 10000 + 1000)
unfolding execute_offramp validate is_hex64 one_bip_fee_of eto_mcp.Bank.Offramp.offramp_id
    eto_mcp.Bank.Offramp.atomic_eusd_to_usd_cents eto_mcp.Prelude.Number.f64
execute_offramp_conserves_example =
    execute_offramp_conserves platform (request 10005000) working 10005000 [] _
      (out 10005000 1000 1000) (λ n. refl) accepted (omega arith) refl

small : validate one_bip_fee_of (request 9999) ≡ ok 9999
unfolding validate is_hex64 one_bip_fee_of
small = refl

execute_offramp_dust_example :
    ((out 9999 0 0).burned_atomic ≡ 9999)
    × ((out 9999 0 0).usd_cents_pushed ≡ 0)
    × ((out 9999 0 0).fee_atomic ≡ 0)
unfolding execute_offramp validate is_hex64 one_bip_fee_of eto_mcp.Bank.Offramp.offramp_id
    eto_mcp.Bank.Offramp.atomic_eusd_to_usd_cents eto_mcp.Prelude.Number.f64
execute_offramp_dust_example =
    execute_offramp_dust platform (request 9999) working 9999 [] _ (out 9999 0 0) (λ n. refl) small
      (omega arith) refl
