-- ===== src/Bank/Onramp/Conservation.antt =====
-- What an onramp mints, in atomic units, with the fee of one pip.
use eto_mcp.Prelude.{◌∙◌, subst, ◌/◌, ◌-◌, arith, ◌≤◌, ◌*◌, ◌≡◌, List, ℕ}
use eto_mcp.Prelude.Number.{f64_exact, f64, max_safe}
use eto_mcp.Prelude.Int.{pos, sub_f64}
use eto_mcp.Prelude.Result.{ok}
use eto_mcp.Bank.Digest.{Sha256}
use eto_mcp.Bank.Onramp.{
  OnrampRequest, OnrampDeps, OnrampEvent, OnrampOutcome, validate, execute_onramp, net_of, gross_of,
  usd_cents_to_atomic_eusd,
}
use eto_mcp.Bank.Onramp.Settlement.{Settles, execute_onramp-Settles}
use eto_mcp.Bank.Fee.{one_bip_fee_of}

net_of_one_bip :
    (deps : OnrampDeps) (cents : ℕ)
    → ((n : ℕ) → deps.fee_for n ≡ one_bip_fee_of n)
    → cents * 10000 ≤ max_safe
    → (net_of deps cents ≡ pos (cents * 9999)) × (deps.fee_for (gross_of cents) ≡ cents)
unfolding usd_cents_to_atomic_eusd one_bip_fee_of sub_f64
net_of_one_bip deps cents h q =
    let exact : f64 (cents * 10000) ≡ cents * 10000 = f64_exact (cents * 10000) (omega arith) in
    rw (exact, h (cents * 10000))
      (ground (arith, f64_exact (cents * 10000 - cents * 10000 / 10000)), omega arith)

-- With the fee of `oneBipFee`, a request that the guards accept and a gross amount that is a safe
-- integer: a success mints 9999 atomic units for each cent and charges one.
pub execute_onramp_conserves :
    (sha256 : Sha256) (req : OnrampRequest) (deps : OnrampDeps) (cents : ℕ)
    (log after : List OnrampEvent) (out : OnrampOutcome)
    → ((n : ℕ) → deps.fee_for n ≡ one_bip_fee_of n)
    → validate req ≡ ok cents
    → cents * 10000 ≤ max_safe
    → execute_onramp sha256 req deps log ≡ (ok out, after)
    → (out.eusd_amount ≡ pos (cents * 9999)) × (out.fee ≡ cents)
execute_onramp_conserves sha256 req deps cents log after out fees valid q e =
    let settled =
      subst (Settles sha256 req deps cents log) e
        (execute_onramp-Settles sha256 req deps cents log valid) in
    let (net, fee) = net_of_one_bip deps cents fees q in (settled.1 ∙ net, settled.2 ∙ fee)
