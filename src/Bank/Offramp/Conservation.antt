-- ===== src/Bank/Offramp/Conservation.antt =====
-- What an offramp pays out for what it burns, with the fee of one pip.
use eto_mcp.Prelude.{refl, arith, ◌-◌, subst, ◌<◌, ◌+◌, ◌*◌, ◌≤◌, ◌≡◌, List, ℕ}
use eto_mcp.Prelude.Number.{f64_exact, f64, max_safe}
use eto_mcp.Prelude.Result.{ok}
use eto_mcp.Bank.Offramp.{
  OfframpRequest, Platform, OfframpDeps, OfframpEvent, OfframpOutcome, validate, execute_offramp,
  atomic_eusd_to_usd_cents,
}
use eto_mcp.Bank.Offramp.Settlement.{Settles, execute_offramp-Settles}
use eto_mcp.Bank.Fee.{one_bip_fee_of}

-- With the fee of `oneBipFee`, a request that the guards accept and a safe amount: on a success the
-- fee is at most a 10000th of what is burned, and the dollars and the fee account for what is burned
-- up to less than one cent.
pub execute_offramp_conserves :
    (platform : Platform) (req : OfframpRequest) (deps : OfframpDeps) (amount : ℕ)
    (log after : List OfframpEvent) (out : OfframpOutcome)
    → ((n : ℕ) → deps.fee_for n ≡ one_bip_fee_of n)
    → validate deps.fee_for req ≡ ok amount
    → amount ≤ max_safe
    → execute_offramp platform req deps log ≡ (ok out, after)
    → (out.fee_atomic * 10000 ≤ out.burned_atomic)
      × (out.usd_cents_pushed * 10000 + out.fee_atomic ≤ out.burned_atomic)
      × (out.burned_atomic < (out.usd_cents_pushed + 1) * 10000 + out.fee_atomic)
unfolding one_bip_fee_of atomic_eusd_to_usd_cents
execute_offramp_conserves platform req deps amount log after out fees valid q e =
    let settled =
      subst (Settles platform req deps amount log) e
        (execute_offramp-Settles platform req deps amount log valid) in
    let exact : f64 (amount - deps.fee_for amount) ≡ amount - deps.fee_for amount =
      f64_exact _ (omega arith) in
    rw (settled.1, settled.2, settled.3, exact, fees amount) (omega arith)

-- With the fee of `oneBipFee`, an accepted request for less than one cent that succeeds has burned
-- the whole amount, pushed 0 cents and charged no fee.
pub execute_offramp_dust :
    (platform : Platform) (req : OfframpRequest) (deps : OfframpDeps) (amount : ℕ)
    (log after : List OfframpEvent) (out : OfframpOutcome)
    → ((n : ℕ) → deps.fee_for n ≡ one_bip_fee_of n)
    → validate deps.fee_for req ≡ ok amount
    → amount < 10000
    → execute_offramp platform req deps log ≡ (ok out, after)
    → (out.burned_atomic ≡ amount) × (out.usd_cents_pushed ≡ 0) × (out.fee_atomic ≡ 0)
unfolding one_bip_fee_of atomic_eusd_to_usd_cents
execute_offramp_dust platform req deps amount log after out fees valid q e =
    let settled =
      subst (Settles platform req deps amount log) e
        (execute_offramp-Settles platform req deps amount log valid) in
    let exact : f64 (amount - deps.fee_for amount) ≡ amount - deps.fee_for amount =
      f64_exact _ (omega arith) in
    rw (settled.1, settled.2, settled.3, exact, fees amount) (refl, omega arith, omega arith)
