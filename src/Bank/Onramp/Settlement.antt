-- ===== src/Bank/Onramp/Settlement.antt =====
-- Which calls an onramp makes, in which order and for which amounts, by how it ended.
use eto_mcp.Prelude.{arith, ◌⊎◌, none, false, true, ◌∷◌, some, Bool, String, ◌≡◌, Option, List, ℕ}
use eto_mcp.Prelude.Result.{ok, err, Result}
use eto_mcp.Bank.Digest.{Sha256}
use eto_mcp.Bank.Onramp.{
  OnrampRequest, OnrampDeps, OnrampEvent, OnrampReason, OnrampOutcome, pulled, minted, remitted,
  validate, execute_onramp, onramp_remit, net_of, gross_of, usd_pull_failed, mint_failed,
}
use eto_mcp.Effects.{Failure, rejected, uncaught}

module _ (sha256 : Sha256) (req : OnrampRequest) (deps : OnrampDeps) (cents : ℕ)
    (log : List OnrampEvent) where
  abbrev pub pull_entry : Option Bool → OnrampEvent
  pull_entry = pulled req.funding_method req.external_payment_ref cents

  abbrev pub mint_entry : Option String → OnrampEvent
  mint_entry = minted req.recipient_token_account_pda (net_of deps cents)

  abbrev pub remit_entry : Option String → OnrampEvent
  remit_entry = remitted (onramp_remit sha256 req cents (deps.fee_for (gross_of cents)))

  -- The history of calls, by how the request ended.
  abbrev pub Settles : Result (Failure OnrampReason) OnrampOutcome × List OnrampEvent → Type 0
  Settles (ok out, after) =
      (after
        ≡ remit_entry (some out.treasury_remit_tx_signature)
          ∷ mint_entry (some out.mint_tx_signature)
          ∷ pull_entry (some true)
          ∷ log)
      × (out.eusd_amount ≡ net_of deps cents)
      × (out.fee ≡ deps.fee_for (gross_of cents))
  Settles (err (rejected usd_pull_failed), after) = after ≡ pull_entry (some false) ∷ log
  Settles (err (rejected mint_failed), after) =
      after ≡ mint_entry none ∷ pull_entry (some true) ∷ log
  Settles (err (rejected _), after) = after ≡ log
  Settles (err uncaught, after) =
      (after ≡ pull_entry none ∷ log)
      ⊎ ((sig : String) × (after
            ≡ remit_entry none ∷ mint_entry (some sig) ∷ pull_entry (some true) ∷ log))

  -- For a request that the guards accept: a success has pulled the dollars, then minted the net
  -- amount, then remitted the fee, each once. A refused pull or mint is the last call made, another
  -- rejection makes no call, and an error is only let through by the pull or by the remittance,
  -- where the latter comes after the mint.
  pub execute_onramp-Settles :
      validate req ≡ ok cents → Settles (execute_onramp sha256 req deps log)
  unfolding execute_onramp
  execute_onramp-Settles h = ground arith

  pub execute_onramp_refused :
      (r : OnrampReason)
      → validate req ≡ err r
      → execute_onramp sha256 req deps log ≡ (err (rejected r), log)
  unfolding execute_onramp
  execute_onramp_refused r h = rw h
