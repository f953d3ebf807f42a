-- ===== src/Bank/Offramp/Settlement.antt =====
-- Which calls an offramp makes, in which order and for which amounts, by how it ended.
use eto_mcp.Prelude.{
  refl, inr, inl, Option-cases, ◌⊎◌, ◌∷◌, some, none, Option, String, ◌≡◌, List, ℕ,
}
use eto_mcp.Prelude.Result.{err, ok, Result}
use eto_mcp.Bank.Offramp.{
  OfframpRequest, Platform, OfframpDeps, OfframpEvent, OfframpReason, OfframpOutcome, burned,
  pushed, flagged, remitted, validate, execute_offramp, offramp_remit, offramp_id, cents_of,
  burn_failed, push_failed_post_burn,
}
use eto_mcp.Effects.{Failure, rejected, uncaught}

module _ (platform : Platform) (req : OfframpRequest) (deps : OfframpDeps) (amount : ℕ)
    (log : List OfframpEvent) where
  abbrev pub burn_entry : Option String → OfframpEvent
  burn_entry = burned req.holder_token_account_pda amount

  abbrev pub push_entry : Option String → OfframpEvent
  push_entry = pushed (cents_of deps amount) req.destination

  abbrev pub flag_entry : Option (Unit {0}) → OfframpEvent
  flag_entry = flagged (offramp_id platform req amount) req.holder amount

  abbrev pub remit_entry : Option String → OfframpEvent
  remit_entry = remitted (offramp_remit platform req amount (deps.fee_for amount))

  abbrev pub IsUncaught : List OfframpEvent → Type 0
  IsUncaught after =
      (sig : String) × ((after ≡ flag_entry none ∷ push_entry none ∷ burn_entry (some sig) ∷ log)
        ⊎ ((ref : String) × (after
              ≡ remit_entry none ∷ push_entry (some ref) ∷ burn_entry (some sig) ∷ log)))

  -- The history of calls, by how the request ended.
  abbrev pub Settles : Result (Failure OfframpReason) OfframpOutcome × List OfframpEvent → Type 0
  Settles (ok out, after) =
      (after
        ≡ remit_entry (some out.treasury_remit_tx_signature)
          ∷ push_entry (some out.external_ref)
          ∷ burn_entry (some out.burn_tx_signature)
          ∷ log)
      × (out.burned_atomic ≡ amount)
      × (out.fee_atomic ≡ deps.fee_for amount)
      × (out.usd_cents_pushed ≡ cents_of deps amount)
  Settles (err (rejected burn_failed), after) = after ≡ burn_entry none ∷ log
  Settles (err (rejected push_failed_post_burn), after) =
      (sig : String) × (after
        ≡ flag_entry (some tt) ∷ push_entry none ∷ burn_entry (some sig) ∷ log)
  Settles (err (rejected _), after) = after ≡ log
  Settles (err uncaught, after) = IsUncaught after

  -- For a request that the guards accept: a success has burned the whole amount, then pushed the
  -- cents, then remitted the fee, each once. Nothing is pushed without a burn, a push that fails
  -- after the burn is flagged, and an error is only let through by the flag or by the remittance.
  pub execute_offramp-Settles :
      validate deps.fee_for req ≡ ok amount → Settles (execute_offramp platform req deps log)
  unfolding execute_offramp
  execute_offramp-Settles h =
      elim (Option-cases (deps.burn_on_chain log req.holder_token_account_pda amount)) [
        | inl e ↦ rw (h, e, execute_offramp) refl
        | inr (sig, e) ↦
            let log1 = burn_entry (some sig) ∷ log in
            elim (Option-cases (deps.push_usd log1 (cents_of deps amount) req.destination)) [
              | inl e1 ↦
                  let log2 = push_entry none ∷ log1 in
                  elim (Option-cases (
                    deps.flag_reconciliation log2 (offramp_id platform req amount) req.holder
                      amount)) [
                        | inl e2 ↦ rw (h, e, e1, e2, execute_offramp) (sig, inl refl)
                        | inr (u, e2) ↦ rw (h, e, e1, e2, execute_offramp) (sig, refl)
                      ]
              | inr (ref, e1) ↦
                  let log2 = push_entry (some ref) ∷ log1 in
                  elim (Option-cases (
                    deps.remit_to_treasury log2
                      (offramp_remit platform req amount (deps.fee_for amount)))) [
                        | inl e2 ↦ rw (h, e, e1, e2, execute_offramp) (sig, inr (ref, refl))
                        | inr (u, e2) ↦ rw (h, e, e1, e2, execute_offramp) (refl, refl, refl, refl)
                      ]
            ]
      ]

  pub execute_offramp_refused :
      (r : OfframpReason)
      → validate deps.fee_for req ≡ err r
      → execute_offramp platform req deps log ≡ (err (rejected r), log)
  unfolding execute_offramp
  execute_offramp_refused r h = rw h
