-- ===== src/Bank/Savings/Settlement.antt =====
-- Which calls the opening of a savings account makes, by how it ended.
use eto_mcp.Prelude.{
  refl, ◌⊎◌, none, false, true, inr, inl, ◌∷◌, Option-cases, some, Bool, Option, ◌≡◌, List,
}
use eto_mcp.Prelude.Result.{err, ok, Result}
use eto_mcp.Bank.Digest.{Sha256}
use eto_mcp.Bank.Savings.{
  OpenSavingsRequest, OpenSavingsReason, OpenSavingsDeps, OpenSavingsResult, Terms, SavingsEvent,
  verified, recorded, issued, validate, open_savings, savings_pda, account_of, credential_of,
  no_checking_credential,
}
use eto_mcp.Effects.{Failure, rejected, uncaught}

module _ (sha256 : Sha256) (req : OpenSavingsRequest) (deps : OpenSavingsDeps) (terms : Terms)
    (log : List SavingsEvent) where
  abbrev pub verify_entry : Option Bool → SavingsEvent
  verify_entry = verified req.subject req.linked_checking_account_pda

  abbrev pub record_entry : Option (Unit {0}) → SavingsEvent
  record_entry = recorded (savings_pda sha256 req) (account_of req terms)

  abbrev pub issue_entry : Option (Unit {0}) → SavingsEvent
  issue_entry = issued (credential_of sha256 req terms)

  -- The history of calls, by how the request ended.
  abbrev pub Settles :
      Result (Failure OpenSavingsReason) OpenSavingsResult × List SavingsEvent → Type 0
  Settles (ok out, after) =
      (after ≡ issue_entry (some tt) ∷ record_entry (some tt) ∷ verify_entry (some true) ∷ log)
      × (out.savings_account_pda ≡ savings_pda sha256 req)
      × (out.credential ≡ credential_of sha256 req terms)
  Settles (err (rejected no_checking_credential), after) = after ≡ verify_entry (some false) ∷ log
  Settles (err (rejected _), after) = after ≡ log
  Settles (err uncaught, after) =
      (after ≡ verify_entry none ∷ log)
      ⊎ ((after ≡ record_entry none ∷ verify_entry (some true) ∷ log)
          ⊎ (after ≡ issue_entry none ∷ record_entry (some tt) ∷ verify_entry (some true) ∷ log))

  -- For a request that the guards accept: a credential is issued only to the holder of a checking
  -- credential whose savings account is recorded. An error of any call is let through; if it is the
  -- issuance that throws, the account stays recorded and nothing undoes it.
  pub open_savings-Settles : validate req ≡ ok terms → Settles (open_savings sha256 req deps log)
  unfolding open_savings
  open_savings-Settles h =
      elim (Option-cases
        (deps.verify_checking_credential log req.subject req.linked_checking_account_pda)) [
          | inl e ↦ rw (h, e, open_savings) (inl refl)
          | inr (false, e) ↦ rw (h, e, open_savings) refl
          | inr (true, e) ↦
              let log1 = verify_entry (some true) ∷ log in
              elim (Option-cases (
                deps.record_savings_account log1 (savings_pda sha256 req) (account_of req terms))) [
                  | inl e1 ↦ rw (h, e, e1, open_savings) (inr (inl refl))
                  | inr (_, e1) ↦
                      elim (Option-cases (
                        deps.issue_savings_credential (record_entry (some tt) ∷ log1)
                          (credential_of sha256 req terms))) [
                            | inl e2 ↦ rw (h, e, e1, e2, open_savings) (inr (inr refl))
                            | inr (_, e2) ↦ rw (h, e, e1, e2, open_savings) (refl, refl, refl)
                          ]
                ]
        ]

  pub open_savings_refused :
      (r : OpenSavingsReason)
      → validate req ≡ err r
      → open_savings sha256 req deps log ≡ (err (rejected r), log)
  unfolding open_savings
  open_savings_refused r h = rw h
