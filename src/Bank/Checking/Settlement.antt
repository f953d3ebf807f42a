-- ===== src/Bank/Checking/Settlement.antt =====
-- Which calls the opening of a checking account makes, by how it ended.
use eto_mcp.Prelude.{
  refl, none, false, true, inr, inl, ◌∷◌, some, Option-cases, Bool, Option, ◌≡◌, List, ℕ,
}
use eto_mcp.Prelude.Result.{ok, err, Result}
use eto_mcp.Bank.Digest.{Sha256}
use eto_mcp.Bank.Auth.{AuthenticatedRequest}
use eto_mcp.Bank.Checking.{
  OpenCheckingRequest, OpenCheckingReason, OpenCheckingDeps, OpenCheckingResult, CheckingEvent,
  verified, recorded, issued, flagged, validate, open_checking, checking_pda, account_of,
  credential_of, required_schemas, credentials_missing, issue_failed, ledger_failed,
}
use eto_mcp.Effects.{Failure, rejected, uncaught}

module _ (sha256 : Sha256) (req : AuthenticatedRequest OpenCheckingRequest)
    (deps : OpenCheckingDeps) (opening : ℕ) (log : List CheckingEvent) where
  abbrev pub verify_entry : Option Bool → CheckingEvent
  verify_entry = verified req.body.subject required_schemas

  abbrev pub record_entry : Option (Unit {0}) → CheckingEvent
  record_entry = recorded (checking_pda sha256 req.body) (account_of req.body opening)

  abbrev pub issue_entry : Option (Unit {0}) → CheckingEvent
  issue_entry = issued (credential_of sha256 req.body opening)

  abbrev pub flag_entry : Option (Unit {0}) → CheckingEvent
  flag_entry = flagged (checking_pda sha256 req.body) (account_of req.body opening)

  -- The history of calls, by how the request ended.
  abbrev pub Settles :
      Result (Failure OpenCheckingReason) OpenCheckingResult × List CheckingEvent → Type 0
  Settles (ok out, after) =
      (after ≡ issue_entry (some tt) ∷ record_entry (some tt) ∷ verify_entry (some true) ∷ log)
      × (out.checking_account_pda ≡ checking_pda sha256 req.body)
      × (out.credential ≡ credential_of sha256 req.body opening)
  Settles (err (rejected credentials_missing), after) = after ≡ verify_entry (some false) ∷ log
  Settles (err (rejected ledger_failed), after) =
      after ≡ record_entry none ∷ verify_entry (some true) ∷ log
  Settles (err (rejected issue_failed), after) =
      (flag : Option (Unit {0})) × (after
        ≡ flag_entry flag
          ∷ issue_entry none
          ∷ record_entry (some tt)
          ∷ verify_entry (some true)
          ∷ log)
  Settles (err (rejected _), after) = after ≡ log
  Settles (err uncaught, after) = after ≡ verify_entry none ∷ log

  -- For a request that the guards accept: a credential is issued only for a verified holder and a
  -- recorded account. A recorded account whose credential was refused is flagged under the same
  -- address and with the same body. Only the verification lets an error through.
  pub open_checking-Settles :
      validate req ≡ ok opening → Settles (open_checking sha256 req deps log)
  unfolding open_checking
  open_checking-Settles h =
      elim (Option-cases (deps.verify_holder_credentials log req.body.subject required_schemas)) [
        | inl e ↦ rw (h, e, open_checking) refl
        | inr (false, e) ↦ rw (h, e, open_checking) refl
        | inr (true, e) ↦
            let log1 = verify_entry (some true) ∷ log in
            elim (Option-cases (
              deps.record_checking_account log1 (checking_pda sha256 req.body)
                (account_of req.body opening))) [
                  | inl e1 ↦ rw (h, e, e1, open_checking) refl
                  | inr (_, e1) ↦
                      elim (Option-cases (
                        deps.issue_checking_credential (record_entry (some tt) ∷ log1)
                          (credential_of sha256 req.body opening))) [
                            | inl e2 ↦ rw (h, e, e1, e2, open_checking) (_, refl)
                            | inr (_, e2) ↦ rw (h, e, e1, e2, open_checking) (refl, refl, refl)
                          ]
                ]
      ]

  pub open_checking_refused :
      (r : OpenCheckingReason)
      → validate req ≡ err r
      → open_checking sha256 req deps log ≡ (err (rejected r), log)
  unfolding open_checking
  open_checking_refused r h = rw h
