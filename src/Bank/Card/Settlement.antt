-- ===== src/Bank/Card/Settlement.antt =====
-- Which calls the issuing of a card makes, by how it ended.
use eto_mcp.Prelude.{
  refl, ◌⊎◌, inr, none, inl, false, Option-cases, ◌∷◌, Bool, true, ◌≡◌, some, Option, List,
}
use eto_mcp.Prelude.Result.{ok, err, Result}
use eto_mcp.Bank.Digest.{Sha256}
use eto_mcp.Bank.Auth.{AuthenticatedRequest}
use eto_mcp.Bank.Card.{
  IssueCardRequest, IssueCardReason, IssueCardDeps, IssueCardResult, Limits, CardEvent, verified,
  linked, recorded, issued, flagged, validate, issue_card, card_pda, card_of, credential_of,
  required_schemas, credentials_missing, account_not_found, issue_failed, ledger_failed,
}
use eto_mcp.Effects.{Failure, rejected, uncaught}

module _ (sha256 : Sha256) (req : AuthenticatedRequest IssueCardRequest) (deps : IssueCardDeps)
    (limits : Limits) (log : List CardEvent) where
  abbrev pub verify_entry : Option Bool → CardEvent
  verify_entry = verified req.body.subject required_schemas

  abbrev pub link_entry : Option Bool → CardEvent
  link_entry = linked req.body.linked_account_pda req.body.subject

  abbrev pub record_entry : Option (Unit {0}) → CardEvent
  record_entry = recorded (card_pda sha256 req.body) (card_of sha256 req.body limits)

  abbrev pub issue_entry : Option (Unit {0}) → CardEvent
  issue_entry = issued (credential_of sha256 req.body limits)

  abbrev pub flag_entry : Option (Unit {0}) → CardEvent
  flag_entry = flagged (card_pda sha256 req.body) req.body.subject (card_of sha256 req.body limits)

  -- The history behind the two gates.
  abbrev pub admitted : List CardEvent
  admitted = link_entry (some true) ∷ verify_entry (some true) ∷ log

  -- The history of calls, by how the request ended.
  abbrev pub Settles : Result (Failure IssueCardReason) IssueCardResult × List CardEvent → Type 0
  Settles (ok out, after) =
      (after ≡ issue_entry (some tt) ∷ record_entry (some tt) ∷ admitted)
      × (out.card_pda ≡ card_pda sha256 req.body)
      × (out.credential ≡ credential_of sha256 req.body limits)
  Settles (err (rejected credentials_missing), after) = after ≡ verify_entry (some false) ∷ log
  Settles (err (rejected account_not_found), after) =
      after ≡ link_entry (some false) ∷ verify_entry (some true) ∷ log
  Settles (err (rejected ledger_failed), after) = after ≡ record_entry none ∷ admitted
  Settles (err (rejected issue_failed), after) =
      (flag : Option (Unit {0})) × (after
        ≡ flag_entry flag ∷ issue_entry none ∷ record_entry (some tt) ∷ admitted)
  Settles (err (rejected _), after) = after ≡ log
  Settles (err uncaught, after) =
      (after ≡ verify_entry none ∷ log) ⊎ (after ≡ link_entry none ∷ verify_entry (some true) ∷ log)

  -- For a request that the guards accept: a credential is issued only behind both gates and for a
  -- recorded card. A recorded card whose credential was refused is flagged with the same address
  -- and body. Only the gates let an error through.
  pub issue_card-Settles : validate req ≡ ok limits → Settles (issue_card sha256 req deps log)
  unfolding issue_card
  issue_card-Settles h =
      elim (Option-cases (deps.verify_holder_credentials log req.body.subject required_schemas)) [
        | inl e ↦ rw (h, e, issue_card) (inl refl)
        | inr (false, e) ↦ rw (h, e, issue_card) refl
        | inr (true, e) ↦
            elim (Option-cases (
              deps.verify_linked_account (verify_entry (some true) ∷ log)
                req.body.linked_account_pda req.body.subject)) [
                  | inl e1 ↦ rw (h, e, e1, issue_card) (inr refl)
                  | inr (false, e1) ↦ rw (h, e, e1, issue_card) refl
                  | inr (true, e1) ↦
                      elim (Option-cases (
                        deps.record_card admitted (card_pda sha256 req.body)
                          (card_of sha256 req.body limits))) [
                            | inl e2 ↦ rw (h, e, e1, e2, issue_card) refl
                            | inr (_, e2) ↦
                                elim (Option-cases (
                                  deps.issue_card_credential (record_entry (some tt) ∷ admitted)
                                    (credential_of sha256 req.body limits))) [
                                      | inl e3 ↦ rw (h, e, e1, e2, e3, issue_card) (_, refl)
                                      | inr (_, e3) ↦
                                          rw (h, e, e1, e2, e3, issue_card) (refl, refl, refl)
                                    ]
                          ]
                ]
      ]

  pub issue_card_refused :
      (r : IssueCardReason)
      → validate req ≡ err r
      → issue_card sha256 req deps log ≡ (err (rejected r), log)
  unfolding issue_card
  issue_card_refused r h = rw h
