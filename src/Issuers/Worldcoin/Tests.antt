-- ===== src/Issuers/Worldcoin/Tests.antt =====
-- Runs of the Worldcoin issuer, and its theorems at concrete inputs.
use eto_mcp.Issuers.Worldcoin.{
  normalize_hex, resume, Issuer, Answers, IssueRequest, IssueResponse, Shared, NullifierBinding,
  VerifiedIdToken, IssuerError, attested, orb, settled, issue, error, nullifier_bound_to_other_card,
  issue_all, get_binding, Stage, verifying_token,
}
use eto_mcp.Prelude.Dict.{lookup}
use eto_mcp.Prelude.{inl, inr, ◌≡◌, refl, none, some, arith, List, [], ◌∷◌, String, true, false}
use eto_mcp.Prelude.Result.{ok, err}
use eto_mcp.Effects.{rejected}
use eto_mcp.Issuers.Worldcoin.Uniqueness.{IsUnique, issue_all-IsUnique}
use eto_mcp.Issuers.Worldcoin.Gates.{issue_fresh-IsProved, IsAuthenticated, IsProved}
use eto_mcp.Issuers.Worldcoin.Fixtures.{issuer, request, good, eight, empty, fresh}

issued_once : (issue issuer eight (request "one") empty).0 ≡ settled (ok fresh)
unfolding eto_mcp.Issuers.Worldcoin.issue eto_mcp.Issuers.Worldcoin.run
    eto_mcp.Issuers.Worldcoin.resume eto_mcp.Issuers.Worldcoin.after_token
    eto_mcp.Issuers.Worldcoin.check_id_token eto_mcp.Issuers.Worldcoin.after_signature
    eto_mcp.Issuers.Worldcoin.after_get eto_mcp.Issuers.Worldcoin.get_binding
    eto_mcp.Issuers.Worldcoin.after_proof eto_mcp.Issuers.Worldcoin.satisfies_level
    eto_mcp.Issuers.Worldcoin.check_proof eto_mcp.Issuers.Worldcoin.normalize_hex
    eto_mcp.Issuers.Worldcoin.after_pin eto_mcp.Issuers.Worldcoin.after_issue
    eto_mcp.Issuers.Worldcoin.put_binding eto_mcp.Issuers.Worldcoin.after_put
    eto_mcp.Issuers.Worldcoin.after_reread eto_mcp.Issuers.Worldcoin.bound_answer
    eto_mcp.Prelude.Dict.lookup eto_mcp.Prelude.Dict.insert
issued_once = refl

issued_again :
    let shared = (issue issuer eight (request "one") empty).1 in
    (issue issuer eight (request "one") shared).0
    ≡ settled (ok (record fresh { idempotent = true }))
unfolding eto_mcp.Issuers.Worldcoin.issue eto_mcp.Issuers.Worldcoin.run
    eto_mcp.Issuers.Worldcoin.resume eto_mcp.Issuers.Worldcoin.after_token
    eto_mcp.Issuers.Worldcoin.check_id_token eto_mcp.Issuers.Worldcoin.after_signature
    eto_mcp.Issuers.Worldcoin.after_get eto_mcp.Issuers.Worldcoin.get_binding
    eto_mcp.Issuers.Worldcoin.after_proof eto_mcp.Issuers.Worldcoin.satisfies_level
    eto_mcp.Issuers.Worldcoin.check_proof eto_mcp.Issuers.Worldcoin.normalize_hex
    eto_mcp.Issuers.Worldcoin.after_pin eto_mcp.Issuers.Worldcoin.after_issue
    eto_mcp.Issuers.Worldcoin.put_binding eto_mcp.Issuers.Worldcoin.after_put
    eto_mcp.Issuers.Worldcoin.after_reread eto_mcp.Issuers.Worldcoin.bound_answer
    eto_mcp.Prelude.Dict.lookup eto_mcp.Prelude.Dict.insert
issued_again = refl

other_card :
    let shared = (issue issuer eight (request "one") empty).1 in
    (issue issuer eight (request "two") shared).0
    ≡ settled (err (rejected (error nullifier_bound_to_other_card 409)))
unfolding eto_mcp.Issuers.Worldcoin.issue eto_mcp.Issuers.Worldcoin.run
    eto_mcp.Issuers.Worldcoin.resume eto_mcp.Issuers.Worldcoin.after_token
    eto_mcp.Issuers.Worldcoin.check_id_token eto_mcp.Issuers.Worldcoin.after_signature
    eto_mcp.Issuers.Worldcoin.after_get eto_mcp.Issuers.Worldcoin.get_binding
    eto_mcp.Issuers.Worldcoin.after_proof eto_mcp.Issuers.Worldcoin.satisfies_level
    eto_mcp.Issuers.Worldcoin.check_proof eto_mcp.Issuers.Worldcoin.normalize_hex
    eto_mcp.Issuers.Worldcoin.after_pin eto_mcp.Issuers.Worldcoin.after_issue
    eto_mcp.Issuers.Worldcoin.put_binding eto_mcp.Issuers.Worldcoin.after_put
    eto_mcp.Issuers.Worldcoin.after_reread eto_mcp.Issuers.Worldcoin.bound_answer
    eto_mcp.Prelude.Dict.lookup eto_mcp.Prelude.Dict.insert
other_card = refl

issue_all-IsUnique_example :
    IsUnique (issue_all issuer ((eight, request "one") ∷ (eight, request "two") ∷ []) empty)
issue_all-IsUnique_example =
    issue_all-IsUnique issuer ((eight, request "one") ∷ (eight, request "two") ∷ []) empty
      (omega arith, (omega arith, tt)) (λ k. omega arith)

issue_fresh-IsProved_example :
    IsAuthenticated issuer (request "one") empty good good good good good good good good
    × IsProved issuer (request "one") good
    × (get_binding "ab" [] ≡ none)
unfolding eto_mcp.Issuers.Worldcoin.issue eto_mcp.Issuers.Worldcoin.run
    eto_mcp.Issuers.Worldcoin.resume eto_mcp.Issuers.Worldcoin.after_token
    eto_mcp.Issuers.Worldcoin.check_id_token eto_mcp.Issuers.Worldcoin.after_signature
    eto_mcp.Issuers.Worldcoin.after_get eto_mcp.Issuers.Worldcoin.get_binding
    eto_mcp.Issuers.Worldcoin.after_proof eto_mcp.Issuers.Worldcoin.satisfies_level
    eto_mcp.Issuers.Worldcoin.check_proof eto_mcp.Issuers.Worldcoin.normalize_hex
    eto_mcp.Issuers.Worldcoin.after_pin eto_mcp.Issuers.Worldcoin.after_issue
    eto_mcp.Issuers.Worldcoin.put_binding eto_mcp.Issuers.Worldcoin.after_put
    eto_mcp.Issuers.Worldcoin.after_reread eto_mcp.Issuers.Worldcoin.bound_answer
    eto_mcp.Prelude.Dict.lookup eto_mcp.Prelude.Dict.insert
issue_fresh-IsProved_example =
    issue_fresh-IsProved issuer (request "one") empty good good good good good good good good fresh
      refl refl
