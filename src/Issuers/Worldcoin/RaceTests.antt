-- ===== src/Issuers/Worldcoin/RaceTests.antt =====
-- Requests that interleave, and the theorems on them at concrete inputs.
use eto_mcp.Issuers.Worldcoin.{
  normalize_hex, resume, Issuer, Answers, IssueRequest, IssueResponse, Shared, NullifierBinding,
  VerifiedIdToken, IssuerError, attested, orb, settled, issue, error, nullifier_bound_to_other_card,
  issue_all, get_binding, Stage, verifying_token,
}
use eto_mcp.Prelude.Dict.{lookup}
use eto_mcp.Prelude.{inl, inr, ◌≡◌, refl, none, some, arith, List, [], ◌∷◌, String, true, false}
use eto_mcp.Issuers.Worldcoin.Uniqueness.{store_key, issued_for}
use eto_mcp.Issuers.Worldcoin.Concurrency.{World, Reach, here, next, arrive, Reach-run}
use eto_mcp.Issuers.Worldcoin.Convergence.{Reach-converges}
use eto_mcp.Issuers.Worldcoin.Fixtures.{issuer, request, good, eight, empty, fresh, bound}

abbrev start : World
start = record { shared = empty; tasks = [] }

abbrev five : List Answers
five = good ∷ good ∷ good ∷ good ∷ good ∷ []

-- The first request of a card, run to its end.
abbrev after_one : Stage × Shared
after_one = issue issuer eight (request "one") empty

abbrev after_two : Stage × Shared
after_two = issue issuer eight (request "one") after_one.1

abbrev both : World
both = record {
  shared = after_two.1;
  tasks = (request "one", after_one.0) ∷ (request "one", after_two.0) ∷ [];
}

both_reached : Reach issuer start both
unfolding issue
both_reached =
    let first =
      Reach-run issuer eight start [] [] (request "one") verifying_token empty
        (next here (arrive start (request "one"))) in
    Reach-run issuer eight start ((request "one", after_one.0) ∷ []) [] (request "one")
      verifying_token after_one.1 (next first (arrive _ (request "one")))

abbrev first_world : World
first_world = record { shared = after_one.1; tasks = (request "one", after_one.0) ∷ [] }

second_reached : Reach issuer first_world both
unfolding issue
second_reached =
    Reach-run issuer eight first_world ((request "one", after_one.0) ∷ []) [] (request "one")
      verifying_token after_one.1 (next here (arrive first_world (request "one")))

Reach-converges_example :
    ((request "one").agent_card_pubkey ≡ (request "one").agent_card_pubkey)
    × (fresh.credential_pda ≡ bound.credential_pda)
    × (fresh.tx_signature ≡ bound.tx_signature)
    × (fresh.claim_uri ≡ bound.claim_uri)
    × (fresh.claim_hash ≡ bound.claim_hash)
unfolding eto_mcp.Issuers.Worldcoin.issue eto_mcp.Issuers.Worldcoin.run
    eto_mcp.Issuers.Worldcoin.resume eto_mcp.Issuers.Worldcoin.after_token
    eto_mcp.Issuers.Worldcoin.check_id_token eto_mcp.Issuers.Worldcoin.after_signature
    eto_mcp.Issuers.Worldcoin.after_get eto_mcp.Issuers.Worldcoin.get_binding
    eto_mcp.Issuers.Worldcoin.after_proof eto_mcp.Issuers.Worldcoin.satisfies_level
    eto_mcp.Issuers.Worldcoin.check_proof eto_mcp.Issuers.Worldcoin.normalize_hex
    eto_mcp.Issuers.Worldcoin.after_pin eto_mcp.Issuers.Worldcoin.after_issue
    eto_mcp.Issuers.Worldcoin.put_binding eto_mcp.Issuers.Worldcoin.after_put
    eto_mcp.Issuers.Worldcoin.after_reread eto_mcp.Issuers.Worldcoin.bound_answer
    eto_mcp.Prelude.Dict.lookup eto_mcp.Prelude.Dict.insert
Reach-converges_example =
    Reach-converges issuer empty both (request "one") (request "one") fresh
      (record fresh { idempotent = true }) both_reached (inl refl) (inr (inl refl)) refl

-- Two cards race with one nullifier: both get a credential on the chain, and only then the second
-- is refused.
raced : (w : World) × Reach issuer start w × (issued_for (store_key "0xAB") w.shared.issued ≡ 2)
unfolding eto_mcp.Issuers.Worldcoin.issue eto_mcp.Issuers.Worldcoin.run
    eto_mcp.Issuers.Worldcoin.resume eto_mcp.Issuers.Worldcoin.after_token
    eto_mcp.Issuers.Worldcoin.check_id_token eto_mcp.Issuers.Worldcoin.after_signature
    eto_mcp.Issuers.Worldcoin.after_get eto_mcp.Issuers.Worldcoin.get_binding
    eto_mcp.Issuers.Worldcoin.after_proof eto_mcp.Issuers.Worldcoin.satisfies_level
    eto_mcp.Issuers.Worldcoin.check_proof eto_mcp.Issuers.Worldcoin.normalize_hex
    eto_mcp.Issuers.Worldcoin.after_pin eto_mcp.Issuers.Worldcoin.after_issue
    eto_mcp.Issuers.Worldcoin.put_binding eto_mcp.Issuers.Worldcoin.after_put
    eto_mcp.Issuers.Worldcoin.after_reread eto_mcp.Issuers.Worldcoin.bound_answer
    eto_mcp.Prelude.Dict.lookup eto_mcp.Prelude.Dict.insert
raced =
    let come = next (next here (arrive start (request "one"))) (arrive _ (request "two")) in
    let one = Reach-run issuer five start [] _ (request "one") verifying_token empty come in
    let two = Reach-run issuer five start (_ ∷ []) [] (request "two") verifying_token empty one in
    let one' = Reach-run issuer (good ∷ good ∷ []) start [] _ (request "one") _ _ two in
    (_, Reach-run issuer (good ∷ good ∷ good ∷ []) start (_ ∷ []) [] (request "two") _ _ one', refl)
