-- ===== src/Issuers/Worldcoin.antt =====
-- src/issuers/worldcoin.ts: a Worldcoin proof is checked and a verified-human credential is issued
-- to an agent card. `issue` is cut at its awaits: a stage says what a request waits for, and
-- `resume` runs it from there to its next await, with the in-memory store of nullifiers and the
-- credentials that the chain has issued as the shared state.
-- A call of the chain that throws has issued nothing: a timeout of the confirmation after the
-- transaction was taken is not represented.
pub mod Types
pub mod Store
pub mod Checks
pub mod Termination
pub mod Uniqueness
pub mod Concurrency
pub mod Convergence
mod Fixtures
pub mod Claims
pub mod Gates
mod Tests
mod RaceTests
unfoldable pub use Types.*
unfoldable pub use Store.*
unfoldable pub use Checks.*
use eto_mcp.Prelude.{
  if◌then◌else◌, Bool, true, false, Option, some, none, String, ℕ, zero, suc, List, ◌∷◌, [],
}
use eto_mcp.Prelude.Text.{utf8, codes, starts_with}
use eto_mcp.Prelude.Json.{Json}
use eto_mcp.Prelude.Result.{Result, ok, err}
use eto_mcp.Effects.{Failure, rejected, uncaught}

-- The cloud verifier's own rejections are issuer errors already, any other error is an outage.
pub data CloudAnswer : Type 0 where
  attested : CloudVerifyResult → CloudAnswer
  refused : IssuerError → CloudAnswer
  outage : CloudAnswer

-- What the clock and the dependencies answer when a request is resumed; `none` is a call that
-- throws.
pub record Answers : Type 0 where
  pub now : ℕ
  pub id_token : Option VerifiedIdToken
  pub signature : Option Bool
  pub cloud : CloudAnswer
  pub pin : Option String
  pub chain : Option IssueCredentialResult

pub data Stage : Type 0 where
  verifying_token verifying_signature reading_store verifying_proof : Stage
  pinning : String → Stage
  issuing_credential : IssueCredentialArgs → Stage
  putting : NullifierBinding → Stage
  rereading : Stage
  settled : Result (Failure IssuerError) IssueResponse → Stage

-- A credential on the chain, with the nullifier of the request that it was issued for.
pub record Credential : Type 0 where
  pub nullifier_hash : String
  pub args : IssueCredentialArgs
  pub result : IssueCredentialResult

pub record Shared : Type 0 where
  pub store : NullifierStore
  pub issued : List Credential

abbrev fail : IssuerErrorCode → ℕ → Stage
fail code status = settled (err (rejected (error code status)))

abbrev stage_of : Result IssuerError (Unit {0}) → Stage → Stage
stage_of (ok _) stage = stage
stage_of (err e) stage = settled (err (rejected e))

unfoldable pub after_token : Issuer → ℕ → Option VerifiedIdToken → Stage
after_token issuer now none = fail invalid_id_token 401
after_token issuer now (some token) =
    stage_of (check_id_token issuer.cfg now token) verifying_signature

unfoldable pub after_signature : Option Bool → Stage
after_signature none = settled (err uncaught)
after_signature (some false) = fail invalid_agent_card_signature 401
after_signature (some true) = reading_store

unfoldable pub after_get : IssueRequest → Option NullifierBinding → Stage
after_get req (some existing) = settled (bound_answer req existing)
after_get req none = verifying_proof

-- The hash of the document is taken before it is pinned.
unfoldable pub after_proof : Issuer → ℕ → IssueRequest → CloudAnswer → Stage
after_proof issuer now req (refused e) = settled (err (rejected e))
after_proof issuer now req outage = fail upstream_outage 503
after_proof issuer now req (attested cloud) = stage_of (check_proof issuer.cfg req cloud) (
    pinning (
      issuer.hash
        (build_verified_human_vc issuer req cloud.verification_level (issuer.to_iso_string now))))

unfoldable pub after_pin : Issuer → IssueRequest → String → Option String → Stage
after_pin issuer req claim_hash none = settled (err uncaught)
after_pin issuer req claim_hash (some claim_uri) =
    if starts_with (codes claim_uri) (codes "ipfs://")
    then issuing_credential (record {
      schema = issuer.sha256 (utf8 verified_human_schema_tag);
      subject_agent_card = req.agent_card_pubkey;
      claim_hash = claim_hash;
      claim_uri = claim_uri;
      valid_until_slot = 0;
    })
    else fail chain_tx_failed 500

abbrev binding_of :
    ℕ → IssueRequest → IssueCredentialArgs → IssueCredentialResult → NullifierBinding
binding_of now req args result = record {
  nullifier_hash = normalize_hex req.nullifier_hash;
  agent_card_pubkey = req.agent_card_pubkey;
  credential_pda = result.credential_pda;
  tx_signature = result.tx_signature;
  claim_uri = args.claim_uri;
  claim_hash = args.claim_hash;
  issued_at_ms = now;
}

unfoldable pub after_issue :
    ℕ → IssueRequest → IssueCredentialArgs → Option IssueCredentialResult → Stage
after_issue now req args none = fail chain_tx_failed 502
after_issue now req args (some result) = putting (binding_of now req args result)

unfoldable pub after_put : NullifierBinding → Option NullifierStore → Stage
after_put binding none = rereading
after_put binding (some store) = settled (
    ok (record {
      credential_pda = binding.credential_pda;
      tx_signature = binding.tx_signature;
      claim_uri = binding.claim_uri;
      claim_hash = binding.claim_hash;
      idempotent = false;
    }))

unfoldable pub after_reread : IssueRequest → Option NullifierBinding → Stage
after_reread req none = fail chain_tx_failed 500
after_reread req (some canonical) = settled (bound_answer req canonical)

-- What the chain has issued after its answer; a call that throws has issued nothing.
abbrev on_chain :
    IssueRequest → IssueCredentialArgs → Option IssueCredentialResult → Shared → Shared
on_chain req args none shared = shared
on_chain req args (some result) shared = record shared {
  issued =
      record { nullifier_hash = req.nullifier_hash; args = args; result = result } ∷ shared.issued;
}

abbrev stored : Option NullifierStore → Shared → Shared
stored none shared = shared
stored (some store) shared = record shared { store = store }

-- From one await to the next.
unfoldable pub resume : Issuer → Answers → IssueRequest → Stage → Shared → Stage × Shared
resume issuer a req verifying_token shared = (after_token issuer a.now a.id_token, shared)
resume issuer a req verifying_signature shared = (after_signature a.signature, shared)
resume issuer a req reading_store shared =
    (after_get req (get_binding (normalize_hex req.nullifier_hash) shared.store), shared)
resume issuer a req verifying_proof shared = (after_proof issuer a.now req a.cloud, shared)
resume issuer a req (pinning claim_hash) shared = (after_pin issuer req claim_hash a.pin, shared)
resume issuer a req (issuing_credential args) shared =
    (after_issue a.now req args a.chain, on_chain req args a.chain shared)
resume issuer a req (putting binding) shared =
    let put = put_binding binding shared.store in (after_put binding put, stored put shared)
resume issuer a req rereading shared =
    (after_reread req (get_binding (normalize_hex req.nullifier_hash) shared.store), shared)
resume issuer a req (settled r) shared = (settled r, shared)

-- From a stage on, with the answers at each await and no other request in between.
unfoldable pub run : Issuer → List Answers → IssueRequest → Stage → Shared → Stage × Shared
run issuer [] req stage shared = (stage, shared)
run issuer (a ∷ answers) req stage shared =
    let (stage', shared') = resume issuer a req stage shared in
    run issuer answers req stage' shared'

unfoldable pub issue : Issuer → List Answers → IssueRequest → Shared → Stage × Shared
issue issuer answers req shared = run issuer answers req verifying_token shared

-- Requests one after the other.
unfoldable pub issue_all : Issuer → List (List Answers × IssueRequest) → Shared → Shared
issue_all issuer [] shared = shared
issue_all issuer ((answers, req) ∷ calls) shared =
    issue_all issuer calls (issue issuer answers req shared).1
