-- ===== src/Issuers/Worldcoin/Checks.antt =====
-- The configuration of src/issuers/worldcoin.ts, its checks of the outside answers, and the
-- document that it pins.
use eto_mcp.Issuers.Worldcoin.Types.{
  nullifier_bound_to_other_card, verification_level_mismatch, action_mismatch, IssueResponse,
  invalid_id_token, proof_rejected, orb, device, normalize_hex, IssuerError, IssuerErrorCode,
  VerificationLevel, NullifierBinding, VerifiedIdToken, CloudVerifyResult, IssueRequest,
}
use eto_mcp.Prelude.{
  if◌then◌else◌, Bool, true, false, not, Option, some, none, String, ℕ, List, ◌∷◌, [], ◌/◌,
  or_default,
}
use eto_mcp.Prelude.Number.{le_nat}
use eto_mcp.Prelude.Text.{str_eq}
use eto_mcp.Prelude.Json.{Json, str, arr, obj, Items, nil, cons, end, field}
use eto_mcp.Prelude.Result.{Result, ok, err, refuse_if, ◌>>◌}
use eto_mcp.Effects.{Failure, rejected}

abbrev pub verified_human_schema_tag : String
verified_human_schema_tag = "eto.beckn.schema.verified-human.v1"

abbrev pub verified_human_action : String
verified_human_action = "eto.verified-human.v1"

abbrev pub worldcoin_issuer_url : String
worldcoin_issuer_url = "https://id.worldcoin.org"

pub record IssuerConfig : Type 0 where
  pub app_id : String
  pub issuer_url : Option String
  pub issuer_did : String
  pub min_verification_level : Option VerificationLevel

-- The configuration, and what the platform and the injected hasher compute.
pub record Issuer : Type 0 where
  pub cfg : IssuerConfig
  pub sha256 : List ℕ → String
  pub hash : Json → String
  pub to_iso_string : ℕ → String

abbrev pub same_level : VerificationLevel → VerificationLevel → Bool
same_level orb orb = true
same_level device device = true
same_level _ _ = false

unfoldable pub satisfies_level : VerificationLevel → VerificationLevel → Bool
satisfies_level actual device = true
satisfies_level actual orb = same_level actual orb

abbrev pub level_text : VerificationLevel → String
level_text orb = "orb"
level_text device = "device"

abbrev pub texts : List String → Items
texts [] = nil
texts (s ∷ ss) = cons (str s) (texts ss)

abbrev pub verified_human_vc_context : List String
verified_human_vc_context =
    "https://www.w3.org/2018/credentials/v1" ∷ "https://schema.eto.dev/verified-human/v1" ∷ []

unfoldable pub build_verified_human_vc : Issuer → IssueRequest → VerificationLevel → String → Json
build_verified_human_vc issuer req level issuance_date = obj (
    field "@context" (arr (texts verified_human_vc_context)) (
      field "type" (arr (texts ("VerifiableCredential" ∷ "VerifiedHumanCredential" ∷ []))) (
        field "issuer" (str issuer.cfg.issuer_did) (
          field "issuanceDate" (str issuance_date) (
            field "credentialSubject"
              (obj (
                field "id"
                  (str (Prim.Native.String.◌++◌ "did:eto:agentcard:" req.agent_card_pubkey))
                  (field "verificationLevel" (str (level_text level)) (
                    field "worldIdAction" (str verified_human_action) (
                      field "worldIdNullifierHash" (str (normalize_hex req.nullifier_hash))
                        (field "worldIdMerkleRoot" (str (normalize_hex req.merkle_root)) end))))))
              end)))))

abbrev pub error : IssuerErrorCode → ℕ → IssuerError
error code status = record { code = code; status = status }

-- The claims of an id token against the configuration and the clock, in milliseconds.
unfoldable pub check_id_token : IssuerConfig → ℕ → VerifiedIdToken → Result IssuerError (Unit {0})
check_id_token cfg now token = do
  refuse_if (not (str_eq token.iss (or_default cfg.issuer_url worldcoin_issuer_url)))
      (error invalid_id_token 401)
  refuse_if (not (str_eq token.aud cfg.app_id)) (error invalid_id_token 401)
  refuse_if (le_nat token.exp (now / 1000)) (error invalid_id_token 401)

abbrev pub below_level : Option VerificationLevel → VerificationLevel → Bool
below_level none actual = false
below_level (some required) actual = not (satisfies_level actual required)

-- What the cloud verifier attests, against the request and the configuration.
unfoldable pub check_proof :
    IssuerConfig → IssueRequest → CloudVerifyResult → Result IssuerError (Unit {0})
unfolding satisfies_level
check_proof cfg req cloud = do
  refuse_if (not (str_eq (normalize_hex cloud.nullifier_hash) (normalize_hex req.nullifier_hash)))
      (error proof_rejected 400)
  refuse_if (not (str_eq cloud.action verified_human_action)) (error action_mismatch 400)
  refuse_if (below_level cfg.min_verification_level cloud.verification_level)
      (error verification_level_mismatch 403)
  refuse_if (not (same_level cloud.verification_level req.verification_level))
      (error verification_level_mismatch 400)

-- The answer from a binding that is there already.
unfoldable pub bound_answer :
    IssueRequest → NullifierBinding → Result (Failure IssuerError) IssueResponse
bound_answer req existing =
    if str_eq existing.agent_card_pubkey req.agent_card_pubkey
    then ok (record {
      credential_pda = existing.credential_pda;
      tx_signature = existing.tx_signature;
      claim_uri = existing.claim_uri;
      claim_hash = existing.claim_hash;
      idempotent = true;
    })
    else err (rejected (error nullifier_bound_to_other_card 409))
