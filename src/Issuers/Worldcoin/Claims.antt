-- ===== src/Issuers/Worldcoin/Claims.antt =====
-- What the checks of an id token and of a proof leave true.
use eto_mcp.Issuers.Worldcoin.{
  verification_level_mismatch, action_mismatch, below_level, proof_rejected, invalid_id_token,
  satisfies_level, error, IssuerError, IssueRequest, CloudVerifyResult, VerifiedIdToken,
  check_id_token, check_proof, normalize_hex, IssuerConfig, VerificationLevel, orb, device,
  same_level, worldcoin_issuer_url, verified_human_action,
}
use eto_mcp.Prelude.{
  Option, String, ◌≡◌, refl, none, some, true, false, ℕ, ◌/◌, or_default, not, Bool,
}
use eto_mcp.Prelude.Number.{le_nat}
use eto_mcp.Prelude.Text.{str_eq, str_eq_iff}
use eto_mcp.Prelude.Result.{ok, after, passed, refuse_if}

not_refused : (b : Bool) → not b ≡ false → b ≡ true
not_refused true h = refl
not_refused false h = cc

-- The claims of an id token: World ID issued it for this application, and it expires after the clock.
abbrev pub IsTokenFor : IssuerConfig → ℕ → VerifiedIdToken → Type 0
IsTokenFor cfg now token =
    (token.iss ≡ or_default cfg.issuer_url worldcoin_issuer_url)
    × (token.aud ≡ cfg.app_id)
    × (le_nat token.exp (now / 1000) ≡ false)

-- An attested proof: it is for the nullifier, the action and the level of the request, and by an orb
-- where the configuration wants one.
abbrev pub IsProofFor : IssuerConfig → IssueRequest → CloudVerifyResult → Type 0
IsProofFor cfg req cloud =
    (normalize_hex cloud.nullifier_hash ≡ normalize_hex req.nullifier_hash)
    × (cloud.action ≡ verified_human_action)
    × (cfg.min_verification_level ≡ some orb → cloud.verification_level ≡ orb)
    × (cloud.verification_level ≡ req.verification_level)

equal_texts :
    {E : Type 0} (a b : String) (e : E) (u : Unit {0})
    → refuse_if (not (str_eq a b)) e ≡ ok u
    → a ≡ b
equal_texts a b e u h =
    (str_eq_iff a b).0 (not_refused (str_eq a b) (passed (not (str_eq a b)) e u h))

pub token_checked :
    (cfg : IssuerConfig) (now : ℕ) (token : VerifiedIdToken)
    → check_id_token cfg now token ≡ ok tt
    → IsTokenFor cfg now token
unfolding check_id_token
token_checked cfg now token h =
    let P : Unit {0} → Type 0 = λ u. IsTokenFor cfg now token in
    let bad : IssuerError = error invalid_id_token 401 in
    let url = or_default cfg.issuer_url worldcoin_issuer_url in
    after P (refuse_if (not (str_eq token.iss url)) bad) _
      (λ u1 e1. after P (refuse_if (not (str_eq token.aud cfg.app_id)) bad) _ (λ u2 e2 u3 e3. (
        equal_texts token.iss url bad u1 e1,
        equal_texts token.aud cfg.app_id bad u2 e2,
        passed (le_nat token.exp (now / 1000)) bad u3 e3,
      )))
      tt h

same_levels : (a b : VerificationLevel) → same_level a b ≡ true → a ≡ b
same_levels orb orb h = refl
same_levels device device h = refl
same_levels orb device h = cc
same_levels device orb h = cc

orb_wanted :
    (wanted : Option VerificationLevel) (level : VerificationLevel)
    → below_level wanted level ≡ false
    → wanted ≡ some orb
    → level ≡ orb
unfolding satisfies_level
orb_wanted none level h w = cc
orb_wanted (some device) level h w = cc
orb_wanted (some orb) orb h w = refl
orb_wanted (some orb) device h w = cc

pub proof_checked :
    (cfg : IssuerConfig) (req : IssueRequest) (cloud : CloudVerifyResult)
    → check_proof cfg req cloud ≡ ok tt
    → IsProofFor cfg req cloud
unfolding check_proof
proof_checked cfg req cloud h =
    let P : Unit {0} → Type 0 = λ u. IsProofFor cfg req cloud in
    let key = normalize_hex cloud.nullifier_hash in
    let asked = normalize_hex req.nullifier_hash in
    after P (refuse_if (not (str_eq key asked)) (error proof_rejected 400)) _
      (λ u1 e1.
        after P
          (refuse_if (not (str_eq cloud.action verified_human_action)) (error action_mismatch 400))
          _
          (λ u2 e2.
            after P
              (refuse_if (below_level cfg.min_verification_level cloud.verification_level)
                (error verification_level_mismatch 403))
              _
              (λ u3 e3 u4 e4. (
                equal_texts key asked (error proof_rejected 400) u1 e1,
                equal_texts cloud.action verified_human_action (error action_mismatch 400) u2 e2,
                orb_wanted cfg.min_verification_level cloud.verification_level (
                    passed (below_level cfg.min_verification_level cloud.verification_level)
                      (error verification_level_mismatch 403) u3 e3),
                same_levels cloud.verification_level req.verification_level (
                    not_refused (same_level cloud.verification_level req.verification_level) (
                      passed (not (same_level cloud.verification_level req.verification_level))
                        (error verification_level_mismatch 400) u4 e4)),
              ))))
      tt h
