-- ===== src/Issuers/Worldcoin/Gates.antt =====
-- What has been checked when the Worldcoin issuer answers with a success.
use eto_mcp.Issuers.Worldcoin.{
  Failure, NullifierBinding, verifying_proof, outage, refused, IssuerError, CloudAnswer,
  bound_answer, Issuer, Answers, IssueRequest, IssueResponse, Shared, CloudVerifyResult,
  VerifiedIdToken, attested, settled, resume, after_token, after_signature, after_get, after_proof,
  run, issue, check_id_token, check_proof, get_binding, normalize_hex,
}
use eto_mcp.Prelude.{
  ◌∙◌, arith, sym, ◌⊎◌, ◌≡◌, refl, none, some, Option-cases, inl, inr, List, [], ◌∷◌, true, false,
}
use eto_mcp.Prelude.Result.{Result, ok, Result-cases}
use eto_mcp.Issuers.Worldcoin.Claims.{IsTokenFor, IsProofFor, token_checked, proof_checked}

CloudAnswer-cases :
    (c : CloudAnswer)
    → ((e : IssuerError) × (c ≡ refused e))
      ⊎ ((c ≡ outage) ⊎ ((r : CloudVerifyResult) × (c ≡ attested r)))
CloudAnswer-cases (refused e) = inl (e, refl)
CloudAnswer-cases outage = inr (inl refl)
CloudAnswer-cases (attested r) = inr (inr (r, refl))

run-settled :
    (issuer : Issuer) (answers : List Answers) (req : IssueRequest) (shared : Shared)
    (r : Result (Failure IssuerError) IssueResponse)
    → (run issuer answers req (settled r) shared).0 ≡ settled r
unfolding run resume
run-settled issuer [] req shared r = refl
run-settled issuer (a ∷ answers) req shared r = run-settled issuer answers req shared r

bound_answer-idempotent :
    (req : IssueRequest) (b : NullifierBinding) (r : IssueResponse)
    → bound_answer req b ≡ ok r
    → r.idempotent ≡ true
unfolding bound_answer
bound_answer-idempotent req b r e = ground arith

-- The cloud verifier attested the proof of the request.
abbrev pub IsProved : Issuer → IssueRequest → Answers → Type 0
IsProved issuer req a =
    (cloud : CloudVerifyResult) × (a.cloud ≡ attested cloud) × IsProofFor issuer.cfg req cloud

proof_passed :
    (issuer : Issuer) (req : IssueRequest) (a : Answers) (answers : List Answers) (shared : Shared)
    (r : IssueResponse)
    → (run issuer answers req (after_proof issuer a.now req a.cloud) shared).0 ≡ settled (ok r)
    → IsProved issuer req a
unfolding after_proof
proof_passed issuer req a answers shared r e = elim (CloudAnswer-cases a.cloud) [
  | inl (f, q) ↦ let bad = rw (q, run-settled) at e in cc
  | inr (inl q) ↦ let bad = rw (q, run-settled) at e in cc
  | inr (inr (cloud, q)) ↦ elim (Result-cases (check_proof issuer.cfg req cloud)) [
    | inl (f, q1) ↦ let bad = rw (q, q1, run-settled) at e in cc
    | inr (_, q1) ↦ (cloud, q, proof_checked issuer.cfg req cloud q1)
  ]
]

run_proof :
    (issuer : Issuer) (req : IssueRequest) (a : Answers) (answers : List Answers) (shared : Shared)
    → run issuer (a ∷ answers) req verifying_proof shared
      ≡ run issuer answers req (after_proof issuer a.now req a.cloud) shared
unfolding run resume
run_proof issuer req a answers shared = refl

read_fresh :
    (issuer : Issuer) (req : IssueRequest) (a : Answers) (answers : List Answers) (shared : Shared)
    (r : IssueResponse)
    → let found = get_binding (normalize_hex req.nullifier_hash) shared.store in
      (run issuer (a ∷ answers) req (after_get req found) shared).0 ≡ settled (ok r)
      → r.idempotent ≡ false
      → IsProved issuer req a × (found ≡ none)
unfolding after_get
read_fresh issuer req a answers shared r e fresh =
    elim (Option-cases (get_binding (normalize_hex req.nullifier_hash) shared.store)) [
      | inl q ↦ (proof_passed issuer req a answers shared r (rw (q, run_proof) at e), q)
      | inr (b, q) ↦
          let same = rw (q, run-settled) at e in
          let repeated = bound_answer-idempotent req b r (ground (arith, same)) in cc
    ]

module _ (issuer : Issuer) (req : IssueRequest) (shared : Shared)
    (a1 a2 a3 a4 a5 a6 a7 a8 : Answers) where
  abbrev pub eight : List Answers
  eight = a1 ∷ a2 ∷ a3 ∷ a4 ∷ a5 ∷ a6 ∷ a7 ∷ a8 ∷ []

  -- The checks of the id token and the signature passed.
  abbrev IsPassed : Type 0
  IsPassed =
      (token : VerifiedIdToken) × (a1.id_token ≡ some token)
      × (check_id_token issuer.cfg a1.now token ≡ ok tt)
      × (a2.signature ≡ some true)

  -- The id token is for the application and has not expired, and the signature was verified.
  abbrev pub IsAuthenticated : Type 0
  IsAuthenticated =
      (token : VerifiedIdToken) × (a1.id_token ≡ some token)
      × IsTokenFor issuer.cfg a1.now token
      × (a2.signature ≡ some true)

  issue-IsPassed :
      (r : IssueResponse) → (issue issuer eight req shared).0 ≡ settled (ok r) → IsPassed
  unfolding issue run resume after_token after_signature
  issue-IsPassed r e = elim (Option-cases a1.id_token) [
    | inl q ↦ let bad = rw q at e in cc
    | inr (token, q) ↦ elim (Result-cases (check_id_token issuer.cfg a1.now token)) [
      | inl (f, q1) ↦ let bad = rw (q, q1) at e in cc
      | inr (_, q1) ↦ elim (Option-cases a2.signature) [
        | inl q2 ↦ let bad = rw (q, q1, q2) at e in cc
        | inr (false, q2) ↦ let bad = rw (q, q1, q2) at e in cc
        | inr (true, q2) ↦ (token, q, q1, q2)
      ]
    ]
  ]

  issue_passed :
      IsPassed
      → (issue issuer eight req shared).0
        ≡ (run issuer
            (a4 ∷ a5 ∷ a6 ∷ a7 ∷ a8 ∷ [])
            req
            (after_get req (get_binding (normalize_hex req.nullifier_hash) shared.store))
            shared).0
  unfolding issue run resume after_token after_signature
  issue_passed (token, q, q1, q2) = rw (q, q1, q2) refl

  authenticated : IsPassed → IsAuthenticated
  authenticated (token, q, q1, q2) = (token, q, token_checked issuer.cfg a1.now token q1, q2)

  -- A success that is no repetition rests on an id token of World ID for this application that has
  -- not expired, on a verified signature of the card, and on an attested proof for the nullifier,
  -- the action and the level of the request, by an orb where the configuration wants one; and the
  -- nullifier was free.
  pub issue_fresh-IsProved :
      (r : IssueResponse)
      → (issue issuer eight req shared).0 ≡ settled (ok r)
      → r.idempotent ≡ false
      → IsAuthenticated
        × IsProved issuer req a4
        × (get_binding (normalize_hex req.nullifier_hash) shared.store ≡ none)
  issue_fresh-IsProved r e fresh =
      let pass = issue-IsPassed r e in
      let (cloud, free) =
        read_fresh issuer req a4 (a5 ∷ a6 ∷ a7 ∷ a8 ∷ []) shared r (sym (issue_passed pass) ∙ e)
          fresh in
      (authenticated pass, cloud, free)
