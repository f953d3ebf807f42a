-- ===== src/Issuers/Worldcoin/Termination.antt =====
-- How many awaits a request has.
use eto_mcp.Prelude.{ℕ, ◌≤◌, ◌≡◌, refl, arith, List, [], ◌∷◌, length, ◌-◌}
use eto_mcp.Prelude.Result.{Result}
use eto_mcp.Effects.{Failure}
use eto_mcp.Issuers.Worldcoin.{
  Issuer, Answers, IssueRequest, IssueResponse, IssuerError, Shared, Stage, verifying_token,
  verifying_signature, reading_store, verifying_proof, pinning, issuing_credential, putting,
  rereading, settled, resume, after_token, after_signature, after_get, after_proof, after_pin,
  after_issue, after_put, after_reread, run, issue,
}

-- The awaits that are left at most.
abbrev pub awaits : Stage → ℕ
awaits verifying_token = 8
awaits verifying_signature = 7
awaits reading_store = 6
awaits verifying_proof = 5
awaits (pinning _) = 4
awaits (issuing_credential _) = 3
awaits (putting _) = 2
awaits rereading = 1
awaits (settled _) = 0

pub awaits-resume :
    (issuer : Issuer) (a : Answers) (req : IssueRequest) (stage : Stage) (shared : Shared)
    → awaits (resume issuer a req stage shared).0 ≤ awaits stage - 1
unfolding resume after_token after_signature after_get after_proof after_pin after_issue after_put
    after_reread
awaits-resume issuer a req verifying_token shared = ground arith
awaits-resume issuer a req verifying_signature shared = ground arith
awaits-resume issuer a req reading_store shared = ground arith
awaits-resume issuer a req verifying_proof shared = ground arith
awaits-resume issuer a req (pinning claim_hash) shared = ground arith
awaits-resume issuer a req (issuing_credential args) shared = ground arith
awaits-resume issuer a req (putting binding) shared = ground arith
awaits-resume issuer a req rereading shared = ground arith
awaits-resume issuer a req (settled r) shared = omega arith

awaits-run :
    (issuer : Issuer) (answers : List Answers) (req : IssueRequest) (stage : Stage)
    (shared : Shared)
    → awaits (run issuer answers req stage shared).0 ≤ awaits stage - length answers
unfolding run
awaits-run issuer [] req stage shared = omega arith
awaits-run issuer (a ∷ answers) req stage shared =
    let (stage', shared') = resume issuer a req stage shared in
    ground
      (arith, awaits-resume issuer a req stage shared, awaits-run issuer answers req stage' shared')

is_settled :
    (stage : Stage)
    → awaits stage ≤ 0
    → (r : Result (Failure IssuerError) IssueResponse) × (stage ≡ settled r)
is_settled (settled r) h = (r, refl)
is_settled _ h = ground arith

-- With the answers to eight awaits a request is settled, whatever they are.
pub issue_settles :
    (issuer : Issuer) (answers : List Answers) (req : IssueRequest) (shared : Shared)
    → 8 ≤ length answers
    → (r : Result (Failure IssuerError) IssueResponse) × ((issue issuer answers req shared).0
        ≡ settled r)
unfolding issue
issue_settles issuer answers req shared h =
    is_settled _ (ground (arith, awaits-run issuer answers req verifying_token shared))
