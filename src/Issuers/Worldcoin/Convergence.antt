-- ===== src/Issuers/Worldcoin/Convergence.antt =====
-- What the successes of interleaved requests have in common.
use eto_mcp.Prelude.{
  ap, ◌∙◌, sym, ◌≡◌, refl, none, some, Option-cases, Bool-cases, inl, inr, arith, [], ◌∷◌, ◌++◌,
  String, All, Member, All-Member, All-map, All-append, All-split,
}
use eto_mcp.Prelude.Dict.{lookup, lookup-insert, lookup-insert_self}
use eto_mcp.Prelude.Text.{str_eq, str_eq_iff}
use eto_mcp.Prelude.Result.{ok, err}
use eto_mcp.Issuers.Worldcoin.{
  Issuer, Answers, IssueRequest, IssueResponse, Shared, Stage, NullifierBinding, verifying_token,
  verifying_signature, reading_store, verifying_proof, pinning, issuing_credential, putting,
  rereading, settled, resume, after_token, after_signature, after_get, after_proof, after_pin,
  after_issue, after_put, after_reread, normalize_hex, get_binding, put_binding, bound_answer,
}
use eto_mcp.Issuers.Worldcoin.Uniqueness.{store_key}
use eto_mcp.Issuers.Worldcoin.Concurrency.{Task, World, Step, arrive, resumed, Reach, here, next}

-- What a success has to do with a binding.
pub record IsAnswerFrom (req : IssueRequest) (r : IssueResponse) (b : NullifierBinding)
    : Type 0 where
  pub card : b.agent_card_pubkey ≡ req.agent_card_pubkey
  pub pda : r.credential_pda ≡ b.credential_pda
  pub signature : r.tx_signature ≡ b.tx_signature
  pub uri : r.claim_uri ≡ b.claim_uri
  pub hash : r.claim_hash ≡ b.claim_hash

-- A success answers from the binding of its nullifier.
abbrev pub Agrees : Shared → Task → Type 0
Agrees shared (req, settled (ok r)) =
    (b : NullifierBinding) × (lookup (store_key req.nullifier_hash) shared.store ≡ some b)
    × IsAnswerFrom req r b
Agrees shared (req, putting b) =
    (normalize_hex b.nullifier_hash ≡ store_key req.nullifier_hash)
    × (b.agent_card_pubkey ≡ req.agent_card_pubkey)
Agrees shared (req, _) = Unit

-- A binding is never replaced.
lookup-resume :
    (issuer : Issuer) (a : Answers) (req : IssueRequest) (stage : Stage) (shared : Shared)
    (k : String) (b : NullifierBinding)
    → lookup k shared.store ≡ some b
    → lookup k (resume issuer a req stage shared).1.store ≡ some b
unfolding resume put_binding
lookup-resume issuer a req (putting b') shared k b e =
    let key = normalize_hex b'.nullifier_hash in
    elim (Option-cases (lookup key shared.store)) [
      | inl free ↦ elim (Bool-cases (str_eq key k)) [
        | inl q ↦
            let same = (str_eq_iff key k).0 q in
            let free_k : lookup k shared.store ≡ none = rw same at free in cc
        | inr q ↦ rw (free, lookup-insert, q) e
      ]
      | inr (b'', bound) ↦ rw bound e
    ]
lookup-resume issuer a req verifying_token shared k b e = e
lookup-resume issuer a req verifying_signature shared k b e = e
lookup-resume issuer a req reading_store shared k b e = e
lookup-resume issuer a req verifying_proof shared k b e = e
lookup-resume issuer a req (pinning _) shared k b e = e
lookup-resume issuer a req (issuing_credential args) shared k b e = ground arith
lookup-resume issuer a req rereading shared k b e = e
lookup-resume issuer a req (settled r) shared k b e = e

Agrees-mono :
    (shared shared' : Shared) (t : Task)
    → ((k : String) (b : NullifierBinding)
        → lookup k shared.store ≡ some b
        → lookup k shared'.store ≡ some b)
    → Agrees shared t
    → Agrees shared' t
Agrees-mono shared shared' (req, settled (ok r)) keeps (b, e, h) = (b, keeps _ b e, h)
Agrees-mono shared shared' (req, settled (err _)) keeps h = tt
Agrees-mono shared shared' (req, putting b) keeps h = h
Agrees-mono shared shared' (req, verifying_token) keeps h = tt
Agrees-mono shared shared' (req, verifying_signature) keeps h = tt
Agrees-mono shared shared' (req, reading_store) keeps h = tt
Agrees-mono shared shared' (req, verifying_proof) keeps h = tt
Agrees-mono shared shared' (req, pinning _) keeps h = tt
Agrees-mono shared shared' (req, issuing_credential _) keeps h = tt
Agrees-mono shared shared' (req, rereading) keeps h = tt

bound_answer-Agrees :
    (req : IssueRequest) (b : NullifierBinding) (shared : Shared)
    → lookup (store_key req.nullifier_hash) shared.store ≡ some b
    → Agrees shared (req, settled (bound_answer req b))
unfolding bound_answer
bound_answer-Agrees req b shared e =
    elim (Bool-cases (str_eq b.agent_card_pubkey req.agent_card_pubkey)) [
      | inl q ↦ rw q (
        b,
        e,
        record {
          card = (str_eq_iff _ _).0 q;
          pda = refl;
          signature = refl;
          uri = refl;
          hash = refl;
        },
      )
      | inr q ↦ rw q tt
    ]

resume-Agrees :
    (issuer : Issuer) (a : Answers) (req : IssueRequest) (stage : Stage) (shared : Shared)
    → Agrees shared (req, stage)
    → let (stage', shared') = resume issuer a req stage shared in Agrees shared' (req, stage')
unfolding resume after_token after_signature after_get after_proof after_pin after_issue after_put
    after_reread get_binding put_binding
resume-Agrees issuer a req verifying_token shared h = ground arith
resume-Agrees issuer a req verifying_signature shared h = ground arith
resume-Agrees issuer a req reading_store shared h =
    elim (Option-cases (lookup (store_key req.nullifier_hash) shared.store)) [
      | inl e ↦ rw e tt
      | inr (b, e) ↦ rw e (bound_answer-Agrees req b shared e)
    ]
resume-Agrees issuer a req verifying_proof shared h = ground arith
resume-Agrees issuer a req (pinning claim_hash) shared h = ground arith
resume-Agrees issuer a req (issuing_credential args) shared h = ground arith
resume-Agrees issuer a req (putting b) shared (key, card) =
    elim (Option-cases (lookup (store_key req.nullifier_hash) shared.store)) [
      | inl e ↦
          rw (key, e)
            (
              b,
              lookup-insert_self _ b shared.store,
              record { card = card; pda = refl; signature = refl; uri = refl; hash = refl },
            )
      | inr (b', e) ↦ rw (key, e) tt
    ]
resume-Agrees issuer a req rereading shared h =
    elim (Option-cases (lookup (store_key req.nullifier_hash) shared.store)) [
      | inl e ↦ rw e tt
      | inr (b, e) ↦ rw e (bound_answer-Agrees req b shared e)
    ]
resume-Agrees issuer a req (settled r) shared h = h

Step-Agrees :
    (issuer : Issuer) {w w' : World}
    → Step issuer w w'
    → All (Agrees w.shared) w.tasks
    → All (Agrees w'.shared) w'.tasks
Step-Agrees issuer (arrive w req) h = All-append (Agrees w.shared) w.tasks _ h (tt, tt)
Step-Agrees issuer (resumed w before after req stage a e) h =
    let split : All (Agrees w.shared) (before ++ (req, stage) ∷ after) = rw e at h in
    let (l, (own, r)) = All-split (Agrees w.shared) before ((req, stage) ∷ after) split in
    let shared' = (resume issuer a req stage w.shared).1 in
    let mono : (t : Task) → Agrees w.shared t → Agrees shared' t =
      λ t. Agrees-mono w.shared shared' t (λ k b. lookup-resume issuer a req stage w.shared k b) in
    All-append (Agrees shared') before _ (All-map (Agrees shared') (Agrees w.shared) before mono l)
      (
        resume-Agrees issuer a req stage w.shared own,
        All-map (Agrees shared') (Agrees w.shared) after mono r,
      )

-- In every state that interleaved requests reach from one with no request, each success answers
-- from the binding of its nullifier, which is for the card of its request.
pub Reach-Agrees :
    (issuer : Issuer) (shared : Shared) {w : World}
    → Reach issuer (record { shared = shared; tasks = [] }) w
    → All (Agrees w.shared) w.tasks
Reach-Agrees issuer shared here = tt
Reach-Agrees issuer shared (next r s) = Step-Agrees issuer s (Reach-Agrees issuer shared r)

-- Two requests for one nullifier that both succeed, however they interleave with each other and
-- with any others, are for the same card and have the same credential, transaction and claim.
pub Reach-converges :
    (issuer : Issuer) (shared : Shared) (w : World) (req req' : IssueRequest) (r r' : IssueResponse)
    → Reach issuer (record { shared = shared; tasks = [] }) w
    → Member (req, settled (ok r)) w.tasks
    → Member (req', settled (ok r')) w.tasks
    → store_key req.nullifier_hash ≡ store_key req'.nullifier_hash
    → (req.agent_card_pubkey ≡ req'.agent_card_pubkey)
      × (r.credential_pda ≡ r'.credential_pda)
      × (r.tx_signature ≡ r'.tx_signature)
      × (r.claim_uri ≡ r'.claim_uri)
      × (r.claim_hash ≡ r'.claim_hash)
Reach-converges issuer shared w req req' r r' reach m m' e =
    let agree = Reach-Agrees issuer shared reach in
    let (b, found, h) = All-Member (Agrees w.shared) w.tasks (req, settled (ok r)) agree m in
    let (b', found', h') = All-Member (Agrees w.shared) w.tasks (req', settled (ok r')) agree m' in
    let same : some b ≡ some b' = sym found ∙ ap (λ k. lookup k w.shared.store) e ∙ found' in
    let one : b ≡ b' = ground arith in
    (
      sym h.card ∙ ap (λ t. t.agent_card_pubkey) one ∙ h'.card,
      h.pda ∙ ap (λ t. t.credential_pda) one ∙ sym h'.pda,
      h.signature ∙ ap (λ t. t.tx_signature) one ∙ sym h'.signature,
      h.uri ∙ ap (λ t. t.claim_uri) one ∙ sym h'.uri,
      h.hash ∙ ap (λ t. t.claim_hash) one ∙ sym h'.hash,
    )

-- Once a nullifier is bound, no interleaving of requests replaces or removes the binding.
pub lookup-Reach :
    (issuer : Issuer) {w w' : World} (k : String) (b : NullifierBinding)
    → Reach issuer w w'
    → lookup k w.shared.store ≡ some b
    → lookup k w'.shared.store ≡ some b
lookup-Reach issuer k b here e = e
lookup-Reach issuer k b (next r (arrive w req)) e = lookup-Reach issuer k b r e
lookup-Reach issuer k b (next r (resumed w before after req stage a q)) e =
    lookup-resume issuer a req stage w.shared k b (lookup-Reach issuer k b r e)
