-- ===== src/Issuers/Worldcoin/Uniqueness.antt =====
-- How many credentials a nullifier gets from requests that run one after the other.
use eto_mcp.Prelude.{
  refl, inr, inl, Bool-cases, length, ℕ, ◌≤◌, ◌+◌, ◌≡◌, none, is_some, arith, List, [], ◌∷◌, String,
  if◌then◌else◌,
}
use eto_mcp.Prelude.Text.{str_eq_iff, str_eq}
use eto_mcp.Prelude.Dict.{insert, lookup-insert, lookup}
use eto_mcp.Issuers.Worldcoin.{
  NullifierBinding, put_binding, run, issue_all, issue, get_binding, Issuer, Answers, IssueRequest,
  Shared, Stage, Credential, NullifierStore, verifying_token, verifying_signature, reading_store,
  verifying_proof, pinning, issuing_credential, putting, rereading, settled, resume, after_token,
  after_signature, after_get, after_proof, after_pin, after_issue, after_put, after_reread,
  normalize_hex,
}
use eto_mcp.Issuers.Worldcoin.Termination.{issue_settles}

-- The key of the store: the issuer normalizes a nullifier, and so does the store.
abbrev pub store_key : String → String
store_key nullifier_hash = normalize_hex (normalize_hex nullifier_hash)

-- The credentials on the chain whose nullifiers have the key.
abbrev pub issued_for : String → List Credential → ℕ
issued_for k [] = 0
issued_for k (c ∷ cs) = (if str_eq (store_key c.nullifier_hash) k then 1 else 0) + issued_for k cs

abbrev pub bindings : String → NullifierStore → ℕ
bindings k store = if is_some (lookup k store) then 1 else 0

-- No nullifier has a credential without a binding, or two credentials.
abbrev pub IsUnique : Shared → Type 0
IsUnique shared = (k : String) → issued_for k shared.issued ≤ bindings k shared.store

abbrev own : String → IssueRequest → ℕ
own k req = if str_eq (store_key req.nullifier_hash) k then 1 else 0

-- While a request is between its look at the store and its own binding, the nullifier is free.
abbrev Holds : IssueRequest → Stage → Shared → Type 0
Holds req (putting binding) shared =
    (normalize_hex binding.nullifier_hash ≡ store_key req.nullifier_hash)
    × (lookup (store_key req.nullifier_hash) shared.store ≡ none)
    × ((k : String) → issued_for k shared.issued ≤ bindings k shared.store + own k req)
Holds req rereading shared = ⊥
Holds req verifying_proof shared =
    IsUnique shared × (lookup (store_key req.nullifier_hash) shared.store ≡ none)
Holds req (pinning _) shared =
    IsUnique shared × (lookup (store_key req.nullifier_hash) shared.store ≡ none)
Holds req (issuing_credential _) shared =
    IsUnique shared × (lookup (store_key req.nullifier_hash) shared.store ≡ none)
Holds req _ shared = IsUnique shared

bindings-insert :
    (key k : String) (b : NullifierBinding) (store : NullifierStore)
    → lookup key store ≡ none
    → bindings k (insert key b store) ≡ bindings k store + (if str_eq key k then 1 else 0)
bindings-insert key k b store free = elim (Bool-cases (str_eq key k)) [
  | inl e ↦
      let same = (str_eq_iff key k).0 e in
      let free_k : lookup k store ≡ none = rw same at free in rw (lookup-insert, e, free_k) refl
  | inr e ↦ rw (lookup-insert, e) (omega arith)
]

resume-Holds :
    (issuer : Issuer) (a : Answers) (req : IssueRequest) (stage : Stage) (shared : Shared)
    → Holds req stage shared
    → let (stage', shared') = resume issuer a req stage shared in Holds req stage' shared'
unfolding resume after_token after_signature after_get after_proof after_pin after_issue after_put
    after_reread get_binding put_binding
resume-Holds issuer a req verifying_token shared h = ground arith
resume-Holds issuer a req verifying_signature shared h = ground arith
resume-Holds issuer a req reading_store shared h = ground arith
resume-Holds issuer a req verifying_proof shared h = ground arith
resume-Holds issuer a req (pinning claim_hash) shared h = ground arith
resume-Holds issuer a req (issuing_credential args) shared h = ground arith
resume-Holds issuer a req (putting binding) shared (key, free, count) =
    rw (key, free)
      (λ k. ground (
        arith,
        count k,
        bindings-insert (store_key req.nullifier_hash) k binding shared.store free,
      ))
resume-Holds issuer a req rereading shared h = absurd h
resume-Holds issuer a req (settled r) shared h = h

run-Holds :
    (issuer : Issuer) (answers : List Answers) (req : IssueRequest) (stage : Stage)
    (shared : Shared)
    → Holds req stage shared
    → let (stage', shared') = run issuer answers req stage shared in Holds req stage' shared'
unfolding run
run-Holds issuer [] req stage shared h = h
run-Holds issuer (a ∷ answers) req stage shared h =
    run-Holds issuer answers req _ _ (resume-Holds issuer a req stage shared h)

pub issue-IsUnique :
    (issuer : Issuer) (answers : List Answers) (req : IssueRequest) (shared : Shared)
    → 8 ≤ length answers
    → IsUnique shared
    → IsUnique (issue issuer answers req shared).1
unfolding issue
issue-IsUnique issuer answers req shared enough h =
    let held = run-Holds issuer answers req verifying_token shared h in
    let (r, e) = issue_settles issuer answers req shared enough in rw e at held

-- Each request has the answers to all of its awaits.
abbrev pub IsAnswered : List (List Answers × IssueRequest) → Type 0
IsAnswered [] = Unit
IsAnswered ((answers, req) ∷ calls) = (8 ≤ length answers) × IsAnswered calls

-- Requests that run one after the other, each to its end, give every nullifier at most one
-- credential, and only if it is bound, if that was so before. A call of the chain that throws is taken
-- to have issued nothing.
pub issue_all-IsUnique :
    (issuer : Issuer) (calls : List (List Answers × IssueRequest)) (shared : Shared)
    → IsAnswered calls
    → IsUnique shared
    → IsUnique (issue_all issuer calls shared)
unfolding issue_all
issue_all-IsUnique issuer [] shared enough h = h
issue_all-IsUnique issuer ((answers, req) ∷ calls) shared (one, rest) h =
    issue_all-IsUnique issuer calls _ rest (issue-IsUnique issuer answers req shared one h)
