-- ===== src/Issuers/Worldcoin/Concurrency.antt =====
-- Requests that interleave at their awaits over one store.
use eto_mcp.Prelude.{◌≡◌, refl, List, [], ◌∷◌, ◌++◌}
use eto_mcp.Issuers.Worldcoin.{
  Issuer, Answers, IssueRequest, Shared, Stage, verifying_token, resume, run,
}

abbrev pub Task : Type 0
Task = IssueRequest × Stage

pub record World : Type 0 where
  pub shared : Shared
  pub tasks : List Task

-- A request comes in, or any one that waits is resumed with any answers.
pub data Step (issuer : Issuer) : World → World → Type 0 where
  arrive :
      (w : World) (req : IssueRequest)
      → Step issuer w (record w { tasks = w.tasks ++ (req, verifying_token) ∷ [] })
  resumed :
      (w : World) (before after : List Task) (req : IssueRequest) (stage : Stage) (a : Answers)
      → w.tasks ≡ before ++ (req, stage) ∷ after
      → Step issuer w (record {
        shared = (resume issuer a req stage w.shared).1;
        tasks = before ++ (req, (resume issuer a req stage w.shared).0) ∷ after;
      })

pub data Reach (issuer : Issuer) (w : World) : World → Type 0 where
  here : Reach issuer w w
  next : {w' w'' : World} → Reach issuer w w' → Step issuer w' w'' → Reach issuer w w''

-- A run that nothing interrupts is a path of the steps.
pub Reach-run :
    (issuer : Issuer) (answers : List Answers) (w0 : World) (before after : List Task)
    (req : IssueRequest) (stage : Stage) (shared : Shared)
    → Reach issuer w0 (record { shared = shared; tasks = before ++ (req, stage) ∷ after })
    → let (stage', shared') = run issuer answers req stage shared in
      Reach issuer w0 (record { shared = shared'; tasks = before ++ (req, stage') ∷ after })
unfolding run
Reach-run issuer [] w0 before after req stage shared r = r
Reach-run issuer (a ∷ answers) w0 before after req stage shared r =
    Reach-run issuer answers w0 before after req _ _ (
      next r (
        resumed (record { shared = shared; tasks = before ++ (req, stage) ∷ after }) before after
          req stage a refl))
