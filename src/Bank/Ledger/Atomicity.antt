-- ===== src/Bank/Ledger/Atomicity.antt =====
-- What each method leaves behind, by how it ended, and how credit and debit undo one another.
use eto_mcp.Prelude.Result.{Result-cases, err, ok, Result}
use eto_mcp.Prelude.Text.{str_eq_iff, is_empty}
use eto_mcp.Prelude.Number.{f64_exact, nat, max_safe}
use eto_mcp.Bank.Ledger.{
  LedgerSnapshot, Ledger, commit, Mutation, LedgerError, io_error, RampArgs, RampEvent, record_ramp,
  record_ramp_snapshot, credit, debit, balance, debit_snapshot, set_balance,
}
use eto_mcp.Prelude.{
  refl, arith, if◌then◌else◌, ◌+◌, false, ◌⊎◌, Bool-cases, inr, ◌≤◌, some, ◌≡◌, inl, true, Bool, ℕ,
  String,
}
use eto_mcp.Bank.Ledger.Steps.{Ramped, record_ramp_snapshot_inv}
use eto_mcp.Bank.Ledger.Schema.{encode}
use eto_mcp.Bank.Ledger.Reconcile.{balance-insert}

-- Memory and file, by how the call ended.
abbrev pub Settles : RampArgs → String → ℕ → Ledger → Result LedgerError RampEvent × Ledger → Type 0
Settles args id now l (ok event, l') =
    Ramped args id now l.snap event l'.snap × (l'.file ≡ some (encode l'.snap))
Settles args id now l (err e, l') =
    (l' ≡ l)
    ⊎ ((e ≡ io_error)
        × (l'.file ≡ l.file)
        × ((event : RampEvent) × Ramped args id now l.snap event l'.snap))

-- A ramp that is recorded is in memory and in the file. A call that throws has changed nothing, or
-- it throws the error of its write: then the ramp is in memory all the same, and the file is the
-- old one.
pub record_ramp-Settles :
    (args : RampArgs) (id : String) (now : ℕ) (persisted : Bool) (l : Ledger)
    → Settles args id now l (record_ramp args id now persisted l)
unfolding record_ramp
record_ramp-Settles args id now persisted l =
    elim (Result-cases (record_ramp_snapshot args id now l.snap)) [
      | inl (failed, q) ↦ rw (q, commit) (inl refl)
      | inr ((event, s), q) ↦ elim (Bool-cases persisted) [
        | inl p ↦ rw (q, p, commit) (record_ramp_snapshot_inv args id now l.snap s event q, refl)
        | inr p ↦
            rw (q, p, commit)
              (inr (refl, refl, (event, record_ramp_snapshot_inv args id now l.snap s event q)))
      ]
    ]

credit-snap :
    (k : String) (c : ℕ) (p : Bool) (l : Ledger)
    → is_empty k ≡ false
    → balance k l.snap + c ≤ max_safe
    → (credit k (nat c) p l).1.snap ≡ set_balance k (balance k l.snap + c) l.snap
unfolding credit
credit-snap k c p l h q = ground (arith, f64_exact (balance k l.snap + c))

debit_snapshot-set_balance :
    (k : String) (c b : ℕ) (s : LedgerSnapshot)
    → is_empty k ≡ false
    → b + c ≤ max_safe
    → debit_snapshot k (nat c) (set_balance k (b + c) s)
      ≡ ok (b, set_balance k b (set_balance k (b + c) s))
unfolding debit_snapshot
debit_snapshot-set_balance k c b s h q = ground (
  arith,
  balance-insert k k (b + c) s (set_balance k (b + c) s) refl,
  str_eq_iff k k,
  f64_exact b,
)

commit_ok :
    {A : Type 0} (mutation : Mutation A) (p : Bool) (l : Ledger) (answer : A) (s : LedgerSnapshot)
    → mutation l.snap ≡ ok (answer, s)
    → ((commit p mutation l).0 ≡ (if p then ok answer else err io_error))
      × ((commit p mutation l).1.snap ≡ s)
unfolding commit
commit_ok mutation true l answer s e = (rw (e, commit), rw (e, commit))
commit_ok mutation false l answer s e = (rw (e, commit), rw (e, commit))

-- For a nonempty account and a safe sum, a debit of what was credited restores every balance, and it
-- answers with the old balance if its own write succeeds, whether or not that of the credit did.
pub debit-credit :
    (k : String) (c : ℕ) (p p' : Bool) (l : Ledger)
    → is_empty k ≡ false
    → balance k l.snap + c ≤ max_safe
    → let l' = (credit k (nat c) p l).1 in
      let (answer, l'') = debit k (nat c) p' l' in
      (answer ≡ (if p' then ok (balance k l.snap) else err io_error))
      × ((j : String) → balance j l''.snap ≡ balance j l.snap)
unfolding debit
debit-credit k c p p' l h q =
    let b = balance k l.snap in
    let s1 = set_balance k (b + c) l.snap in
    let l' = (credit k (nat c) p l).1 in
    let debited : debit_snapshot k (nat c) l'.snap ≡ ok (b, set_balance k b s1) =
      rw (credit-snap k c p l h q) (debit_snapshot-set_balance k c b l.snap h q) in
    let (answer, snap) =
      commit_ok (debit_snapshot k (nat c)) p' l' b (set_balance k b s1) debited in
    (
      answer,
      λ j. rw snap (
          ground (
            arith,
            balance-insert k j b s1 (set_balance k b s1) refl,
            balance-insert k j (b + c) l.snap s1 refl,
            str_eq_iff k j,
          )),
    )
