-- ===== src/Bank/Ledger/Steps.antt =====
-- What a mutation that succeeds has checked and written.
use eto_mcp.Prelude.Result.{Result-cases, ok}
use eto_mcp.Bank.Ledger.{
  encode, Ledger, Mutation, commit, LedgerSnapshot, RampEvent, RampArgs, balance, withdrawn, ramped,
  set_balance, ramp_event, credit_snapshot, debit_snapshot, record_ramp_snapshot,
}
use eto_mcp.Prelude.{
  true, Bool, ℕ, String, false, ◌≡◌, ◌+◌, ◌++◌, some, [], ◌∷◌, arith, inl, inr, Option-cases,
}
use eto_mcp.Prelude.Number.{Number, safe_cents, f64}
use eto_mcp.Prelude.Text.{is_empty}
use eto_mcp.Prelude.Dict.{insert}

pub record Credited (k : String) (n : Number) (s : LedgerSnapshot) (next : ℕ) (s' : LedgerSnapshot)
    : Type 0 where
  pub cents : ℕ
  pub named : is_empty k ≡ false
  pub checked : safe_cents n ≡ some cents
  pub sum : next ≡ f64 (balance k s + cents)
  pub written : s' ≡ set_balance k next s

pub credit_snapshot_inv :
    (k : String) (n : Number) (s s' : LedgerSnapshot) (next : ℕ)
    → credit_snapshot k n s ≡ ok (next, s')
    → Credited k n s next s'
unfolding credit_snapshot
credit_snapshot_inv k n s s' next e = elim (Option-cases (safe_cents n)) [
  | inl p ↦ ground arith
  | inr (cents, p) ↦ record {
    cents = cents;
    named = ground arith;
    checked = p;
    sum = ground arith;
    written = ground arith;
  }
]

pub record Debited (k : String) (n : Number) (s : LedgerSnapshot) (next : ℕ) (s' : LedgerSnapshot)
    : Type 0 where
  pub cents : ℕ
  pub named : is_empty k ≡ false
  pub checked : safe_cents n ≡ some cents
  pub left : withdrawn k cents s ≡ ok next
  pub written : s' ≡ set_balance k next s

pub debit_snapshot_inv :
    (k : String) (n : Number) (s s' : LedgerSnapshot) (next : ℕ)
    → debit_snapshot k n s ≡ ok (next, s')
    → Debited k n s next s'
unfolding debit_snapshot
debit_snapshot_inv k n s s' next e = elim (Option-cases (safe_cents n)) [
  | inl p ↦ ground arith
  | inr (cents, p) ↦ record {
    cents = cents;
    named = ground arith;
    checked = p;
    left = ground arith;
    written = ground arith;
  }
]

pub record Ramped (args : RampArgs) (id : String) (now : ℕ) (s : LedgerSnapshot) (event : RampEvent)
    (s' : LedgerSnapshot) : Type 0 where
  pub cents : ℕ
  pub next : ℕ
  pub named : is_empty args.account_id ≡ false
  pub checked : safe_cents args.amount_cents ≡ some cents
  pub has_eusd : is_empty args.eusd_amount ≡ false
  pub moved : ramped args.direction args.account_id cents s ≡ ok next
  pub is_event : event ≡ ramp_event args cents id now
  pub written :
      s'
      ≡ record { accounts = insert args.account_id next s.accounts; ramps = s.ramps ++ event ∷ [] }

pub record_ramp_snapshot_inv :
    (args : RampArgs) (id : String) (now : ℕ) (s s' : LedgerSnapshot) (event : RampEvent)
    → record_ramp_snapshot args id now s ≡ ok (event, s')
    → Ramped args id now s event s'
unfolding record_ramp_snapshot
record_ramp_snapshot_inv args id now s s' event e =
    elim (Option-cases (safe_cents args.amount_cents)) [
      | inl p ↦ ground arith
      | inr (cents, p) ↦ elim (Result-cases (ramped args.direction args.account_id cents s)) [
        | inl (failed, q) ↦ ground arith
        | inr (next, q) ↦ record {
          cents = cents;
          next = next;
          named = ground arith;
          checked = p;
          has_eusd = ground arith;
          moved = q;
          is_event = ground arith;
          written = ground arith;
        }
      ]
    ]

-- A call that succeeds has run its mutation and has written the file.
pub commit_inv :
    {A : Type 0} (mutation : Mutation A) (persisted : Bool) (l l' : Ledger) (answer : A)
    → commit persisted mutation l ≡ (ok answer, l')
    → (persisted ≡ true)
      × (mutation l.snap ≡ ok (answer, l'.snap))
      × (l'.file ≡ some (encode l'.snap))
unfolding commit
commit_inv mutation persisted l l' answer e = elim (Result-cases (mutation l.snap)) [
  | inl (failed, q) ↦ ground arith
  | inr (written, q) ↦ (ground arith, ground arith, ground arith)
]
