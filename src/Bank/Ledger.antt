-- ===== src/Bank/Ledger.antt =====
-- `class MockUsdLedger` of keeper/bpps/bank/mock-usd-ledger.ts. A method is the part that runs
-- before its `persist`, and then the outcome of `persist`, which the file system decides: true when
-- the temporary file was written and renamed. Ids and times are drawn by the caller's `idGen` and
-- `clock`. Balances are doubles: their sums and differences are rounded by `f64`. No account is named
-- like a property of Object.prototype: assigning `accounts["__proto__"]` sets the prototype and is
-- not written to the file.
mod Snapshot
pub mod Schema
pub mod Steps
pub mod Validity
pub mod Persistence
pub mod Reconcile
pub mod Atomicity
pub mod Queue
pub mod Serial
mod Tests
pub use Snapshot.*
use eto_mcp.Prelude.{
  ℕ, String, Bool, true, false, not, ◌-◌, ◌+◌, ◌&&◌, ◌++◌, ◌≡◌, Option, none, some, List, [], ◌∷◌,
  ltb, or_default, select, if◌then◌else◌, ◌<◌, refl,
}
use eto_mcp.Prelude.Number.{Number, safe_cents, f64}
use eto_mcp.Prelude.Result.{Result, ok, err, ◌>>=◌, ◌>>◌, refuse_if, or_refuse}
use eto_mcp.Prelude.Text.{is_empty, str_eq}
use eto_mcp.Prelude.Json.{Json}
use eto_mcp.Prelude.Dict.{lookup, insert}
use eto_mcp.Bank.Ledger.Schema.{encode, decode}

-- The instance: the snapshot in memory, and the file at its path.
pub record Ledger : Type 0 where
  pub snap : LedgerSnapshot
  pub file : Option Json

-- `this.snap.accounts[accountId]?.balanceCents ?? 0`
unfoldable pub balance : String → LedgerSnapshot → ℕ
balance account_id s = or_default (lookup account_id s.accounts) 0

abbrev pub set_balance : String → ℕ → LedgerSnapshot → LedgerSnapshot
set_balance account_id next s = record s { accounts = insert account_id next s.accounts }

-- `assertAccountId`, `assertCents`
abbrev pub assert_account_id : String → Result LedgerError (Unit {0})
assert_account_id account_id = refuse_if (is_empty account_id) type_error

abbrev pub assert_cents : Number → Result LedgerError ℕ
assert_cents amount_cents = or_refuse (safe_cents amount_cents) range_error

-- What a mutation answers, with the snapshot that it leaves in memory.
abbrev pub Mutation : Type 0 → Type 0
Mutation A = LedgerSnapshot → Result LedgerError (A × LedgerSnapshot)

unfoldable pub credit_snapshot : String → Number → Mutation ℕ
credit_snapshot account_id amount_cents s = do
  assert_account_id account_id
  cents ← assert_cents amount_cents
  let next = f64 (balance account_id s + cents)
  ok (next, set_balance account_id next s)

-- The subtraction that a debit and an offramp share.
unfoldable pub withdrawn : String → ℕ → LedgerSnapshot → Result LedgerError ℕ
withdrawn account_id cents s = do
  let current = balance account_id s
  refuse_if (ltb current cents) (insufficient_funds account_id cents current)
  ok (f64 (current - cents))

unfoldable pub debit_snapshot : String → Number → Mutation ℕ
unfolding withdrawn
debit_snapshot account_id amount_cents s = do
  assert_account_id account_id
  cents ← assert_cents amount_cents
  next ← withdrawn account_id cents s
  ok (next, set_balance account_id next s)

-- The balance after a ramp.
unfoldable pub ramped : RampDirection → String → ℕ → LedgerSnapshot → Result LedgerError ℕ
unfolding withdrawn
ramped onramp account_id cents s = ok (f64 (balance account_id s + cents))
ramped offramp account_id cents s = withdrawn account_id cents s

abbrev pub ramp_event : RampArgs → ℕ → String → ℕ → RampEvent
ramp_event args cents id now = record {
  id = id;
  direction = args.direction;
  account_id = args.account_id;
  amount_cents = cents;
  eusd_amount = args.eusd_amount;
  memo = args.memo;
  created_at = now;
}

unfoldable pub record_ramp_snapshot : RampArgs → String → ℕ → Mutation RampEvent
unfolding ramped
record_ramp_snapshot args id now s = do
  assert_account_id args.account_id
  cents ← assert_cents args.amount_cents
  refuse_if (is_empty args.eusd_amount) type_error
  next ← ramped args.direction args.account_id cents s
  let event = ramp_event args cents id now
  ok (
    event,
    record { accounts = insert args.account_id next s.accounts; ramps = s.ramps ++ event ∷ [] },
  )

-- `await this.persist()` and the answer. A write that fails leaves the old file, since the new one
-- is renamed into place; the snapshot in memory has changed already.
unfoldable pub commit : {A : Type 0} → Bool → Mutation A → Ledger → Result LedgerError A × Ledger
commit persisted mutation l = elim (mutation l.snap) [
  | err e ↦ (err e, l)
  | ok (answer, s) ↦
      if persisted
      then (ok answer, record { snap = s; file = some (encode s) })
      else (err io_error, record l { snap = s })
]

pub credit : String → Number → Bool → Ledger → Result LedgerError ℕ × Ledger
unfolding commit credit_snapshot
credit account_id amount_cents persisted =
    commit persisted (credit_snapshot account_id amount_cents)

pub debit : String → Number → Bool → Ledger → Result LedgerError ℕ × Ledger
unfolding commit debit_snapshot
debit account_id amount_cents persisted = commit persisted (debit_snapshot account_id amount_cents)

pub record_ramp : RampArgs → String → ℕ → Bool → Ledger → Result LedgerError RampEvent × Ledger
unfolding commit record_ramp_snapshot
record_ramp args id now persisted = commit persisted (record_ramp_snapshot args id now)

pub get_balance : String → Ledger → ℕ
unfolding balance
get_balance account_id l = balance account_id l.snap

abbrev pub same_direction : RampDirection → RampDirection → Bool
same_direction onramp onramp = true
same_direction offramp offramp = true
same_direction _ _ = false

-- The filter's test: an absent field lets every event pass.
abbrev pub matches : RampFilter → RampEvent → Bool
matches filter r =
    elim filter.account_id [ none ↦ true | some a ↦ str_eq r.account_id a ]
    && elim filter.direction [ none ↦ true | some d ↦ same_direction r.direction d ]

unfoldable pub list_ramps : RampFilter → Ledger → List RampEvent
list_ramps filter l = select (matches filter) l.snap.ramps

-- What `fs.readFile` may give `open`: no such file, another error, or the file's text as
-- `JSON.parse` takes it (`none` where it throws).
pub data FileRead : Type 0 where
  missing unreadable : FileRead
  contents : Option Json → FileRead

-- `MockUsdLedger.open`; the flag is the outcome of `mkdir` and `persist` for a missing file.
unfoldable pub open_ledger : FileRead → Bool → Result LedgerError Ledger
open_ledger missing persisted =
    if persisted
    then ok (record { snap = empty_snapshot; file = some (encode empty_snapshot) })
    else err io_error
open_ledger unreadable persisted = err io_error
open_ledger (contents none) persisted = err corrupt_json
open_ledger (contents (some json)) persisted = elim (decode json) [
  | none ↦ err corrupt_schema
  | some s ↦ ok (record { snap = s; file = some json })
]
