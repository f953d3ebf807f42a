-- ===== src/Bank/Ledger/Queue.antt =====
-- The queue of `enqueue` in mock-usd-ledger.ts, over the event loop. A call submits its work
-- behind the tail of the queue. A unit of work runs in one go up to its `persist`; while the file
-- is written other callers may submit, and nothing else of the queue runs. The outcome of the
-- write settles the call, and an error does not stop the work behind it.
use eto_mcp.Prelude.{◌≡◌, ◌∷◌, false, ◌++◌, true, List, some, [], Bool, String, none, Option, ℕ}
use eto_mcp.Prelude.Number.{Number}
use eto_mcp.Prelude.Result.{err, ok, Result}
use eto_mcp.Bank.Ledger
use eto_mcp.Bank.Ledger.{
  Ledger, LedgerSnapshot, RampArgs, RampFilter, RampEvent, LedgerError, io_error, credit_snapshot,
  debit_snapshot, record_ramp_snapshot, commit,
}
use eto_mcp.Bank.Ledger.Schema.{encode}

-- A call; the id and the time of a ramp are those drawn when it runs.
pub data Op : Type 0 where
  get_balance : String → Op
  credit debit : String → Number → Op
  record_ramp : RampArgs → String → ℕ → Op
  list_ramps : RampFilter → Op

pub data Reply : Type 0 where
  amount : ℕ → Reply
  event : RampEvent → Reply
  events : List RampEvent → Reply
  thrown : LedgerError → Reply

-- What one uninterrupted method answers, and the ledger after it.
abbrev amount_reply : Result LedgerError ℕ × Ledger → Reply × Ledger
amount_reply (ok n, l) = (amount n, l)
amount_reply (err e, l) = (thrown e, l)

abbrev event_reply : Result LedgerError RampEvent × Ledger → Reply × Ledger
event_reply (ok e, l) = (event e, l)
event_reply (err e, l) = (thrown e, l)

unfoldable pub call : Op → Bool → Ledger → Reply × Ledger
call (Op.get_balance k) p l = (amount (Ledger.get_balance k l), l)
call (Op.credit k n) p l = amount_reply (Ledger.credit k n p l)
call (Op.debit k n) p l = amount_reply (Ledger.debit k n p l)
call (Op.record_ramp args id now) p l = event_reply (Ledger.record_ramp args id now p l)
call (Op.list_ramps f) p l = (events (Ledger.list_ramps f l), l)

-- The same method up to its first `await`: settled, or writing with an answer to give.
pub data Started : Type 0 where
  settled : Reply → Started
  writing : Reply → LedgerSnapshot → Started

abbrev started : {A : Type 0} → (A → Reply) → Result LedgerError (A × LedgerSnapshot) → Started
started f (ok (a, s)) = writing (f a) s
started f (err e) = settled (thrown e)

unfoldable pub start : Op → Ledger → Started
start (Op.get_balance k) l = settled (amount (Ledger.get_balance k l))
start (Op.credit k n) l = started amount (credit_snapshot k n l.snap)
start (Op.debit k n) l = started amount (debit_snapshot k n l.snap)
start (Op.record_ramp args id now) l = started event (record_ramp_snapshot args id now l.snap)
start (Op.list_ramps f) l = settled (events (Ledger.list_ramps f l))

-- `persist` has ended.
abbrev pub finish : Reply → Bool → Ledger → Reply × Ledger
finish r true l = (r, record l { file = some (encode l.snap) })
finish r false l = (thrown io_error, l)

pub record Queue : Type 0 where
  pub ledger : Ledger
  -- the call whose write is in flight, with its answer
  pub running : Option (Op × Reply)
  pub waiting : List Op
  -- what has been submitted, and the calls that have settled with their outcomes and answers
  pub submitted : List Op
  pub calls : List (Op × Bool)
  pub replies : List Reply

abbrev pub idle : Ledger → Queue
idle l = record {
  ledger = l;
  running = none;
  waiting = [];
  submitted = [];
  calls = [];
  replies = [];
}

-- The events of the loop.
pub data Step : Queue → Queue → Type 0 where
  submit :
      (q : Queue) (op : Op)
      → Step q (record q { waiting = q.waiting ++ op ∷ []; submitted = q.submitted ++ op ∷ [] })
  settle :
      (q : Queue) {op : Op} {rest : List Op} {r : Reply} (p : Bool)
      → q.running ≡ none
      → q.waiting ≡ op ∷ rest
      → start op q.ledger ≡ settled r
      → Step q (record q {
        waiting = rest;
        calls = q.calls ++ (op, p) ∷ [];
        replies = q.replies ++ r ∷ [];
      })
  begin :
      (q : Queue) {op : Op} {rest : List Op} {r : Reply} {s : LedgerSnapshot}
      → q.running ≡ none
      → q.waiting ≡ op ∷ rest
      → start op q.ledger ≡ writing r s
      → Step q (record q {
        ledger = record { snap = s; file = q.ledger.file };
        running = some (op, r);
        waiting = rest;
      })
  written :
      (q : Queue) {op : Op} {r : Reply} (p : Bool)
      → q.running ≡ some (op, r)
      → Step q (record q {
        ledger = (finish r p q.ledger).1;
        running = none;
        calls = q.calls ++ (op, p) ∷ [];
        replies = q.replies ++ (finish r p q.ledger).0 ∷ [];
      })

pub data Reach (q : Queue) : Queue → Type 0 where
  here : Reach q q
  next : {q' q'' : Queue} → Reach q q' → Step q' q'' → Reach q q''

-- Uninterrupted methods, one after the other.
unfoldable pub run_calls : List (Op × Bool) → Ledger → List Reply × Ledger
run_calls [] l = ([], l)
run_calls ((op, p) ∷ cs) l =
    let (r, l') = call op p l in let (rs, l'') = run_calls cs l' in (r ∷ rs, l'')
