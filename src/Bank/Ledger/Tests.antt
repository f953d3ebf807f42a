-- ===== src/Bank/Ledger/Tests.antt =====
-- Runs of the mock ledger, and its theorems at concrete inputs.
use eto_mcp.Prelude.{refl, arith, false, ◌≡◌, [], List, none, some, true, ◌∷◌}
use eto_mcp.Prelude.Result.{ok, err}
use eto_mcp.Prelude.Number.{f64, nat, max_safe}
use eto_mcp.Prelude.Json.{Json}
use eto_mcp.Prelude.Dict.{insert, lookup}
use eto_mcp.Bank.Ledger.{
  LedgerSnapshot, RampArgs, RampEvent, onramp, offramp, Ledger, empty_snapshot, record_ramp, credit,
  debit, balance, commit, credit_snapshot, open_ledger, contents, corrupt_schema,
  insufficient_funds,
}
use eto_mcp.Bank.Ledger.Schema.{encode}
use eto_mcp.Bank.Ledger.Persistence.{open_ledger-commit, credit_overflow}
use eto_mcp.Bank.Ledger.Reconcile.{IsReconciled, RampCall, record_ramps, record_ramps-IsReconciled}
use eto_mcp.Bank.Ledger.Atomicity.{Settles, record_ramp-Settles}
use eto_mcp.Bank.Ledger.Queue.{start, Queue, idle, Op, amount, submit, begin, Reach, here, next}
use eto_mcp.Bank.Ledger.Serial.{IsSerial, queue-IsSerial}

abbrev fresh : Ledger
fresh = record { snap = empty_snapshot; file = some (encode empty_snapshot) }

abbrev ramp_in : RampArgs
ramp_in = record {
  direction = onramp;
  account_id = "acct_a";
  amount_cents = nat 5000;
  eusd_amount = "50";
  memo = none;
}

abbrev ramp_out : RampArgs
ramp_out = record {
  direction = offramp;
  account_id = "acct_a";
  amount_cents = nat 2000;
  eusd_amount = "20";
  memo = some "atm";
}

-- The second write fails, and the last call asks for too much.
abbrev ramp_calls : List RampCall
ramp_calls =
    record { args = ramp_in; id = "1"; now = 10; persisted = true }
    ∷ record { args = ramp_out; id = "2"; now = 11; persisted = false }
    ∷ record {
      args = record ramp_out { amount_cents = nat 9000 };
      id = "3";
      now = 12;
      persisted = true;
    }
    ∷ []

run-ramp_calls : balance "acct_a" (record_ramps ramp_calls fresh).snap ≡ 3000
unfolding record_ramps record_ramp balance lookup insert encode f64
run-ramp_calls = refl

too_much : (debit "acct_a" (nat 1) true fresh).0 ≡ err (insufficient_funds "acct_a" 1 0)
unfolding debit balance lookup
too_much = refl

record_ramps-IsReconciled_example : IsReconciled (record_ramps ramp_calls fresh).snap
unfolding balance lookup
record_ramps-IsReconciled_example =
    record_ramps-IsReconciled ramp_calls fresh (λ k. refl) (λ k. omega arith)

record_ramp-Settles_example : Settles ramp_out "2" 11 fresh (record_ramp ramp_out "2" 11 true fresh)
record_ramp-Settles_example = record_ramp-Settles ramp_out "2" 11 true fresh

abbrev credited : LedgerSnapshot
credited = record { accounts = ("acct_a", 700) ∷ []; ramps = [] }

open_ledger-commit_example :
    (json : Json) × (some (encode credited) ≡ some json)
    × (open_ledger (contents (some json)) true
        ≡ ok (record { snap = credited; file = some (encode credited) }))
unfolding commit credit_snapshot balance lookup insert f64
open_ledger-commit_example =
    open_ledger-commit (credit_snapshot "acct_a" (nat 700)) true true fresh
      (record { snap = credited; file = some (encode credited) }) 700 refl
      (record { accounts = (refl, omega arith, tt); ramps = tt })

abbrev full : Ledger
full = record { snap = record { accounts = ("acct_a", max_safe) ∷ []; ramps = [] }; file = none }

abbrev spoiled : LedgerSnapshot
spoiled = record { accounts = ("acct_a", 9007199254740992) ∷ []; ramps = [] }

credit_overflow_example :
    (json : Json) × (some (encode spoiled) ≡ some json)
    × (open_ledger (contents (some json)) true ≡ err corrupt_schema)
unfolding credit balance lookup insert f64
credit_overflow_example =
    credit_overflow "acct_a" (nat 1) full (record { snap = spoiled; file = some (encode spoiled) })
      9007199254740992 true refl (omega arith)

abbrev first_event : RampEvent
first_event = record {
  id = "1";
  direction = onramp;
  account_id = "acct_a";
  amount_cents = 5000;
  eusd_amount = "50";
  memo = none;
  created_at = 10;
}

-- A credit is submitted, and a read while the credit's write is in flight.
abbrev deposit : Op
deposit = Op.credit "acct_a" (nat 700)

abbrev read : Op
read = Op.get_balance "acct_a"

abbrev both_submitted : Queue
both_submitted = record {
  ledger = record { snap = credited; file = fresh.file };
  running = some (deposit, amount 700);
  waiting = read ∷ [];
  submitted = deposit ∷ read ∷ [];
  calls = [];
  replies = [];
}

run_to_both : Reach (idle fresh) both_submitted
unfolding start credit_snapshot balance lookup insert f64
run_to_both = next (next (next here (submit _ deposit)) (begin _ refl refl refl)) (submit _ read)

queue-IsSerial_example : IsSerial fresh both_submitted
queue-IsSerial_example = queue-IsSerial fresh run_to_both
