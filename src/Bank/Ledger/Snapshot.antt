-- ===== src/Bank/Ledger/Snapshot.antt =====
-- The data of keeper/bpps/bank/mock-usd-ledger.ts: what the ledger holds, and what its calls take
-- and throw. `version` is the literal 1 and is written only by the encoder.
use eto_mcp.Prelude.{ℕ, String, Option, List, []}
use eto_mcp.Prelude.Number.{Number}
use eto_mcp.Prelude.Dict.{Dict}

pub data RampDirection : Type 0 where
  onramp offramp : RampDirection

pub record RampEvent : Type 0 where
  pub id : String
  pub direction : RampDirection
  pub account_id : String
  pub amount_cents : ℕ
  pub eusd_amount : String
  pub memo : Option String
  pub created_at : ℕ

-- `accounts` maps an account to its `balanceCents`.
pub record LedgerSnapshot : Type 0 where
  pub accounts : Dict ℕ
  pub ramps : List RampEvent

abbrev pub empty_snapshot : LedgerSnapshot
empty_snapshot = record { accounts = []; ramps = [] }

-- The argument of `recordRamp`, before its amount is checked.
pub record RampArgs : Type 0 where
  pub direction : RampDirection
  pub account_id : String
  pub amount_cents : Number
  pub eusd_amount : String
  pub memo : Option String

-- The errors of the methods; `insufficient_funds` carries its account, request and balance, and
-- `io_error` is what the file system throws.
pub data LedgerError : Type 0 where
  type_error range_error io_error : LedgerError
  insufficient_funds : String → ℕ → ℕ → LedgerError
  corrupt_json corrupt_schema : LedgerError

pub record RampFilter : Type 0 where
  pub account_id : Option String
  pub direction : Option RampDirection
