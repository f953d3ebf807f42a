-- ===== src/Bank/Wire.antt =====
-- keeper/bpps/bank/handlers/wire.ts: the amount and the fee are locked in escrow, then released,
-- or refunded if the release fails. `feeFor` is taken to give an integer that is not negative, and
-- a slot is a natural number below 2^64.
mod Request
pub mod Acceptance
pub mod Settlement
pub mod Escrow
mod Tests
unfoldable pub use Request.*
use eto_mcp.Prelude.{◌+◌, ◌++◌, none, some, ℕ, List, Option, String}
use eto_mcp.Prelude.Number.{f64}
use eto_mcp.Prelude.Text.{utf8}
use eto_mcp.Effects.{Action, attempt, check, or_reject, or_throw, reject, pure, ◌>>=◌, ◌>>◌}
use eto_mcp.Bank.Digest.{Sha256, u64_be, from_hex}

pub record LockArgs : Type 0 where
  pub holder : String
  pub checking_pda : String
  pub amount : ℕ
  pub fee : ℕ
  pub wire_id : String

pub record ReleaseArgs : Type 0 where
  pub wire_id : String
  pub recipient : Recipient
  pub amount : ℕ

pub record RefundArgs : Type 0 where
  pub wire_id : String
  pub holder : String
  pub amount : ℕ
  pub fee : ℕ

pub record Receipt : Type 0 where
  pub confirmed_at_slot : ℕ
  pub external_ref : String

pub data WireEvent : Type 0 where
  locked : LockArgs → Option String → WireEvent
  released : ReleaseArgs → Option Receipt → WireEvent
  refunded : RefundArgs → Option String → WireEvent

pub record WireDeps : Type 0 where
  pub lock_escrow : List WireEvent → LockArgs → Option String
  pub release_escrow : List WireEvent → ReleaseArgs → Option Receipt
  pub refund_escrow : List WireEvent → RefundArgs → Option String
  pub fee_for : WireKind → ℕ → ℕ

pub data WirePhase : Type 0 where
  locked_phase released_phase failed : WirePhase

pub record WireOutcome : Type 0 where
  pub wire_id : String
  pub phase : WirePhase
  pub amount : ℕ
  pub fee : ℕ
  pub fulfillment_uri : String
  pub receipt : Receipt

-- `crypto` and the text of `JSON.stringify` for a recipient.
pub record Platform : Type 0 where
  pub sha256 : Sha256
  pub stringify : Recipient → String

abbrev pub kind_text : WireKind → String
kind_text domestic = "domestic"
kind_text international = "international"

-- What `wire_id` is the hash of, for the total of amount and fee.
unfoldable pub wire_preimage : Platform → WireRequest → ℕ → List ℕ
wire_preimage platform req total =
    utf8 "wire"
    ++ (from_hex req.holder
        ++ (u64_be total
            ++ (u64_be req.initiated_slot
                ++ (utf8 (kind_text req.kind) ++ utf8 (platform.stringify req.recipient)))))

unfoldable pub wire_id : Platform → WireRequest → ℕ → String
wire_id platform req total = platform.sha256 (wire_preimage platform req total)

abbrev pub id_of : Platform → WireRequest → WireDeps → ℕ → String
id_of platform req deps amount = wire_id platform req (f64 (amount + deps.fee_for req.kind amount))

abbrev pub lock_args : Platform → WireRequest → WireDeps → ℕ → LockArgs
lock_args platform req deps amount = record {
  holder = req.holder;
  checking_pda = req.checking_account_pda;
  amount = amount;
  fee = deps.fee_for req.kind amount;
  wire_id = id_of platform req deps amount;
}

abbrev pub release_args : Platform → WireRequest → WireDeps → ℕ → ReleaseArgs
release_args platform req deps amount = record {
  wire_id = id_of platform req deps amount;
  recipient = req.recipient;
  amount = amount;
}

abbrev pub refund_args : Platform → WireRequest → WireDeps → ℕ → RefundArgs
refund_args platform req deps amount = record {
  wire_id = id_of platform req deps amount;
  holder = req.holder;
  amount = amount;
  fee = deps.fee_for req.kind amount;
}

-- The `catch` of the release: the refund is tried, its own error is swallowed.
abbrev pub receipt_or_refund :
    Platform → WireRequest → WireDeps → ℕ → Option Receipt → Action WireEvent WireReason Receipt
receipt_or_refund platform req deps amount (some receipt) = pure receipt
receipt_or_refund platform req deps amount none = do
  _ ←
      attempt (λ log. deps.refund_escrow log (refund_args platform req deps amount))
        (refunded (refund_args platform req deps amount))
  reject release_failed

unfoldable pub execute_wire :
    Platform → WireRequest → WireDeps → Action WireEvent WireReason WireOutcome
execute_wire platform req deps = do
  amount ← check (validate req)
  lock ←
      attempt (λ log. deps.lock_escrow log (lock_args platform req deps amount))
        (locked (lock_args platform req deps amount))
  _ ← or_reject lock lock_failed
  release ←
      attempt (λ log. deps.release_escrow log (release_args platform req deps amount))
        (released (release_args platform req deps amount))
  receipt ← receipt_or_refund platform req deps amount release
  pure (record {
    wire_id = id_of platform req deps amount;
    phase = released_phase;
    amount = amount;
    fee = deps.fee_for req.kind amount;
    fulfillment_uri = Prim.Native.String.◌++◌ "eto://wire/" (id_of platform req deps amount);
    receipt = receipt;
  })
