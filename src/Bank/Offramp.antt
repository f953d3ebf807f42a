-- ===== src/Bank/Offramp.antt =====
-- keeper/bpps/bank/handlers/offramp.ts: eUSD is burned, USD is pushed, the fee is remitted; a push
-- that fails after the burn is flagged for reconciliation. `feeFor` is taken to give an integer
-- that is not negative, and a slot is a natural number below 2^64.
mod Request
pub mod Settlement
pub mod Conservation
mod Tests
unfoldable pub use Request.*
use eto_mcp.Bank.Digest.{u64_be, from_hex, Sha256}
use eto_mcp.Prelude.{none, ◌-◌, ◌++◌, some, ◌/◌, Option, String, ℕ, List}
use eto_mcp.Prelude.Text.{utf8}
use eto_mcp.Prelude.Number.{f64}
use eto_mcp.Bank.Fee.{RemitSource, RemitArgs, treasury_pda_hex}
use eto_mcp.Effects.{Action, attempt, check, or_reject, or_throw, reject, pure, ◌>>=◌, ◌>>◌}

pub data OfframpEvent : Type 0 where
  burned : String → ℕ → Option String → OfframpEvent
  pushed : ℕ → Destination → Option String → OfframpEvent
  flagged : String → String → ℕ → Option (Unit {0}) → OfframpEvent
  remitted : RemitArgs → Option String → OfframpEvent

pub record OfframpDeps : Type 0 where
  pub burn_on_chain : List OfframpEvent → String → ℕ → Option String
  pub push_usd : List OfframpEvent → ℕ → Destination → Option String
  pub flag_reconciliation : List OfframpEvent → String → String → ℕ → Option (Unit {0})
  pub fee_for : ℕ → ℕ
  pub remit_to_treasury : List OfframpEvent → RemitArgs → Option String

pub data OfframpPhase : Type 0 where
  pushed_phase burned_pending_push failed : OfframpPhase

pub record OfframpOutcome : Type 0 where
  pub offramp_id : String
  pub phase : OfframpPhase
  pub burned_atomic : ℕ
  pub fee_atomic : ℕ
  pub usd_cents_pushed : ℕ
  pub fulfillment_uri : String
  pub burn_tx_signature : String
  pub external_ref : String
  pub treasury_remit_tx_signature : String

-- `Math.floor(atomic / 10_000)`
unfoldable pub atomic_eusd_to_usd_cents : ℕ → ℕ
atomic_eusd_to_usd_cents atomic = atomic / 10000

-- `crypto` and the text of `JSON.stringify` for a destination.
pub record Platform : Type 0 where
  pub sha256 : Sha256
  pub stringify : Destination → String

-- What `offramp_id` is the hash of.
unfoldable pub offramp_preimage : Platform → OfframpRequest → ℕ → List ℕ
offramp_preimage platform req amount =
    utf8 "offramp"
    ++ (from_hex req.holder
        ++ (u64_be amount
            ++ (u64_be req.initiated_slot ++ utf8 (platform.stringify req.destination))))

unfoldable pub offramp_id : Platform → OfframpRequest → ℕ → String
offramp_id platform req amount = platform.sha256 (offramp_preimage platform req amount)

abbrev pub cents_of : OfframpDeps → ℕ → ℕ
cents_of deps amount = atomic_eusd_to_usd_cents (f64 (amount - deps.fee_for amount))

abbrev pub offramp_remit : Platform → OfframpRequest → ℕ → ℕ → RemitArgs
offramp_remit platform req amount fee = record {
  fee_atomic = fee;
  treasury_pda_hex = treasury_pda_hex platform.sha256;
  source = RemitSource.offramp;
  correlation_id = offramp_id platform req amount;
}

-- The `catch` of the push: flag the burn for reconciliation, then reject. A flag that throws lets
-- its own error through.
abbrev pub push_or_flag :
    OfframpRequest
    → OfframpDeps
    → String
    → ℕ
    → Option String
    → Action OfframpEvent OfframpReason String
push_or_flag req deps id amount (some external_ref) = pure external_ref
push_or_flag req deps id amount none = do
  flag ←
      attempt (λ log. deps.flag_reconciliation log id req.holder amount)
        (flagged id req.holder amount)
  or_throw flag
  reject push_failed_post_burn

unfoldable pub execute_offramp :
    Platform → OfframpRequest → OfframpDeps → Action OfframpEvent OfframpReason OfframpOutcome
execute_offramp platform req deps = do
  amount ← check (validate deps.fee_for req)
  let fee = deps.fee_for amount
  let usd_cents = cents_of deps amount
  let id = offramp_id platform req amount
  let remit_args = offramp_remit platform req amount fee
  burn ←
      attempt (λ log. deps.burn_on_chain log req.holder_token_account_pda amount)
        (burned req.holder_token_account_pda amount)
  burn_sig ← or_reject burn burn_failed
  push ←
      attempt (λ log. deps.push_usd log usd_cents req.destination)
        (pushed usd_cents req.destination)
  external_ref ← push_or_flag req deps id amount push
  remit ← attempt (λ log. deps.remit_to_treasury log remit_args) (remitted remit_args)
  remit_sig ← or_throw remit
  pure (record {
    offramp_id = id;
    phase = pushed_phase;
    burned_atomic = amount;
    fee_atomic = fee;
    usd_cents_pushed = usd_cents;
    fulfillment_uri = Prim.Native.String.◌++◌ "eto://offramp/" id;
    burn_tx_signature = burn_sig;
    external_ref = external_ref;
    treasury_remit_tx_signature = remit_sig;
  })
