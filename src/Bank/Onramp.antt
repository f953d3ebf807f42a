-- ===== src/Bank/Onramp.antt =====
-- keeper/bpps/bank/handlers/onramp.ts: USD is pulled, eUSD is minted, the fee is remitted.
-- `feeFor` is taken to give an integer that is not negative. A slot is a natural number below 2^64.
mod Request
pub mod Acceptance
pub mod Settlement
pub mod Conservation
mod Tests
unfoldable pub use Request.*
use eto_mcp.Prelude.{◌*◌, Bool, ◌++◌, Option, ℕ, List, String, not}
use eto_mcp.Prelude.Int.{sub_f64, ℤ}
use eto_mcp.Prelude.Text.{utf8}
use eto_mcp.Prelude.Number.{f64}
use eto_mcp.Effects.{Action, attempt, check, or_reject, or_throw, reject_if, pure, ◌>>=◌, ◌>>◌}
use eto_mcp.Bank.Digest.{Sha256, u64_be, from_hex}
use eto_mcp.Bank.Fee.{RemitSource, RemitArgs, treasury_pda_hex}

-- The calls that leave the process, each with its answer.
pub data OnrampEvent : Type 0 where
  pulled : FundingMethod → String → ℕ → Option Bool → OnrampEvent
  minted : String → ℤ → Option String → OnrampEvent
  remitted : RemitArgs → Option String → OnrampEvent

pub record OnrampDeps : Type 0 where
  pub verify_usd_pull : List OnrampEvent → FundingMethod → String → ℕ → Option Bool
  pub mint_on_chain : List OnrampEvent → String → ℤ → Option String
  pub fee_for : ℕ → ℕ
  pub remit_to_treasury : List OnrampEvent → RemitArgs → Option String

pub data OnrampPhase : Type 0 where
  minted_phase pending_pull failed : OnrampPhase

pub record OnrampOutcome : Type 0 where
  pub onramp_id : String
  pub phase : OnrampPhase
  pub eusd_amount : ℤ
  pub fee : ℕ
  pub fulfillment_uri : String
  pub mint_tx_signature : String
  pub treasury_remit_tx_signature : String

-- 1 cent is 10 000 atomic units.
unfoldable pub usd_cents_to_atomic_eusd : ℕ → ℕ
usd_cents_to_atomic_eusd cents = f64 (cents * 10000)

-- What `onramp_id` is the hash of.
unfoldable pub onramp_preimage : OnrampRequest → ℕ → List ℕ
onramp_preimage req cents =
    utf8 "onramp"
    ++ (from_hex req.recipient
        ++ (u64_be cents ++ (u64_be req.initiated_slot ++ utf8 req.external_payment_ref)))

unfoldable pub onramp_id : Sha256 → OnrampRequest → ℕ → String
onramp_id sha256 req cents = sha256 (onramp_preimage req cents)

abbrev pub onramp_remit : Sha256 → OnrampRequest → ℕ → ℕ → RemitArgs
onramp_remit sha256 req cents fee = record {
  fee_atomic = fee;
  treasury_pda_hex = treasury_pda_hex sha256;
  source = RemitSource.onramp;
  correlation_id = onramp_id sha256 req cents;
}

-- What is minted for a gross amount.
abbrev pub gross_of : ℕ → ℕ
gross_of cents = usd_cents_to_atomic_eusd cents

abbrev pub net_of : OnrampDeps → ℕ → ℤ
net_of deps cents = sub_f64 (gross_of cents) (deps.fee_for (gross_of cents))

unfoldable pub execute_onramp :
    Sha256 → OnrampRequest → OnrampDeps → Action OnrampEvent OnrampReason OnrampOutcome
execute_onramp sha256 req deps = do
  cents ← check (validate req)
  let fee = deps.fee_for (gross_of cents)
  let eusd_net = net_of deps cents
  let id = onramp_id sha256 req cents
  let remit_args = onramp_remit sha256 req cents fee
  pull ←
      attempt (λ log. deps.verify_usd_pull log req.funding_method req.external_payment_ref cents)
        (pulled req.funding_method req.external_payment_ref cents)
  cleared ← or_throw pull
  reject_if (not cleared) usd_pull_failed
  mint ←
      attempt (λ log. deps.mint_on_chain log req.recipient_token_account_pda eusd_net)
        (minted req.recipient_token_account_pda eusd_net)
  mint_sig ← or_reject mint mint_failed
  remit ← attempt (λ log. deps.remit_to_treasury log remit_args) (remitted remit_args)
  remit_sig ← or_throw remit
  pure (record {
    onramp_id = id;
    phase = minted_phase;
    eusd_amount = eusd_net;
    fee = fee;
    fulfillment_uri = Prim.Native.String.◌++◌ "eto://onramp/" id;
    mint_tx_signature = mint_sig;
    treasury_remit_tx_signature = remit_sig;
  })
