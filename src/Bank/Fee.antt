-- ===== src/Bank/Fee.antt =====
-- keeper/bpps/bank/handlers/fee.ts: the fee of one pip, and its remittance to the treasury.
use eto_mcp.Prelude.{none, some, ◌++◌, ◌==◌, if◌then◌else◌, List, ℕ, ◌/◌, String}
use eto_mcp.Prelude.Number.{Number, positive_integer}
use eto_mcp.Prelude.Text.{utf8}
use eto_mcp.Bank.Digest.{Sha256}

abbrev pub one_bip_divisor : ℕ
one_bip_divisor = 10000

-- `oneBipFee` on an integer amount that is not negative.
unfoldable pub one_bip_fee_of : ℕ → ℕ
one_bip_fee_of eusd_atomic = eusd_atomic / one_bip_divisor

-- `oneBipFee` on any number: 0 for what is no positive integer.
unfoldable pub one_bip_fee : Number → ℕ
unfolding one_bip_fee_of
one_bip_fee n = elim (positive_integer n) [
  | none ↦ 0
  | some eusd_atomic ↦ one_bip_fee_of eusd_atomic
]

pub data RemitSource : Type 0 where
  onramp offramp : RemitSource

pub record RemitArgs : Type 0 where
  pub fee_atomic : ℕ
  pub treasury_pda_hex : String
  pub source : RemitSource
  pub correlation_id : String

-- `BANK_TREASURY_TOKEN_ACCOUNT_PDA_HEX`
unfoldable pub treasury_pda_hex : Sha256 → String
treasury_pda_hex sha256 = sha256 (utf8 "eto.bank.treasury.eusd.v0")

-- `'0'.repeat(64)`
abbrev pub zero_fee_sentinel : String
zero_fee_sentinel = "0000000000000000000000000000000000000000000000000000000000000000"

-- `stubRemitToTreasury`, which never throws; `stringify` is `JSON.stringify` of its argument.
unfoldable pub stub_remit_to_treasury : Sha256 → (RemitArgs → List ℕ) → RemitArgs → String
stub_remit_to_treasury sha256 stringify args =
    if args.fee_atomic == 0 then zero_fee_sentinel else sha256 (utf8 "treasury:" ++ stringify args)
