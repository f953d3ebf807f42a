-- ===== src/Bank/Offramp/Request.antt =====
-- The request of keeper/bpps/bank/handlers/offramp.ts and the guards at the head of its handler.
use eto_mcp.Prelude.{leb, ◌||◌, ◌&&◌, not, Option, Bool, String, ℕ}
use eto_mcp.Prelude.Text.{is_empty, str_eq, is_hex64, is_present}
use eto_mcp.Prelude.Number.{positive_integer, Number}
use eto_mcp.Prelude.Result.{Result, ok, ◌>>=◌, ◌>>◌, refuse_if, or_refuse}

pub record Destination : Type 0 where
  pub account_holder_name : String
  pub routing_number : Option String
  pub account_number : Option String
  pub swift_bic : Option String
  pub iban : Option String

pub record OfframpRequest : Type 0 where
  pub caller_pubkey : String
  pub holder : String
  pub holder_token_account_pda : String
  pub eusd_amount_atomic : Number
  pub destination : Destination
  pub initiated_slot : ℕ

pub data OfframpReason : Type 0 where
  invalid_pubkey caller_mismatch invalid_amount destination_invalid : OfframpReason
  burn_failed push_failed_post_burn : OfframpReason

-- `hasDomestic || hasIntl`
abbrev pub has_route : Destination → Bool
has_route d = (is_present d.routing_number && is_present d.account_number) || is_present d.swift_bic

-- The checks in their order, up to the one of the net amount, for a schedule of fees.
unfoldable pub validate : (ℕ → ℕ) → OfframpRequest → Result OfframpReason ℕ
validate fee_for req = do
  refuse_if (not (is_hex64 req.caller_pubkey)) invalid_pubkey
  refuse_if (not (is_hex64 req.holder)) invalid_pubkey
  refuse_if (not (is_hex64 req.holder_token_account_pda)) invalid_pubkey
  refuse_if (not (str_eq req.caller_pubkey req.holder)) caller_mismatch
  amount ← or_refuse (positive_integer req.eusd_amount_atomic) invalid_amount
  refuse_if (is_empty req.destination.account_holder_name) destination_invalid
  refuse_if (not (has_route req.destination)) destination_invalid
  refuse_if (leb amount (fee_for amount)) invalid_amount
  ok amount
