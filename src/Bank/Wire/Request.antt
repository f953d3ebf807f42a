-- ===== src/Bank/Wire/Request.antt =====
-- The request of keeper/bpps/bank/handlers/wire.ts and the guards at the head of its handler.
use eto_mcp.Prelude.Text.{is_empty, str_eq, is_hex64, is_present}
use eto_mcp.Prelude.Number.{positive_integer, Number}
use eto_mcp.Prelude.{not, Bool, Option, ℕ, String}
use eto_mcp.Prelude.Result.{Result, ok, ◌>>=◌, ◌>>◌, refuse_if, or_refuse}

pub data WireKind : Type 0 where
  domestic international : WireKind

pub record Recipient : Type 0 where
  pub routing_number : Option String
  pub account_number : Option String
  pub swift_bic : Option String
  pub iban : Option String
  pub name : String

pub record WireRequest : Type 0 where
  pub caller_pubkey : String
  pub holder : String
  pub checking_account_pda : String
  pub amount : Number
  pub recipient : Recipient
  pub memo : Option String
  pub kind : WireKind
  pub initiated_slot : ℕ

pub data WireReason : Type 0 where
  invalid_pubkey caller_mismatch invalid_amount recipient_invalid : WireReason
  lock_failed release_failed : WireReason

-- The routing that the kind of wire needs.
abbrev pub has_routing : WireKind → Recipient → Bool
has_routing domestic r = is_present r.routing_number
has_routing international r = is_present r.swift_bic

unfoldable pub validate : WireRequest → Result WireReason ℕ
validate req = do
  refuse_if (not (is_hex64 req.caller_pubkey)) invalid_pubkey
  refuse_if (not (is_hex64 req.holder)) invalid_pubkey
  refuse_if (not (is_hex64 req.checking_account_pda)) invalid_pubkey
  refuse_if (not (str_eq req.caller_pubkey req.holder)) caller_mismatch
  amount ← or_refuse (positive_integer req.amount) invalid_amount
  refuse_if (not (has_routing req.kind req.recipient)) recipient_invalid
  refuse_if (is_empty req.recipient.name) recipient_invalid
  ok amount
