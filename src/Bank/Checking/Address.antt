-- ===== src/Bank/Checking/Address.antt =====
-- What the address of a checking account is derived from.
use eto_mcp.Prelude.{sym, ◌∙◌, length, ◌^◌, ◌<◌, true, ◌≡◌}
use eto_mcp.Prelude.Text.{utf8, lower_case, is_hex64}
use eto_mcp.Bank.Digest.{from_hex}
use eto_mcp.Bank.Digest.Bytes.{append-cancel, append-cancel_left, u64_be_injective}
use eto_mcp.Bank.Digest.Hex.{length-from_hex, from_hex_injective}
use eto_mcp.Bank.Checking.{OpenCheckingRequest, checking_preimage}

-- For subjects of 64 hexadecimal digits and slots below 2^64, the bytes that are hashed tell the
-- subject, up to the case of its letters, and the slot.
pub checking_preimage_injective :
    (a b : OpenCheckingRequest)
    → is_hex64 a.subject ≡ true
    → is_hex64 b.subject ≡ true
    → a.opened_slot < 2 ^ 64
    → b.opened_slot < 2 ^ 64
    → checking_preimage a ≡ checking_preimage b
    → (lower_case a.subject ≡ lower_case b.subject) × (a.opened_slot ≡ b.opened_slot)
unfolding checking_preimage
checking_preimage_injective a b p q m n e =
    let joined = append-cancel_left (utf8 "checking_account") e in
    let same : length (from_hex a.subject) ≡ length (from_hex b.subject) =
      length-from_hex a.subject p ∙ sym (length-from_hex b.subject q) in
    let (keys, slots) = append-cancel (from_hex a.subject) (from_hex b.subject) same joined in
    (
      from_hex_injective a.subject b.subject p q keys,
      u64_be_injective a.opened_slot b.opened_slot m n slots,
    )
