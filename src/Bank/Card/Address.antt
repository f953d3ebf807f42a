-- ===== src/Bank/Card/Address.antt =====
-- What the address of a card is derived from.
use eto_mcp.Prelude.{sym, ◌∙◌, length, ◌^◌, ◌<◌, true, ◌≡◌}
use eto_mcp.Prelude.Text.{utf8, lower_case, is_hex64}
use eto_mcp.Bank.Digest.{from_hex}
use eto_mcp.Bank.Digest.Bytes.{append-cancel, append-cancel_left, u64_be_injective}
use eto_mcp.Bank.Digest.Hex.{length-from_hex, from_hex_injective}
use eto_mcp.Bank.Card.{IssueCardRequest, card_preimage}

-- For a subject and an account of 64 hexadecimal digits and slots below 2^64, the bytes that are
-- hashed tell the subject and the linked account, up to the case of their letters, and the slot.
pub card_preimage_injective :
    (a b : IssueCardRequest)
    → is_hex64 a.subject ≡ true
    → is_hex64 b.subject ≡ true
    → is_hex64 a.linked_account_pda ≡ true
    → is_hex64 b.linked_account_pda ≡ true
    → a.issued_slot < 2 ^ 64
    → b.issued_slot < 2 ^ 64
    → card_preimage a ≡ card_preimage b
    → (lower_case a.subject ≡ lower_case b.subject)
      × (lower_case a.linked_account_pda ≡ lower_case b.linked_account_pda)
      × (a.issued_slot ≡ b.issued_slot)
unfolding card_preimage
card_preimage_injective a b p q p' q' m n e =
    let joined = append-cancel_left (utf8 "card_debit") e in
    let same : length (from_hex a.subject) ≡ length (from_hex b.subject) =
      length-from_hex a.subject p ∙ sym (length-from_hex b.subject q) in
    let (keys, rest) = append-cancel (from_hex a.subject) (from_hex b.subject) same joined in
    let same' : length (from_hex a.linked_account_pda) ≡ length (from_hex b.linked_account_pda) =
      length-from_hex a.linked_account_pda p' ∙ sym (length-from_hex b.linked_account_pda q') in
    let (accounts, slots) =
      append-cancel (from_hex a.linked_account_pda) (from_hex b.linked_account_pda) same' rest in
    (
      from_hex_injective a.subject b.subject p q keys,
      from_hex_injective a.linked_account_pda b.linked_account_pda p' q' accounts,
      u64_be_injective a.issued_slot b.issued_slot m n slots,
    )
