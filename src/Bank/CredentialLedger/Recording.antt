-- ===== src/Bank/CredentialLedger/Recording.antt =====
-- What the credential ledger holds after a record.
use eto_mcp.Prelude.{ℕ, ◌≡◌, ◌+◌, some, String, is_some, if◌then◌else◌}
use eto_mcp.Prelude.Dict.{lookup-insert, length-insert}
use eto_mcp.Prelude.Text.{str_eq}
use eto_mcp.Bank.CredentialLedger.{
  Entries, LedgerEntry, CardDebitCredentialBody, CheckingAccount, card, checking, record_card,
  record_checking_account, lookup_entry, entry_count,
}

-- The entry stands under its address, every other address is as before, and the ledger has one entry
-- more exactly if the address was new.
abbrev pub IsRecorded : LedgerEntry → Entries → Entries → Type 0
IsRecorded entry entries after =
    ((j : String)
      → lookup_entry j after ≡ (if str_eq entry.pda j then some entry else lookup_entry j entries))
    × (entry_count after
        ≡ entry_count entries + (if is_some (lookup_entry entry.pda entries) then 0 else 1))

-- A card and a checking account are recorded under their address with their holder and the time. An
-- entry that stood there is replaced, whatever its kind, every other one stays, and the ledger has
-- one entry more exactly if the address was new.
pub record-IsRecorded :
    (pda : String) (body : CardDebitCredentialBody) (account : CheckingAccount) (now : ℕ)
    (entries : Entries)
    → IsRecorded
        (record { pda = pda; holder = body.holder; recorded_at_ms = now; body = card body })
        entries
        (record_card pda body now entries)
      × IsRecorded
          (record {
            pda = pda;
            holder = account.holder;
            recorded_at_ms = now;
            body = checking account;
          })
          entries
          (record_checking_account pda account now entries)
unfolding record_card record_checking_account lookup_entry entry_count
record-IsRecorded pda body account now entries = (
  (λ j. lookup-insert pda j _ entries, length-insert pda _ entries),
  (λ j. lookup-insert pda j _ entries, length-insert pda _ entries),
)
