-- ===== src/Bank/CredentialLedger.antt =====
-- keeper/bpps/bank/credential-ledger.ts: the in-memory ledger of issued credentials, which
-- issue-card and open-checking share. `now` is drawn by the caller.
pub mod Recording
mod Tests
use eto_mcp.Prelude.{[], length, Option, map, String, ℕ, List}
use eto_mcp.Prelude.Dict.{Dict, lookup, insert}

-- The body of an account.checking credential as it is recorded.
pub record CheckingAccount : Type 0 where
  pub holder : String
  pub opened_slot : ℕ
  pub opening_balance : ℕ

-- `CardDebitCredentialBody`; its brand and tier are the constants "internal" and "standard".
pub record CardDebitCredentialBody : Type 0 where
  pub holder : String
  pub linked_account_pda : String
  pub jurisdiction : String
  pub card_id_hash : String
  pub issued_slot : ℕ
  pub expires_slot : ℕ
  pub spending_limit_per_day : ℕ
  pub spending_limit_per_tx : ℕ
  pub merchant_category_blocklist : Option (List String)

pub data EntryBody : Type 0 where
  card : CardDebitCredentialBody → EntryBody
  checking : CheckingAccount → EntryBody

-- `kind` is the constructor of the body.
pub record LedgerEntry : Type 0 where
  pub pda : String
  pub holder : String
  pub recorded_at_ms : ℕ
  pub body : EntryBody

abbrev pub Entries : Type 0
Entries = Dict LedgerEntry

unfoldable pub record_card : String → CardDebitCredentialBody → ℕ → Entries → Entries
record_card pda body now =
    insert pda (record { pda = pda; holder = body.holder; recorded_at_ms = now; body = card body })

unfoldable pub record_checking_account : String → CheckingAccount → ℕ → Entries → Entries
record_checking_account pda account now =
    insert pda
      (record { pda = pda; holder = account.holder; recorded_at_ms = now; body = checking account })

unfoldable pub lookup_entry : String → Entries → Option LedgerEntry
lookup_entry pda entries = lookup pda entries

unfoldable pub list_entries : Entries → List LedgerEntry
list_entries entries = map (λ e. e.1) entries

unfoldable pub entry_count : Entries → ℕ
entry_count entries = length entries

unfoldable pub clear : Entries → Entries
clear entries = []
