-- ===== src/Bank/CredentialLedger/Tests.antt =====
-- The credential ledger at a concrete account.
use eto_mcp.Prelude.{refl, ◌≡◌, none, []}
use eto_mcp.Prelude.Dict.{insert}
use eto_mcp.Bank.CredentialLedger.{
  entry_count, record_card, Entries, CardDebitCredentialBody, CheckingAccount,
  record_checking_account,
}
use eto_mcp.Bank.Fixtures.{alice, bob}

abbrev account : CheckingAccount
account = record { holder = alice; opened_slot = 5; opening_balance = 0 }

abbrev body : CardDebitCredentialBody
body = record {
  holder = alice;
  linked_account_pda = bob;
  jurisdiction = "us";
  card_id_hash = bob;
  issued_slot = 5;
  expires_slot = 0;
  spending_limit_per_day = 100;
  spending_limit_per_tx = 10;
  merchant_category_blocklist = none;
}

abbrev entries : Entries
entries = record_checking_account bob account 7 []

-- Recording the same key again replaces the entry.
counted : entry_count (record_card bob body 9 entries) ≡ 1
unfolding record_card record_checking_account entry_count insert
counted = refl
