-- ===== src/Bank.antt =====
-- The bank keeper (keeper/bpps/bank): the mock USD ledger and the capability handlers.
pub mod Ledger
pub mod Digest
pub mod Fixtures
pub mod Fee
pub mod Auth
pub mod CredentialLedger
pub mod Onramp
pub mod Offramp
pub mod Wire
pub mod Checking
pub mod Savings
pub mod Card
