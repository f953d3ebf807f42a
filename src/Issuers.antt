-- ===== src/Issuers.antt =====
-- The reference issuers (src/issuers): services that check an outside proof and issue a credential.
pub mod Worldcoin
pub mod Base58
