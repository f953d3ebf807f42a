-- ===== src/Write.antt =====
-- The path of transactions to the chain (src/write).
pub mod Nonces
pub mod Simulator
