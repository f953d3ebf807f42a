-- ===== src/Tools.antt =====
-- The MCP tools that build transactions and read accounts themselves (src/tools).
pub mod Envelopes
pub mod Zk
pub mod Borsh
pub mod Accounts
pub mod Addresses
mod Tests
