-- ===== src/Wasm/Builders.antt =====
-- src/wasm/index.ts: the transaction builders. Each is the message it puts together, handed to
-- `unsignedTransaction`. Amounts are bigints that are not negative, other numbers are integers
-- that are not negative.
pub mod Transfers
pub mod Tokens
pub mod Stakes
pub mod Agents
pub mod Tools
pub mod Swarms
pub mod Deploys
pub mod Evm
pub mod Calls
