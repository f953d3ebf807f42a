-- ===== src/Gateway.antt =====
-- The gateway of the server, src/gateway: sessions, their capabilities, and the OAuth provider.
pub mod Session
pub mod OAuth
mod Tests
mod Fixtures
