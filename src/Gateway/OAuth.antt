-- ===== src/Gateway/OAuth.antt =====
-- src/gateway/oauth-provider.ts: the authorization codes and the refresh tokens of the OAuth
-- provider.
pub mod Store
pub mod Codes
pub mod Refresh
pub mod Families
pub mod Steps
pub mod Changes
pub mod Keeping
pub mod Disjoint
pub mod SingleUse
pub mod Saved
pub mod Replay
pub mod Reuse
pub mod Replayed
mod Tests
