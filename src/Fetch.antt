-- ===== src/Fetch.antt =====
-- internal/fetch: the downloads of subscriptions, providers and geodata.
pub mod Address
pub mod Body
pub mod Causes
pub mod Get
pub mod Limits
pub mod Secrets
