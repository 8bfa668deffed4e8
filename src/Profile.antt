-- ===== src/Profile.antt =====
-- internal/profile: the rules of a subscription, and the profile that `Build` makes of it.
pub mod Rules
pub mod Reader
pub mod Names
pub mod Filter
pub mod GroupOptions
pub mod Groups
pub mod Proxies
pub mod RuleSets
pub mod Build
