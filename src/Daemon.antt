-- ===== src/Daemon.antt =====
-- internal/daemon: the server that drives an engine for its clients.
pub mod State
pub mod Compile
pub mod Publish
pub mod Geodata
pub mod Run
pub mod Check
pub mod Commit
pub mod Agrees
pub mod Subscriptions
pub mod Sessions
pub mod Calls
pub mod Steps
pub mod Results
