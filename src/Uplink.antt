-- ===== src/Uplink.antt =====
-- internal/uplink: how downloads and the engine's DNS reach the network without the proxy.
pub mod Addresses
pub mod Faults
pub mod Links
