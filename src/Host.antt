-- ===== src/Host.antt =====
-- The discovery of hosts, src/host.
pub mod HostDiscovery
