-- ===== src/Monitoring.antt =====
-- The monitoring of an interface, src/monitoring.
pub mod NetworkMonitor
