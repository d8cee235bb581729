-- ===== src/Platform.antt =====
-- The operating system layer, include/platform and src/platform.
pub mod PacketCapture
pub mod Firewall
pub mod LinuxCapture
pub mod LinuxTcp
