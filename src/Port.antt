-- ===== src/Port.antt =====
-- The scan of ports, src/port.
pub mod PortScanner
