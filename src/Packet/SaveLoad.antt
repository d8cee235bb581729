-- ===== src/Packet/SaveLoad.antt =====
-- A capture file that src/packet/packet_capture.cpp writes is read back by
-- src/packet/packet_inspector.cpp.
pub mod Fields
pub mod Packets
pub mod Files
pub mod Captured
mod Examples
