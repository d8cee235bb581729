-- ===== src/Platform/PacketCapture.antt =====
-- include/platform/packet_capture.hpp, which src/platform/linux and src/platform/windows implement.
use slipnet.Prelude.{ℕ, Bool, List, Bytes}
use slipnet.Prelude.Int.{ℤ}

pub record CapturedPacket : Type 0 where
  pub timestamp : Bytes
  pub source : Bytes
  pub destination : Bytes
  pub protocol : Bytes
  pub source_port : ℕ
  pub destination_port : ℕ
  pub ttl : ℕ
  pub length : ℕ
  pub decoded : Bool

pub record PacketCaptureConfig : Type 0 where
  pub interface_name : Bytes
  pub duration_seconds : ℤ
  pub filter : Bytes
  pub max_packets : ℕ

pub record PacketCaptureResult : Type 0 where
  pub success : Bool
  pub error : Bytes
  pub interface_name : Bytes
  pub duration_seconds : ℤ
  pub filter : Bytes
  pub packets : List CapturedPacket
  pub total_bytes : ℕ

-- The functions that the header declares: whether a capture can run, and one run.
pub record Backend : Type 0 where
  pub available : Bool
  pub capture_packets : PacketCaptureConfig → PacketCaptureResult
