-- ===== src/Packet.antt =====
-- include/packet/packet.hpp; the capture writer and the inspector of src/packet are the children.
pub mod Capture
pub mod Inspector
pub mod Inspection
pub mod SaveLoad
use slipnet.Prelude.{ℕ, Bool, false, [], Bytes}
use slipnet.Prelude.Int.{ℤ, pos}

pub record Packet : Type 0 where
  pub id : ℕ
  pub timestamp : Bytes
  pub source : Bytes
  pub destination : Bytes
  pub protocol : Bytes
  pub source_port : ℕ
  pub destination_port : ℕ
  pub ttl : ℕ
  pub length : ℤ
  pub decoded : Bool

-- `Packet{}`.
abbrev pub blank : Packet
blank = record {
  id = 0;
  timestamp = [];
  source = [];
  destination = [];
  protocol = [];
  source_port = 0;
  destination_port = 0;
  ttl = 0;
  length = pos 0;
  decoded = false;
}
