-- ===== src/Packet/Inspection.antt =====
-- `PacketInspector::inspectFile` of src/packet/packet_inspector.cpp: what it finds to print. A file that
-- cannot be opened is `none`.
pub mod Tally
pub mod Judged
mod Examples
use slipnet.Prelude.{
  ℕ, ◌+◌, ◌%◌, ◌^◌, Bool, Option, none, some, List, [], ◌∷◌, ltb, ◌==◌, if◌then◌else◌, Bytes, codes,
  eq_bytes,
}
use slipnet.Packet.{Packet}
use slipnet.Packet.Inspector.{CaptureData, load_capture, to_size}

pub record Statistics : Type 0 where
  pub tcp_count : ℕ
  pub udp_count : ℕ
  pub icmp_count : ℕ
  pub other_count : ℕ
  pub decoded_count : ℕ
  pub calculated_bytes : ℕ

pub data Inspection : Type 0 where
  unable : Inspection
  details : Packet → Inspection
  not_found : Option ℕ → Inspection
  dashboard : CaptureData → Statistics → Inspection

abbrev pub no_statistics : Statistics
no_statistics = record {
  tcp_count = 0;
  udp_count = 0;
  icmp_count = 0;
  other_count = 0;
  decoded_count = 0;
  calculated_bytes = 0;
}

-- The branches on the protocol.
unfoldable pub count_protocol : Bytes → Statistics → Statistics
count_protocol protocol s =
    if eq_bytes protocol (codes "TCP")
    then record s { tcp_count = s.tcp_count + 1 }
    else if eq_bytes protocol (codes "UDP")
    then record s { udp_count = s.udp_count + 1 }
    else if eq_bytes protocol (codes "ICMP")
    then record s { icmp_count = s.icmp_count + 1 }
    else record s { other_count = s.other_count + 1 }

-- A round of the loop over the packets, before the branches.
unfoldable pub count_size : Packet → Statistics → Statistics
count_size packet s = record s {
  calculated_bytes = (s.calculated_bytes + to_size packet.length) % 2 ^ 64;
  decoded_count = if packet.decoded then s.decoded_count + 1 else s.decoded_count;
}

unfoldable pub count_packets : List Packet → Statistics → Statistics
unfolding count_protocol count_size
count_packets [] s = s
count_packets (packet ∷ packets) s =
    count_packets packets (count_protocol packet.protocol (count_size packet s))

unfoldable pub find_packet : ℕ → List Packet → Option Packet
find_packet id [] = none
find_packet id (packet ∷ packets) = if packet.id == id then some packet else find_packet id packets

-- `capture.packets.back().id`, where there are packets.
unfoldable pub last_id : List Packet → Option ℕ
last_id [] = none
last_id (packet ∷ []) = some packet.id
last_id (packet ∷ (next ∷ packets)) = last_id (next ∷ packets)

abbrev pub single : List Packet → Option Packet → Inspection
single packets none = Inspection.not_found (last_id packets)
single packets (some packet) = Inspection.details packet

unfoldable pub inspect_capture : CaptureData → ℕ → Inspection
unfolding count_packets find_packet
inspect_capture capture packet_id =
    let s = count_packets capture.packets no_statistics in
    let total = if capture.total_bytes == 0 then s.calculated_bytes else capture.total_bytes in
    if ltb 0 packet_id
    then single capture.packets (find_packet packet_id capture.packets)
    else Inspection.dashboard (record capture { total_bytes = total }) s

unfoldable pub inspect_file : Option Bytes → ℕ → Inspection
unfolding inspect_capture
inspect_file none packet_id = Inspection.unable
inspect_file (some text) packet_id = inspect_capture (load_capture text) packet_id
