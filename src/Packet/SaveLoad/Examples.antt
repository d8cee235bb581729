-- ===== src/Packet/SaveLoad/Examples.antt =====
-- Capture files written and read back, at concrete inputs.
use slipnet.Prelude.{◌≡◌, refl, true, false, List, [], ◌∷◌, codes, eq_bytes, to_upper, arith}
use slipnet.Prelude.Int.{pos}
use slipnet.Prelude.Decimal.RoundTrip.{IsInt}
use slipnet.Packet.{Packet, blank}
use slipnet.Platform.PacketCapture.{CapturedPacket, Backend}
use slipnet.Packet.Capture.{
  sanitize, capture_text, to_upper_text, matches_filter, from_captured, keep_matching, saved,
  store_result, capture,
}
use slipnet.Packet.SaveLoad.Captured.{IsCaptured, Matches, load_capture-capture}
use slipnet.Packet.Inspector.{load_capture}
use slipnet.Packet.SaveLoad.Packets.{IsPacket}
use slipnet.Packet.SaveLoad.Files.{saved_data, load_capture-capture_text}

abbrev first_packet : Packet
first_packet = record blank {
  id = 1;
  source = codes "10.0.0.1";
  destination = codes "10.0.0.2";
  protocol = codes "TCP";
  source_port = 443;
  destination_port = 51000;
  ttl = 64;
  length = pos 60;
  decoded = true;
}

abbrev second_packet : Packet
second_packet = record blank { id = 2; source = codes "a\nb=c"; length = pos 40 }

abbrev packets : List Packet
packets = first_packet ∷ second_packet ∷ []

cleaned : sanitize (codes "a\nb=c") ≡ codes "a_b_c"
unfolding sanitize
cleaned = refl

first-IsPacket : IsPacket first_packet
first-IsPacket = record {
  id_word = omega arith;
  source_port_word = omega arith;
  destination_port_word = omega arith;
  ttl_word = omega arith;
  length_count = omega arith;
}

second-IsPacket : IsPacket second_packet
second-IsPacket = record {
  id_word = omega arith;
  source_port_word = omega arith;
  destination_port_word = omega arith;
  ttl_word = omega arith;
  length_count = omega arith;
}

duration-IsInt : IsInt (pos 30)
duration-IsInt = omega arith

load_capture-capture_text_example :
    load_capture (capture_text (codes "eth0") (pos 30) (codes "tcp") packets)
    ≡ saved_data (codes "eth0") (pos 30) (codes "tcp") packets
load_capture-capture_text_example =
    load_capture-capture_text (codes "eth0") (pos 30) (codes "tcp") packets duration-IsInt
      (omega arith) (first-IsPacket, (second-IsPacket, tt))

-- A backend that captures one TCP packet and one of another protocol.
abbrev captured_tcp : CapturedPacket
captured_tcp = record {
  timestamp = codes "2024-01-01 00:00:00.000";
  source = codes "10.0.0.1";
  destination = codes "10.0.0.2";
  protocol = codes "TCP";
  source_port = 443;
  destination_port = 51000;
  ttl = 64;
  length = 60;
  decoded = true;
}

abbrev backend : Backend
backend = record {
  available = true;
  capture_packets = λ config. record {
    success = true;
    error = [];
    interface_name = config.interface_name;
    duration_seconds = config.duration_seconds;
    filter = config.filter;
    packets = captured_tcp ∷ record captured_tcp { protocol = codes "ARP"; decoded = false } ∷ [];
    total_bytes = 120;
  };
}

abbrev kept : List Packet
kept = from_captured 1 captured_tcp ∷ []

tcp_packet-IsCaptured : IsCaptured captured_tcp
tcp_packet-IsCaptured = record {
  source_port_word = omega arith;
  destination_port_word = omega arith;
  ttl_word = omega arith;
  length_word = omega arith;
}

other-IsCaptured : IsCaptured (record captured_tcp { protocol = codes "ARP"; decoded = false })
other-IsCaptured = record {
  source_port_word = omega arith;
  destination_port_word = omega arith;
  ttl_word = omega arith;
  length_word = omega arith;
}

captures :
    capture backend (codes "eth0") (pos 30) (codes "tcp") true
    ≡ (kept, saved (capture_text (codes "eth0") (pos 30) (codes "TCP") kept) true)
unfolding capture store_result keep_matching matches_filter to_upper_text to_upper eq_bytes
captures = refl

load_capture-capture_example :
    Matches (to_upper_text (codes "tcp")) kept
    × (load_capture (capture_text (codes "eth0") (pos 30) (codes "TCP") kept)
        ≡ saved_data (codes "eth0") (pos 30) (to_upper_text (codes "tcp")) kept)
load_capture-capture_example =
    load_capture-capture backend (codes "eth0") (pos 30) (codes "tcp") true kept
      (capture_text (codes "eth0") (pos 30) (codes "TCP") kept) true
      (tcp_packet-IsCaptured, (other-IsCaptured, tt)) (omega arith) captures
