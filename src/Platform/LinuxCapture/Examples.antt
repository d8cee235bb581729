-- ===== src/Platform/LinuxCapture/Examples.antt =====
-- The model of src/platform/linux/packet_capture.cpp on a TCP frame and an ARP frame.
use slipnet.Prelude.{
  ℕ, ◌≡◌, ◌⊎◌, refl, true, false, none, some, List, [], ◌∷◌, ◌++◌, Bytes, codes, take, arith,
}
use slipnet.Prelude.Int.{pos}
use slipnet.Platform.PacketCapture.{CapturedPacket, PacketCaptureConfig, PacketCaptureResult}
use slipnet.Platform.LinuxCapture.{
  word_16, word_32, decode_ports, decode_protocol, decode_header, decode_ipv4, decode_payload,
  decode_frame,
}
use slipnet.Platform.LinuxCapture.Decoding.{decode_frame-total}
use slipnet.Platform.LinuxCapture.Fields.{
  Header, udp, ipv4_bytes, port_bytes, decode_ipv4-ipv4_bytes,
}
use slipnet.Platform.LinuxCapture.Capture.{
  Event, interrupted, received, fresh, System, setup_error, capture_packets,
}
use slipnet.Platform.LinuxCapture.Kept.{matching, received_packets, capture_packets-matching}

-- Twelve bytes of hardware addresses, in front of a type.
abbrev ethernet : Bytes
ethernet = 1 ∷ 2 ∷ 3 ∷ 4 ∷ 5 ∷ 6 ∷ 7 ∷ 8 ∷ 9 ∷ 10 ∷ 11 ∷ 12 ∷ []

abbrev ipv4_header : Bytes
ipv4_header =
    0x45 ∷ 0 ∷ 0 ∷ 40 ∷ 0 ∷ 0 ∷ 0 ∷ 0 ∷ 64 ∷ 6 ∷ 0 ∷ 0 ∷ 10 ∷ 0 ∷ 0 ∷ 1 ∷ 10 ∷ 0 ∷ 0 ∷ 2 ∷ []

abbrev tcp_header : Bytes
tcp_header =
    0x01 ∷ 0xbb ∷ 0xc7 ∷ 0x38 ∷ 0 ∷ 0 ∷ 0 ∷ 0 ∷ 0 ∷ 0 ∷ 0 ∷ 0 ∷ 0x50 ∷ 2 ∷ 0 ∷ 0 ∷ 0 ∷ 0 ∷ 0 ∷ 0
    ∷ []

abbrev tcp_frame : Bytes
tcp_frame = ethernet ++ (8 ∷ (0 ∷ (ipv4_header ++ tcp_header)))

abbrev arp_frame : Bytes
arp_frame = ethernet ++ (8 ∷ (6 ∷ []))

-- An address as a text of one code, for a look at its value.
abbrev ntop : ℕ → Bytes
ntop address = address ∷ []

decode_tcp :
    decode_frame ntop tcp_frame (fresh [] tcp_frame)
    ≡ some (record (fresh [] tcp_frame) {
      source = 0x0a00_0001 ∷ [];
      destination = 0x0a00_0002 ∷ [];
      protocol = codes "TCP";
      source_port = 443;
      destination_port = 51000;
      ttl = 64;
      decoded = true;
    })
unfolding decode_frame decode_payload decode_ipv4 decode_header decode_protocol decode_ports word_32
    word_16
decode_tcp = refl

decode_frame-total_example :
    (q : CapturedPacket) × (decode_frame ntop tcp_frame (fresh [] tcp_frame) ≡ some q)
decode_frame-total_example = decode_frame-total ntop tcp_frame (fresh [] tcp_frame)

abbrev config : PacketCaptureConfig
config = record {
  interface_name = codes "eth0";
  duration_seconds = pos 10;
  filter = codes "tcp";
  max_packets = 1;
}

abbrev events : List Event
events = received [] arp_frame ∷ interrupted ∷ received [] tcp_frame ∷ received [] tcp_frame ∷ []

abbrev system : System
system = record { is_root = true; has_interface = true; socket_error = none; bind_error = none }

capture_packets-matching_example :
    (r : PacketCaptureResult) × (capture_packets ntop config events system ≡ some r)
    × (((setup_error system config ≡ none)
          × (r.packets ≡ take 1 (matching (codes "tcp") (received_packets ntop events))))
        ⊎ ((error : Bytes) × (setup_error system config ≡ some error)
            × (r.success ≡ false)
            × (r.error ≡ error)
            × (r.packets ≡ [])))
capture_packets-matching_example = capture_packets-matching ntop config system events

-- One word of options.
abbrev udp_packet : Header
udp_packet = record {
  words = 6;
  type_of_service = 0;
  total_length = (0, 33);
  identification = (18, 52);
  fragment = (64, 0);
  ttl = 57;
  checksum = (190, 239);
  source = (10, 0, 0, 3);
  destination = (8, 8, 8, 8);
}

abbrev options : Bytes
options = 1 ∷ 1 ∷ 1 ∷ 0 ∷ []

abbrev query : Bytes
query = 0 ∷ 9 ∷ 0 ∷ 0 ∷ 7 ∷ []

decode_ipv4-ipv4_bytes_example :
    decode_ipv4 ntop
      (ipv4_bytes udp_packet udp (options ++ port_bytes (200, 1) (0, 53) query))
      (fresh [] [])
    ≡ some (
      true,
      record (fresh [] []) {
        source = 0x0a00_0003 ∷ [];
        destination = 0x0808_0808 ∷ [];
        ttl = 57;
        protocol = codes "UDP";
        source_port = 51201;
        destination_port = 53;
        decoded = true;
      },
    )
decode_ipv4-ipv4_bytes_example =
    decode_ipv4-ipv4_bytes ntop udp_packet udp options query (200, 1) (0, 53) (fresh [] [])
      (omega arith) refl (omega arith)
