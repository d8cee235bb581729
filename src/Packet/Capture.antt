-- ===== src/Packet/Capture.antt =====
-- include/packet/packet_capture.hpp and src/packet/packet_capture.cpp. A file is the text written
-- to it; `size_t` has 64 bits.
use slipnet.Prelude.{
  ℕ, ◌+◌, ◌%◌, ◌^◌, Bool, true, false, not, ◌||◌, List, [], ◌∷◌, ◌++◌, map, ◌==◌, if◌then◌else◌,
  Bytes, codes, eq_bytes, is_empty, to_upper, length,
}
use slipnet.Prelude.Int.{ℤ, pos, negsuc, lt_int, to_int}
use slipnet.Prelude.Decimal.{to_string, int_to_string}
use slipnet.Packet.{Packet}
use slipnet.Platform.PacketCapture.{
  CapturedPacket, PacketCaptureConfig, PacketCaptureResult, Backend,
}

unfoldable pub to_upper_text : Bytes → Bytes
unfolding to_upper
to_upper_text value = map to_upper value

unfoldable pub sanitize : Bytes → Bytes
sanitize [] = []
sanitize (c ∷ value) = (if c == b'\n' || c == b'\r' || c == b'=' then b'_' else c) ∷ sanitize value

unfoldable pub matches_filter : Packet → Bytes → Bool
unfolding to_upper_text
matches_filter packet filter =
    let normalized = to_upper_text filter in
    if is_empty normalized || eq_bytes normalized (codes "ALL")
    then true
    else if eq_bytes normalized (codes "TCP")
        || eq_bytes normalized (codes "UDP")
        || eq_bytes normalized (codes "ICMP")
    then eq_bytes (to_upper_text packet.protocol) normalized
    else false

-- `totalBytes += static_cast<std::size_t>(packet.length)` where the length is positive.
abbrev pub add_positive : ℕ → ℤ → ℕ
add_positive total (pos n) = (total + n) % 2 ^ 64
add_positive total (negsuc n) = total

unfoldable pub count_bytes : ℕ → List Packet → ℕ
count_bytes total [] = total
count_bytes total (packet ∷ packets) = count_bytes (add_positive total packet.length) packets

-- A key, `=`, a value and the end of the line.
abbrev pub field : Bytes → Bytes → Bytes → Bytes
field key value rest = key ++ (b'=' ∷ (value ++ (b'\n' ∷ rest)))

-- What the second loop of `saveCapture` writes for one packet, in front of what it writes next.
unfoldable pub packet_text : Packet → Bytes → Bytes
packet_text p rest =
    codes "[PACKET]\n"
    ++ field (codes "id") (to_string p.id) (
        field (codes "timestamp") (sanitize p.timestamp) (
          field (codes "source") (sanitize p.source) (
            field (codes "destination") (sanitize p.destination) (
              field (codes "protocol") (sanitize p.protocol) (
                field (codes "source_port") (to_string p.source_port) (
                  field (codes "destination_port") (to_string p.destination_port) (
                    field (codes "ttl") (to_string p.ttl) (
                      field (codes "length") (int_to_string p.length) (
                        field (codes "decoded") (if p.decoded then codes "true" else codes "false")
                          (b'\n' ∷ rest))))))))))

unfoldable pub packets_text : List Packet → Bytes
unfolding packet_text
packets_text [] = []
packets_text (p ∷ packets) = packet_text p (packets_text packets)

-- The text that `saveCapture` writes.
unfoldable pub capture_text : Bytes → ℤ → Bytes → List Packet → Bytes
unfolding packets_text count_bytes
capture_text interface_name duration_seconds filter packets =
    codes "SLIPNET_CAPTURE_V2\n"
    ++ field (codes "interface") (sanitize interface_name) (
        field (codes "duration") (int_to_string duration_seconds) (
          field (codes "filter") (sanitize filter) (
            field (codes "packets") (to_string (length packets)) (
              field (codes "bytes") (to_string (count_bytes 0 packets))
                (b'\n' ∷ packets_text packets)))))

-- The packet that `capture` stores for one that the backend captured; `int` has 32 bits.
unfoldable pub from_captured : ℕ → CapturedPacket → Packet
from_captured packet_id captured = record {
  id = packet_id;
  timestamp = captured.timestamp;
  source = captured.source;
  destination = captured.destination;
  protocol = captured.protocol;
  source_port = captured.source_port;
  destination_port = captured.destination_port;
  ttl = captured.ttl;
  length = to_int captured.length;
  decoded = captured.decoded;
}

-- The loop over the packets of the backend: each gets the next id, and those that match are kept.
unfoldable pub keep_matching : ℕ → Bytes → List CapturedPacket → List Packet
unfolding from_captured
keep_matching packet_id filter [] = []
keep_matching packet_id filter (captured ∷ rest) =
    let packet = from_captured packet_id captured in
    let kept = keep_matching ((packet_id + 1) % 2 ^ 64) filter rest in
    if matches_filter packet filter then packet ∷ kept else kept

-- How a call of `capture` ends; what it says on the terminal tells these apart.
pub data Outcome : Type 0 where
  interface_empty bad_duration bad_filter unavailable : Outcome
  failed : Bytes → Outcome
  -- The text offered to the output file, and whether it could be written.
  saved : Bytes → Bool → Outcome

abbrev pub is_supported : Bytes → Bool
is_supported f =
    eq_bytes f (codes "ALL")
    || eq_bytes f (codes "TCP")
    || eq_bytes f (codes "UDP")
    || eq_bytes f (codes "ICMP")

-- `capture` behind the call of the backend.
unfoldable pub store_result : PacketCaptureResult → Bytes → ℤ → Bytes → Bool → List Packet × Outcome
unfolding keep_matching capture_text
store_result result interface_name duration_seconds filter writable =
    let packets = keep_matching 1 filter result.packets in
    if not result.success
    then ([], failed result.error)
    else (packets, saved (capture_text interface_name duration_seconds filter packets) writable)

abbrev pub capture_config : Bytes → ℤ → Bytes → PacketCaptureConfig
capture_config interface_name duration_seconds filter = record {
  interface_name = interface_name;
  duration_seconds = duration_seconds;
  filter = filter;
  max_packets = 10000;
}

-- `writable` says whether the output file can be written.
unfoldable pub capture : Backend → Bytes → ℤ → Bytes → Bool → List Packet × Outcome
unfolding to_upper_text store_result
capture backend interface_name duration_seconds filter writable =
    let normalized_filter = to_upper_text filter in
    if is_empty interface_name
    then ([], interface_empty)
    else if lt_int duration_seconds (pos 1) || lt_int (pos 86400) duration_seconds
    then ([], bad_duration)
    else if not (is_supported normalized_filter)
    then ([], bad_filter)
    else if not backend.available
    then ([], unavailable)
    else store_result
        (backend.capture_packets (capture_config interface_name duration_seconds normalized_filter))
        interface_name duration_seconds normalized_filter writable
