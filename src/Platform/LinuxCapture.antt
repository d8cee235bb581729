-- ===== src/Platform/LinuxCapture.antt =====
-- src/platform/linux/packet_capture.cpp: the decoding of a frame and the capture loop. What the
-- system calls answer is an argument. A read of the buffer behind the bytes received is `none`.
pub mod Decoding
pub mod Fields
pub mod Capture
pub mod Kept
mod Examples
use slipnet.Prelude.{
  ℕ, zero, suc, ◌+◌, ◌*◌, ◌%◌, ◌^◌, Bool, true, false, not, ◌||◌, Option, none, some, List, [], ◌∷◌,
  ◌++◌, map, ltb, leb, ◌==◌, if◌then◌else◌, Bytes, codes, eq_bytes, is_empty, to_upper, length,
  drop,
}
use slipnet.Prelude.Int.{ℤ, pos, lt_int}
use slipnet.Prelude.Options.{◌>>=◌}
use slipnet.Platform.PacketCapture.{CapturedPacket, PacketCaptureConfig, PacketCaptureResult}

abbrev pub byte_at : Bytes → ℕ → Option ℕ
byte_at [] i = none
byte_at (c ∷ s) zero = some c
byte_at (c ∷ s) (suc i) = byte_at s i

-- A field of two bytes in network order, behind `ntohs`.
unfoldable pub word_16 : Bytes → ℕ → Option ℕ
word_16 buffer i = do
  high ← byte_at buffer i
  low ← byte_at buffer (i + 1)
  some (high * 2 ^ 8 + low)

-- An address, as the number that its four bytes spell in network order.
unfoldable pub word_32 : Bytes → ℕ → Option ℕ
unfolding word_16
word_32 buffer i = do
  high ← word_16 buffer i
  low ← word_16 buffer (i + 2)
  some (high * 2 ^ 16 + low)

-- The ports of a TCP or UDP header of `size` bytes, where there is room for one.
unfoldable pub decode_ports : ℕ → Bytes → ℕ → CapturedPacket → Option CapturedPacket
unfolding word_16
decode_ports size buffer header_length packet =
    if not (leb (header_length + size) (length buffer))
    then some (record packet { decoded = true })
    else do
      source_port ← word_16 buffer header_length
      destination_port ← word_16 buffer (header_length + 2)
      some (record packet {
        source_port = source_port;
        destination_port = destination_port;
        decoded = true;
      })

-- The switch on the protocol number; `tcphdr` has 20 bytes and `udphdr` 8.
unfoldable pub decode_protocol : ℕ → Bytes → ℕ → CapturedPacket → Option CapturedPacket
unfolding decode_ports
decode_protocol protocol buffer header_length packet =
    if protocol == 6
    then decode_ports 20 buffer header_length (record packet { protocol = codes "TCP" })
    else if protocol == 17
    then decode_ports 8 buffer header_length (record packet { protocol = codes "UDP" })
    else if protocol == 1
    then some (record packet { protocol = codes "ICMP"; decoded = true })
    else some (record packet { protocol = codes "IPv4"; decoded = true })

module _ (ntop : ℕ → Bytes) where
  -- `decodeIPv4` behind the read of the header's length.
  unfoldable pub decode_header : Bytes → ℕ → CapturedPacket → Option (Bool × CapturedPacket)
  unfolding word_32 decode_protocol
  decode_header buffer header_length packet =
      if ltb header_length 20 || ltb (length buffer) header_length then some (false, packet) else do
        source ← word_32 buffer 12
        destination ← word_32 buffer 16
        ttl ← byte_at buffer 8
        protocol ← byte_at buffer 9
        decoded ←
            decode_protocol protocol buffer header_length
              (record packet { source = ntop source; destination = ntop destination; ttl = ttl })
        some (true, decoded)

  -- `iphdr` has 20 bytes; the low four bits of its first byte are `ihl`.
  unfoldable pub decode_ipv4 : Bytes → CapturedPacket → Option (Bool × CapturedPacket)
  unfolding decode_header
  decode_ipv4 buffer packet =
      if ltb (length buffer) 20
      then some (false, packet)
      else do first ← byte_at buffer 0; decode_header buffer (first % 16 * 4) packet

  unfoldable pub decode_payload : ℕ → Bytes → CapturedPacket → Option CapturedPacket
  unfolding decode_ipv4
  decode_payload protocol buffer packet =
      if protocol == 0x0800
      then (decode_ipv4 buffer packet >>= λ result. some result.1)
      else if protocol == 0x0806
      then some (record packet { protocol = codes "ARP"; decoded = true })
      else if protocol == 0x86dd
      then some (record packet { protocol = codes "IPv6"; decoded = false })
      else some (record packet { protocol = codes "OTHER" })

  -- The part of the loop that looks into the buffer; `ethhdr` has 14 bytes.
  unfoldable pub decode_frame : Bytes → CapturedPacket → Option CapturedPacket
  unfolding word_16 decode_payload
  decode_frame frame packet =
      if not (leb 14 (length frame))
      then some packet
      else do protocol ← word_16 frame 12; decode_payload protocol (drop 14 frame) packet
