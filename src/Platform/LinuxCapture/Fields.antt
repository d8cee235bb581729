-- ===== src/Platform/LinuxCapture/Fields.antt =====
-- What decoding in src/platform/linux/packet_capture.cpp reads from an IPv4 header, its options and the
-- TCP or UDP header behind them.
use slipnet.Prelude.{
  ℕ, zero, suc, ◌+◌, ◌*◌, ◌%◌, ◌^◌, ◌<◌, ◌≤◌, ◌≡◌, refl, ap, true, false, ◌||◌, some, [], ◌∷◌, ◌++◌,
  ltb, leb, Bytes, codes, length, length-append, arith,
}
use slipnet.Platform.PacketCapture.{CapturedPacket}
use slipnet.Platform.LinuxCapture.{
  byte_at, word_16, word_32, decode_ports, decode_protocol, decode_header, decode_ipv4,
}

pub data Transport : Type 0 where
  tcp udp : Transport

abbrev pub protocol_number : Transport → ℕ
protocol_number tcp = 6
protocol_number udp = 17

abbrev pub header_size : Transport → ℕ
header_size tcp = 20
header_size udp = 8

abbrev pub transport_name : Transport → Bytes
transport_name tcp = codes "TCP"
transport_name udp = codes "UDP"

-- The fields of an IPv4 header, a number of two bytes by its bytes and an address by its four. The
-- fragment has the flags and the offset.
pub record Header : Type 0 where
  pub words : ℕ
  pub type_of_service : ℕ
  pub total_length : ℕ × ℕ
  pub identification : ℕ × ℕ
  pub fragment : ℕ × ℕ
  pub ttl : ℕ
  pub checksum : ℕ × ℕ
  pub source : ℕ × ℕ × ℕ × ℕ
  pub destination : ℕ × ℕ × ℕ × ℕ

abbrev pub pair_bytes : ℕ × ℕ → Bytes → Bytes
pair_bytes (a, b) rest = a ∷ (b ∷ rest)

abbrev pub address_bytes : ℕ × ℕ × ℕ × ℕ → Bytes → Bytes
address_bytes (a, b, c, d) rest = a ∷ (b ∷ (c ∷ (d ∷ rest)))

abbrev pub address_word : ℕ × ℕ × ℕ × ℕ → ℕ
address_word (a, b, c, d) = (a * 2 ^ 8 + b) * 2 ^ 16 + (c * 2 ^ 8 + d)

-- Version 4 and the length in words, the other fields in their order, and what is behind.
abbrev pub ipv4_bytes : Header → Transport → Bytes → Bytes
ipv4_bytes h t rest =
    let addresses = address_bytes h.source (address_bytes h.destination rest) in
    let lived = h.ttl ∷ (protocol_number t ∷ pair_bytes h.checksum addresses) in
    (64 + h.words)
    ∷ (h.type_of_service
        ∷ pair_bytes h.total_length (pair_bytes h.identification (pair_bytes h.fragment lived)))

-- The two ports, and the rest of the datagram.
abbrev pub port_bytes : ℕ × ℕ → ℕ × ℕ → Bytes → Bytes
port_bytes (a, b) (c, d) rest = a ∷ (b ∷ (c ∷ (d ∷ rest)))

abbrev pub port_word : ℕ × ℕ → ℕ
port_word (a, b) = a * 2 ^ 8 + b

byte_at-append : (s t : Bytes) (n i : ℕ) → n ≡ length s + i → byte_at (s ++ t) n ≡ byte_at t i
byte_at-append [] t n i h = ap (byte_at t) (omega arith)
byte_at-append (c ∷ s) t zero i h = absurd (omega arith)
byte_at-append (c ∷ s) t (suc n) i h = byte_at-append s t n i (omega arith)

word_16-append : (s t : Bytes) (n i : ℕ) → n ≡ length s + i → word_16 (s ++ t) n ≡ word_16 t i
unfolding word_16
word_16-append s t n i h =
    rw (byte_at-append s t n i h, byte_at-append s t (n + 1) (i + 1) (omega arith)) refl

decode_ports-append :
    (size : ℕ) (s rest : Bytes) (a b : ℕ × ℕ) (p : CapturedPacket)
    → size ≤ 4 + length rest
    → decode_ports size (s ++ port_bytes a b rest) (length s) p
      ≡ some
          (record p { source_port = port_word a; destination_port = port_word b; decoded = true })
unfolding decode_ports
decode_ports-append size s rest a b p h =
    let room : leb (length s + size) (length (s ++ port_bytes a b rest)) ≡ true =
      ground (arith, length-append s (port_bytes a b rest)) in
    rw
      (
        room,
        word_16-append s (port_bytes a b rest) (length s) 0 (omega arith),
        word_16-append s (port_bytes a b rest) (length s + 2) 2 (omega arith),
      )
      (unfold word_16 in refl)

decode_protocol-append :
    (t : Transport) (s rest : Bytes) (a b : ℕ × ℕ) (p : CapturedPacket)
    → header_size t ≤ 4 + length rest
    → decode_protocol (protocol_number t) (s ++ port_bytes a b rest) (length s) p
      ≡ some (record p {
        protocol = transport_name t;
        source_port = port_word a;
        destination_port = port_word b;
        decoded = true;
      })
unfolding decode_protocol
decode_protocol-append tcp s rest a b p h =
    decode_ports-append 20 s rest a b (record p { protocol = codes "TCP" }) h
decode_protocol-append udp s rest a b p h =
    decode_ports-append 8 s rest a b (record p { protocol = codes "UDP" }) h

module _ (ntop : ℕ → Bytes) (h : Header) (t : Transport) where
  -- The datagram of a header of any fields with its options, and of a TCP or UDP header behind them,
  -- is decoded: the packet gets the addresses, the time to live and the ports from where the header's
  -- length says. That length counts the options and is 20 to 60, and the TCP or UDP header is there
  -- in full.
  pub decode_ipv4-ipv4_bytes :
      (options rest : Bytes) (a b : ℕ × ℕ) (p : CapturedPacket)
      → h.words < 16
      → 20 + length options ≡ h.words * 4
      → header_size t ≤ 4 + length rest
      → decode_ipv4 ntop (ipv4_bytes h t (options ++ port_bytes a b rest)) p
        ≡ some (
          true,
          record p {
            source = ntop (address_word h.source);
            destination = ntop (address_word h.destination);
            ttl = h.ttl;
            protocol = transport_name t;
            source_port = port_word a;
            destination_port = port_word b;
            decoded = true;
          },
        )
  unfolding decode_ipv4 decode_header word_32 word_16
  decode_ipv4-ipv4_bytes options rest a b p small size room =
      let whole = ipv4_bytes h t (options ++ port_bytes a b rest) in
      let front = ipv4_bytes h t options in
      let at : (64 + h.words) % 16 * 4 ≡ length front = omega arith in
      let long : ltb (length whole) 20 ≡ false = ground arith in
      let fits : ltb (length front) 20 || ltb (length whole) (length front) ≡ false =
        ground (arith, length-append options (port_bytes a b rest)) in
      let from = record p {
        source = ntop (address_word h.source);
        destination = ntop (address_word h.destination);
        ttl = h.ttl;
      } in
      rw (long, at, fits, decode_protocol-append t front rest a b from room) refl
