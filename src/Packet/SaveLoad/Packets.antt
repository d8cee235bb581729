-- ===== src/Packet/SaveLoad/Packets.antt =====
-- The packets of a capture file, as src/packet/packet_inspector.cpp reads what
-- src/packet/packet_capture.cpp writes.
use mathlib.Core.List.{append-nil, append_assoc}
use native.Mathlib.Nat.{mod-eq_of_lt}
use slipnet.Prelude.Text.Find.{Lacks-of_none}
use slipnet.Prelude.{
  ◌%◌, ◌^◌, ◌<◌, ◌≡◌, refl, sym, ap, ◌∙◌, true, List, [], ◌∷◌, ◌++◌, map, Bytes, codes, eq_bytes,
  All, arith,
}
use slipnet.Prelude.Int.{ℤ, pos, negsuc}
use slipnet.Prelude.Decimal.{stoull, stoi, to_string, int_to_string}
use slipnet.Prelude.Decimal.RoundTrip.{stoull-to_string, stoi-int_to_string, IsInt}
use slipnet.Packet.{Packet, blank}
use slipnet.Packet.Capture.{sanitize, packet_text, packets_text}
use slipnet.Packet.Inspector.{
  CaptureData, Loader, step_line, set_field, set_packet, parse_bool, or_zero, or_zero_int,
  store_packet, get_lines, step_lines,
}
use slipnet.Packet.SaveLoad.Fields.{
  load_from, load_line, load_field, sanitize-Lacks, to_string-Lacks, int_to_string-Lacks, bool_text,
  bool_text-Lacks, parse_bool-bool_text,
}

-- What the writer changes of a packet: newlines, carriage returns and `=` in its texts.
abbrev pub clean : Packet → Packet
clean p = record p {
  timestamp = sanitize p.timestamp;
  source = sanitize p.source;
  destination = sanitize p.destination;
  protocol = sanitize p.protocol;
}

abbrev pub IsCount : ℤ → Type 0
IsCount (pos n) = n < 2 ^ 31
IsCount (negsuc n) = ⊥

-- The numbers of a packet fit their C++ types, and its length is not negative.
pub record IsPacket (p : Packet) : Type 0 where
  pub id_word : p.id < 2 ^ 64
  pub source_port_word : p.source_port < 2 ^ 16
  pub destination_port_word : p.destination_port < 2 ^ 16
  pub ttl_word : p.ttl < 2 ^ 8
  pub length_count : IsCount p.length

-- The packet that the reader makes of the fields, before its numbers are known to be the same.
reread : Packet → Packet
reread p = record (clean p) {
  id = or_zero (stoull (to_string p.id));
  source_port = or_zero (stoull (to_string p.source_port)) % 2 ^ 16;
  destination_port = or_zero (stoull (to_string p.destination_port)) % 2 ^ 16;
  ttl = or_zero (stoull (to_string p.ttl)) % 2 ^ 8;
  length = or_zero_int (stoi (int_to_string p.length));
  decoded = parse_bool (bool_text p.decoded);
}

IsInt-of_count : (z : ℤ) → IsCount z → IsInt z
IsInt-of_count (pos n) h = h
IsInt-of_count (negsuc n) h = absurd h

reread-clean : (p : Packet) → IsPacket p → reread p ≡ clean p
unfolding reread
reread-clean p h = rw (
  stoull-to_string p.id h.id_word,
  stoull-to_string p.source_port (omega arith),
  stoull-to_string p.destination_port (omega arith),
  stoull-to_string p.ttl (omega arith),
  stoi-int_to_string p.length (IsInt-of_count p.length h.length_count),
  parse_bool-bool_text p.decoded,
  mod-eq_of_lt h.source_port_word,
  mod-eq_of_lt h.destination_port_word,
  mod-eq_of_lt h.ttl_word,
)

-- The loader behind `[PACKET]`, and behind the fields of packet `p`.
abbrev opened : Loader → Packet → Loader
opened l p = record { capture = store_packet l; current_packet = p; inside_packet = true }

load_marker :
    (l : Loader) (rest : Bytes)
    → load_from l (codes "[PACKET]\n" ++ rest) ≡ load_from (opened l blank) rest
unfolding step_line eq_bytes
load_marker l rest =
    load_line l (codes "[PACKET]") rest (Lacks-of_none b'\n' (codes "[PACKET]") refl)

pub load_blank : (l : Loader) (rest : Bytes) → load_from l (b'\n' ∷ rest) ≡ load_from l rest
unfolding step_line
load_blank l rest = load_line l [] rest tt

load_packet :
    (l : Loader) (p : Packet) (rest : Bytes)
    → load_from l (packet_text p rest) ≡ load_from (opened l (reread p)) rest
unfolding packet_text reread set_field set_packet eq_bytes
load_packet l p rest =
    load_marker l _
    ∙ load_field _ (codes "id") _ _ refl refl (to_string-Lacks p.id)
    ∙ load_field _ (codes "timestamp") _ _ refl refl (sanitize-Lacks p.timestamp)
    ∙ load_field _ (codes "source") _ _ refl refl (sanitize-Lacks p.source)
    ∙ load_field _ (codes "destination") _ _ refl refl (sanitize-Lacks p.destination)
    ∙ load_field _ (codes "protocol") _ _ refl refl (sanitize-Lacks p.protocol)
    ∙ load_field _ (codes "source_port") _ _ refl refl (to_string-Lacks p.source_port)
    ∙ load_field _ (codes "destination_port") _ _ refl refl (to_string-Lacks p.destination_port)
    ∙ load_field _ (codes "ttl") _ _ refl refl (to_string-Lacks p.ttl)
    ∙ load_field _ (codes "length") _ _ refl refl (int_to_string-Lacks p.length)
    ∙ load_field _ (codes "decoded") _ _ refl refl (bool_text-Lacks p.decoded)
    ∙ load_blank _ rest

abbrev pub add_packets : CaptureData → List Packet → CaptureData
add_packets c ps = record c { packets = c.packets ++ ps }

pub load_packets :
    (ps : List Packet) (l : Loader)
    → All IsPacket ps
    → store_packet (load_from l (packets_text ps)) ≡ add_packets (store_packet l) (map clean ps)
unfolding packets_text
load_packets [] l h =
    unfold load_from get_lines step_lines in
    ap (λ qs. record (store_packet l) { packets = qs }) (sym (append-nil (store_packet l).packets))
load_packets (p ∷ ps) l h =
    ap store_packet (load_packet l p (packets_text ps))
    ∙ ap (λ q. store_packet (load_from (opened l q) (packets_text ps))) (reread-clean p h.0)
    ∙ load_packets ps (opened l (clean p)) h.1
    ∙ ap (λ qs. record (store_packet l) { packets = qs })
        (append_assoc (store_packet l).packets (clean p ∷ []) (map clean ps))
