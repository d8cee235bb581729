-- ===== src/Packet/SaveLoad/Files.antt =====
-- A whole capture file, written by src/packet/packet_capture.cpp and read by
-- src/packet/packet_inspector.cpp.
use slipnet.Prelude.Text.Find.{Lacks-of_none}
use slipnet.Prelude.{
  ℕ, suc, ◌+◌, ◌%◌, ◌^◌, ◌<◌, ◌≡◌, refl, ap, ◌∙◌, List, [], ◌∷◌, map, Bytes, codes, eq_bytes,
  length, All, arith,
}
use slipnet.Prelude.Int.{ℤ, pos, negsuc}
use slipnet.Prelude.Decimal.{stoull, stoi, to_string, int_to_string}
use slipnet.Prelude.Decimal.RoundTrip.{stoull-to_string, stoi-int_to_string, IsInt}
use slipnet.Packet.{Packet}
use slipnet.Packet.Capture.{sanitize, add_positive, count_bytes, packets_text, capture_text}
use slipnet.Packet.Inspector.{
  CaptureData, step_line, set_field, set_metadata, or_zero, or_zero_int, store_packet, sum_lengths,
  to_size, load_capture, trust_packets, start,
}
use slipnet.Packet.SaveLoad.Fields.{
  load_from, load_line, load_field, sanitize-Lacks, to_string-Lacks, int_to_string-Lacks,
}
use slipnet.Packet.SaveLoad.Packets.{
  clean, IsCount, IsPacket, add_packets, load_packets, load_blank,
}

add_positive-lt : (t : ℕ) (z : ℤ) → t < 2 ^ 64 → add_positive t z < 2 ^ 64
add_positive-lt t (pos n) h = omega arith
add_positive-lt t (negsuc n) h = h

count_bytes-lt : (t : ℕ) (ps : List Packet) → t < 2 ^ 64 → count_bytes t ps < 2 ^ 64
unfolding count_bytes
count_bytes-lt t [] h = h
count_bytes-lt t (p ∷ ps) h =
    count_bytes-lt (add_positive t p.length) ps (add_positive-lt t p.length h)

add_positive-to_size : (t : ℕ) (z : ℤ) → IsCount z → (t + to_size z) % 2 ^ 64 ≡ add_positive t z
add_positive-to_size t (pos n) h = refl
add_positive-to_size t (negsuc n) h = absurd h

sum_lengths-clean :
    (t : ℕ) (ps : List Packet) → All IsPacket ps → sum_lengths t (map clean ps) ≡ count_bytes t ps
unfolding sum_lengths count_bytes
sum_lengths-clean t [] h = refl
sum_lengths-clean t (p ∷ ps) h =
    ap (λ u. sum_lengths u (map clean ps)) (add_positive-to_size t p.length h.0.length_count)
    ∙ sum_lengths-clean (add_positive t p.length) ps h.1

length-map : {A B : Type 0} (f : A → B) (xs : List A) → length (map f xs) ≡ length xs
length-map f [] = refl
length-map f (x ∷ xs) = ap suc (length-map f xs)

-- What is read back: the texts as they were cleaned, the numbers as they were.
abbrev pub saved_data : Bytes → ℤ → Bytes → List Packet → CaptureData
saved_data interface_name duration filter ps = record {
  interface_name = sanitize interface_name;
  duration = duration;
  filter = sanitize filter;
  packet_count = length ps;
  total_bytes = count_bytes 0 ps;
  packets = map clean ps;
}

-- The loader behind the header of the file.
reread_header : Bytes → ℤ → Bytes → List Packet → CaptureData
reread_header interface_name duration filter ps = record {
  interface_name = sanitize interface_name;
  duration = or_zero_int (stoi (int_to_string duration));
  filter = sanitize filter;
  packet_count = or_zero (stoull (to_string (length ps)));
  total_bytes = or_zero (stoull (to_string (count_bytes 0 ps)));
  packets = [];
}

load_header :
    (interface_name : Bytes) (duration : ℤ) (filter : Bytes) (ps : List Packet)
    → load_from start (capture_text interface_name duration filter ps)
      ≡ load_from
          (record start { capture = reread_header interface_name duration filter ps })
          (packets_text ps)
unfolding capture_text reread_header set_field set_metadata eq_bytes step_line
load_header interface_name duration filter ps =
    load_line start (codes "SLIPNET_CAPTURE_V2") _
      (Lacks-of_none b'\n' (codes "SLIPNET_CAPTURE_V2") refl)
    ∙ load_field _ (codes "interface") _ _ refl refl (sanitize-Lacks interface_name)
    ∙ load_field _ (codes "duration") _ _ refl refl (int_to_string-Lacks duration)
    ∙ load_field _ (codes "filter") _ _ refl refl (sanitize-Lacks filter)
    ∙ load_field _ (codes "packets") _ _ refl refl (to_string-Lacks (length ps))
    ∙ load_field _ (codes "bytes") _ _ refl refl (to_string-Lacks (count_bytes 0 ps))
    ∙ load_blank _ (packets_text ps)

header_numbers :
    (interface_name : Bytes) (duration : ℤ) (filter : Bytes) (ps : List Packet)
    → IsInt duration
    → length ps < 2 ^ 64
    → add_packets (reread_header interface_name duration filter ps) (map clean ps)
      ≡ saved_data interface_name duration filter ps
unfolding reread_header
header_numbers interface_name duration filter ps hd hl = rw (
  stoi-int_to_string duration hd,
  stoull-to_string (length ps) hl,
  stoull-to_string (count_bytes 0 ps) (count_bytes-lt 0 ps (omega arith)),
)

trust_saved :
    (interface_name : Bytes) (duration : ℤ) (filter : Bytes) (ps : List Packet)
    → All IsPacket ps
    → trust_packets (saved_data interface_name duration filter ps)
      ≡ saved_data interface_name duration filter ps
unfolding trust_packets
trust_saved interface_name duration filter ps h =
    ground (arith, sum_lengths-clean 0 ps h, length-map clean ps)

-- A capture file written for any interface name, 32-bit duration, filter and packets whose numbers
-- fit their types and whose lengths are not negative is read back as written: the same metadata and
-- the same packets in order, with `_` for each newline, carriage return and `=` in a text.
pub load_capture-capture_text :
    (interface_name : Bytes) (duration : ℤ) (filter : Bytes) (ps : List Packet)
    → IsInt duration
    → length ps < 2 ^ 64
    → All IsPacket ps
    → load_capture (capture_text interface_name duration filter ps)
      ≡ saved_data interface_name duration filter ps
unfolding load_capture load_from
load_capture-capture_text interface_name duration filter ps hd hl h =
    let behind = record start { capture = reread_header interface_name duration filter ps } in
    ap (λ l. trust_packets (store_packet l)) (load_header interface_name duration filter ps)
    ∙ ap trust_packets (load_packets ps behind h)
    ∙ ap trust_packets (header_numbers interface_name duration filter ps hd hl)
    ∙ trust_saved interface_name duration filter ps h
