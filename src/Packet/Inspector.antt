-- ===== src/Packet/Inspector.antt =====
-- The reader of capture files of src/packet/packet_inspector.cpp. A file is the
-- text in it. What is printed is not modelled.
use slipnet.Prelude.{
  ℕ, ◌+◌, ◌-◌, ◌%◌, ◌^◌, Bool, true, false, ◌||◌, Option, none, some, List, [], ◌∷◌, ◌++◌, ◌==◌,
  if◌then◌else◌, Bytes, codes, eq_bytes, is_empty, length, take, drop, find_char,
}
use slipnet.Prelude.Int.{ℤ, pos, negsuc}
use slipnet.Prelude.Decimal.{stoull, stoi}
use slipnet.Packet.{Packet, blank}

pub record CaptureData : Type 0 where
  pub interface_name : Bytes
  pub duration : ℤ
  pub filter : Bytes
  pub packet_count : ℕ
  pub total_bytes : ℕ
  pub packets : List Packet

unfoldable pub parse_bool : Bytes → Bool
parse_bool value = eq_bytes value (codes "true") || eq_bytes value (codes "1")

-- `catch (...)` stores zero.
abbrev pub or_zero : Option ℕ → ℕ
or_zero none = 0
or_zero (some n) = n

abbrev pub or_zero_int : Option ℤ → ℤ
or_zero_int none = pos 0
or_zero_int (some z) = z

-- `std::getline` until it fails: a line ends at a newline, which is dropped; what follows the last
-- newline is a line if there is any.
abbrev pub push_last : Bytes → List Bytes
push_last [] = []
push_last (c ∷ s) = (c ∷ s) ∷ []

unfoldable pub get_lines : Bytes → Bytes → List Bytes
get_lines line [] = push_last line
get_lines line (c ∷ s) = elim (c == b'\n') [
  | true ↦ line ∷ get_lines [] s
  | false ↦ get_lines (line ++ c ∷ []) s
]

-- The local variables of `loadCapture`.
pub record Loader : Type 0 where
  pub capture : CaptureData
  pub current_packet : Packet
  pub inside_packet : Bool

unfoldable pub set_metadata : Bytes → Bytes → CaptureData → CaptureData
set_metadata key value capture =
    if eq_bytes key (codes "interface")
    then record capture { interface_name = value }
    else if eq_bytes key (codes "duration")
    then record capture { duration = or_zero_int (stoi value) }
    else if eq_bytes key (codes "filter")
    then record capture { filter = value }
    else if eq_bytes key (codes "packets")
    then record capture { packet_count = or_zero (stoull value) }
    else if eq_bytes key (codes "bytes")
    then record capture { total_bytes = or_zero (stoull value) }
    else capture

-- The casts cut a port to 16 bits and the ttl to 8. `std::stoul` reads these three as a number of 64
-- bits; where `unsigned long` has 32, as on Windows, it throws from 2 ^ 32 on, and the catch
-- clause stores 0.
unfoldable pub set_packet : Bytes → Bytes → Packet → Packet
unfolding parse_bool
set_packet key value packet =
    if eq_bytes key (codes "id")
    then record packet { id = or_zero (stoull value) }
    else if eq_bytes key (codes "timestamp")
    then record packet { timestamp = value }
    else if eq_bytes key (codes "source")
    then record packet { source = value }
    else if eq_bytes key (codes "destination")
    then record packet { destination = value }
    else if eq_bytes key (codes "protocol")
    then record packet { protocol = value }
    else if eq_bytes key (codes "source_port")
    then record packet { source_port = or_zero (stoull value) % 2 ^ 16 }
    else if eq_bytes key (codes "destination_port")
    then record packet { destination_port = or_zero (stoull value) % 2 ^ 16 }
    else if eq_bytes key (codes "ttl")
    then record packet { ttl = or_zero (stoull value) % 2 ^ 8 }
    else if eq_bytes key (codes "length")
    then record packet { length = or_zero_int (stoi value) }
    else if eq_bytes key (codes "decoded")
    then record packet { decoded = parse_bool value }
    else packet

unfoldable pub set_field : Loader → Bytes → Bytes → Loader
unfolding set_metadata set_packet
set_field l key value =
    if l.inside_packet
    then record l { current_packet = set_packet key value l.current_packet }
    else record l { capture = set_metadata key value l.capture }

-- A line with its first `=` at the position, or with none.
unfoldable pub split_field : Loader → Bytes → Option ℕ → Loader
unfolding set_field
split_field l line none = l
split_field l line (some separator) = set_field l (take separator line) (drop (separator + 1) line)

abbrev pub store_packet : Loader → CaptureData
store_packet l =
    if l.inside_packet
    then record (l.capture) { packets = l.capture.packets ++ l.current_packet ∷ [] }
    else l.capture

unfoldable pub step_line : Loader → Bytes → Loader
unfolding split_field
step_line l line =
    if is_empty line
    then l
    else if eq_bytes line (codes "SLIPNET_CAPTURE_V2")
    then l
    else if eq_bytes line (codes "[PACKET]")
    then record { capture = store_packet l; current_packet = blank; inside_packet = true }
    else split_field l line (find_char b'=' line)

unfoldable pub step_lines : Loader → List Bytes → Loader
unfolding step_line
step_lines l [] = l
step_lines l (line ∷ lines) = step_lines (step_line l line) lines

-- `static_cast<std::size_t>` of an `int`.
abbrev pub to_size : ℤ → ℕ
to_size (pos n) = n
to_size (negsuc n) = 2 ^ 64 - 1 - n

unfoldable pub sum_lengths : ℕ → List Packet → ℕ
sum_lengths total [] = total
sum_lengths total (packet ∷ packets) =
    sum_lengths ((total + to_size packet.length) % 2 ^ 64) packets

-- The metadata that is missing is filled in from the packets.
unfoldable pub trust_packets : CaptureData → CaptureData
unfolding sum_lengths
trust_packets c = record c {
  packet_count = if c.packet_count == 0 then length c.packets else c.packet_count;
  total_bytes = if c.total_bytes == 0 then sum_lengths 0 c.packets else c.total_bytes;
}

abbrev pub empty_capture : CaptureData
empty_capture = record {
  interface_name = [];
  duration = pos 0;
  filter = [];
  packet_count = 0;
  total_bytes = 0;
  packets = [];
}

abbrev pub start : Loader
start = record { capture = empty_capture; current_packet = blank; inside_packet = false }

-- `loadCapture` on a file that could be opened.
unfoldable pub load_capture : Bytes → CaptureData
load_capture text = trust_packets (store_packet (step_lines start (get_lines [] text)))
