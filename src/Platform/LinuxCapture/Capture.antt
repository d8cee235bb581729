-- ===== src/Platform/LinuxCapture/Capture.antt =====
-- `filterMatches` and `capturePackets` of src/platform/linux/packet_capture.cpp.
use slipnet.Prelude.{
  ℕ, ◌+◌, ◌%◌, ◌^◌, Bool, true, false, not, ◌||◌, Option, none, some, List, [], ◌∷◌, ◌++◌, map, leb,
  if◌then◌else◌, Bytes, codes, eq_bytes, is_empty, to_upper, length,
}
use slipnet.Prelude.Int.{pos, lt_int}
use slipnet.Prelude.Options.{◌>>=◌}
use slipnet.Platform.PacketCapture.{CapturedPacket, PacketCaptureConfig, PacketCaptureResult}
use slipnet.Platform.LinuxCapture.{decode_frame}

unfoldable pub filter_matches : CapturedPacket → Bytes → Bool
unfolding to_upper
filter_matches packet filter =
    let normalized = map to_upper filter in
    if is_empty filter || eq_bytes filter (codes "ALL") || eq_bytes filter (codes "all")
    then true
    else if eq_bytes normalized (codes "TCP")
    then eq_bytes packet.protocol (codes "TCP")
    else if eq_bytes normalized (codes "UDP")
    then eq_bytes packet.protocol (codes "UDP")
    else if eq_bytes normalized (codes "ICMP")
    then eq_bytes packet.protocol (codes "ICMP")
    else if eq_bytes normalized (codes "IP")
    then eq_bytes packet.protocol (codes "TCP")
      || eq_bytes packet.protocol (codes "UDP")
      || eq_bytes packet.protocol (codes "ICMP")
    else true

-- What a round of the loop meets: `select` fails with EINTR, fails with another error, or runs into
-- the timeout; or `recvfrom` gives the bytes of a frame at a time, none where it fails.
pub data Event : Type 0 where
  interrupted timed_out : Event
  select_failed : Bytes → Event
  received : Bytes → Bytes → Event

-- A `CapturedPacket` with the time and the length of the frame.
abbrev pub fresh : Bytes → Bytes → CapturedPacket
fresh timestamp frame = record {
  timestamp = timestamp;
  source = [];
  destination = [];
  protocol = [];
  source_port = 0;
  destination_port = 0;
  ttl = 0;
  length = length frame;
  decoded = false;
}

-- How a round ends: with `continue`, or with the result of the function.
pub data Round : Type 0 where
  goes_on stops : PacketCaptureResult → Round

-- The rounds behind one that ended.
abbrev pub after :
    Round → (PacketCaptureResult → Option PacketCaptureResult) → Option PacketCaptureResult
after (goes_on r) rest = rest r
after (stops r) rest = some r

abbrev pub succeed : PacketCaptureResult → PacketCaptureResult
succeed r = record r { success = true }

-- The end of a round, for a packet that is decoded.
unfoldable pub store : PacketCaptureConfig → CapturedPacket → PacketCaptureResult → Round
unfolding filter_matches
store config packet r =
    if not (filter_matches packet config.filter)
    then goes_on r
    else if leb config.max_packets (length r.packets)
    then stops (succeed r)
    else goes_on (record r { packets = r.packets ++ packet ∷ [] })

abbrev pub add_bytes : Bytes → PacketCaptureResult → PacketCaptureResult
add_bytes frame r = record r { total_bytes = (r.total_bytes + length frame) % 2 ^ 64 }

module _ (ntop : ℕ → Bytes) (config : PacketCaptureConfig) where
  unfoldable pub round : Event → PacketCaptureResult → Option Round
  unfolding store decode_frame
  round interrupted r = some (goes_on r)
  round timed_out r = some (stops (succeed r))
  round (select_failed error) r =
      some (stops (record r { error = codes "Packet capture select() failed: " ++ error }))
  round (received timestamp []) r = some (goes_on r)
  round (received timestamp (c ∷ frame)) r = do
    packet ← decode_frame ntop (c ∷ frame) (fresh timestamp (c ∷ frame))
    some (store config packet (add_bytes (c ∷ frame) r))

  -- The rounds until the deadline, where the events end.
  unfoldable pub rounds : List Event → PacketCaptureResult → Option PacketCaptureResult
  unfolding round
  rounds [] r = some (succeed r)
  rounds (e ∷ events) r = do next ← round e r; after next (rounds events)

-- What the calls in front of the loop answer; an error is its `strerror` text.
pub record System : Type 0 where
  pub is_root : Bool
  pub has_interface : Bool
  pub socket_error : Option Bytes
  pub bind_error : Option Bytes

abbrev pub initial : PacketCaptureConfig → PacketCaptureResult
initial config = record {
  success = false;
  error = [];
  interface_name = config.interface_name;
  duration_seconds = config.duration_seconds;
  filter = config.filter;
  packets = [];
  total_bytes = 0;
}

-- The error of the checks in front of the loop, if there is one.
unfoldable pub setup_error : System → PacketCaptureConfig → Option Bytes
setup_error system config =
    if is_empty config.interface_name
    then some (codes "Capture interface is empty.")
    else if lt_int config.duration_seconds (pos 1)
    then some (codes "Capture duration must be greater than zero.")
    else if not system.is_root
    then some (codes "Linux packet capture requires root privileges.")
    else if not system.has_interface
    then some (codes "Network interface not found: " ++ config.interface_name)
    else elim system.socket_error [
      | some error ↦ some (codes "Unable to create AF_PACKET socket: " ++ error)
      | none ↦ elim system.bind_error [
        | some error ↦ some (codes "Unable to bind packet capture socket: " ++ error)
        | none ↦ none
      ]
    ]

module _ (ntop : ℕ → Bytes) (config : PacketCaptureConfig) (events : List Event) where
  -- `capturePackets` behind the checks.
  unfoldable pub capture_checked : Option Bytes → Option PacketCaptureResult
  unfolding rounds
  capture_checked (some error) = some (record (initial config) { error = error })
  capture_checked none = rounds ntop config events (initial config)

  unfoldable pub capture_packets : System → Option PacketCaptureResult
  unfolding setup_error capture_checked
  capture_packets system = capture_checked (setup_error system config)
