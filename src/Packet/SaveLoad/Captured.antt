-- ===== src/Packet/SaveLoad/Captured.antt =====
-- `PacketCapture::capture` of src/packet/packet_capture.cpp up to the file that
-- src/packet/packet_inspector.cpp reads.
use slipnet.Prelude.{
  ℕ, ◌+◌, ◌%◌, ◌^◌, ◌<◌, ◌≤◌, ◌≡◌, inl, inr, Bool, true, false, ◌||◌, List, [], ◌∷◌, Bool-cases,
  Bytes, length, All, arith,
}
use slipnet.Prelude.Int.{ℤ, pos, negsuc, lt_int, to_int}
use slipnet.Prelude.Decimal.RoundTrip.{IsInt}
use slipnet.Platform.PacketCapture.{CapturedPacket, PacketCaptureResult, Backend}
use slipnet.Packet.{Packet}
use slipnet.Packet.Capture.{
  to_upper_text, matches_filter, from_captured, keep_matching, saved, store_result, capture_config,
  capture, capture_text,
}
use slipnet.Packet.Inspector.{load_capture}
use slipnet.Packet.SaveLoad.Packets.{IsPacket}
use slipnet.Packet.SaveLoad.Files.{saved_data, load_capture-capture_text}

-- The ports and the time to live of a captured packet fit their C++ types, and its length, a `size_t`,
-- fits the `int` that it is cast to.
pub record IsCaptured (c : CapturedPacket) : Type 0 where
  pub source_port_word : c.source_port < 2 ^ 16
  pub destination_port_word : c.destination_port < 2 ^ 16
  pub ttl_word : c.ttl < 2 ^ 8
  pub length_word : c.length < 2 ^ 31

to_int-lt : (n : ℕ) → n < 2 ^ 31 → to_int n ≡ pos n
to_int-lt n h = ground arith

from_captured-IsPacket :
    (i : ℕ) (c : CapturedPacket) → i < 2 ^ 64 → IsCaptured c → IsPacket (from_captured i c)
unfolding from_captured
from_captured-IsPacket i c h k = record {
  id_word = h;
  source_port_word = k.source_port_word;
  destination_port_word = k.destination_port_word;
  ttl_word = k.ttl_word;
  length_count = rw (to_int-lt c.length k.length_word) k.length_word;
}

abbrev pub Matches : Bytes → List Packet → Type 0
Matches filter ps = All (λ p. matches_filter p filter ≡ true) ps

keep_matching-IsPacket :
    (i : ℕ) (f : Bytes) (cs : List CapturedPacket)
    → i < 2 ^ 64
    → All IsCaptured cs
    → All IsPacket (keep_matching i f cs) × Matches f (keep_matching i f cs)
unfolding keep_matching
keep_matching-IsPacket i f [] h k = (tt, tt)
keep_matching-IsPacket i f (c ∷ cs) h k =
    let rest = keep_matching-IsPacket ((i + 1) % 2 ^ 64) f cs (omega arith) k.1 in
    elim (Bool-cases (matches_filter (from_captured i c) f)) [
      | inl e ↦ rw e ((from_captured-IsPacket i c h k.0, rest.0), (e, rest.1))
      | inr e ↦ rw e rest
    ]

keep_matching-length :
    (i : ℕ) (f : Bytes) (cs : List CapturedPacket) → length (keep_matching i f cs) ≤ length cs
unfolding keep_matching
keep_matching-length i f [] = omega arith
keep_matching-length i f (c ∷ cs) = ground (arith, keep_matching-length ((i + 1) % 2 ^ 64) f cs)

module _ (backend : Backend) (name : Bytes) (duration : ℤ) (filter : Bytes) (writable : Bool) where
  -- What the backend answers to the call of `capture`.
  abbrev pub answered : PacketCaptureResult
  answered = backend.capture_packets (capture_config name duration (to_upper_text filter))

  capture-saved :
      (ps : List Packet) (text : Bytes) (w : Bool)
      → capture backend name duration filter writable ≡ (ps, saved text w)
      → (ps ≡ keep_matching 1 (to_upper_text filter) answered.packets)
        × (text ≡ capture_text name duration (to_upper_text filter) ps)
        × (lt_int duration (pos 1) || lt_int (pos 86400) duration ≡ false)
  unfolding capture store_result
  capture-saved ps text w h = ground arith

  duration-IsInt : (z : ℤ) → lt_int z (pos 1) || lt_int (pos 86400) z ≡ false → IsInt z
  duration-IsInt (pos n) h = ground arith
  duration-IsInt (negsuc n) h = ground arith

  -- Where a capture ends with a text for the output file, the packets it returns match the filter,
  -- and that text is loaded by the inspector as the capture's interface, duration, filter in upper
  -- case and packets, each text with `_` for every newline, carriage return and `=` in it. The ports
  -- and the time to live of the packets that the backend gives fit their types, each length is below
  -- 2 ^ 31, and there are fewer than 2 ^ 64 packets.
  pub load_capture-capture :
      (ps : List Packet) (text : Bytes) (w : Bool)
      → All IsCaptured answered.packets
      → length answered.packets < 2 ^ 64
      → capture backend name duration filter writable ≡ (ps, saved text w)
      → Matches (to_upper_text filter) ps
        × (load_capture text ≡ saved_data name duration (to_upper_text filter) ps)
  load_capture-capture ps text w fits few h =
      let (kept, written, time) = capture-saved ps text w h in
      let upper = to_upper_text filter in
      let good = keep_matching-IsPacket 1 upper answered.packets (omega arith) fits in
      let short : length (keep_matching 1 upper answered.packets) < 2 ^ 64 =
        omega (arith, keep_matching-length 1 upper answered.packets) in
      rw (written, kept)
        (
          good.1,
          load_capture-capture_text name duration upper (keep_matching 1 upper answered.packets)
              (duration-IsInt duration time) short good.0,
        )
