-- ===== src/Packet/Inspection/Tally.antt =====
-- The counts of the dashboard that `inspectFile` of src/packet/packet_inspector.cpp prints.
use slipnet.Prelude.{
  ℕ, ◌+◌, ◌%◌, ◌^◌, ap, ◌≡◌, refl, inl, inr, ◌∙◌, Bool, true, false, not, ◌||◌, List, [], ◌∷◌,
  if◌then◌else◌, ◌==◌, Bool-cases, Bytes, codes, eq_bytes, eq_bytes_iff, arith,
}
use slipnet.Packet.{Packet}
use slipnet.Packet.Inspector.{CaptureData, to_size, sum_lengths, trust_packets}
use slipnet.Packet.Inspection.{Statistics, no_statistics, count_protocol, count_size, count_packets}

abbrev pub one : Bool → ℕ
one true = 1
one false = 0

-- How many packets pass a test.
abbrev pub number : (Packet → Bool) → List Packet → ℕ
number test [] = 0
number test (packet ∷ packets) = one (test packet) + number test packets

abbrev pub has_protocol : Bytes → Packet → Bool
has_protocol name packet = eq_bytes packet.protocol name

abbrev is_other : Bytes → Bool
is_other protocol = not (
    eq_bytes protocol (codes "TCP")
    || eq_bytes protocol (codes "UDP")
    || eq_bytes protocol (codes "ICMP"))

abbrev pub has_other : Packet → Bool
has_other packet = is_other packet.protocol

-- Each count is above that of the statistics in front by the number of its packets.
record Adds (packets : List Packet) (s t : Statistics) : Type 0 where
  tcp : t.tcp_count ≡ s.tcp_count + number (has_protocol (codes "TCP")) packets
  udp : t.udp_count ≡ s.udp_count + number (has_protocol (codes "UDP")) packets
  icmp : t.icmp_count ≡ s.icmp_count + number (has_protocol (codes "ICMP")) packets
  other : t.other_count ≡ s.other_count + number has_other packets
  decoded : t.decoded_count ≡ s.decoded_count + number (λ p. p.decoded) packets
  bytes : t.calculated_bytes ≡ sum_lengths s.calculated_bytes packets

distinct :
    (protocol a b : Bytes)
    → eq_bytes a b ≡ false
    → eq_bytes protocol a ≡ true
    → eq_bytes protocol b ≡ false
distinct protocol a b h e = rw ((eq_bytes_iff protocol a).0 e) h

abbrev OneMore : Bytes → Statistics → Statistics → Type 0
OneMore protocol s t =
    (t.tcp_count ≡ s.tcp_count + one (eq_bytes protocol (codes "TCP")))
    × (t.udp_count ≡ s.udp_count + one (eq_bytes protocol (codes "UDP")))
    × (t.icmp_count ≡ s.icmp_count + one (eq_bytes protocol (codes "ICMP")))
    × (t.other_count ≡ s.other_count + one (is_other protocol))
    × (t.decoded_count ≡ s.decoded_count)
    × (t.calculated_bytes ≡ s.calculated_bytes)

tcp_udp : eq_bytes (codes "TCP") (codes "UDP") ≡ false
unfolding eq_bytes
tcp_udp = refl

tcp_icmp : eq_bytes (codes "TCP") (codes "ICMP") ≡ false
unfolding eq_bytes
tcp_icmp = refl

udp_icmp : eq_bytes (codes "UDP") (codes "ICMP") ≡ false
unfolding eq_bytes
udp_icmp = refl

count_protocol-OneMore :
    (protocol : Bytes) (s : Statistics) → OneMore protocol s (count_protocol protocol s)
unfolding count_protocol
count_protocol-OneMore protocol s = elim (Bool-cases (eq_bytes protocol (codes "TCP"))) [
  | inl e ↦
      let u = distinct protocol (codes "TCP") (codes "UDP") tcp_udp e in
      let i = distinct protocol (codes "TCP") (codes "ICMP") tcp_icmp e in
      rw (e, u, i) (omega arith, omega arith, omega arith, omega arith, refl, refl)
  | inr e ↦ elim (Bool-cases (eq_bytes protocol (codes "UDP"))) [
    | inl u ↦
        let i = distinct protocol (codes "UDP") (codes "ICMP") udp_icmp u in
        rw (e, u, i) (omega arith, omega arith, omega arith, omega arith, refl, refl)
    | inr u ↦ elim (Bool-cases (eq_bytes protocol (codes "ICMP"))) [
      | inl i ↦ rw (e, u, i) (omega arith, omega arith, omega arith, omega arith, refl, refl)
      | inr i ↦ rw (e, u, i) (omega arith, omega arith, omega arith, omega arith, refl, refl)
    ]
  ]
]

count_size-decoded :
    (packet : Packet) (s : Statistics)
    → (count_size packet s).decoded_count ≡ s.decoded_count + one packet.decoded
unfolding count_size
count_size-decoded packet s = elim (Bool-cases packet.decoded) [
  | inl e ↦ rw e (omega arith)
  | inr e ↦ rw e (omega arith)
]

count_one :
    (packet : Packet) (s : Statistics)
    → let t = count_protocol packet.protocol (count_size packet s) in
      (t.tcp_count ≡ s.tcp_count + one (has_protocol (codes "TCP") packet))
      × (t.udp_count ≡ s.udp_count + one (has_protocol (codes "UDP") packet))
      × (t.icmp_count ≡ s.icmp_count + one (has_protocol (codes "ICMP") packet))
      × (t.other_count ≡ s.other_count + one (has_other packet))
      × (t.decoded_count ≡ s.decoded_count + one packet.decoded)
      × (t.calculated_bytes ≡ (s.calculated_bytes + to_size packet.length) % 2 ^ 64)
unfolding count_size
count_one packet s =
    let (tcp, udp, icmp, other, decoded, bytes) =
      count_protocol-OneMore packet.protocol (count_size packet s) in
    (tcp, udp, icmp, other, decoded ∙ count_size-decoded packet s, bytes)

count_packets-Adds :
    (packets : List Packet) (s : Statistics) → Adds packets s (count_packets packets s)
unfolding count_packets sum_lengths
count_packets-Adds [] s = record {
  tcp = omega arith;
  udp = omega arith;
  icmp = omega arith;
  other = omega arith;
  decoded = omega arith;
  bytes = refl;
}
count_packets-Adds (packet ∷ packets) s =
    let t = count_protocol packet.protocol (count_size packet s) in
    let (tcp, udp, icmp, other, decoded, bytes) = count_one packet s in
    let later = count_packets-Adds packets t in
    let tcp_later = later.tcp in
    let udp_later = later.udp in
    let icmp_later = later.icmp in
    let other_later = later.other in
    let decoded_later = later.decoded in
    record {
      tcp = omega arith;
      udp = omega arith;
      icmp = omega arith;
      other = omega arith;
      decoded = omega arith;
      bytes = later.bytes ∙ ap (λ b. sum_lengths b packets) bytes;
    }

-- The counts of the dashboard: by protocol, of those of no other protocol, and of the decoded.
pub record Tallied (packets : List Packet) (s : Statistics) : Type 0 where
  pub tcp : s.tcp_count ≡ number (has_protocol (codes "TCP")) packets
  pub udp : s.udp_count ≡ number (has_protocol (codes "UDP")) packets
  pub icmp : s.icmp_count ≡ number (has_protocol (codes "ICMP")) packets
  pub other : s.other_count ≡ number has_other packets
  pub decoded : s.decoded_count ≡ number (λ p. p.decoded) packets

zero_add : {n : ℕ} → 0 + n ≡ n
zero_add = omega arith

pub count_packets-Tallied :
    (packets : List Packet) → Tallied packets (count_packets packets no_statistics)
count_packets-Tallied packets =
    let h = count_packets-Adds packets no_statistics in
    record {
      tcp = h.tcp ∙ zero_add;
      udp = h.udp ∙ zero_add;
      icmp = h.icmp ∙ zero_add;
      other = h.other ∙ zero_add;
      decoded = h.decoded ∙ zero_add;
    }

if_zero :
    (t u : ℕ)
    → (let v = if t == 0 then u else t in if v == 0 then u else v) ≡ (if t == 0 then u else t)
if_zero t u = elim (Bool-cases (t == 0)) [
  | inl e ↦ elim (Bool-cases (u == 0)) [ inl z ↦ rw (e, z) refl | inr z ↦ rw (e, z) refl ]
  | inr e ↦ rw (e, e) refl
]

-- The total that the dashboard prints is the one of the capture, which `loadCapture` has filled in.
pub total_trusted :
    (c : CaptureData)
    → let capture = trust_packets c in
      let s = count_packets capture.packets no_statistics in
      (if capture.total_bytes == 0 then s.calculated_bytes else capture.total_bytes)
      ≡ capture.total_bytes
unfolding trust_packets
total_trusted c =
    rw (count_packets-Adds c.packets no_statistics).bytes
      (if_zero c.total_bytes (sum_lengths 0 c.packets))
