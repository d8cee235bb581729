-- ===== src/Packet/Inspection/Judged.antt =====
-- What `inspectFile` of src/packet/packet_inspector.cpp finds, against the packets of the file.
use slipnet.Prelude.{
  ℕ, ◌<◌, ◌≡◌, ◌≢◌, refl, ap, inl, inr, Option, none, some, List, [], ◌∷◌, ◌++◌, ltb, ◌==◌,
  Bool-cases, Bytes, All, arith,
}
use slipnet.Packet.{Packet}
use slipnet.Packet.Inspector.{CaptureData, load_capture}
use slipnet.Packet.Inspection.{Inspection, find_packet, last_id, single, inspect_file}
use slipnet.Packet.Inspection.Tally.{Tallied, count_packets-Tallied, total_trusted}

-- The first of the packets with the id.
abbrev pub IsFirst : ℕ → List Packet → Packet → Type 0
IsFirst id packets packet =
    (front : List Packet) × (back : List Packet) × (packets ≡ front ++ packet ∷ back)
    × All (λ p. p.id ≢ id) front
    × (packet.id ≡ id)

-- The id of the last packet, or that there is no packet.
abbrev pub IsLastId : List Packet → Option ℕ → Type 0
IsLastId packets none = packets ≡ []
IsLastId packets (some id) =
    (front : List Packet) × (packet : Packet) × (packets ≡ front ++ packet ∷ []) × (packet.id ≡ id)

abbrev Found : ℕ → List Packet → Option Packet → Type 0
Found id packets none = All (λ p. p.id ≢ id) packets
Found id packets (some packet) = IsFirst id packets packet

find_packet-Found : (id : ℕ) (packets : List Packet) → Found id packets (find_packet id packets)
unfolding find_packet
find_packet-Found id [] = tt
find_packet-Found id (packet ∷ packets) = elim (Bool-cases (packet.id == id)) [
  | inl e ↦ rw e ([], packets, refl, tt, ground arith)
  | inr e ↦ rw e (later (find_packet id packets) (ground arith) (find_packet-Found id packets))
]
  where
    later :
        (o : Option Packet) → packet.id ≢ id → Found id packets o → Found id (packet ∷ packets) o
    later none n h = (n, h)
    later (some q) n (front, back, is, others, same) =
        (packet ∷ front, back, ap (λ l. packet ∷ l) is, (n, others), same)

last_id-IsLastId : (packets : List Packet) → IsLastId packets (last_id packets)
unfolding last_id
last_id-IsLastId [] = refl
last_id-IsLastId (packet ∷ []) = ([], packet, refl, refl)
last_id-IsLastId (packet ∷ (next ∷ packets)) =
    later (last_id (next ∷ packets)) (last_id-IsLastId (next ∷ packets))
  where
    later : (o : Option ℕ) → IsLastId (next ∷ packets) o → IsLastId (packet ∷ (next ∷ packets)) o
    later none h = cc
    later (some id) (front, last, is, same) = (packet ∷ front, last, ap (λ l. packet ∷ l) is, same)

-- What may be printed of a capture and an id.
abbrev pub Judged : CaptureData → ℕ → Inspection → Type 0
Judged capture id Inspection.unable = ⊥
Judged capture id (Inspection.details packet) = (0 < id) × IsFirst id capture.packets packet
Judged capture id (Inspection.not_found last) =
    (0 < id) × All (λ p. p.id ≢ id) capture.packets × IsLastId capture.packets last
Judged capture id (Inspection.dashboard shown s) =
    (id ≡ 0) × (shown ≡ capture) × Tallied capture.packets s

single-Judged :
    (capture : CaptureData) (id : ℕ) (o : Option Packet)
    → 0 < id
    → Found id capture.packets o
    → Judged capture id (single capture.packets o)
single-Judged capture id none above h = (above, h, last_id-IsLastId capture.packets)
single-Judged capture id (some packet) above h = (above, h)

-- Inspecting a file that could be opened shows for an id above 0 the first packet of the file with that
-- id, or, where no packet has it, that there is none and the id of the last packet. For 0 it shows the
-- capture as it is loaded, with the numbers of its TCP, UDP and ICMP packets, of those of another
-- protocol, and of the decoded.
pub inspect_file-Judged :
    (text : Bytes) (id : ℕ) → Judged (load_capture text) id (inspect_file (some text) id)
unfolding inspect_file load_capture
inspect_file-Judged text id =
    let capture = load_capture text in
    elim (Bool-cases (ltb 0 id)) [
      | inl e ↦ rw e (
          single-Judged capture id (find_packet id capture.packets) (ground arith)
            (find_packet-Found id capture.packets))
      | inr e ↦ rw e (
        ground arith,
        ap (λ t. record capture { total_bytes = t }) (total_trusted _),
        count_packets-Tallied capture.packets,
      )
    ]
