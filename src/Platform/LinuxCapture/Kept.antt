-- ===== src/Platform/LinuxCapture/Kept.antt =====
-- The packets that the capture loop of src/platform/linux/packet_capture.cpp keeps.
use slipnet.Prelude.{
  ℕ, zero, suc, ◌≤◌, ◌≡◌, refl, ◌⊎◌, sym, ap, inl, inr, false, Option, none, some, List, [], ◌∷◌,
  ◌++◌, leb, if◌then◌else◌, Bool-cases, Option-cases, Bytes, length, length-append, take, arith,
}
use mathlib.Core.List.{append_assoc}
use slipnet.Platform.PacketCapture.{CapturedPacket, PacketCaptureConfig, PacketCaptureResult}
use slipnet.Platform.LinuxCapture.Decoding.{decode_frame-total}
use slipnet.Platform.LinuxCapture.Capture.{
  filter_matches, Event, interrupted, timed_out, select_failed, received, fresh, succeed, store,
  add_bytes, rounds, after, System, initial, setup_error, capture_checked, capture_packets,
}

module _ (ntop : ℕ → Bytes) where
  -- The packet of a frame received at a time.
  abbrev pub packet_of : Bytes → Bytes → CapturedPacket
  packet_of timestamp frame = (decode_frame-total ntop frame (fresh timestamp frame)).0

  -- The packets received in front of a timeout or an error, in order.
  abbrev pub received_packets : List Event → List CapturedPacket
  received_packets [] = []
  received_packets (interrupted ∷ events) = received_packets events
  received_packets (timed_out ∷ events) = []
  received_packets (select_failed error ∷ events) = []
  received_packets (received timestamp [] ∷ events) = received_packets events
  received_packets (received timestamp (c ∷ frame) ∷ events) =
      packet_of timestamp (c ∷ frame) ∷ received_packets events

abbrev pub matching : Bytes → List CapturedPacket → List CapturedPacket
matching filter [] = []
matching filter (p ∷ packets) =
    let rest = matching filter packets in if filter_matches p filter then p ∷ rest else rest

take_all :
    {A : Type 0} (n : ℕ) (xs ys : List A) → n ≤ length xs → length xs ≤ n → take n (xs ++ ys) ≡ xs
take_all zero [] ys h k = refl
take_all zero (x ∷ xs) ys h k = absurd (omega arith)
take_all (suc n) [] ys h k = absurd (omega arith)
take_all (suc n) (x ∷ xs) ys h k = ap (λ l. x ∷ l) (take_all n xs ys (omega arith) (omega arith))

take_fits : {A : Type 0} (n : ℕ) (xs : List A) → length xs ≤ n → take n (xs ++ []) ≡ xs
take_fits zero [] h = refl
take_fits zero (x ∷ xs) h = absurd (omega arith)
take_fits (suc n) [] h = refl
take_fits (suc n) (x ∷ xs) h = ap (λ l. x ∷ l) (take_fits n xs (omega arith))

module _ (ntop : ℕ → Bytes) (config : PacketCaptureConfig) where
  -- The rounds give a result, which has the first matching packets up to the limit.
  Keeps : List CapturedPacket → Option PacketCaptureResult → Type 0
  Keeps ps o = (s : PacketCaptureResult) × (o ≡ some s) × (s.packets ≡ take config.max_packets ps)

  store-Keeps :
      (p : CapturedPacket) (ps : List CapturedPacket) (r : PacketCaptureResult)
      (rest : PacketCaptureResult → Option PacketCaptureResult)
      → length r.packets ≤ config.max_packets
      → ((s : PacketCaptureResult)
          → length s.packets ≤ config.max_packets
          → Keeps (s.packets ++ matching config.filter ps) (rest s))
      → Keeps (r.packets ++ matching config.filter (p ∷ ps)) (after (store config p r) rest)
  unfolding Keeps store
  store-Keeps p ps r rest h k = elim (Bool-cases (filter_matches p config.filter)) [
    | inr e ↦ rw e (k r h)
    | inl e ↦ elim (Bool-cases (leb config.max_packets (length r.packets))) [
      | inl f ↦
          let full : config.max_packets ≤ length r.packets = ground arith in
          rw (e, f)
            (
              succeed r,
              refl,
              sym (take_all config.max_packets r.packets (p ∷ matching config.filter ps) full h),
            )
      | inr f ↦
          let room : length (r.packets ++ p ∷ []) ≤ config.max_packets =
            ground (arith, length-append r.packets (p ∷ [])) in
          rw (e, f, ← append_assoc r.packets (p ∷ []) (matching config.filter ps))
            (k (record r { packets = r.packets ++ p ∷ [] }) room)
    ]
  ]

  rounds-Keeps :
      (events : List Event) (r : PacketCaptureResult)
      → length r.packets ≤ config.max_packets
      → Keeps
          (r.packets ++ matching config.filter (received_packets ntop events))
          (rounds ntop config events r)
  unfolding Keeps rounds
  rounds-Keeps [] r h = (succeed r, refl, sym (take_fits config.max_packets r.packets h))
  rounds-Keeps (interrupted ∷ events) r h = rounds-Keeps events r h
  rounds-Keeps (timed_out ∷ events) r h =
      (succeed r, refl, sym (take_fits config.max_packets r.packets h))
  rounds-Keeps (select_failed error ∷ events) r h =
      (_, refl, sym (take_fits config.max_packets r.packets h))
  rounds-Keeps (received timestamp [] ∷ events) r h = rounds-Keeps events r h
  rounds-Keeps (received timestamp (c ∷ frame) ∷ events) r h =
      rw ((decode_frame-total ntop (c ∷ frame) (fresh timestamp (c ∷ frame))).1) (
        store-Keeps (packet_of ntop timestamp (c ∷ frame)) (received_packets ntop events)
          (add_bytes (c ∷ frame) r) (rounds ntop config events) h (rounds-Keeps events))

  -- A capture gives a result, whatever the system answers. Where it gets past the checks in front of
  -- the loop, the packets of the result are the first that match the filter, up to the limit, of
  -- those received in front of a timeout or an error, in order. Where a check finds an error, the
  -- result is a failure with that error and without packets.
  pub capture_packets-matching :
      (system : System) (events : List Event)
      → (r : PacketCaptureResult) × (capture_packets ntop config events system ≡ some r)
        × (((setup_error system config ≡ none)
              × (r.packets
                  ≡ take config.max_packets
                      (matching config.filter (received_packets ntop events))))
            ⊎ ((error : Bytes) × (setup_error system config ≡ some error)
                × (r.success ≡ false)
                × (r.error ≡ error)
                × (r.packets ≡ [])))
  unfolding capture_packets capture_checked Keeps
  capture_packets-matching system events = elim (Option-cases (setup_error system config)) [
    | inl e ↦
        let (r, is, kept) = rounds-Keeps events (initial config) (omega arith) in
        (r, rw e is, inl (e, kept))
    | inr (error, e) ↦
        (record (initial config) { error = error }, rw e refl, inr (error, e, refl, refl, refl))
  ]
