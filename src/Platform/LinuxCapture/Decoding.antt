-- ===== src/Platform/LinuxCapture/Decoding.antt =====
-- Decoding a frame in src/platform/linux/packet_capture.cpp: it stays within the bytes received.
use slipnet.Prelude.{
  ℕ, zero, suc, ◌+◌, ◌*◌, ◌%◌, ◌<◌, ◌≤◌, ◌≡◌, refl, inl, inr, Bool, ◌||◌, some, [], ◌∷◌, ltb, leb,
  ◌==◌, Bool-cases, Bytes, codes, length, drop, arith,
}
use slipnet.Prelude.Options.{bind_result}
use slipnet.Platform.PacketCapture.{CapturedPacket}
use slipnet.Platform.LinuxCapture.{
  byte_at, word_16, word_32, decode_ports, decode_protocol, decode_header, decode_ipv4,
  decode_payload, decode_frame,
}

byte_at-lt : (s : Bytes) (i : ℕ) → i < length s → (c : ℕ) × (byte_at s i ≡ some c)
byte_at-lt [] i h = absurd (omega arith)
byte_at-lt (c ∷ s) zero h = (c, refl)
byte_at-lt (c ∷ s) (suc i) h = byte_at-lt s i (omega arith)

word_16-lt : (s : Bytes) (i : ℕ) → i + 1 < length s → (w : ℕ) × (word_16 s i ≡ some w)
unfolding word_16
word_16-lt s i h =
    bind_result (byte_at s i) _ (byte_at-lt s i (omega arith))
      (λ a _. bind_result (byte_at s (i + 1)) _ (byte_at-lt s (i + 1) h) (λ b _. (_, refl)))

word_32-lt : (s : Bytes) (i : ℕ) → i + 3 < length s → (w : ℕ) × (word_32 s i ≡ some w)
unfolding word_32
word_32-lt s i h = bind_result (word_16 s i) _ (word_16-lt s i (omega arith)) (λ a _.
    bind_result (word_16 s (i + 2)) _ (word_16-lt s (i + 2) (omega arith)) (λ b _. (_, refl)))

decode_ports-total :
    (size : ℕ) (s : Bytes) (h : ℕ) (p : CapturedPacket)
    → 4 ≤ size
    → (q : CapturedPacket) × (decode_ports size s h p ≡ some q)
unfolding decode_ports
decode_ports-total size s h p k = elim (Bool-cases (leb (h + size) (length s))) [
  | inl e ↦
      let room : h + size ≤ length s = ground arith in
      rw e (
        bind_result (word_16 s h) _ (word_16-lt s h (omega arith)) (λ a _.
          bind_result (word_16 s (h + 2)) _ (word_16-lt s (h + 2) (omega arith))
            (λ b _. (_, refl))))
  | inr e ↦ rw e (_, refl)
]

decode_protocol-total :
    (n : ℕ) (s : Bytes) (h : ℕ) (p : CapturedPacket)
    → (q : CapturedPacket) × (decode_protocol n s h p ≡ some q)
unfolding decode_protocol
decode_protocol-total n s h p = elim (Bool-cases (n == 6)) [
  | inl e ↦ rw e (decode_ports-total 20 s h (record p { protocol = codes "TCP" }) (omega arith))
  | inr e ↦ rw e (elim (Bool-cases (n == 17)) [
    | inl f ↦ rw f (decode_ports-total 8 s h (record p { protocol = codes "UDP" }) (omega arith))
    | inr f ↦ rw f (elim (Bool-cases (n == 1)) [ inl g ↦ rw g (_, refl) | inr g ↦ rw g (_, refl) ])
  ])
]

module _ (ntop : ℕ → Bytes) where
  decode_header-total :
      (s : Bytes) (h : ℕ) (p : CapturedPacket)
      → (r : Bool × CapturedPacket) × (decode_header ntop s h p ≡ some r)
  unfolding decode_header
  decode_header-total s h p = elim (Bool-cases (ltb h 20 || ltb (length s) h)) [
    | inl e ↦ rw e (_, refl)
    | inr e ↦
        let room : 20 ≤ length s = ground arith in
        rw e (
          bind_result (word_32 s 12) _ (word_32-lt s 12 (omega arith)) (λ a _.
            bind_result (word_32 s 16) _ (word_32-lt s 16 (omega arith)) (λ b _.
              bind_result (byte_at s 8) _ (byte_at-lt s 8 (omega arith)) (λ t _.
                bind_result (byte_at s 9) _ (byte_at-lt s 9 (omega arith)) (λ n _.
                  let from = record p { source = ntop a; destination = ntop b; ttl = t } in
                  bind_result (decode_protocol n s h from) _ (decode_protocol-total n s h from)
                    (λ q _. (_, refl)))))))
  ]

  decode_ipv4-total :
      (s : Bytes) (p : CapturedPacket)
      → (r : Bool × CapturedPacket) × (decode_ipv4 ntop s p ≡ some r)
  unfolding decode_ipv4
  decode_ipv4-total s p = elim (Bool-cases (ltb (length s) 20)) [
    | inl e ↦ rw e (_, refl)
    | inr e ↦
        let room : 20 ≤ length s = ground arith in
        rw e (
          bind_result (byte_at s 0) _ (byte_at-lt s 0 (omega arith))
            (λ c _. decode_header-total s (c % 16 * 4) p))
  ]

  decode_payload-total :
      (n : ℕ) (s : Bytes) (p : CapturedPacket)
      → (q : CapturedPacket) × (decode_payload ntop n s p ≡ some q)
  unfolding decode_payload
  decode_payload-total n s p = elim (Bool-cases (n == 0x0800)) [
    | inl e ↦ rw e (bind_result (decode_ipv4 ntop s p) _ (decode_ipv4-total s p) (λ r _. (_, refl)))
    | inr e ↦ rw e (elim (Bool-cases (n == 0x0806)) [
      | inl f ↦ rw f (_, refl)
      | inr f ↦
          rw f (elim (Bool-cases (n == 0x86dd)) [ inl g ↦ rw g (_, refl) | inr g ↦ rw g (_, refl) ])
    ])
  ]

  -- Decoding any frame into any packet reads none but the bytes received: there is a packet for it.
  pub decode_frame-total :
      (frame : Bytes) (p : CapturedPacket)
      → (q : CapturedPacket) × (decode_frame ntop frame p ≡ some q)
  unfolding decode_frame
  decode_frame-total frame p = elim (Bool-cases (leb 14 (length frame))) [
    | inl e ↦
        let room : 14 ≤ length frame = ground arith in
        rw e (
          bind_result (word_16 frame 12) _ (word_16-lt frame 12 (omega arith))
            (λ n _. decode_payload-total n (drop 14 frame) p))
    | inr e ↦ rw e (_, refl)
  ]
