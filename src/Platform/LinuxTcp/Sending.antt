-- ===== src/Platform/LinuxTcp/Sending.antt =====
-- What `tcpSend` of src/platform/linux/tcp_linux.cpp puts on the wire.
use mathlib.Core.List.{append-nil, append_assoc}
use mathlib.Core.Path.{subst}
use slipnet.Prelude.{
  ℕ, zero, suc, ◌+◌, ◌-◌, ◌≤◌, ◌≡◌, refl, sym, ap, ◌∙◌, inl, inr, Bool, true, false, Option, none,
  some, [], ◌∷◌, ◌++◌, Bool-cases, Bytes, is_empty, length, take, drop, arith,
}
use slipnet.Prelude.Text.Find.{take-drop}
use slipnet.Prelude.Int.{ℤ, pos, negsuc, lt_int}
use slipnet.Platform.LinuxTcp.{TcpConnection, System, to_count, send_loop, tcp_send}

length-drop : (n : ℕ) (s : Bytes) → length (drop (suc n) s) ≤ length s - 1
length-drop n [] = omega arith
length-drop zero (c ∷ s) = omega arith
length-drop (suc n) (c ∷ s) = omega (arith, length-drop n s)

-- The loop returned; all of the text was sent if it returned `true`, and a part from its start on if
-- it returned `false`.
abbrev pub Sent : Bytes → Option (Bool × Bytes) → Type 0
Sent text none = ⊥
Sent text (some (true, wire)) = wire ≡ text
Sent text (some (false, wire)) = (rest : Bytes) × (text ≡ wire ++ rest)

empty_is : (s : Bytes) → is_empty s ≡ true → s ≡ []
empty_is [] e = refl
empty_is (c ∷ s) e = absurd (cc e)

positive : (z : ℤ) → lt_int z (pos 1) ≡ false → (n : ℕ) × (z ≡ pos (suc n))
positive (pos zero) e = absurd (cc e)
positive (pos (suc n)) e = (n, refl)
positive (negsuc n) e = absurd (cc e)

module _ (system : System) where
  send_loop-Sent :
      (rounds call : ℕ) (buffer wire : Bytes)
      → length buffer ≤ rounds
      → Sent (wire ++ buffer) (send_loop system rounds call buffer wire)
  unfolding send_loop
  send_loop-Sent zero call [] wire h = sym (append-nil wire)
  send_loop-Sent zero call (c ∷ buffer) wire h = absurd (omega arith)
  send_loop-Sent (suc rounds) call [] wire h = sym (append-nil wire)
  send_loop-Sent (suc rounds) call (c ∷ buffer) wire h =
      let sent = system.send call (length (c ∷ buffer)) in
      elim (Bool-cases (lt_int sent (pos 1))) [
        | inl e ↦ rw e ((c ∷ buffer), refl)
        | inr e ↦
            let n = to_count sent in
            rw e (
              subst
                (λ t. Sent t (
                  send_loop system rounds (call + 1) (drop n (c ∷ buffer))
                    (wire ++ take n (c ∷ buffer))))
                (append_assoc wire (take n (c ∷ buffer)) (drop n (c ∷ buffer))
                  ∙ ap (λ t. wire ++ t) (take-drop n (c ∷ buffer)))
                (send_loop-Sent rounds (call + 1) (drop n (c ∷ buffer))
                  (wire ++ take n (c ∷ buffer))
                  (let (k, q) = positive sent e in
                    (let count : n ≡ suc k = ap (to_count) q in
                      rw count (omega (arith, length-drop k (c ∷ buffer)))))))
      ]

  -- On a valid connection `tcpSend` returns, in no more rounds than there are bytes, whatever the
  -- calls of `send` answer: with `true` only if all of the data was sent, in order and once, and with
  -- `false` after a part of it from its start on.
  pub tcp_send-Sent :
      (connection : TcpConnection) (text : Bytes)
      → connection.valid ≡ true
      → Sent text (tcp_send system connection text)
  unfolding tcp_send
  tcp_send-Sent connection text v = rw v (send_loop-Sent (length text) 0 text [] (omega arith))
