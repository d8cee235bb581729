-- ===== src/Platform/LinuxTcp/Descriptors.antt =====
-- The descriptors of src/platform/linux/tcp_linux.cpp: none is lost, and none is closed twice.
use slipnet.Prelude.{
  ℕ, ◌≡◌, ◌⊎◌, refl, inl, inr, Bool, true, false, not, List, ◌∷◌, if◌then◌else◌, Bytes,
}
use slipnet.Prelude.Int.{ℤ, pos, eq_int, eq_int_iff, lt_int}
use slipnet.Platform.LinuxTcp.{
  TcpConnection, System, close, no_connection, is_connected, tcp_connect, tcp_close,
}

close-cons : (fd : ℤ) (open_fds : List ℤ) → close fd (fd ∷ open_fds) ≡ open_fds
unfolding close
close-cons fd open_fds = let same : eq_int fd fd ≡ true = (eq_int_iff fd fd).1 refl in rw same refl

-- The connection holds the one descriptor that is new, or there is none and nothing is new.
abbrev pub Balanced : List ℤ → TcpConnection × List ℤ → Type 0
Balanced open_fds r =
    ((r.0.valid ≡ false) × (r.1 ≡ open_fds)) ⊎ ((r.0.valid ≡ true) × (r.1 ≡ r.0.handle ∷ open_fds))

step :
    (open_fds : List ℤ) (test : Bool) (r q : TcpConnection × List ℤ)
    → Balanced open_fds r
    → Balanced open_fds q
    → Balanced open_fds (if test then r else q)
step open_fds true r q h k = h
step open_fds false r q h k = k

module _ (system : System) where
  given_back :
      (open_fds : List ℤ)
      → Balanced open_fds (no_connection, close system.socket (system.socket ∷ open_fds))
  given_back open_fds = inl (refl, close-cons system.socket open_fds)

  -- On each path of `tcpConnect` the new descriptor is held by a valid connection, or was closed, or
  -- was never opened; the descriptors that were open before still are.
  pub tcp_connect-Balanced :
      (host : Bytes) (port : ℤ) (timeout_ms : ℕ) (open_fds : List ℤ)
      → Balanced open_fds (tcp_connect system host port timeout_ms open_fds)
  unfolding tcp_connect
  tcp_connect-Balanced host port timeout_ms open_fds =
      let back = given_back open_fds in
      let connected : TcpConnection × List ℤ =
        (record { handle = system.socket; valid = true }, system.socket ∷ open_fds) in
      step open_fds (lt_int system.socket (pos 0)) _ _ (inl (refl, refl)) (
        step open_fds (not (system.takes_address host)) _ _ back (
          step open_fds (lt_int system.get_flags (pos 0)) _ _ back (
            step open_fds (lt_int system.set_flags (pos 0)) _ _ back (
              step open_fds (not (is_connected system host port timeout_ms)) _ connected back
                (inr (refl, refl))))))

  -- Closing what `tcpConnect` returned, valid or not, leaves the descriptors that were open before.
  pub tcp_close-tcp_connect :
      (host : Bytes) (port : ℤ) (timeout_ms : ℕ) (open_fds : List ℤ)
      → let r = tcp_connect system host port timeout_ms open_fds in
        tcp_close system r.0 r.1 ≡ (no_connection, open_fds)
  unfolding tcp_close
  tcp_close-tcp_connect host port timeout_ms open_fds =
      let r = tcp_connect system host port timeout_ms open_fds in
      elim (tcp_connect-Balanced host port timeout_ms open_fds) [
        | inl (v, e) ↦ rw (v, e) refl
        | inr (v, e) ↦ rw (v, e, close-cons r.0.handle open_fds) refl
      ]
