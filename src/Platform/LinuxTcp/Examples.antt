-- ===== src/Platform/LinuxTcp/Examples.antt =====
-- A system on which connecting takes a while and at most three bytes are sent at a time.
use slipnet.Prelude.{
  ℕ, ◌≤◌, inl, inr, Bool-cases, arith, ◌≡◌, refl, true, some, List, [], ◌∷◌, leb, if◌then◌else◌,
  codes, eq_bytes,
}
use slipnet.Prelude.Int.{ℤ, pos, negsuc}
use slipnet.Platform.LinuxTcp.{
  TcpConnection, System, to_count, no_connection, tcp_connect, tcp_close, tcp_send,
}
use slipnet.Platform.LinuxTcp.Descriptors.{Balanced, tcp_connect-Balanced, tcp_close-tcp_connect}
use slipnet.Platform.LinuxTcp.Sending.{Sent, tcp_send-Sent}

abbrev send_three : ℕ → ℕ → ℤ
send_three call left = if leb 3 left then pos 3 else pos left

to_count-send_three : (call left : ℕ) → to_count (send_three call left) ≤ left
to_count-send_three call left = elim (Bool-cases (leb 3 left)) [
  | inl e ↦ rw e (ground arith)
  | inr e ↦ rw e (omega arith)
]

abbrev system : System
system = record {
  socket = pos 5;
  takes_address = λ host. eq_bytes host (codes "10.0.0.5");
  get_flags = pos 2;
  set_flags = pos 0;
  connect = λ host port. negsuc 0;
  select = λ write seconds microseconds. pos 1;
  get_error = pos 0;
  error = pos 0;
  send = send_three;
  sends_at_most = to_count-send_three;
  recv = λ limit. some (codes "HTTP/1.0 200 OK");
}

tcp_connect-Balanced_example :
    Balanced (pos 3 ∷ []) (tcp_connect system (codes "10.0.0.5") (pos 80) 2000 (pos 3 ∷ []))
tcp_connect-Balanced_example =
    tcp_connect-Balanced system (codes "10.0.0.5") (pos 80) 2000 (pos 3 ∷ [])

abbrev connected : TcpConnection × List ℤ
connected = tcp_connect system (codes "10.0.0.5") (pos 80) 2000 (pos 3 ∷ [])

tcp_close-tcp_connect_example :
    tcp_close system connected.0 connected.1 ≡ (no_connection, pos 3 ∷ [])
tcp_close-tcp_connect_example =
    tcp_close-tcp_connect system (codes "10.0.0.5") (pos 80) 2000 (pos 3 ∷ [])

abbrev connection : TcpConnection
connection = record { handle = pos 5; valid = true }

tcp_send-Sent_example :
    Sent (codes "HEAD / HTTP/1.0") (tcp_send system connection (codes "HEAD / HTTP/1.0"))
tcp_send-Sent_example = tcp_send-Sent system connection (codes "HEAD / HTTP/1.0") refl
