-- ===== src/Platform/LinuxTcp.antt =====
-- include/platform/tcp.hpp and src/platform/linux/tcp_linux.cpp. What the system calls answer is a
-- parameter, and the state is the list of the descriptors that the process has open. A timeout is a
-- number of milliseconds; each caller gives one above zero.
pub mod Descriptors
pub mod Sending
mod Examples
use slipnet.Prelude.{
  ℕ, zero, suc, ◌≤◌, ◌+◌, ◌*◌, ◌/◌, ◌%◌, Bool, true, false, not, ◌||◌, Option, none, some, List, [],
  ◌∷◌, ◌++◌, if◌then◌else◌, Bytes, is_empty, length, take, drop,
}
use slipnet.Prelude.Int.{ℤ, pos, negsuc, eq_int, lt_int}

pub record TcpConnection : Type 0 where
  pub handle : ℤ
  pub valid : Bool

-- A count that is above zero.
abbrev pub to_count : ℤ → ℕ
to_count (pos n) = n
to_count (negsuc n) = 0

-- What the calls answer. `select` is asked for writing or reading, with seconds and microseconds;
-- `send` by the number of the call and the count of bytes left, and sends at most those;
-- `recv` of at most so many bytes fails with `none`.
pub record System : Type 0 where
  pub socket : ℤ
  pub takes_address : Bytes → Bool
  pub get_flags : ℤ
  pub set_flags : ℤ
  pub connect : Bytes → ℤ → ℤ
  pub select : Bool → ℕ → ℕ → ℤ
  pub get_error : ℤ
  pub error : ℤ
  pub send : ℕ → ℕ → ℤ
  pub sends_at_most : (call left : ℕ) → to_count (send call left) ≤ left
  pub recv : ℕ → Option Bytes

-- `close` gives a descriptor back.
unfoldable pub close : ℤ → List ℤ → List ℤ
close fd [] = []
close fd (open_fd ∷ rest) = if eq_int open_fd fd then rest else open_fd ∷ close fd rest

abbrev pub no_connection : TcpConnection
no_connection = record { handle = negsuc 0; valid = false }

-- What `recv` answered.
abbrev pub received : Option Bytes → Bytes
received none = []
received (some bytes) = bytes

module _ (system : System) where
  unfoldable pub wait_for_socket : Bool → ℕ → Bool
  wait_for_socket write_ready timeout_ms =
      lt_int (pos 0) (system.select write_ready (timeout_ms / 1000) (timeout_ms % 1000 * 1000))

  -- A connection in progress is waited for, and then asked for its error.
  unfoldable pub is_connected : Bytes → ℤ → ℕ → Bool
  unfolding wait_for_socket
  is_connected host port timeout_ms =
      if lt_int (system.connect host port) (pos 0)
      then if not (wait_for_socket true timeout_ms)
        then false
        else not (not (eq_int system.get_error (pos 0)) || not (eq_int system.error (pos 0)))
      else true

  -- `tcpConnect`, on the descriptors that are open.
  unfoldable pub tcp_connect : Bytes → ℤ → ℕ → List ℤ → TcpConnection × List ℤ
  unfolding close is_connected
  tcp_connect host port timeout_ms open_fds =
      let fd = system.socket in
      let opened = fd ∷ open_fds in
      if lt_int fd (pos 0)
      then (no_connection, open_fds)
      else if not (system.takes_address host)
      then (no_connection, close fd opened)
      else if lt_int system.get_flags (pos 0)
      then (no_connection, close fd opened)
      else if lt_int system.set_flags (pos 0)
      then (no_connection, close fd opened)
      else if not (is_connected host port timeout_ms)
      then (no_connection, close fd opened)
      else (record { handle = fd; valid = true }, opened)

  unfoldable pub tcp_close : TcpConnection → List ℤ → TcpConnection × List ℤ
  unfolding close
  tcp_close connection open_fds =
      (no_connection, if connection.valid then close connection.handle open_fds else open_fds)

  -- The loop of `tcpSend` over the bytes left, with what was sent so far; `none` if it is not done in
  -- the rounds given. No answer of `send` is above the bytes left, so `remaining` does not wrap.
  unfoldable pub send_loop : ℕ → ℕ → Bytes → Bytes → Option (Bool × Bytes)
  send_loop zero call buffer wire = if is_empty buffer then some (true, wire) else none
  send_loop (suc rounds) call buffer wire =
      let sent = system.send call (length buffer) in
      let n = to_count sent in
      let rest = send_loop rounds (call + 1) (drop n buffer) (wire ++ take n buffer) in
      if is_empty buffer
      then some (true, wire)
      else if lt_int sent (pos 1)
      then some (false, wire)
      else rest

  unfoldable pub tcp_send : TcpConnection → Bytes → Option (Bool × Bytes)
  unfolding send_loop
  tcp_send connection data_bytes =
      if not connection.valid
      then some (false, [])
      else send_loop (length data_bytes) 0 data_bytes []

  unfoldable pub tcp_receive : TcpConnection → ℤ → Bytes
  unfolding wait_for_socket
  tcp_receive connection max_bytes =
      if not connection.valid || lt_int max_bytes (pos 1)
      then []
      else if not (wait_for_socket false 2000)
      then []
      else received (system.recv (to_count max_bytes))
