-- ===== src/Platform/Firewall.antt =====
-- include/platform/firewall.hpp, which src/platform/linux and src/platform/windows implement.
use slipnet.Prelude.{ℕ, Bytes}
use slipnet.Prelude.Int.{ℤ}

pub data ProbeState : Type 0 where
  is_open is_closed is_filtered is_unknown : ProbeState

-- `static_cast<int>` of the state.
abbrev pub state_code : ProbeState → ℕ
state_code ProbeState.is_open = 0
state_code ProbeState.is_closed = 1
state_code ProbeState.is_filtered = 2
state_code ProbeState.is_unknown = 3

pub record FirewallProbeResult : Type 0 where
  pub state : ProbeState
  pub port : ℤ
  pub latency_ms : ℤ
  pub evidence : Bytes

-- `probeTCP`: a host, a port and a timeout in milliseconds.
abbrev pub Probe : Type 0
Probe = Bytes → ℤ → ℕ → FirewallProbeResult
