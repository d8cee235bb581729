-- ===== src/Security/FirewallProbe.antt =====
-- include/security/firewall_probe.hpp and src/security/firewall_probe.cpp. The counters are at most
-- the number of ports and do not wrap.
pub mod Report
mod Examples
use slipnet.Prelude.{
  ℕ, ◌+◌, Bool, true, false, ◌&&◌, ◌||◌, List, [], ◌∷◌, ◌++◌, ltb, ◌==◌, if◌then◌else◌, Bytes,
  codes,
}
use slipnet.Prelude.Int.{ℤ, pos, lt_int}
use slipnet.Platform.Firewall.{FirewallProbeResult, Probe, state_code}

pub data FirewallState : Type 0 where
  is_open is_closed is_filtered is_unknown : FirewallState

pub record FirewallObservation : Type 0 where
  pub host : Bytes
  pub port : ℤ
  pub state : FirewallState
  pub latency_ms : ℤ
  pub evidence : Bytes

pub record FirewallReport : Type 0 where
  pub host : Bytes
  pub observed : ℕ
  pub open_count : ℕ
  pub closed : ℕ
  pub filtered : ℕ
  pub unknown : ℕ
  pub has_evidence_of_filtering : Bool
  pub observations : List FirewallObservation
  pub conclusion : Bytes

-- The platform's state behind `static_cast<int>`.
pub convert_state : ℕ → FirewallState
convert_state state =
    if state == 0
    then is_open
    else if state == 1
    then is_closed
    else if state == 2
    then is_filtered
    else is_unknown

pub state_name : FirewallState → Bytes
state_name is_open = codes "OPEN"
state_name is_closed = codes "CLOSED"
state_name is_filtered = codes "FILTERED"
state_name is_unknown = codes "UNKNOWN"

-- The switch of `analyze`.
count : FirewallState → FirewallReport → FirewallReport
count is_open r = record r { open_count = r.open_count + 1 }
count is_closed r = record r { closed = r.closed + 1 }
count is_filtered r = record r { filtered = r.filtered + 1; has_evidence_of_filtering = true }
count is_unknown r = record r { unknown = r.unknown + 1 }

abbrev push : FirewallObservation → FirewallReport → FirewallReport
push o r = record r { observations = r.observations ++ o ∷ [] }

abbrev raise : FirewallReport → FirewallReport
raise r = record r { observed = r.observed + 1 }

abbrev pub is_port : ℤ → Bool
is_port port = if lt_int port (pos 1) || lt_int (pos 65535) port then false else true

conclude : FirewallReport → Bytes
conclude r =
    if r.observed == 0
    then codes "No valid TCP ports were available for probing."
    else if ltb 0 r.filtered
    then codes
        "Filtering behavior was observed on one or more TCP ports. This indicates packet filtering or silent traffic dropping, but does not identify a specific firewall product."
    else if ltb 0 r.open_count && ltb 0 r.closed
    then codes
        "Both reachable and explicitly refused TCP ports were observed. No filtering behavior was directly identified in the tested ports."
    else if ltb 0 r.open_count
    then codes
        "The tested ports responded as reachable. No filtering behavior was directly observed."
    else if r.closed == r.observed
    then codes
        "All tested ports explicitly refused the TCP connection. No filtering behavior was directly observed."
    else codes "The available observations were insufficient to determine firewall behavior."

abbrev pub blank : Bytes → FirewallReport
blank host = record {
  host = host;
  observed = 0;
  open_count = 0;
  closed = 0;
  filtered = 0;
  unknown = 0;
  has_evidence_of_filtering = false;
  observations = [];
  conclusion = [];
}

module _ (probe_tcp : Probe) where
  pub observe : Bytes → ℤ → FirewallObservation
  unfolding convert_state
  observe host port =
      let result = probe_tcp host port 1500 in
      record {
        host = host;
        port = port;
        state = convert_state (state_code result.state);
        latency_ms = result.latency_ms;
        evidence = result.evidence;
      }

  -- The body of the loop for a port that is one.
  probe_port : Bytes → ℤ → FirewallReport → FirewallReport
  probe_port host port r =
      let observation = observe host port in push observation (count observation.state (raise r))

  probe_ports : Bytes → List ℤ → FirewallReport → FirewallReport
  probe_ports host [] r = r
  probe_ports host (port ∷ ports) r =
      probe_ports host ports (if is_port port then probe_port host port r else r)

  pub analyze : Bytes → List ℤ → FirewallReport
  analyze host ports =
      let report = probe_ports host ports (blank host) in
      record report { conclusion = conclude report }
