-- ===== src/Security/FirewallProbe/Examples.antt =====
-- The model of src/security/firewall_probe.cpp on a host with one port open and one filtered.
use slipnet.Prelude.{◌+◌, ◌≡◌, refl, List, [], ◌∷◌, map, Bytes, codes, if◌then◌else◌}
use slipnet.Prelude.Int.{ℤ, pos, negsuc, eq_int}
use slipnet.Platform.Firewall.{ProbeState, Probe}
use slipnet.Security.FirewallProbe.{analyze, observe}
use slipnet.Security.FirewallProbe.Report.{Counts, valid_ports, verdict, analyze-Counts}

-- Port 80 is open and any other is filtered.
abbrev probe : Probe
probe host port timeout = record {
  state = if eq_int port (pos 80) then ProbeState.is_open else ProbeState.is_filtered;
  port = port;
  latency_ms = pos 3;
  evidence = codes "probe";
}

abbrev host : Bytes
host = codes "10.0.0.9"

abbrev ports : List ℤ
ports = pos 80 ∷ pos 0 ∷ pos 81 ∷ negsuc 4 ∷ pos 65536 ∷ []

two_probed : valid_ports ports ≡ pos 80 ∷ pos 81 ∷ []
two_probed = refl

analyze-Counts_example :
    Counts (map (observe probe host) (valid_ports ports)) (analyze probe host ports)
    × ((analyze probe host ports).open_count
          + (analyze probe host ports).closed
          + (analyze probe host ports).filtered
          + (analyze probe host ports).unknown
        ≡ (analyze probe host ports).observed)
    × ((analyze probe host ports).conclusion
        ≡ verdict (map (observe probe host) (valid_ports ports)))
analyze-Counts_example = analyze-Counts probe host ports
