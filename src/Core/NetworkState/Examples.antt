-- ===== src/Core/NetworkState/Examples.antt =====
-- Tests of the model of src/core/network_state.cpp, and its theorems at concrete inputs.
use slipnet.Prelude.{ℕ, ◌≡◌, refl, true, false, List, [], ◌∷◌, Bytes, codes, eq_bytes}
use slipnet.Prelude.Int.{pos}
use slipnet.Prelude.Keyed.{upsert}
use slipnet.Core.NetworkState.{
  HostInfo, PortInfo, empty, Call, adds_host, adds_port, add_host, add_port, get_ports,
  get_host_count, get_online_host_count, count_online, put_port, ports_of, run,
}
use slipnet.Core.NetworkState.Invariant.{IsValid, run-IsValid, empty-IsValid}
use slipnet.Core.NetworkState.Refinement.{view, updates, view-run}

abbrev gateway : Bytes
gateway = codes "192.168.1.1"

abbrev printer : Bytes
printer = codes "192.168.1.9"

-- The latency is left out: a number stands for `double`.
abbrev host : Bytes → HostInfo ℕ
host ip = record { ip = ip; hostname = []; online = true; latency_ms = 3; status = codes "UP" }

abbrev down : Bytes → HostInfo ℕ
down ip = record (host ip) { online = false }

abbrev https : PortInfo
https = record { port = pos 443; is_open = true; protocol = codes "TCP"; service = codes "https" }

abbrev closed_https : PortInfo
closed_https = record https { is_open = false }

abbrev history : List (Call ℕ)
history =
    adds_host (host gateway)
    ∷ adds_host (host printer)
    ∷ adds_port gateway https
    ∷ adds_host (down gateway)
    ∷ adds_port gateway closed_https
    ∷ []

counts :
    (get_host_count (run history empty) ≡ 2)
    × (get_online_host_count (run history empty) ≡ 1)
    × (get_ports gateway (run history empty) ≡ closed_https ∷ [])
    × (get_ports printer (run history empty) ≡ [])
unfolding get_host_count get_online_host_count count_online get_ports ports_of add_host add_port
    put_port upsert eq_bytes
counts = (refl, refl, refl, refl)

run-IsValid_example : IsValid (run history empty)
run-IsValid_example = run-IsValid history empty-IsValid

view-run_example : view (run history empty) ≡ updates history (view empty)
view-run_example = view-run history empty
