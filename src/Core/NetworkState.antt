-- ===== src/Core/NetworkState.antt =====
-- include/core/network_state.hpp and src/core/network_state.cpp. Each vector is a list, front
-- first. `Double` stands for the type `double`, of which the state only keeps values.
pub mod Invariant
pub mod Refinement
mod Examples
use slipnet.Prelude.{
  ℕ, ◌+◌, ◌≡◌, Bool, true, ◌&&◌, List, [], ◌∷◌, if◌then◌else◌, ◌↔◌, arith, Bytes, eq_bytes,
  eq_bytes_iff, length,
}
use slipnet.Prelude.Int.{ℤ, eq_int, eq_int_iff}
use slipnet.Prelude.Keyed.{Key, upsert}

pub record HostInfo (Double : Type 0) : Type 0 where
  pub ip : Bytes
  pub hostname : Bytes
  pub online : Bool
  pub latency_ms : Double
  pub status : Bytes

pub record PortInfo : Type 0 where
  pub port : ℤ
  pub is_open : Bool
  pub protocol : Bytes
  pub service : Bytes

pub record ServiceInfo : Type 0 where
  pub ip : Bytes
  pub port : ℤ
  pub protocol : Bytes
  pub service : Bytes
  pub version : Bytes

pub record HostPorts : Type 0 where
  pub ip : Bytes
  pub ports : List PortInfo

pub record NetworkState (Double : Type 0) : Type 0 where
  pub hosts : List (HostInfo Double)
  pub host_ports : List HostPorts
  pub services : List ServiceInfo

-- `existing.ip == service.ip && existing.port == service.port`.
abbrev pub same_service : Bytes × ℤ → Bytes × ℤ → Bool
same_service a b = eq_bytes a.0 b.0 && eq_int a.1 b.1

pub same_service_iff : (a b : Bytes × ℤ) → (same_service a b ≡ true) ↔ (a ≡ b)
same_service_iff a b = ground (arith, eq_bytes_iff a.0 b.0, eq_int_iff a.1 b.1)

abbrev pub port_key : Key PortInfo ℤ
port_key = record { key = λ p. p.port; same = eq_int; same_iff = eq_int_iff }

abbrev pub host_ports_key : Key HostPorts Bytes
host_ports_key = record { key = λ h. h.ip; same = eq_bytes; same_iff = eq_bytes_iff }

abbrev pub service_key : Key ServiceInfo (Bytes × ℤ)
service_key = record { key = λ s. (s.ip, s.port); same = same_service; same_iff = same_service_iff }

-- The loop of `addPort` over `host_ports`, with the inner loop over the ports of the host found.
put_port : Bytes → PortInfo → List HostPorts → List HostPorts
put_port ip port [] = record { ip = ip; ports = port ∷ [] } ∷ []
put_port ip port (host ∷ rest) =
    if eq_bytes host.ip ip
    then record host { ports = upsert port_key port host.ports } ∷ rest
    else host ∷ put_port ip port rest

-- The loop of `getPorts`; the empty vector stands for a host with no entry.
ports_of : Bytes → List HostPorts → List PortInfo
ports_of ip [] = []
ports_of ip (host ∷ rest) = if eq_bytes host.ip ip then host.ports else ports_of ip rest

module _ {Double : Type 0} where
  abbrev pub host_key : Key (HostInfo Double) Bytes
  host_key = record { key = λ h. h.ip; same = eq_bytes; same_iff = eq_bytes_iff }

  -- A fresh `NetworkState`, and what `clear` leaves.
  abbrev pub empty : NetworkState Double
  empty = record { hosts = []; host_ports = []; services = [] }

  unfoldable pub clear : NetworkState Double → NetworkState Double
  clear s = record s { hosts = []; host_ports = []; services = [] }

  unfoldable pub add_host : HostInfo Double → NetworkState Double → NetworkState Double
  add_host host s = record s { hosts = upsert host_key host s.hosts }

  pub get_hosts : NetworkState Double → List (HostInfo Double)
  get_hosts s = s.hosts

  pub get_host_count : NetworkState Double → ℕ
  get_host_count s = length s.hosts

  -- The counting loop of `getOnlineHostCount`.
  count_online : ℕ → List (HostInfo Double) → ℕ
  count_online count [] = count
  count_online count (host ∷ rest) = count_online (if host.online then count + 1 else count) rest

  pub get_online_host_count : NetworkState Double → ℕ
  get_online_host_count s = count_online 0 s.hosts

  pub add_port : Bytes → PortInfo → NetworkState Double → NetworkState Double
  add_port ip port s = record s { host_ports = put_port ip port s.host_ports }

  pub get_ports : Bytes → NetworkState Double → List PortInfo
  get_ports ip s = ports_of ip s.host_ports

  pub add_service : ServiceInfo → NetworkState Double → NetworkState Double
  add_service service s = record s { services = upsert service_key service s.services }

  pub get_services : NetworkState Double → List ServiceInfo
  get_services s = s.services

-- A call that changes the state.
pub data Call (Double : Type 0) : Type 0 where
  clears : Call Double
  adds_host : HostInfo Double → Call Double
  adds_port : Bytes → PortInfo → Call Double
  adds_service : ServiceInfo → Call Double

module _ {Double : Type 0} where
  abbrev pub step : Call Double → NetworkState Double → NetworkState Double
  step clears s = clear s
  step (adds_host host) s = add_host host s
  step (adds_port ip port) s = add_port ip port s
  step (adds_service service) s = add_service service s

  -- The calls in the order made.
  abbrev pub run : List (Call Double) → NetworkState Double → NetworkState Double
  run [] s = s
  run (c ∷ cs) s = run cs (step c s)
