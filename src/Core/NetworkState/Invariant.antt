-- ===== src/Core/NetworkState/Invariant.antt =====
-- What every sequence of calls on src/core/network_state.cpp keeps true.
use slipnet.Prelude.{
  ℕ, ◌+◌, ◌≤◌, ◌≡◌, inl, inr, false, List, [], ◌∷◌, Bool-cases, arith, Bytes, eq_bytes,
  eq_bytes_iff, length, All,
}
use slipnet.Prelude.Keyed.{find, Fresh, Distinct, Distinct-upsert, added, length-upsert}
use slipnet.Core.NetworkState.{
  HostInfo, PortInfo, HostPorts, NetworkState, port_key, host_ports_key, service_key, put_port,
  host_key, empty, clear, add_host, add_port, add_service, get_host_count, count_online,
  get_online_host_count, Call, clears, adds_host, adds_port, adds_service, step, run,
}

-- Every list of the state has at most one entry for a key: one host for an address, one port list
-- for an address, one port for a number within it, one service for an address and a port.
pub record IsValid {Double : Type 0} (s : NetworkState Double) : Type 0 where
  pub hosts_distinct : Distinct host_key s.hosts
  pub host_ports_distinct : Distinct host_ports_key s.host_ports
  pub ports_distinct : All (λ h. Distinct port_key h.ports) s.host_ports
  pub services_distinct : Distinct service_key s.services

put_port-Fresh :
    (ip j : Bytes) (port : PortInfo) (l : List HostPorts)
    → eq_bytes ip j ≡ false
    → Fresh host_ports_key j l
    → Fresh host_ports_key j (put_port ip port l)
unfolding put_port
put_port-Fresh ip j port [] d h = (d, tt)
put_port-Fresh ip j port (x ∷ xs) d h = elim (Bool-cases (eq_bytes x.ip ip)) [
  | inl e ↦ rw e (h.0, h.1)
  | inr e ↦ rw e (h.0, put_port-Fresh ip j port xs d h.1)
]

put_port-Distinct :
    (ip : Bytes) (port : PortInfo) (l : List HostPorts)
    → Distinct host_ports_key l
    → Distinct host_ports_key (put_port ip port l)
unfolding put_port
put_port-Distinct ip port [] h = (tt, tt)
put_port-Distinct ip port (x ∷ xs) h = elim (Bool-cases (eq_bytes x.ip ip)) [
  | inl e ↦ rw e (h.0, h.1)
  | inr e ↦ rw e (
    put_port-Fresh ip x.ip port xs (ground (arith, eq_bytes_iff x.ip ip, eq_bytes_iff ip x.ip)) h.0,
    put_port-Distinct ip port xs h.1,
  )
]

put_port-ports-Distinct :
    (ip : Bytes) (port : PortInfo) (l : List HostPorts)
    → All (λ h. Distinct port_key h.ports) l
    → All (λ h. Distinct port_key h.ports) (put_port ip port l)
unfolding put_port
put_port-ports-Distinct ip port [] h = ((tt, tt), tt)
put_port-ports-Distinct ip port (x ∷ xs) h = elim (Bool-cases (eq_bytes x.ip ip)) [
  | inl e ↦ rw e (Distinct-upsert port_key port x.ports h.0, h.1)
  | inr e ↦ rw e (h.0, put_port-ports-Distinct ip port xs h.1)
]

module _ {Double : Type 0} where
  step-IsValid : (c : Call Double) {s : NetworkState Double} → IsValid s → IsValid (step c s)
  unfolding clear add_host add_port add_service
  step-IsValid clears v = record {
    hosts_distinct = tt;
    host_ports_distinct = tt;
    ports_distinct = tt;
    services_distinct = tt;
  }
  step-IsValid (adds_host host) {s} v = record {
    hosts_distinct = Distinct-upsert host_key host s.hosts v.hosts_distinct;
    host_ports_distinct = v.host_ports_distinct;
    ports_distinct = v.ports_distinct;
    services_distinct = v.services_distinct;
  }
  step-IsValid (adds_port ip port) {s} v = record {
    hosts_distinct = v.hosts_distinct;
    host_ports_distinct = put_port-Distinct ip port s.host_ports v.host_ports_distinct;
    ports_distinct = put_port-ports-Distinct ip port s.host_ports v.ports_distinct;
    services_distinct = v.services_distinct;
  }
  step-IsValid (adds_service service) {s} v = record {
    hosts_distinct = v.hosts_distinct;
    host_ports_distinct = v.host_ports_distinct;
    ports_distinct = v.ports_distinct;
    services_distinct = Distinct-upsert service_key service s.services v.services_distinct;
  }

  -- Any sequence of calls keeps the state valid: no address has two host entries or two port
  -- lists, no port list has two entries for one port, and no address and port have two services.
  pub run-IsValid :
      (cs : List (Call Double)) {s : NetworkState Double} → IsValid s → IsValid (run cs s)
  run-IsValid [] v = v
  run-IsValid (c ∷ cs) v = run-IsValid cs (step-IsValid c v)

  pub empty-IsValid : IsValid (empty {Double = Double})
  empty-IsValid = record {
    hosts_distinct = tt;
    host_ports_distinct = tt;
    ports_distinct = tt;
    services_distinct = tt;
  }

  -- `addHost` raises the host count by one if the address was not there, and else leaves it.
  pub get_host_count-add_host :
      (host : HostInfo Double) (s : NetworkState Double)
      → get_host_count (add_host host s)
        ≡ get_host_count s + added host_key (find host_key host.ip s.hosts)
  unfolding get_host_count add_host
  get_host_count-add_host host s = length-upsert host_key host s.hosts

  count_online-le : (n : ℕ) (l : List (HostInfo Double)) → count_online n l ≤ n + length l
  unfolding count_online
  count_online-le n [] = omega arith
  count_online-le n (x ∷ xs) = ground (arith, count_online-le (n + 1) xs, count_online-le n xs)

  pub get_online_host_count-le :
      (s : NetworkState Double) → get_online_host_count s ≤ get_host_count s
  unfolding get_online_host_count get_host_count
  get_online_host_count-le s = omega (arith, count_online-le 0 s.hosts)
