-- ===== src/Network/NetworkDiscovery/Examples.antt =====
-- Discoveries on an interface with the address 10.0.0.7, where the hosts 10.0.0.1 and 10.0.0.9 answer.
use slipnet.Prelude.{
  ℕ, ◌+◌, ◌*◌, ◌^◌, ◌≡◌, refl, true, false, ◌||◌, ◌==◌, List, [], ◌∷◌, Bytes, codes, eq_bytes,
  arith,
}
use slipnet.Prelude.Decimal.{to_string}
use slipnet.Core.NetworkState.{NetworkState}
use slipnet.Host.HostDiscovery.{PingResult, ipv4_to_string}
use slipnet.Network.NetworkDiscovery.{
  NetworkInterfaceInfo, detect_local_network, discover, integer_to_ip, ip_to_integer,
}
use slipnet.Network.NetworkDiscovery.Integers.{network_addresses, ip_to_integer-integer_to_ip}
use slipnet.Network.NetworkDiscovery.Storing.{
  hosts_found, holding, discover-hosts_found, discover_stopped,
}

abbrev answering : Bytes → PingResult ℕ
answering ip = record {
  reachable = eq_bytes ip (codes "10.0.0.1") || eq_bytes ip (codes "10.0.0.9");
  latency_ms = 3;
}

abbrev address : ℕ
address = 10 * 2 ^ 24 + 7

abbrev interfaces : List NetworkInterfaceInfo
interfaces =
    record {
      name = codes "lo";
      ipv4_address = codes "127.0.0.1";
      netmask = codes "255.0.0.0";
      up = true;
    }
    ∷ (record {
      name = codes "eth0";
      ipv4_address = codes "10.0.0.7";
      netmask = codes "255.255.255.0";
      up = true;
    }
        ∷ [])

chosen : (detect_local_network interfaces).ip ≡ integer_to_ip address
unfolding detect_local_network integer_to_ip ipv4_to_string to_string eq_bytes
chosen = refl

-- A state with a host from before.
abbrev earlier : NetworkState ℕ
earlier = record {
  hosts =
      record {
        ip = codes "10.0.0.3";
        hostname = [];
        online = true;
        latency_ms = 5;
        status = codes "ONLINE";
      }
      ∷ [];
  host_ports = [];
  services = [];
}

discover-hosts_found_example :
    discover answering interfaces (λ _. false) earlier
    ≡ (true, holding answering (hosts_found answering (network_addresses address)))
discover-hosts_found_example =
    discover-hosts_found answering interfaces address (omega arith) chosen (λ _. false) earlier
      (λ _. refl)

discover_stopped_example :
    discover answering interfaces (λ n. n == 40) earlier ≡ (false, holding answering [])
discover_stopped_example =
    discover_stopped answering interfaces address (omega arith) chosen (λ n. n == 40) earlier 40
      (omega arith) refl

ip_to_integer-integer_to_ip_example : ip_to_integer (integer_to_ip address) ≡ address
ip_to_integer-integer_to_ip_example = ip_to_integer-integer_to_ip address (omega arith)
