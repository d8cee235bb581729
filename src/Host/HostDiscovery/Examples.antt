-- ===== src/Host/HostDiscovery/Examples.antt =====
-- Tests of the model of src/host/host_discovery.cpp, and its theorems at concrete inputs.
use slipnet.Prelude.{
  ℕ, ◌≡◌, ◌⊎◌, refl, true, false, none, some, List, [], ◌∷◌, ◌++◌, map, Bytes, codes, eq_bytes,
  if◌then◌else◌, arith,
}
use slipnet.Prelude.Text.Split.{split_on}
use slipnet.Prelude.Decimal.{to_string, stoi, skip_space}
use slipnet.Prelude.Decimal.Whole.{stoi_whole}
use slipnet.Network.SubnetCalculator.{subnet_words}
use slipnet.Host.HostDiscovery.{
  PingResult, hosts_between, ipv4_to_string, generate_hosts, parse_ipv4, check, scan_subnet,
}
use slipnet.Host.HostDiscovery.Generation.{usable_addresses, generate_hosts-usable}
use slipnet.Host.HostDiscovery.Outcomes.{IsBlockText, NoBlockText, Generated, generate_hosts_cases}
use slipnet.Host.HostDiscovery.Batches.{scan_subnet-generate_hosts}

four_hosts :
    generate_hosts (codes "10.0.0.9/29")
    ≡ some (
        codes "10.0.0.9"
        ∷ codes "10.0.0.10"
        ∷ codes "10.0.0.11"
        ∷ codes "10.0.0.12"
        ∷ codes "10.0.0.13"
        ∷ codes "10.0.0.14"
        ∷ [])
unfolding generate_hosts parse_ipv4 split_on stoi_whole stoi skip_space to_string hosts_between
four_hosts = refl

-- A dot behind the last octet is taken.
dot_at_end : parse_ipv4 (codes "10.0.0.1.") ≡ some 0x0a00_0001
unfolding parse_ipv4 split_on stoi_whole stoi skip_space
dot_at_end = refl

prefix_zero : generate_hosts (codes "0.0.0.0/0") ≡ none
unfolding generate_hosts parse_ipv4 split_on stoi_whole stoi skip_space
prefix_zero = refl

generate_hosts-usable_example :
    generate_hosts (ipv4_to_string 0x0a00_0009 ++ b'/' ∷ to_string 29)
    ≡ some (usable_addresses (subnet_words 0x0a00_0009 29))
generate_hosts-usable_example =
    generate_hosts-usable 0x0a00_0009 29 (omega arith) (omega arith) (omega arith)

generate_hosts_cases_example :
    (NoBlockText (codes "10.0.0.9/29") × (generate_hosts (codes "10.0.0.9/29") ≡ some []))
    ⊎ ((a : ℕ) × (p : ℕ) × IsBlockText (codes "10.0.0.9/29") a p
        × Generated a p (generate_hosts (codes "10.0.0.9/29")))
generate_hosts_cases_example = generate_hosts_cases (codes "10.0.0.9/29")

-- One host answers, after 4 milliseconds.
abbrev ping : Bytes → PingResult ℕ
ping ip =
    if eq_bytes ip (codes "10.0.0.2")
    then record { reachable = true; latency_ms = 4 }
    else record { reachable = false; latency_ms = 0 }

abbrev two_hosts : List Bytes
two_hosts = codes "10.0.0.1" ∷ codes "10.0.0.2" ∷ []

two_generated : generate_hosts (codes "10.0.0.0/30") ≡ some two_hosts
unfolding generate_hosts parse_ipv4 split_on stoi_whole stoi skip_space to_string hosts_between
two_generated = refl

scan_subnet-generate_hosts_example :
    scan_subnet 0 ping (codes "10.0.0.0/30") ≡ some (map (check 0 ping) two_hosts)
scan_subnet-generate_hosts_example =
    scan_subnet-generate_hosts 0 ping (codes "10.0.0.0/30") two_hosts two_generated
