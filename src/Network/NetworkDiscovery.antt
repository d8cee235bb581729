-- ===== src/Network/NetworkDiscovery.antt =====
-- include/network/network_discovery.hpp and src/network/network_discovery.cpp. `Double` stands for
-- `double`. The platform's ping is a function of the address; the answers of the interrupt flag are
-- a sequence, of which the loop reads one for each address.
pub mod Integers
pub mod Progressing
pub mod Storing
mod Examples
use Prim.Native.Nat.{bit_and}
use slipnet.Prelude.{
  ℕ, zero, suc, ◌+◌, ◌*◌, ◌%◌, ◌^◌, Bool, true, false, not, ◌&&◌, ◌||◌, Option, none, some, List,
  [], ◌∷◌, ◌++◌, map, ltb, leb, ◌==◌, if◌then◌else◌, Bytes, codes, eq_bytes, is_empty, length,
}
use slipnet.Prelude.Options.{◌>>=◌}
use slipnet.Prelude.Decimal.Stream.{extract_unsigned, extract_char}
use slipnet.Host.HostDiscovery.{PingResult, ipv4_to_string}
use slipnet.Core.NetworkState.{HostInfo, NetworkState, clear, add_host}

-- `platform::NetworkInterfaceInfo`, as far as it is looked at.
pub record NetworkInterfaceInfo : Type 0 where
  pub name : Bytes
  pub ipv4_address : Bytes
  pub netmask : Bytes
  pub up : Bool

pub record LocalNetwork : Type 0 where
  pub interface_name : Bytes
  pub ip : Bytes
  pub netmask : Bytes
  pub network : Bytes
  pub prefix_length : ℕ

-- The tests behind the extractions; the octets do not overlap, so `|` adds.
checked_octets : ℕ → ℕ → ℕ → ℕ → ℕ → ℕ → ℕ → ℕ
checked_octets a dot1 b dot2 c dot3 d =
    if not (dot1 == b'.') || not (dot2 == b'.') || not (dot3 == b'.')
    then 0
    else if ltb 255 a || ltb 255 b || ltb 255 c || ltb 255 d
    then 0
    else a * 2 ^ 24 + b * 2 ^ 16 + c * 2 ^ 8 + d

extract_octets : Bytes → Option ℕ
unfolding checked_octets
extract_octets ip = do
  (a, s1) ← extract_unsigned ip
  (dot1, s2) ← extract_char s1
  (b, s3) ← extract_unsigned s2
  (dot2, s4) ← extract_char s3
  (c, s5) ← extract_unsigned s4
  (dot3, s6) ← extract_char s5
  (d, s7) ← extract_unsigned s6
  some (checked_octets a dot1 b dot2 c dot3 d)

abbrev or_zero : Option ℕ → ℕ
or_zero none = 0
or_zero (some n) = n

unfoldable pub ip_to_integer : Bytes → ℕ
unfolding extract_octets
ip_to_integer ip = or_zero (extract_octets ip)

-- It prints what `ipv4ToString` of src/host/host_discovery.cpp does.
unfoldable pub integer_to_ip : ℕ → Bytes
integer_to_ip value = ipv4_to_string value

unfoldable pub calculate_network_address : Bytes → Bytes
calculate_network_address ip = integer_to_ip (bit_and (ip_to_integer ip) 0xffff_ff00)

abbrev pub no_network : LocalNetwork
no_network = record { interface_name = []; ip = []; netmask = []; network = []; prefix_length = 24 }

unfoldable pub detect_local_network : List NetworkInterfaceInfo → LocalNetwork
detect_local_network [] = no_network
detect_local_network (interface ∷ interfaces) =
    if not interface.up
      || is_empty interface.ipv4_address
      || eq_bytes interface.ipv4_address (codes "127.0.0.1")
    then detect_local_network interfaces
    else record {
      interface_name = interface.name;
      ip = interface.ipv4_address;
      netmask = interface.netmask;
      network = calculate_network_address interface.ipv4_address;
      prefix_length = 24;
    }

-- The loop that generates the addresses, with the rounds that are left.
unfoldable pub generate_addresses : ℕ → ℕ → ℕ → List Bytes
unfolding integer_to_ip
generate_addresses zero current last_host = []
generate_addresses (suc rounds) current last_host =
    let rest = generate_addresses rounds ((current + 1) % 2 ^ 32) last_host in
    if leb current last_host then integer_to_ip current ∷ rest else []

-- `online[index] = value`.
unfoldable pub set_at : ℕ → Bool → List Bool → List Bool
set_at index value [] = []
set_at zero value (x ∷ xs) = value ∷ xs
set_at (suc index) value (x ∷ xs) = x ∷ set_at index value xs

-- The loop over a batch: `online[completed + j] = tasks[j].get()`.
unfoldable pub store_batch : ℕ → List Bool → List Bool → List Bool
unfolding set_at
store_batch index [] online = online
store_batch index (task ∷ tasks) online = store_batch (index + 1) tasks (set_at index task online)

pub record Progress : Type 0 where
  pub online : List Bool
  pub tasks : List Bool
  pub completed : ℕ

unfoldable pub flush : Progress → Progress
unfolding store_batch
flush p = record {
  online = store_batch p.completed p.tasks p.online;
  tasks = [];
  completed = p.completed + length p.tasks;
}

-- `std::vector<bool>` of a length, all false.
abbrev pub offline : ℕ → List Bool
offline zero = []
offline (suc n) = false ∷ offline n

module _ {Double : Type 0} (ping : Bytes → PingResult Double) where
  -- A task is started, and its batch is waited for at the limit of 32.
  unfoldable pub start_task : Bytes → Progress → Progress
  unfolding flush
  start_task address p =
      let started = record p { tasks = p.tasks ++ (ping address).reachable ∷ [] } in
      if leb 32 (length started.tasks) then flush started else started

  -- The loop over the addresses; `none` if the interrupt flag was seen. `i` counts the questions.
  unfoldable pub ping_all : (ℕ → Bool) → ℕ → List Bytes → Progress → Option Progress
  unfolding start_task
  ping_all stop i [] p = some p
  ping_all stop i (address ∷ addresses) p =
      let rest = ping_all stop (i + 1) addresses (start_task address p) in
      if stop i then none else rest

  abbrev pub found_host : Bytes → HostInfo Double
  found_host address = record {
    ip = address;
    hostname = [];
    online = true;
    latency_ms = (ping address).latency_ms;
    status = codes "ONLINE";
  }

  -- The loop that stores the hosts, over the addresses and what is known of each.
  unfoldable pub store_hosts : List Bytes → List Bool → NetworkState Double → NetworkState Double
  store_hosts (address ∷ addresses) (reachable ∷ online) s =
      store_hosts addresses online (if reachable then add_host (found_host address) s else s)
  store_hosts _ _ s = s

  -- What follows the loop over the addresses.
  abbrev pub finish :
      List Bytes → NetworkState Double → Option Progress → Bool × NetworkState Double
  finish addresses s none = (false, s)
  finish addresses s (some p) = (true, store_hosts addresses (flush p).online s)

  -- `discover` behind the choice of the interface.
  unfoldable pub discover_network :
      (ℕ → Bool) → Bytes → NetworkState Double → Bool × NetworkState Double
  unfolding ping_all
  discover_network stop network s =
      let value = ip_to_integer network in
      let addresses = generate_addresses 255 ((value + 1) % 2 ^ 32) ((value + 254) % 2 ^ 32) in
      finish addresses s
        (ping_all stop 0 addresses (record { online = offline 254; tasks = []; completed = 0 }))

  unfoldable pub discover :
      List NetworkInterfaceInfo → (ℕ → Bool) → NetworkState Double → Bool × NetworkState Double
  unfolding discover_network
  discover interfaces stop s =
      let cleared = clear s in
      let network = detect_local_network interfaces in
      if is_empty network.ip
      then (false, cleared)
      else discover_network stop network.network cleared
