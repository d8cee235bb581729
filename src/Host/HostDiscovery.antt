-- ===== src/Host/HostDiscovery.antt =====
-- include/host/host_discovery.hpp and src/host/host_discovery.cpp. `Double` stands for `double`; the
-- platform's ping is a function of the address. A task started by `std::async` is its result.
pub mod Addresses
pub mod Generation
pub mod Octets
pub mod Outcomes
pub mod Batches
mod Examples
use Prim.Native.Nat.{bit_and, min}
use slipnet.Prelude.{
  ℕ, zero, suc, ◌+◌, ◌-◌, ◌*◌, ◌/◌, ◌%◌, ◌^◌, Bool, true, false, ◌||◌, Option, none, some, List, [],
  ◌∷◌, ◌++◌, map, ltb, leb, ◌==◌, if◌then◌else◌, Bytes, is_empty, length, take, drop, find_char,
}
use slipnet.Prelude.Int.{ℤ, pos, negsuc, lt_int}
use slipnet.Prelude.Text.Split.{split_on}
use slipnet.Prelude.Options.{◌>>=◌}
use slipnet.Prelude.Decimal.{to_string}
use slipnet.Prelude.Decimal.Whole.{stoi_whole}

-- `platform::PingResult`.
pub record PingResult (Double : Type 0) : Type 0 where
  pub reachable : Bool
  pub latency_ms : Double

pub record Host (Double : Type 0) : Type 0 where
  pub ip : Bytes
  pub reachable : Bool
  pub latency_ms : Double

-- A shift by the width of the word is undefined.
unfoldable pub shift_left : ℕ → ℕ → Option ℕ
shift_left x k = if ltb k 32 then some (x * 2 ^ k % 2 ^ 32) else none

-- The guards keep the shift below 32.
unfoldable pub prefix_to_mask : ℕ → ℕ
prefix_to_mask prefix =
    if prefix == 0
    then 0
    else if leb 32 prefix
    then 0xffff_ffff
    else (0xffff_ffff * 2 ^ (32 - prefix)) % 2 ^ 32

-- An octet of `parseIPv4`, from what `stoi` reads.
unfoldable pub checked_octet : Option ℤ → Option ℕ
checked_octet none = none
checked_octet (some (negsuc n)) = none
checked_octet (some (pos n)) = if ltb 255 n then none else some n

-- The loop of `parseIPv4`. The shift leaves the low byte clear, so `|` adds.
unfoldable pub parse_octets : ℕ → ℕ → List Bytes → Option ℕ
unfolding checked_octet
parse_octets result count [] = if count == 4 then some result else none
parse_octets result count (part ∷ parts) = do
  octet ← checked_octet (if is_empty part then none else stoi_whole part)
  parse_octets (result * 2 ^ 8 % 2 ^ 32 + octet) (count + 1) parts

unfoldable pub parse_ipv4 : Bytes → Option ℕ
unfolding parse_octets
parse_ipv4 ip = parse_octets 0 0 (split_on b'.' [] ip)

unfoldable pub ipv4_to_string : ℕ → Bytes
ipv4_to_string value =
    to_string (value / 2 ^ 24 % 2 ^ 8)
    ++ (b'.'
        ∷ (to_string (value / 2 ^ 16 % 2 ^ 8)
            ++ (b'.' ∷ (to_string (value / 2 ^ 8 % 2 ^ 8) ++ (b'.' ∷ to_string (value % 2 ^ 8))))))

-- The loop that builds the list, with the rounds that are left.
unfoldable pub hosts_loop : ℕ → ℕ → ℕ → List Bytes
unfolding ipv4_to_string
hosts_loop zero current last_host = []
hosts_loop (suc rounds) current last_host =
    let rest = hosts_loop rounds ((current + 1) % 2 ^ 32) last_host in
    if ltb last_host current
    then []
    else ipv4_to_string current ∷ (if current == last_host then [] else rest)

-- One round for each address from the first to the last is enough.
unfoldable pub hosts_between : ℕ → ℕ → List Bytes
unfolding hosts_loop
hosts_between first_host last_host = hosts_loop (suc (last_host - first_host)) first_host last_host

-- `generateHosts` behind the parsing; `none` is undefined behaviour.
unfoldable pub generate_range : ℕ → ℕ → Option (List Bytes)
unfolding prefix_to_mask shift_left
generate_range address prefix =
    let network = bit_and address (prefix_to_mask prefix) in
    if leb prefix 30
    then (shift_left 1 (32 - prefix) >>= λ host_count.
        some
          (hosts_between ((network + 1) % 2 ^ 32) ((network + host_count + 2 ^ 32 - 2) % 2 ^ 32)))
    else if prefix == 31
    then some (hosts_between network ((network + 1) % 2 ^ 32))
    else some (hosts_between network network)

unfoldable pub generate_parsed : Option ℕ → Option ℤ → Option (List Bytes)
unfolding generate_range
generate_parsed none prefix = some []
generate_parsed (some address) none = some []
generate_parsed (some address) (some (negsuc n)) = some []
generate_parsed (some address) (some (pos prefix)) =
    if ltb 32 prefix then some [] else generate_range address prefix

unfoldable pub generate_at : Bytes → Option ℕ → Option (List Bytes)
unfolding generate_parsed
generate_at cidr none = some []
generate_at cidr (some slash) =
    generate_parsed (parse_ipv4 (take slash cidr)) (stoi_whole (drop (slash + 1) cidr))

unfoldable pub generate_hosts : Bytes → Option (List Bytes)
unfolding generate_at
generate_hosts cidr = generate_at cidr (find_char b'/' cidr)

-- A search that `find` finds nothing for is `none`.
abbrev pub has_slash : Option ℕ → Bool
has_slash none = false
has_slash (some i) = true

module _ {Double : Type 0} (zero_ms : Double) (ping : Bytes → PingResult Double) where
  unfoldable pub check : Bytes → Host Double
  check ip =
      if has_slash (find_char b'/' ip)
      then record { ip = ip; reachable = false; latency_ms = zero_ms }
      else record { ip = ip; reachable = (ping ip).reachable; latency_ms = (ping ip).latency_ms }

  -- The loop over the batches of `scanSubnet`, with the rounds that are left.
  unfoldable pub scan_batches : ℕ → ℕ → List Bytes → List (Host Double) → List (Host Double)
  unfolding check
  scan_batches zero index hosts results = results
  scan_batches (suc rounds) index hosts results =
      let end = min (index + 32) (length hosts) in
      let futures = map check (take (end - index) (drop index hosts)) in
      let rest = scan_batches rounds (index + 32) hosts (results ++ futures) in
      if ltb index (length hosts) then rest else results

  unfoldable pub scan_subnet : Bytes → Option (List (Host Double))
  unfolding scan_batches
  scan_subnet cidr = do
    hosts ← generate_hosts cidr
    some (if is_empty hosts then [] else scan_batches (length hosts) 0 hosts [])
