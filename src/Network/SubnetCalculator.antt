-- ===== src/Network/SubnetCalculator.antt =====
-- include/network/subnet_calculator.hpp and src/network/subnet_calculator.cpp. A `uint32_t` is a
-- number below 2 ^ 32, with its wrap-around written out; a prefix is one of 0 to 32.
pub mod Parsing
pub mod Ranges
pub mod Classes
pub mod Answers
pub mod Examples
use Prim.Native.Nat.{bit_and, bit_or}
use slipnet.Prelude.{
  ℕ, zero, suc, ◌+◌, ◌-◌, ◌*◌, ◌%◌, ◌^◌, Bool, true, false, not, ◌&&◌, ◌||◌, Option, none, some,
  List, [], ◌∷◌, ltb, leb, ◌==◌, if◌then◌else◌, Bytes, codes, eq_bytes, is_empty, is_digit, length,
  take, drop, find_char,
}
use slipnet.Prelude.Bits.{bit_not}
use slipnet.Prelude.Decimal.{stoull}
use slipnet.Network.Inet.{Inet}

pub record SubnetInfo : Type 0 where
  pub valid : Bool
  pub input : Bytes
  pub network : Bytes
  pub broadcast : Bytes
  pub first_host : Bytes
  pub last_host : Bytes
  pub netmask : Bytes
  pub wildcard : Bytes
  pub address_type : Bytes
  pub prefix : ℕ
  pub total_addresses : ℕ
  pub usable_hosts : ℕ

-- `result` before anything but the input is stored.
abbrev pub blank : Bytes → SubnetInfo
blank cidr = record {
  valid = false;
  input = cidr;
  network = [];
  broadcast = [];
  first_host = [];
  last_host = [];
  netmask = [];
  wildcard = [];
  address_type = [];
  prefix = 0;
  total_addresses = 0;
  usable_hosts = 0;
}

checked_prefix : Option ℕ → Option ℕ
checked_prefix none = none
checked_prefix (some parsed) = if ltb 32 parsed then none else some parsed

parse_prefix : Bytes → Option ℕ
unfolding checked_prefix
parse_prefix value = if is_empty value then none else checked_prefix (stoull value)

-- The loop that rejects whitespace and signs.
all_digits : Bytes → Bool
unfolding is_digit
all_digits [] = true
all_digits (c ∷ s) = is_digit c && all_digits s

with_prefix : Bytes → Option ℕ → Option (Bytes × ℕ)
with_prefix ip none = none
with_prefix ip (some prefix) = some (ip, prefix)

abbrev is_found : Option ℕ → Bool
is_found none = false
is_found (some i) = true

-- `parseCIDR` behind the cut at the first slash.
parse_parts : Bytes → Bytes → Option (Bytes × ℕ)
unfolding parse_prefix all_digits with_prefix
parse_parts ip prefix_text =
    if is_found (find_char b'/' prefix_text)
    then none
    else if all_digits prefix_text
    then with_prefix ip (parse_prefix prefix_text)
    else none

-- `parseCIDR` behind its first search, with the position of the first slash.
parse_at : Bytes → Option ℕ → Option (Bytes × ℕ)
unfolding parse_parts
parse_at cidr none = none
parse_at cidr (some slash) =
    if slash == 0 || slash == length cidr - 1
    then none
    else parse_parts (take slash cidr) (drop (slash + 1) cidr)

pub parse_cidr : Bytes → Option (Bytes × ℕ)
unfolding parse_at
parse_cidr cidr = parse_at cidr (find_char b'/' cidr)

-- The mask, with the shift of a `uint32_t` cut to 32 bits.
unfoldable pub prefix_mask : ℕ → ℕ
prefix_mask prefix = if prefix == 0 then 0 else (0xffff_ffff * 2 ^ (32 - prefix)) % 2 ^ 32

pub classify_address : ℕ → Bytes
classify_address address =
    if bit_and address 0xff00_0000 == 0
    then codes "Unspecified / Special"
    else if bit_and address 0xff00_0000 == 0x0a00_0000
    then codes "Private"
    else if bit_and address 0xfff0_0000 == 0xac10_0000
    then codes "Private"
    else if bit_and address 0xffff_0000 == 0xc0a8_0000
    then codes "Private"
    else if bit_and address 0xff00_0000 == 0x7f00_0000
    then codes "Loopback"
    else if bit_and address 0xffff_0000 == 0xa9fe_0000
    then codes "Link-local"
    else if bit_and address 0xf000_0000 == 0xe000_0000
    then codes "Multicast"
    else if bit_and address 0xf000_0000 == 0xf000_0000
    then codes "Reserved"
    else codes "Public / Global"

-- The words that `calculate` works out of an address and a prefix.
pub record Words : Type 0 where
  pub mask : ℕ
  pub network : ℕ
  pub broadcast : ℕ
  pub total : ℕ
  pub first : ℕ
  pub last : ℕ
  pub usable : ℕ

pub subnet_words : ℕ → ℕ → Words
unfolding prefix_mask
subnet_words address prefix =
    let mask = prefix_mask prefix in
    let network = bit_and address mask in
    let broadcast = bit_or network (bit_not mask) in
    let total = (broadcast + 2 ^ 64 - network + 1) % 2 ^ 64 in
    record {
      mask = mask;
      network = network;
      broadcast = broadcast;
      total = total;
      first = if leb prefix 30 then (network + 1) % 2 ^ 32 else network;
      last =
          if leb prefix 30
          then (broadcast + 2 ^ 32 - 1) % 2 ^ 32
          else if prefix == 31
          then broadcast
          else network;
      usable =
          if leb prefix 30
          then (if leb 2 total then total - 2 else 0)
          else if prefix == 31
          then 2
          else 1;
    }

module _ (inet : Inet) where
  open inet use {pton, ntop}

  -- Zero stands for a failure of `inet_pton`.
  pub parse_ipv4 : Bytes → ℕ
  parse_ipv4 ip = elim (pton ip) [ none ↦ 0 | some address ↦ address ]

  pub format_ipv4 : ℕ → Bytes
  format_ipv4 value = ntop value

  pub describe : Bytes → ℕ → ℕ → SubnetInfo
  unfolding subnet_words format_ipv4
  describe cidr address prefix =
      let w = subnet_words address prefix in
      record {
        valid = true;
        input = cidr;
        network = format_ipv4 w.network;
        broadcast = format_ipv4 w.broadcast;
        first_host = format_ipv4 w.first;
        last_host = format_ipv4 w.last;
        netmask = format_ipv4 w.mask;
        wildcard = format_ipv4 (bit_not w.mask);
        address_type = classify_address address;
        prefix = prefix;
        total_addresses = w.total;
        usable_hosts = w.usable;
      }

  calculate_parsed : Bytes → Option (Bytes × ℕ) → SubnetInfo
  calculate_parsed cidr none = blank cidr
  calculate_parsed cidr (some (ip, prefix)) =
      if parse_ipv4 ip == 0 && not (eq_bytes ip (codes "0.0.0.0"))
      then blank cidr
      else describe cidr (parse_ipv4 ip) prefix

  pub calculate : Bytes → SubnetInfo
  calculate cidr = calculate_parsed cidr (parse_cidr cidr)
