-- ===== src/Network/NetworkDiscovery/Integers.antt =====
-- The addresses of src/network/network_discovery.cpp as numbers: `ipToInteger` reads what `integerToIP`
-- prints, and the addresses probed are those of the /24 network of the interface.
use Prim.Native.Nat.{bit_and}
use slipnet.Prelude.{
  ℕ, zero, suc, ◌+◌, ◌*◌, ◌/◌, ◌%◌, ◌^◌, ◌<◌, ◌≡◌, refl, ap, ◌∙◌, true, false, some, List, ◌∷◌,
  ◌++◌, map, leb, Bytes, arith,
}
use slipnet.Prelude.Bits.{bit_and_high}
use slipnet.Prelude.Text.{is_digit}
use slipnet.Prelude.Decimal.{to_string}
use slipnet.Prelude.Decimal.Stream.{
  extract_char_dot, extract_unsigned-to_string, extract_unsigned_last,
}
use slipnet.Host.HostDiscovery.{ipv4_to_string}
use slipnet.Host.HostDiscovery.Generation.{addresses}
use slipnet.Network.NetworkDiscovery.{
  checked_octets, extract_octets, or_zero, ip_to_integer, integer_to_ip, calculate_network_address,
  generate_addresses,
}

octets_small :
    (x y z w : ℕ)
    → x < 2 ^ 8
    → y < 2 ^ 8
    → z < 2 ^ 8
    → w < 2 ^ 8
    → checked_octets x b'.' y b'.' z b'.' w ≡ x * 2 ^ 24 + y * 2 ^ 16 + z * 2 ^ 8 + w
unfolding checked_octets
octets_small x y z w hx hy hz hw = ground arith

extract_octets-four :
    (x y z w : ℕ)
    → x < 2 ^ 8
    → y < 2 ^ 8
    → z < 2 ^ 8
    → w < 2 ^ 8
    → extract_octets
        (to_string x ++ b'.' ∷ (to_string y ++ b'.' ∷ (to_string z ++ b'.' ∷ to_string w)))
      ≡ some (x * 2 ^ 24 + y * 2 ^ 16 + z * 2 ^ 8 + w)
unfolding extract_octets is_digit
extract_octets-four x y z w hx hy hz hw =
    let last = to_string w in
    let third = to_string z ++ b'.' ∷ last in
    let second = to_string y ++ b'.' ∷ third in
    rw
      (
        extract_unsigned-to_string x (b'.' ∷ second) (omega arith) refl,
        extract_char_dot second,
        extract_unsigned-to_string y (b'.' ∷ third) (omega arith) refl,
        extract_char_dot third,
        extract_unsigned-to_string z (b'.' ∷ last) (omega arith) refl,
        extract_char_dot last,
        extract_unsigned_last w (omega arith),
      )
      (ap some (octets_small x y z w hx hy hz hw))

-- The number of the text that `integerToIP` prints of a 32-bit number is that number.
pub ip_to_integer-integer_to_ip : (a : ℕ) → a < 2 ^ 32 → ip_to_integer (integer_to_ip a) ≡ a
unfolding ip_to_integer integer_to_ip ipv4_to_string
ip_to_integer-integer_to_ip a h =
    let x = a / 2 ^ 24 % 2 ^ 8 in
    let y = a / 2 ^ 16 % 2 ^ 8 in
    let z = a / 2 ^ 8 % 2 ^ 8 in
    let w = a % 2 ^ 8 in
    ap or_zero (extract_octets-four x y z w (omega arith) (omega arith) (omega arith) (omega arith))
    ∙ (let whole : x * 2 ^ 24 + y * 2 ^ 16 + z * 2 ^ 8 + w ≡ a = omega arith in whole)

-- The network of an address ends in 0.
pub calculate_network_address-integer_to_ip :
    (a : ℕ)
    → a < 2 ^ 32
    → calculate_network_address (integer_to_ip a) ≡ integer_to_ip (a / 2 ^ 8 * 2 ^ 8)
unfolding calculate_network_address
calculate_network_address-integer_to_ip a h =
    ap (λ v. integer_to_ip (bit_and v 0xffff_ff00)) (ip_to_integer-integer_to_ip a h)
    ∙ ap integer_to_ip (bit_and_high 24 8 a (omega arith))

generate_addresses-from :
    (n a last_host : ℕ)
    → a + n ≡ last_host + 1
    → last_host < 0xffff_ffff
    → generate_addresses (suc n) a last_host ≡ map integer_to_ip (addresses n a)
unfolding generate_addresses
generate_addresses-from zero a last_host e h =
    let behind : leb a last_host ≡ false = ground arith in rw behind refl
generate_addresses-from (suc n) a last_host e h =
    let next : (a + 1) % 2 ^ 32 ≡ a + 1 = omega arith in
    let inside : leb a last_host ≡ true = ground arith in
    rw (next, inside)
      (ap (λ l. integer_to_ip a ∷ l) (generate_addresses-from n (a + 1) last_host (omega arith) h))

-- The addresses 1 to 254 of the network.
abbrev pub network_addresses : ℕ → List Bytes
network_addresses a = map integer_to_ip (addresses 254 (a / 2 ^ 8 * 2 ^ 8 + 1))

pub generate_addresses-network :
    (a : ℕ)
    → a < 2 ^ 32
    → generate_addresses 255 ((a / 2 ^ 8 * 2 ^ 8 + 1) % 2 ^ 32) ((a / 2 ^ 8 * 2 ^ 8 + 254) % 2 ^ 32)
      ≡ network_addresses a
generate_addresses-network a h =
    let v = a / 2 ^ 8 * 2 ^ 8 in
    let low : (v + 1) % 2 ^ 32 ≡ v + 1 = omega arith in
    let high : (v + 254) % 2 ^ 32 ≡ v + 254 = omega arith in
    rw (low, high) (generate_addresses-from 254 (v + 1) (v + 254) (omega arith) (omega arith))
