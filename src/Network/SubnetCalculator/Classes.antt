-- ===== src/Network/SubnetCalculator/Classes.antt =====
-- The classes of `SubnetCalculator::classifyAddress` in src/network/subnet_calculator.cpp.
use Prim.Native.Nat.{bit_and}
use slipnet.Prelude.{
  ℕ, ◌*◌, ◌/◌, ◌^◌, ◌<◌, ◌≡◌, Bool, ◌&&◌, leb, ◌==◌, if◌then◌else◌, Bytes, codes, arith,
}
use slipnet.Network.SubnetCalculator.{prefix_mask, classify_address}
use slipnet.Network.SubnetCalculator.Ranges.{bit_and-prefix_mask}

-- The address lies from `lo` to `hi`.
abbrev pub is_within : ℕ → ℕ → ℕ → Bool
is_within lo hi a = leb lo a && leb a hi

-- The classes by the first and last address of each.
abbrev pub class_of : ℕ → Bytes
class_of a =
    -- 0.0.0.0 to 0.255.255.255
    if is_within 0 0x00ff_ffff a
    then codes "Unspecified / Special"
    -- 10.0.0.0 to 10.255.255.255
    else if is_within 0x0a00_0000 0x0aff_ffff a
    then codes "Private"
    -- 172.16.0.0 to 172.31.255.255
    else if is_within 0xac10_0000 0xac1f_ffff a
    then codes "Private"
    -- 192.168.0.0 to 192.168.255.255
    else if is_within 0xc0a8_0000 0xc0a8_ffff a
    then codes "Private"
    -- 127.0.0.0 to 127.255.255.255
    else if is_within 0x7f00_0000 0x7fff_ffff a
    then codes "Loopback"
    -- 169.254.0.0 to 169.254.255.255
    else if is_within 0xa9fe_0000 0xa9fe_ffff a
    then codes "Link-local"
    -- 224.0.0.0 to 239.255.255.255
    else if is_within 0xe000_0000 0xefff_ffff a
    then codes "Multicast"
    -- 240.0.0.0 to 255.255.255.255
    else if is_within 0xf000_0000 0xffff_ffff a
    then codes "Reserved"
    else codes "Public / Global"

module _ (a : ℕ) (word : a < 2 ^ 32) where
  and_4 : bit_and a 0xf000_0000 ≡ a / 2 ^ 28 * 2 ^ 28
  unfolding prefix_mask
  and_4 = bit_and-prefix_mask a 4 word (omega arith)

  and_8 : bit_and a 0xff00_0000 ≡ a / 2 ^ 24 * 2 ^ 24
  unfolding prefix_mask
  and_8 = bit_and-prefix_mask a 8 word (omega arith)

  and_12 : bit_and a 0xfff0_0000 ≡ a / 2 ^ 20 * 2 ^ 20
  unfolding prefix_mask
  and_12 = bit_and-prefix_mask a 12 word (omega arith)

  and_16 : bit_and a 0xffff_0000 ≡ a / 2 ^ 16 * 2 ^ 16
  unfolding prefix_mask
  and_16 = bit_and-prefix_mask a 16 word (omega arith)

  in_zero : (bit_and a 0xff00_0000 == 0) ≡ is_within 0 0x00ff_ffff a
  in_zero = ground (arith, and_8)

  in_ten : (bit_and a 0xff00_0000 == 0x0a00_0000) ≡ is_within 0x0a00_0000 0x0aff_ffff a
  in_ten = ground (arith, and_8)

  in_172 : (bit_and a 0xfff0_0000 == 0xac10_0000) ≡ is_within 0xac10_0000 0xac1f_ffff a
  in_172 = ground (arith, and_12)

  in_192 : (bit_and a 0xffff_0000 == 0xc0a8_0000) ≡ is_within 0xc0a8_0000 0xc0a8_ffff a
  in_192 = ground (arith, and_16)

  in_127 : (bit_and a 0xff00_0000 == 0x7f00_0000) ≡ is_within 0x7f00_0000 0x7fff_ffff a
  in_127 = ground (arith, and_8)

  in_169 : (bit_and a 0xffff_0000 == 0xa9fe_0000) ≡ is_within 0xa9fe_0000 0xa9fe_ffff a
  in_169 = ground (arith, and_16)

  in_224 : (bit_and a 0xf000_0000 == 0xe000_0000) ≡ is_within 0xe000_0000 0xefff_ffff a
  in_224 = ground (arith, and_4)

  in_240 : (bit_and a 0xf000_0000 == 0xf000_0000) ≡ is_within 0xf000_0000 0xffff_ffff a
  in_240 = ground (arith, and_4)

  -- Every 32-bit address has the class of the first range in the table that holds it.
  pub classify_address-class_of : classify_address a ≡ class_of a
  unfolding classify_address
  classify_address-class_of = rw (in_zero, in_ten, in_172, in_192, in_127, in_169, in_224, in_240)
