-- ===== src/Network/Subnet/Agreement.antt =====
-- src/network/subnet.cpp and src/network/subnet_calculator.cpp compute the same subnets.
use Prim.Native.Nat.{bit_and}
use slipnet.Prelude.{ℕ, ◌-◌, ◌^◌, ◌≤◌, ◌≡◌, refl, sym, ap, ◌∙◌, some, Bytes, arith}
use slipnet.Network.Inet.{Inet, IsInet}
use slipnet.Network.SubnetCalculator.{prefix_mask, calculate}
use slipnet.Network.SubnetCalculator.Answers.{IsBlock, calculate-IsBlock}
use slipnet.Network.SubnetCalculator.Ranges.{
  agrees, agrees→eq, block, block_pos, prefix_mask-block, bit_and-prefix_mask,
}
use slipnet.Network.Subnet.{count_prefix, calculate_network, calculate_prefix}

-- Checked at each of the 33 prefixes.
count_prefix-mask : (p : ℕ) → p ≤ 32 → count_prefix 32 (2 ^ 32 - block p) 0 ≡ p
unfolding agrees count_prefix
count_prefix-mask p h =
    agrees→eq (λ p. count_prefix 32 (2 ^ 32 - block p) 0) (λ p. p) 33 refl p (omega arith)

module _ (inet : Inet) (laws : IsInet inet) where
  open inet use {pton, ntop}

  -- For a CIDR block, `Subnet::calculatePrefix` reads the prefix back from the netmask that the
  -- calculator prints, and `Subnet::calculateNetwork` of the address and that netmask is the
  -- network that the calculator prints.
  pub calculate_network-calculate :
      (cidr ip : Bytes) (p a : ℕ)
      → IsBlock inet cidr ip p a
      → (calculate_prefix inet (calculate inet cidr).netmask ≡ some (calculate inet cidr).prefix)
        × (calculate_network inet ip (calculate inet cidr).netmask
            ≡ some (calculate inet cidr).network)
  unfolding calculate_network calculate_prefix
  calculate_network-calculate cidr ip p a b =
      let (w, s, e) = calculate-IsBlock inet laws cidr ip p a b in
      let word = laws.pton_word ip a b.address in
      let mask : pton (ntop w.mask) ≡ some w.mask =
        laws.pton-ntop w.mask (omega (arith, s.mask_is, block_pos p)) in
      let masked : w.mask ≡ prefix_mask p =
        omega (arith, s.mask_is, prefix_mask-block p b.form.prefix_small) in
      rw e (
        rw (mask, s.mask_is) (ap some (count_prefix-mask p b.form.prefix_small)),
        rw (mask, b.address)
            (ap (λ t. some (ntop t))
              (ap (bit_and a) masked
                ∙ bit_and-prefix_mask a p word b.form.prefix_small
                ∙ sym s.network_is)),
      )
