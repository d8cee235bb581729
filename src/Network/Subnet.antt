-- ===== src/Network/Subnet.antt =====
-- include/network/subnet.hpp and src/network/subnet.cpp. An exception is `none`.
pub mod Agreement
mod Examples
use Prim.Native.Nat.{bit_and}
use mathlib.Core.Option
use slipnet.Prelude.{
  ℕ, zero, suc, ◌+◌, ◌/◌, ◌^◌, Bool, true, false, not, Option, none, some, ◌==◌, Bytes,
}
use slipnet.Prelude.Options.{◌>>=◌}
use slipnet.Network.Inet.{Inet}

-- The loop of `calculatePrefix` with `i` rounds left: it tests bit `i - 1` next.
count_prefix : ℕ → ℕ → ℕ → ℕ
count_prefix zero mask prefix = prefix
count_prefix (suc i) mask prefix = elim (not (bit_and (mask / 2 ^ i) 1 == 0)) [
  | true ↦ count_prefix i mask (prefix + 1)
  | false ↦ prefix
]

module _ (inet : Inet) where
  open inet use {pton, ntop}

  -- `none` is the `std::runtime_error`.
  pub convert_ip : Bytes → Option ℕ
  convert_ip address = pton address

  pub convert_back : ℕ → Bytes
  convert_back address = ntop address

  pub calculate_network : Bytes → Bytes → Option Bytes
  unfolding convert_ip convert_back
  calculate_network ip netmask = do
    ip_address ← convert_ip ip
    mask ← convert_ip netmask
    some (convert_back (bit_and ip_address mask))

  pub calculate_prefix : Bytes → Option ℕ
  unfolding convert_ip count_prefix
  calculate_prefix netmask = do mask ← convert_ip netmask; some (count_prefix 32 mask 0)
