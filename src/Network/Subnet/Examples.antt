-- ===== src/Network/Subnet/Examples.antt =====
-- The model of src/network/subnet.cpp at concrete inputs.
use slipnet.Prelude.{◌≡◌, refl, some}
use slipnet.Network.Inet.Dotted.{dotted, dotted-IsInet}
use slipnet.Network.SubnetCalculator.{calculate}
use slipnet.Network.SubnetCalculator.Examples.{cidr, ip, cidr-IsBlock}
use slipnet.Network.Subnet.{calculate_network, calculate_prefix, count_prefix}
use slipnet.Network.Subnet.Agreement.{calculate_network-calculate}

hole_in_mask : count_prefix 32 0xff00_ff00 0 ≡ 8
unfolding count_prefix
hole_in_mask = refl

calculate_network-calculate_example :
    (calculate_prefix dotted (calculate dotted cidr).netmask ≡ some (calculate dotted cidr).prefix)
    × (calculate_network dotted ip (calculate dotted cidr).netmask
        ≡ some (calculate dotted cidr).network)
calculate_network-calculate_example =
    calculate_network-calculate dotted dotted-IsInet cidr ip 26 0xc0a8_0a4d cidr-IsBlock
