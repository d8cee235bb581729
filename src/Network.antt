-- ===== src/Network.antt =====
-- Addresses and subnets, src/network.
pub mod Inet
pub mod SubnetCalculator
pub mod Subnet
pub mod NetworkDiscovery
