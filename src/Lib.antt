-- ===== src/Lib.antt =====
-- SlipNet, a command line program for looking at networks (src/ and include/ of the repository),
-- modelled part by part.
--
-- The command handler keeps one `NetworkState` (src/core/network_state.cpp), reads lines with
-- `CommandParser` (src/cli/command_parser.cpp) and calls the parts named below on what it reads; scans
-- put hosts, ports and services into the state, and `SecurityDetector` judges the ports and services
-- of a host. A packet capture is written to a file by `PacketCapture`, and `PacketInspector` reads
-- the file in a later run.
--
-- - Prelude: Boolean tests, lists measured by native numbers, `std::string` as a list of bytes, `int`,
--   lists keyed by a field, 32-bit complements, and decimal text as the standard library reads and
--   writes it.
-- - Core.NetworkState: include/core/network_state.hpp and src/core/network_state.cpp. Its vectors are
--   lists; each method is a function of the state, named like the method.
-- - Cli.CommandParser: src/cli/command_parser.cpp, with the parsed command as a record.
-- - Network.SubnetCalculator: src/network/subnet_calculator.cpp; Network.Subnet: src/network/subnet.cpp.
--   `inet_pton` and `inet_ntop` are the parameters of Network.Inet, with what POSIX says of them;
--   Network.Inet.Dotted is a pair that meets it.
-- - Network.NetworkDiscovery: src/network/network_discovery.cpp, up to the hosts put into the state.
-- - Host.HostDiscovery: src/host/host_discovery.cpp; Port.PortScanner: src/port/port_scanner.cpp. A task
--   that `std::async` starts is its result, and is waited for where the code waits; the answers of
--   the interrupt flag are a sequence, read in the order in which the code asks.
-- - Monitoring.NetworkMonitor: src/monitoring/network_monitor.cpp. The readings of the clock and of the
--   counters are sequences too. Its loop runs within a number of rounds, and a run that needs more is
--   told apart from one that returns.
-- - Platform: the headers include/platform/packet_capture.hpp and include/platform/firewall.hpp, as the
--   parameters of the parts that call them.
-- - Platform.LinuxCapture: src/platform/linux/packet_capture.cpp. The bytes received are a list, and a
--   read behind its end is `none`; what the rounds of the loop meet is a list of events, which ends at
--   the deadline.
-- - Platform.LinuxTcp: src/platform/linux/tcp_linux.cpp. The answers of the system calls are a parameter, and
--   the state is the list of open descriptors.
-- - Packet.Capture: src/packet/packet_capture.cpp; Packet.Inspector: the loader of
--   src/packet/packet_inspector.cpp, and Packet.Inspection the choice of what it prints; Packet.SaveLoad: the two together.
-- - Security.SecurityDetector: src/security/security_detector.cpp, each check a function that takes
--   the alerts and returns them with its own behind. `std::sort` is a parameter, since it may leave
--   alerts that compare equal in any order.
-- - Security.VulnerabilityScanner: src/security/vulnerability_scanner.cpp, with the same parameter; each
--   check is a function that takes the findings and returns them with its own behind.
-- - Security.CredentialChecker: src/security/credential_checker.cpp, in the same way.
-- - Security.FirewallProbe: src/security/firewall_probe.cpp, with the platform's probe as a parameter.
--
-- A machine integer is a native number, with its wrap-around written out where the code can reach it;
-- `size_t` has 64 bits and `int` has 32, as on the platforms the build supports. `unsigned long` has
-- 64 bits, as on 64-bit Linux. On Windows it has 32, and `std::stoul`, which reads the ports and the
-- time to live of a saved packet, throws from 2 ^ 32 on; no writer saves such a number.
-- The loop of a monitor and that of a send take a number of rounds, with theorems on how many are
-- enough; every other loop is structural recursion, on a list or on the rounds that a counting loop
-- has left. Decimal printing takes the number itself as fuel, which is at least its count of digits.
--
-- Not modelled: the command handler (src/cli/command_handler.cpp, mostly reports), the terminal and what
-- is printed; the rest of src/platform (Windows, and system calls of Linux), and the parts that mainly
-- call them (src/service, src/topology, src/system, src/ai); OpenSSL in src/security/ssl_auditor.cpp.
pub mod Prelude
pub mod Core
pub mod Monitoring
pub mod Network
pub mod Cli
pub mod Host
pub mod Port
pub mod Platform
pub mod Packet
pub mod Security
