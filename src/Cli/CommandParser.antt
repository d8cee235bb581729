-- ===== src/Cli/CommandParser.antt =====
-- include/cli/command_parser.hpp and src/cli/command_parser.cpp.
pub mod Tokens
pub mod Trim
pub mod Spellings
pub mod Names
pub mod RoundTrip
mod Examples
use slipnet.Prelude.{
  ℕ, zero, suc, ◌-◌, Bool, true, false, ◌&&◌, ◌||◌, List, [], ◌∷◌, ◌++◌, map, ltb, if◌then◌else◌,
  Bytes, codes, eq_bytes, is_space, to_lower, length, take, drop, get_or,
}

pub data CommandType : Type 0 where
  ip_seek host_find port_scan service_detect topology_map packet_capture : CommandType
  packet_inspect network_monitor network_show network_clear security_detect : CommandType
  ai_analyze session_info mac_resolve dns_resolve os_fingerprint banner_grab : CommandType
  subnet_calc vuln_scan cred_check ssl_audit firewall_probe system_info help exit : CommandType
  unknown : CommandType

pub record ParsedCommand : Type 0 where
  pub type : CommandType
  pub raw : Bytes
  pub arguments : List Bytes

-- The first loop of `trim`: the number of whitespace bytes in front.
scan_start : Bytes → ℕ
unfolding is_space
scan_start [] = 0
scan_start (c ∷ s) = if is_space c then suc (scan_start s) else 0

-- The second loop, with `end` going down to `start`.
scan_end : Bytes → ℕ → ℕ → ℕ
unfolding is_space
scan_end value start zero = zero
scan_end value start (suc end) = elim (ltb start (suc end) && is_space (get_or value end 0)) [
  | true ↦ scan_end value start end
  | false ↦ suc end
]

pub trim : Bytes → Bytes
unfolding scan_start scan_end
trim value =
    let start = scan_start value in
    let end = scan_end value start (length value) in take (end - start) (drop start value)

to_lower_text : Bytes → Bytes
unfolding to_lower
to_lower_text value = map to_lower value

-- The token read so far, if there is one, in front of those behind it.
abbrev push_token : Bytes → List Bytes → List Bytes
push_token [] tokens = tokens
push_token (c ∷ s) tokens = (c ∷ s) ∷ tokens

-- `while (stream >> token)`: whitespace ends a token and is skipped in front of one.
pub extract : Bytes → Bytes → List Bytes
extract token [] = push_token token []
extract token (c ∷ s) = elim (is_space c) [
  | true ↦ push_token token (extract [] s)
  | false ↦ extract (token ++ c ∷ []) s
]

pub tokenize : Bytes → List Bytes
unfolding extract
tokenize input = extract [] input

pub normalize : Bytes → Bytes
unfolding trim to_lower_text
normalize command = to_lower_text (trim command)

-- The tests of `identifyCommand` on the normalized text.
pub identify_normalized : Bytes → CommandType
identify_normalized n =
    if eq_bytes n (codes "ip|:seek")
    then ip_seek
    else if eq_bytes n (codes "host|:find")
    then host_find
    else if eq_bytes n (codes "port|:scan")
    then port_scan
    else if eq_bytes n (codes "svc|:detect")
    then service_detect
    else if eq_bytes n (codes "topo|:map")
    then topology_map
    else if eq_bytes n (codes "pkt|:capture")
    then packet_capture
    else if eq_bytes n (codes "pkt|:inspect")
    then packet_inspect
    else if eq_bytes n (codes "net|:monitor")
    then network_monitor
    else if eq_bytes n (codes "net|:show")
    then network_show
    else if eq_bytes n (codes "net|:clear")
    then network_clear
    else if eq_bytes n (codes "sec|:detect")
    then security_detect
    else if eq_bytes n (codes "ai|:analyze")
    then ai_analyze
    else if eq_bytes n (codes "session|:info")
    then session_info
    else if eq_bytes n (codes "mac|:resolve")
    then mac_resolve
    else if eq_bytes n (codes "dns|:resolve")
    then dns_resolve
    else if eq_bytes n (codes "os|:fingerprint")
    then os_fingerprint
    else if eq_bytes n (codes "banner|:grab")
    then banner_grab
    else if eq_bytes n (codes "subnet|:calc")
    then subnet_calc
    else if eq_bytes n (codes "vuln|:scan")
    then vuln_scan
    else if eq_bytes n (codes "cred|:check")
    then cred_check
    else if eq_bytes n (codes "ssl|:audit")
    then ssl_audit
    else if eq_bytes n (codes "firewall|:probe")
    then firewall_probe
    else if eq_bytes n (codes "system|:info")
    then system_info
    else if eq_bytes n (codes "help") || eq_bytes n (codes "?")
    then help
    else if eq_bytes n (codes "fire") || eq_bytes n (codes "exit") || eq_bytes n (codes "quit")
    then exit
    else unknown

pub identify_command : Bytes → CommandType
unfolding normalize identify_normalized
identify_command command = identify_normalized (normalize command)

parse_tokens : Bytes → List Bytes → ParsedCommand
unfolding identify_command
parse_tokens input [] = record { type = unknown; raw = input; arguments = [] }
parse_tokens input (command ∷ rest) = record {
  type = identify_command command;
  raw = input;
  arguments = rest;
}

pub parse : Bytes → ParsedCommand
unfolding tokenize parse_tokens
parse input = parse_tokens input (tokenize input)

pub command_name : CommandType → Bytes
command_name ip_seek = codes "ip|:seek"
command_name host_find = codes "host|:find"
command_name port_scan = codes "port|:scan"
command_name service_detect = codes "svc|:detect"
command_name topology_map = codes "topo|:map"
command_name packet_capture = codes "pkt|:capture"
command_name packet_inspect = codes "pkt|:inspect"
command_name network_monitor = codes "net|:monitor"
command_name network_show = codes "net|:show"
command_name network_clear = codes "net|:clear"
command_name security_detect = codes "sec|:detect"
command_name ai_analyze = codes "ai|:analyze"
command_name session_info = codes "session|:info"
command_name mac_resolve = codes "mac|:resolve"
command_name dns_resolve = codes "dns|:resolve"
command_name os_fingerprint = codes "os|:fingerprint"
command_name banner_grab = codes "banner|:grab"
command_name subnet_calc = codes "subnet|:calc"
command_name vuln_scan = codes "vuln|:scan"
command_name cred_check = codes "cred|:check"
command_name ssl_audit = codes "ssl|:audit"
command_name firewall_probe = codes "firewall|:probe"
command_name help = codes "help"
command_name exit = codes "fire"
command_name system_info = codes "system|:info"
command_name unknown = codes "unknown"

pub requires_argument : CommandType → Bool
requires_argument host_find = true
requires_argument port_scan = true
requires_argument service_detect = true
requires_argument mac_resolve = true
requires_argument dns_resolve = true
requires_argument os_fingerprint = true
requires_argument banner_grab = true
requires_argument subnet_calc = true
requires_argument ssl_audit = true
requires_argument firewall_probe = true
requires_argument _ = false
