-- ===== src/Cli/CommandParser/Spellings.antt =====
-- The spellings of the commands that `CommandParser::identifyCommand` of src/cli/command_parser.cpp
-- tells apart.
use slipnet.Prelude.{
  ◌≡◌, refl, sym, ◌≢◌, inl, inr, Bool, true, false, ◌||◌, List, [], ◌∷◌, if◌then◌else◌, Bool-cases,
  Bytes, codes, eq_bytes, eq_bytes_iff, All, Has,
}
use slipnet.Cli.CommandParser.{
  CommandType, ip_seek, host_find, port_scan, service_detect, topology_map, packet_capture,
  packet_inspect, network_monitor, network_show, network_clear, security_detect, ai_analyze,
  session_info, mac_resolve, dns_resolve, os_fingerprint, banner_grab, subnet_calc, vuln_scan,
  cred_check, ssl_audit, firewall_probe, system_info, help, exit, unknown, identify_normalized,
}

-- The spellings and what each stands for; help has two and exit has three.
abbrev pub spellings : List (Bytes × CommandType)
spellings =
    (codes "ip|:seek", ip_seek)
    ∷ (codes "host|:find", host_find)
    ∷ (codes "port|:scan", port_scan)
    ∷ (codes "svc|:detect", service_detect)
    ∷ (codes "topo|:map", topology_map)
    ∷ (codes "pkt|:capture", packet_capture)
    ∷ (codes "pkt|:inspect", packet_inspect)
    ∷ (codes "net|:monitor", network_monitor)
    ∷ (codes "net|:show", network_show)
    ∷ (codes "net|:clear", network_clear)
    ∷ (codes "sec|:detect", security_detect)
    ∷ (codes "ai|:analyze", ai_analyze)
    ∷ (codes "session|:info", session_info)
    ∷ (codes "mac|:resolve", mac_resolve)
    ∷ (codes "dns|:resolve", dns_resolve)
    ∷ (codes "os|:fingerprint", os_fingerprint)
    ∷ (codes "banner|:grab", banner_grab)
    ∷ (codes "subnet|:calc", subnet_calc)
    ∷ (codes "vuln|:scan", vuln_scan)
    ∷ (codes "cred|:check", cred_check)
    ∷ (codes "ssl|:audit", ssl_audit)
    ∷ (codes "firewall|:probe", firewall_probe)
    ∷ (codes "system|:info", system_info)
    ∷ (codes "help", help)
    ∷ (codes "?", help)
    ∷ (codes "fire", exit)
    ∷ (codes "exit", exit)
    ∷ (codes "quit", exit)
    ∷ []

pub first_match : Bytes → List (Bytes × CommandType) → CommandType
first_match n [] = unknown
first_match n ((s, t) ∷ rest) = if eq_bytes n s then t else first_match n rest

if-or :
    (a b : Bool) (x y : CommandType)
    → (if a || b then x else y) ≡ (if a then x else if b then x else y)
if-or true b x y = refl
if-or false b x y = refl

pub identify-first_match : (n : Bytes) → identify_normalized n ≡ first_match n spellings
unfolding identify_normalized first_match
identify-first_match n = simp if-or

pub first_match-Has :
    (n : Bytes) (l : List (Bytes × CommandType)) (t : CommandType)
    → t ≢ unknown
    → first_match n l ≡ t
    → Has (λ e. (n ≡ e.0) × (t ≡ e.1)) l
unfolding first_match
first_match-Has n [] t ne h = ne (sym h)
first_match-Has n ((s, u) ∷ rest) t ne h = elim (Bool-cases (eq_bytes n s)) [
  | inl e ↦ inl ((eq_bytes_iff n s).0 e, sym (rw e at h))
  | inr e ↦ inr (first_match-Has n rest t ne (rw e at h))
]

pub Has-first_match :
    (n : Bytes) (l : List (Bytes × CommandType)) (t : CommandType)
    → All (λ e. first_match e.0 spellings ≡ e.1) l
    → Has (λ e. (n ≡ e.0) × (t ≡ e.1)) l
    → first_match n spellings ≡ t
Has-first_match n [] t a h = absurd h
Has-first_match n ((s, u) ∷ rest) t a (inl (e, f)) = rw (e, f) a.0
Has-first_match n ((s, u) ∷ rest) t a (inr h) = Has-first_match n rest t a.1 h

-- No spelling is listed twice.
pub own_match : All (λ e. first_match e.0 spellings ≡ e.1) spellings
unfolding first_match eq_bytes
own_match = (
  refl,
  (
    refl,
    (
      refl,
      (
        refl,
        (
          refl,
          (
            refl,
            (
              refl,
              (
                refl,
                (
                  refl,
                  (
                    refl,
                    (
                      refl,
                      (
                        refl,
                        (
                          refl,
                          (
                            refl,
                            (
                              refl,
                              (
                                refl,
                                (
                                  refl,
                                  (
                                    refl,
                                    (
                                      refl,
                                      (
                                        refl,
                                        (
                                          refl,
                                          (
                                            refl,
                                            (refl, (refl, (refl, (refl, (refl, (refl, tt)))))),
                                          ),
                                        ),
                                      ),
                                    ),
                                  ),
                                ),
                              ),
                            ),
                          ),
                        ),
                      ),
                    ),
                  ),
                ),
              ),
            ),
          ),
        ),
      ),
    ),
  ),
)
