-- ===== src/Security/SecurityDetector/Context.antt =====
-- The checks of src/security/security_detector.cpp that look at the ports or the services as a
-- whole. A flag that a loop sets is a loop of its own.
use slipnet.Prelude.{
  ℕ, ◌+◌, Bool, false, not, ◌&&◌, ◌||◌, List, [], ◌∷◌, ◌++◌, leb, if◌then◌else◌, Bytes, codes,
  eq_bytes, is_empty,
}
use slipnet.Prelude.Int.{ℤ, pos, eq_int}
use slipnet.Prelude.Decimal.{int_to_string, to_string}
use slipnet.Core.NetworkState.{PortInfo, ServiceInfo}
use slipnet.Security.SecurityDetector.Alerts.{Alert, contains_insensitive, add_alert}

-- A flag that is set at an open port of the number.
unfoldable pub saw_open : ℤ → Bool → List PortInfo → Bool
saw_open n flag [] = flag
saw_open n flag (port ∷ ports) = saw_open n (flag || (port.is_open && eq_int port.port n)) ports

unfoldable pub check_file_sharing : Bytes → List PortInfo → List Alert → List Alert
unfolding saw_open
check_file_sharing ip ports alerts =
    let smb =
      if saw_open (pos 445) false ports
      then add_alert alerts (codes "SMB_EXPOSED")
          (codes "SMB is exposed on "
            ++ (ip
                ++ codes
                    " through TCP port 445. File-sharing services should be restricted to trusted networks."))
          3
      else alerts in
    if saw_open (pos 139) false ports
    then add_alert smb (codes "NETBIOS_EXPOSED")
        (codes "NetBIOS session service is exposed on " ++ (ip ++ codes " through TCP port 139.")) 2
    else smb

unfoldable pub on_service : Bytes → ServiceInfo → List Alert → List Alert
on_service ip service alerts =
    if not (eq_bytes service.ip ip)
    then alerts
    else if is_empty service.service
    then alerts
    else if contains_insensitive service.service (codes "telnet")
    then add_alert alerts (codes "LEGACY_SERVICE_DETECTED")
        (codes "Service detection identified Telnet on "
          ++ (ip ++ (codes " port " ++ (int_to_string service.port ++ codes "."))))
        3
    else alerts

unfoldable pub check_service_exposure : Bytes → List ServiceInfo → List Alert → List Alert
unfolding on_service
check_service_exposure ip [] alerts = alerts
check_service_exposure ip (service ∷ services) alerts =
    check_service_exposure ip services (on_service ip service alerts)

-- The inner loop: whether an open port has the number of the service.
unfoldable pub matching_open_port : ℤ → List PortInfo → Bool
matching_open_port n [] = false
matching_open_port n (port ∷ ports) =
    (port.is_open && eq_int port.port n) || matching_open_port n ports

unfoldable pub on_consistency : Bytes → List PortInfo → ServiceInfo → List Alert → List Alert
unfolding matching_open_port
on_consistency ip ports service alerts =
    if not (eq_bytes service.ip ip)
    then alerts
    else if not (matching_open_port service.port ports)
    then add_alert alerts (codes "SERVICE_STATE_MISMATCH")
        (codes "Service information reports "
          ++ (service.service
              ++ (codes " on port "
                  ++ (int_to_string service.port
                      ++ codes ", but the corresponding port is not currently recorded as open."))))
        1
    else alerts

unfoldable pub check_service_port_consistency :
    Bytes → List PortInfo → List ServiceInfo → List Alert → List Alert
unfolding on_consistency
check_service_port_consistency ip ports [] alerts = alerts
check_service_port_consistency ip ports (service ∷ services) alerts =
    check_service_port_consistency ip ports services (on_consistency ip ports service alerts)

unfoldable pub count_open : ℕ → List PortInfo → ℕ
count_open open_ports [] = open_ports
count_open open_ports (port ∷ ports) =
    count_open (if port.is_open then open_ports + 1 else open_ports) ports

unfoldable pub check_attack_surface : Bytes → List PortInfo → List Alert → List Alert
unfolding count_open
check_attack_surface ip ports alerts =
    let open_ports = count_open 0 ports in
    if leb 20 open_ports
    then add_alert alerts (codes "VERY_LARGE_ATTACK_SURFACE")
        (codes "Host "
          ++ (ip
              ++ (codes " has "
                  ++ (to_string open_ports
                      ++ codes
                          " open TCP ports. Review whether all exposed services are required."))))
        3
    else if leb 10 open_ports
    then add_alert alerts (codes "LARGE_ATTACK_SURFACE")
        (codes "Host "
          ++ (ip
              ++ (codes " has "
                  ++ (to_string open_ports
                      ++ codes
                          " open TCP ports. Reducing unnecessary exposed services can reduce attack surface."))))
        2
    else alerts

-- `static_cast<int>` of a flag.
abbrev pub flag : Bool → ℕ
flag b = if b then 1 else 0

unfoldable pub administrative_services : List PortInfo → ℕ
unfolding saw_open
administrative_services ports =
    flag (saw_open (pos 22) false ports)
    + flag (saw_open (pos 3389) false ports)
    + flag (saw_open (pos 445) false ports)
    + flag (saw_open (pos 5900) false ports)

unfoldable pub check_administrative_exposure : Bytes → List PortInfo → List Alert → List Alert
unfolding administrative_services
check_administrative_exposure ip ports alerts =
    if leb 2 (administrative_services ports)
    then add_alert alerts (codes "MULTIPLE_ADMIN_SERVICES")
        (codes "Host "
          ++ (ip
              ++ codes
                  " exposes multiple administrative or remote-management services. Review access controls and minimize unnecessary remote administration interfaces."))
        2
    else alerts
