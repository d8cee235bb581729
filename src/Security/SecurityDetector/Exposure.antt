-- ===== src/Security/SecurityDetector/Exposure.antt =====
-- The checks of src/security/security_detector.cpp that look at one open port at a time.
use slipnet.Prelude.{not, List, ◌++◌, if◌then◌else◌, Bytes, codes}
use slipnet.Prelude.Int.{pos, eq_int}
use slipnet.Core.NetworkState.{PortInfo}
use slipnet.Security.SecurityDetector.Alerts.{Alert, add_alert, for_ports}

unfoldable pub on_legacy_protocol : Bytes → PortInfo → List Alert → List Alert
on_legacy_protocol ip port alerts =
    if not port.is_open
    then alerts
    else if eq_int port.port (pos 23)
    then add_alert alerts (codes "TELNET_EXPOSED")
        (codes "Telnet is exposed on "
          ++ (ip
              ++ codes
                  " through TCP port 23. Telnet transmits credentials and session data without modern encryption."))
        3
    else if eq_int port.port (pos 21)
    then add_alert alerts (codes "FTP_EXPOSED")
        (codes "FTP is exposed on "
          ++ (ip
              ++ codes " through TCP port 21. Standard FTP does not provide encrypted transport."))
        2
    else if eq_int port.port (pos 69)
    then add_alert alerts (codes "TFTP_EXPOSED")
        (codes "TFTP is exposed on "
          ++ (ip
              ++ codes
                  " through UDP port 69. TFTP provides minimal authentication and should normally be restricted."))
        3
    else alerts

unfoldable pub check_legacy_protocols : Bytes → List PortInfo → List Alert → List Alert
unfolding for_ports on_legacy_protocol
check_legacy_protocols ip = for_ports (on_legacy_protocol ip)

unfoldable pub on_exposed_database : Bytes → PortInfo → List Alert → List Alert
on_exposed_database ip port alerts =
    if not port.is_open
    then alerts
    else if eq_int port.port (pos 3306)
    then add_alert alerts (codes "DATABASE_EXPOSED")
        (codes "MySQL/MariaDB appears exposed on " ++ (ip ++ codes " through TCP port 3306.")) 3
    else if eq_int port.port (pos 5432)
    then add_alert alerts (codes "DATABASE_EXPOSED")
        (codes "PostgreSQL appears exposed on " ++ (ip ++ codes " through TCP port 5432.")) 3
    else if eq_int port.port (pos 27017)
    then add_alert alerts (codes "DATABASE_EXPOSED")
        (codes "MongoDB appears exposed on " ++ (ip ++ codes " through TCP port 27017.")) 3
    else if eq_int port.port (pos 6379)
    then add_alert alerts (codes "CACHE_EXPOSED")
        (codes "Redis appears exposed on "
          ++ (ip
              ++ codes
                  " through TCP port 6379. Redis should normally be restricted to trusted network segments."))
        3
    else if eq_int port.port (pos 9200)
    then add_alert alerts (codes "SEARCH_ENGINE_EXPOSED")
        (codes "Elasticsearch appears exposed on "
          ++ (ip
              ++ codes
                  " through TCP port 9200. Administrative interfaces should not normally be publicly reachable."))
        3
    else alerts

unfoldable pub check_exposed_databases : Bytes → List PortInfo → List Alert → List Alert
unfolding for_ports on_exposed_database
check_exposed_databases ip = for_ports (on_exposed_database ip)

unfoldable pub on_remote_administration : Bytes → PortInfo → List Alert → List Alert
on_remote_administration ip port alerts =
    if not port.is_open
    then alerts
    else if eq_int port.port (pos 22)
    then add_alert alerts (codes "SSH_EXPOSED")
        (codes "SSH is exposed on "
          ++ (ip
              ++ codes
                  " through TCP port 22. Restrict access and use strong authentication controls."))
        1
    else if eq_int port.port (pos 3389)
    then add_alert alerts (codes "RDP_EXPOSED")
        (codes "Remote Desktop Protocol is exposed on "
          ++ (ip
              ++ codes
                  " through TCP port 3389. RDP should be protected by network access controls and strong authentication."))
        3
    else if eq_int port.port (pos 5900)
    then add_alert alerts (codes "VNC_EXPOSED")
        (codes "VNC is exposed on "
          ++ (ip
              ++ codes
                  " through TCP port 5900. Remote graphical administration should be restricted to trusted networks."))
        2
    else alerts

unfoldable pub check_remote_administration : Bytes → List PortInfo → List Alert → List Alert
unfolding for_ports on_remote_administration
check_remote_administration ip = for_ports (on_remote_administration ip)

unfoldable pub on_management_service : Bytes → PortInfo → List Alert → List Alert
on_management_service ip port alerts =
    if not port.is_open
    then alerts
    else if eq_int port.port (pos 161)
    then add_alert alerts (codes "SNMP_EXPOSED")
        (codes "SNMP appears exposed on "
          ++ (ip
              ++ codes
                  " through UDP port 161. SNMP configuration and community access should be restricted."))
        2
    else if eq_int port.port (pos 2375)
    then add_alert alerts (codes "DOCKER_API_EXPOSED")
        (codes "The Docker API appears exposed on "
          ++ (ip
              ++ codes
                  " through TCP port 2375. An unauthenticated Docker API can provide high-impact administrative access."))
        3
    else if eq_int port.port (pos 2376)
    then add_alert alerts (codes "DOCKER_TLS_API_EXPOSED")
        (codes "The Docker API TLS endpoint appears exposed on "
          ++ (ip ++ codes " through TCP port 2376. Verify certificate and authorization controls."))
        2
    else alerts

unfoldable pub check_management_services : Bytes → List PortInfo → List Alert → List Alert
unfolding for_ports on_management_service
check_management_services ip = for_ports (on_management_service ip)

unfoldable pub on_cleartext_service : Bytes → PortInfo → List Alert → List Alert
on_cleartext_service ip port alerts =
    if not port.is_open
    then alerts
    else if eq_int port.port (pos 25)
    then add_alert alerts (codes "SMTP_EXPOSED")
        (codes "SMTP is exposed on "
          ++ (ip
              ++ codes
                  " through TCP port 25. Verify relay restrictions and mail-service security configuration."))
        1
    else if eq_int port.port (pos 110)
    then add_alert alerts (codes "POP3_EXPOSED")
        (codes "POP3 is exposed on "
          ++ (ip ++ codes " through TCP port 110. Prefer encrypted mail access where supported."))
        2
    else if eq_int port.port (pos 143)
    then add_alert alerts (codes "IMAP_EXPOSED")
        (codes "IMAP is exposed on "
          ++ (ip
              ++ codes " through TCP port 143. Verify that encrypted authentication is enforced."))
        1
    else if eq_int port.port (pos 80)
    then add_alert alerts (codes "HTTP_EXPOSED")
        (codes "HTTP is exposed on "
          ++ (ip
              ++ codes
                  " through TCP port 80. If sensitive applications are hosted here, HTTPS should be preferred."))
        1
    else alerts

unfoldable pub check_cleartext_services : Bytes → List PortInfo → List Alert → List Alert
unfolding for_ports on_cleartext_service
check_cleartext_services ip = for_ports (on_cleartext_service ip)

unfoldable pub on_high_risk_service : Bytes → PortInfo → List Alert → List Alert
on_high_risk_service ip port alerts =
    if not port.is_open
    then alerts
    else if eq_int port.port (pos 111)
    then add_alert alerts (codes "RPC_EXPOSED")
        (codes "RPC portmapper appears exposed on " ++ (ip ++ codes " through TCP/UDP port 111.")) 2
    else if eq_int port.port (pos 2049)
    then add_alert alerts (codes "NFS_EXPOSED")
        (codes "NFS appears exposed on "
          ++ (ip
              ++ codes
                  " through port 2049. Verify export restrictions and network access controls."))
        3
    else if eq_int port.port (pos 5000)
    then add_alert alerts (codes "APPLICATION_SERVICE_EXPOSED")
        (codes "A service is exposed on "
          ++ (ip
              ++ codes
                  " through TCP port 5000. Verify that the application interface is intended to be network accessible."))
        1
    else alerts

unfoldable pub check_high_risk_services : Bytes → List PortInfo → List Alert → List Alert
unfolding for_ports on_high_risk_service
check_high_risk_services ip = for_ports (on_high_risk_service ip)
