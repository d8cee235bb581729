-- ===== src/Security/VulnerabilityScanner/Checks.antt =====
-- The checks of src/security/vulnerability_scanner.cpp, one service at a time.
use slipnet.Prelude.{◌&&◌, ◌||◌, List, ◌++◌, if◌then◌else◌, codes, is_empty}
use slipnet.Prelude.Int.{pos, eq_int, lt_int}
use slipnet.Prelude.Decimal.{int_to_string}
use slipnet.Core.NetworkState.{ServiceInfo}
use slipnet.Security.VulnerabilityScanner.Findings.{
  VulnerabilityFinding, lower, make_finding, contains, version_starts_with, report,
}
use slipnet.Security.VulnerabilityScanner.Findings.VulnerabilitySeverity.{
  low, medium, high, critical,
}
use slipnet.Security.VulnerabilityScanner.Findings.VulnerabilityCategory.{
  exposure, legacy_software, insecure_protocol, database_exposure, remote_access,
}

unfoldable pub check_exposure : ServiceInfo → List VulnerabilityFinding → List VulnerabilityFinding
check_exposure service findings =
    let ports =
      let f1 =
        report
          (eq_int service.port (pos 80)
            || eq_int service.port (pos 8080)
            || eq_int service.port (pos 8000))
          (make_finding service low exposure (codes "SLP-WEB-CLEAR")
            (codes "HTTP service exposed without TLS indication")
            (codes
              "The detected web service is operating on a plain HTTP port. Traffic may be transmitted without transport encryption.")
            (codes "TCP/"
              ++ (int_to_string service.port ++ codes " is open and identified as HTTP."))
            (codes "Prefer HTTPS and redirect clear-text HTTP traffic to TLS where appropriate.")
            (pos 90))
          findings in
      let f2 =
        report (eq_int service.port (pos 139))
          (make_finding service high exposure (codes "SLP-NETBIOS-EXPOSURE")
            (codes "NetBIOS session service exposed")
            (codes
              "NetBIOS exposure can increase information disclosure and lateral-movement risk.")
            (codes "TCP/139 is reachable.")
            (codes "Restrict NetBIOS to trusted network segments or disable it when unnecessary.")
            (pos 92))
          f1 in
      let f3 =
        report (eq_int service.port (pos 445))
          (make_finding service high exposure (codes "SLP-SMB-EXPOSURE")
            (codes "SMB service exposed")
            (codes
              "SMB is a sensitive network service and unnecessary exposure increases attack surface.")
            (codes "TCP/445 is reachable.")
            (codes
              "Restrict SMB to trusted networks and ensure modern SMB security policies are enabled.")
            (pos 96))
          f2 in
      f3 in
    if lt_int service.port (pos 1) then findings else ports

unfoldable pub check_insecure_protocol :
    ServiceInfo → List VulnerabilityFinding → List VulnerabilityFinding
check_insecure_protocol service findings =
    let f1 =
      report (eq_int service.port (pos 21))
        (make_finding service high insecure_protocol (codes "SLP-FTP-CLEARTEXT")
          (codes "FTP service exposed")
          (codes
            "FTP commonly provides authentication and session communication without transport encryption.")
          (codes "TCP/21 is reachable.")
          (codes "Replace FTP with SFTP or FTPS and restrict administrative access.") (pos 96))
        findings in
    let f2 =
      report (eq_int service.port (pos 23))
        (make_finding service critical insecure_protocol (codes "SLP-TELNET-CLEARTEXT")
          (codes "Telnet service exposed")
          (codes "Telnet provides remote access without modern transport encryption.")
          (codes "TCP/23 is reachable.")
          (codes "Disable Telnet and use SSH or another secure remote administration protocol.")
          (pos 99))
        f1 in
    let f3 =
      report (eq_int service.port (pos 110))
        (make_finding service medium insecure_protocol (codes "SLP-POP3-CLEARTEXT")
          (codes "POP3 service exposed")
          (codes "Traditional POP3 does not provide transport encryption unless protected by TLS.")
          (codes "TCP/110 is reachable.")
          (codes "Use POP3S or another mail protocol with proper TLS configuration.") (pos 90))
        f2 in
    let f4 =
      report (eq_int service.port (pos 143))
        (make_finding service medium insecure_protocol (codes "SLP-IMAP-CLEARTEXT")
          (codes "IMAP service exposed")
          (codes
            "Traditional IMAP may transmit authentication and mail traffic without encryption.")
          (codes "TCP/143 is reachable.")
          (codes "Use IMAPS or STARTTLS with a properly configured mail server.") (pos 90))
        f3 in
    f4

unfoldable pub check_remote_access :
    ServiceInfo → List VulnerabilityFinding → List VulnerabilityFinding
check_remote_access service findings =
    let f1 =
      report (eq_int service.port (pos 22))
        (make_finding service low remote_access (codes "SLP-SSH-EXPOSURE")
          (codes "SSH remote administration exposed")
          (codes
            "SSH is a secure protocol, but exposing remote administration increases the host's attack surface.")
          (codes "TCP/22 is reachable.")
          (codes
            "Restrict SSH to trusted networks or VPN access and enforce strong authentication.")
          (pos 92))
        findings in
    let f2 =
      report (eq_int service.port (pos 3389))
        (make_finding service high remote_access (codes "SLP-RDP-EXPOSURE")
          (codes "Remote Desktop exposed")
          (codes "RDP exposure increases the remote-access attack surface of the host.")
          (codes "TCP/3389 is reachable.")
          (codes
            "Restrict RDP using firewall/VPN policies and require Network Level Authentication.")
          (pos 96))
        f1 in
    f2

unfoldable pub check_database_exposure :
    ServiceInfo → List VulnerabilityFinding → List VulnerabilityFinding
check_database_exposure service findings =
    let f1 =
      report
        (eq_int service.port (pos 3306)
          || eq_int service.port (pos 5432)
          || eq_int service.port (pos 6379)
          || eq_int service.port (pos 27017)
          || eq_int service.port (pos 1433)
          || eq_int service.port (pos 1521))
        (make_finding service high database_exposure (codes "SLP-DATABASE-EXPOSURE")
          (codes "Database service exposed")
          (codes "Database services should normally be isolated from untrusted network segments.")
          (codes "Database service detected on TCP/" ++ (int_to_string service.port ++ codes "."))
          (codes
            "Restrict access with firewall rules, network segmentation and strong authentication.")
          (pos 95))
        findings in
    f1

unfoldable pub check_legacy_version :
    ServiceInfo → List VulnerabilityFinding → List VulnerabilityFinding
check_legacy_version service findings =
    let name = lower service.service in
    let version = lower service.version in
    let judged =
      let f1 =
        report (contains name (codes "openssh") && version_starts_with version (codes "openssh_7."))
          (make_finding service medium legacy_software (codes "SLP-LEGACY-OPENSSH")
            (codes "Potentially outdated OpenSSH release")
            (codes "The detected OpenSSH version belongs to an older release family.")
            service.version
            (codes
              "Verify the installed release against current vendor security advisories and upgrade where appropriate.")
            (pos 72))
          findings in
      let f2 =
        report (contains name (codes "apache") && version_starts_with version (codes "apache/2.2"))
          (make_finding service high legacy_software (codes "SLP-LEGACY-APACHE")
            (codes "Legacy Apache HTTP Server detected")
            (codes "Apache HTTP Server 2.2 belongs to a legacy release family.") service.version
            (codes
              "Upgrade to a currently supported Apache release and verify vendor security advisories.")
            (pos 96))
          f1 in
      let f3 =
        report (contains name (codes "nginx") && version_starts_with version (codes "nginx/1.1"))
          (make_finding service medium legacy_software (codes "SLP-LEGACY-NGINX")
            (codes "Potentially outdated Nginx release")
            (codes "The detected Nginx version appears to belong to an older release family.")
            service.version
            (codes
              "Verify the release against current Nginx security advisories and upgrade if necessary.")
            (pos 72))
          f2 in
      let f4 =
        report
          (contains name (codes "mysql")
            && (contains version (codes "5.0") || contains version (codes "5.1")))
          (make_finding service high legacy_software (codes "SLP-LEGACY-MYSQL")
            (codes "Legacy MySQL release detected")
            (codes "The detected MySQL release appears to belong to an old software generation.")
            service.version
            (codes
              "Upgrade to a supported MySQL or compatible database release after validating application compatibility.")
            (pos 90))
          f3 in
      f4 in
    if is_empty service.version then findings else judged
