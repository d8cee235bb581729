-- ===== src/Security/CredentialChecker/Checks.antt =====
-- The checks of src/security/credential_checker.cpp, one service at a time.
use slipnet.Prelude.{List, [], ◌∷◌, ◌++◌, if◌then◌else◌, codes}
use slipnet.Prelude.Int.{pos, eq_int}
use slipnet.Core.NetworkState.{ServiceInfo}
use slipnet.Security.CredentialChecker.Findings.{CredentialFinding, make_finding}
use slipnet.Security.CredentialChecker.Findings.CredentialRisk.{low, medium, high, critical}

unfoldable pub check_plaintext_authentication :
    ServiceInfo → List CredentialFinding → List CredentialFinding
check_plaintext_authentication service findings =
    if eq_int service.port (pos 21)
    then findings
      ++ make_finding service high (codes "SLP-CRED-FTP")
          (codes "FTP authentication may expose credentials")
          (codes
            "Traditional FTP does not provide transport encryption by itself. Authentication material may therefore be transmitted without protection.")
          (codes "TCP/21 is reachable and identified as FTP.")
          (codes "Prefer SFTP or FTPS and restrict FTP access to trusted network segments.")
          (pos 95)
        ∷ []
    else if eq_int service.port (pos 23)
    then findings
      ++ make_finding service critical (codes "SLP-CRED-TELNET")
          (codes "Telnet authentication may expose credentials")
          (codes
            "Telnet provides no native transport encryption. Credentials and session traffic may be exposed to network observers.")
          (codes "TCP/23 is reachable.")
          (codes "Disable Telnet and use SSH or another encrypted remote administration protocol.")
          (pos 98)
        ∷ []
    else if eq_int service.port (pos 25)
    then findings
      ++ make_finding service medium (codes "SLP-CRED-SMTP") (codes "SMTP authentication exposure")
          (codes
            "SMTP services may support authentication over unencrypted or improperly protected connections.")
          (codes "TCP/25 is reachable and may provide SMTP service.")
          (codes
            "Require TLS for authenticated SMTP sessions and disable insecure authentication mechanisms.")
          (pos 80)
        ∷ []
    else if eq_int service.port (pos 110)
    then findings
      ++ make_finding service high (codes "SLP-CRED-POP3")
          (codes "POP3 authentication may expose credentials")
          (codes
            "Traditional POP3 does not inherently protect authentication traffic with encryption.")
          (codes "TCP/110 is reachable.")
          (codes "Prefer POP3S or enforce STARTTLS with secure authentication policies.") (pos 92)
        ∷ []
    else if eq_int service.port (pos 143)
    then findings
      ++ make_finding service high (codes "SLP-CRED-IMAP")
          (codes "IMAP authentication may expose credentials")
          (codes "Traditional IMAP can expose authentication material when TLS is not enforced.")
          (codes "TCP/143 is reachable.")
          (codes "Require TLS/STARTTLS and disable insecure authentication where possible.")
          (pos 90)
        ∷ []
    else findings

unfoldable pub check_remote_authentication_exposure :
    ServiceInfo → List CredentialFinding → List CredentialFinding
check_remote_authentication_exposure service findings =
    if eq_int service.port (pos 22)
    then findings
      ++ make_finding service low (codes "SLP-CRED-SSH")
          (codes "SSH authentication surface exposed")
          (codes
            "SSH provides encrypted authentication, but an exposed remote authentication service increases the authentication attack surface.")
          (codes "TCP/22 is reachable and identified as SSH.")
          (codes
            "Restrict SSH access using firewall rules, VPN access, key-based authentication and appropriate rate-limiting controls.")
          (pos 90)
        ∷ []
    else if eq_int service.port (pos 3389)
    then findings
      ++ make_finding service high (codes "SLP-CRED-RDP")
          (codes "RDP authentication surface exposed")
          (codes
            "Remote Desktop exposes a remote authentication interface that should normally be restricted to trusted networks.")
          (codes "TCP/3389 is reachable.")
          (codes
            "Restrict RDP through VPN or firewall policies and enforce strong authentication controls.")
          (pos 94)
        ∷ []
    else if eq_int service.port (pos 445)
    then findings
      ++ make_finding service high (codes "SLP-CRED-SMB")
          (codes "SMB authentication surface exposed")
          (codes
            "SMB provides a network authentication surface that can increase credential-related attack risk when exposed to untrusted networks.")
          (codes "TCP/445 is reachable.")
          (codes "Restrict SMB to trusted networks and enforce modern SMB security policies.")
          (pos 93)
        ∷ []
    else findings

unfoldable pub check_database_authentication_exposure :
    ServiceInfo → List CredentialFinding → List CredentialFinding
check_database_authentication_exposure service findings =
    if eq_int service.port (pos 3306)
    then findings
      ++ make_finding service high (codes "SLP-CRED-MYSQL")
          (codes "MySQL authentication endpoint exposed")
          (codes
            "A remotely reachable database authentication service increases the risk of credential attacks and unauthorized database access.")
          (codes "TCP/3306 is reachable.")
          (codes
            "Restrict MySQL access to trusted application hosts and require strong authentication.")
          (pos 93)
        ∷ []
    else if eq_int service.port (pos 5432)
    then findings
      ++ make_finding service high (codes "SLP-CRED-POSTGRES")
          (codes "PostgreSQL authentication endpoint exposed")
          (codes
            "A remotely reachable PostgreSQL authentication service increases the database attack surface.")
          (codes "TCP/5432 is reachable.")
          (codes
            "Restrict PostgreSQL access using network controls and strong authentication policies.")
          (pos 93)
        ∷ []
    else if eq_int service.port (pos 6379)
    then findings
      ++ make_finding service high (codes "SLP-CRED-REDIS")
          (codes "Redis authentication surface exposed")
          (codes
            "An exposed Redis service may present a serious authentication and unauthorized-access risk depending on its configuration.")
          (codes "TCP/6379 is reachable.")
          (codes
            "Restrict Redis to trusted hosts and enforce authentication and network access controls.")
          (pos 90)
        ∷ []
    else if eq_int service.port (pos 27017)
    then findings
      ++ make_finding service high (codes "SLP-CRED-MONGO")
          (codes "MongoDB authentication surface exposed")
          (codes
            "A remotely reachable MongoDB service increases the risk of unauthorized database access when authentication or network controls are weak.")
          (codes "TCP/27017 is reachable.")
          (codes
            "Restrict MongoDB access and enforce authentication with appropriate network segmentation.")
          (pos 90)
        ∷ []
    else findings
