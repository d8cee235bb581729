-- ===== src/Security/VulnerabilityScanner/Rules.antt =====
-- What src/security/vulnerability_scanner.cpp judges, as two tables: ports, and versions of products.
use slipnet.Prelude.{
  ℕ, zero, suc, ◌≤◌, ◌≡◌, ◌⊎◌, Bool, true, false, ◌||◌, Option, none, some, List, [], ◌∷◌, Bytes,
  codes, is_empty, Has,
}
use slipnet.Prelude.Int.{pos}
use slipnet.Core.NetworkState.{ServiceInfo}
use slipnet.Security.VulnerabilityScanner.Findings.{
  VulnerabilitySeverity, VulnerabilityCategory, VulnerabilityFinding, lower, contains,
  version_starts_with,
}
use slipnet.Security.VulnerabilityScanner.Findings.VulnerabilitySeverity.{
  low, medium, high, critical,
}
use slipnet.Security.VulnerabilityScanner.Findings.VulnerabilityCategory.{
  exposure, legacy_software, insecure_protocol, database_exposure, remote_access,
}

pub record PortRule : Type 0 where
  pub port : ℕ
  pub id : Bytes
  pub severity : VulnerabilitySeverity
  pub category : VulnerabilityCategory

abbrev rule : ℕ → Bytes → VulnerabilitySeverity → VulnerabilityCategory → PortRule
rule port id severity category = record {
  port = port;
  id = id;
  severity = severity;
  category = category;
}

abbrev database : ℕ → PortRule
database port = rule port (codes "SLP-DATABASE-EXPOSURE") high database_exposure

abbrev pub port_rules : List PortRule
port_rules =
    rule 80 (codes "SLP-WEB-CLEAR") low exposure
    ∷ rule 8080 (codes "SLP-WEB-CLEAR") low exposure
    ∷ rule 8000 (codes "SLP-WEB-CLEAR") low exposure
    ∷ rule 139 (codes "SLP-NETBIOS-EXPOSURE") high exposure
    ∷ rule 445 (codes "SLP-SMB-EXPOSURE") high exposure
    ∷ rule 21 (codes "SLP-FTP-CLEARTEXT") high insecure_protocol
    ∷ rule 23 (codes "SLP-TELNET-CLEARTEXT") critical insecure_protocol
    ∷ rule 110 (codes "SLP-POP3-CLEARTEXT") medium insecure_protocol
    ∷ rule 143 (codes "SLP-IMAP-CLEARTEXT") medium insecure_protocol
    ∷ rule 22 (codes "SLP-SSH-EXPOSURE") low remote_access
    ∷ rule 3389 (codes "SLP-RDP-EXPOSURE") high remote_access
    ∷ database 3306
    ∷ database 5432
    ∷ database 6379
    ∷ database 27017
    ∷ database 1433
    ∷ database 1521
    ∷ []

-- A product, the test of a version of it, and what is found.
pub record VersionRule : Type 0 where
  pub product : Bytes
  pub is_legacy : Bytes → Bool
  pub id : Bytes
  pub severity : VulnerabilitySeverity

abbrev pub version_rules : List VersionRule
version_rules =
    record {
      product = codes "openssh";
      is_legacy = λ v. version_starts_with v (codes "openssh_7.");
      id = codes "SLP-LEGACY-OPENSSH";
      severity = medium;
    }
    ∷ record {
      product = codes "apache";
      is_legacy = λ v. version_starts_with v (codes "apache/2.2");
      id = codes "SLP-LEGACY-APACHE";
      severity = high;
    }
    ∷ record {
      product = codes "nginx";
      is_legacy = λ v. version_starts_with v (codes "nginx/1.1");
      id = codes "SLP-LEGACY-NGINX";
      severity = medium;
    }
    ∷ record {
      product = codes "mysql";
      is_legacy = λ v. contains v (codes "5.0") || contains v (codes "5.1");
      id = codes "SLP-LEGACY-MYSQL";
      severity = high;
    }
    ∷ []

-- The finding is what the rule says, at a port of the rule.
pub record OfPort (service : ServiceInfo) (f : VulnerabilityFinding) (r : PortRule) : Type 0 where
  pub at_port : service.port ≡ pos r.port
  pub id_is : f.id ≡ r.id
  pub severity_is : f.severity ≡ r.severity
  pub category_is : f.category ≡ r.category

pub record OfVersion (service : ServiceInfo) (f : VulnerabilityFinding) (r : VersionRule)
    : Type 0 where
  pub has_version : is_empty service.version ≡ false
  pub is_product : contains (lower service.service) r.product ≡ true
  pub legacy : r.is_legacy (lower service.version) ≡ true
  pub id_is : f.id ≡ r.id
  pub severity_is : f.severity ≡ r.severity
  pub category_is : f.category ≡ legacy_software

-- The finding is about the service, and a rule of one of the tables has it.
pub record Judged (service : ServiceInfo) (f : VulnerabilityFinding) : Type 0 where
  pub of_host : f.host ≡ service.ip
  pub of_port : f.port ≡ service.port
  pub by_rule : Has (OfPort service f) port_rules ⊎ Has (OfVersion service f) version_rules
  pub sure : (n : ℕ) × (f.confidence ≡ pos n) × (72 ≤ n) × (n ≤ 99)

-- The entry at a place.
abbrev pub nth : {A : Type 0} → ℕ → List A → Option A
nth n [] = none
nth zero (x ∷ xs) = some x
nth (suc n) (x ∷ xs) = nth n xs
