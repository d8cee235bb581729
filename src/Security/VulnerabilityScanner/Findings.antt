-- ===== src/Security/VulnerabilityScanner/Findings.antt =====
-- The findings and the helpers of include/security/vulnerability_scanner.hpp and
-- src/security/vulnerability_scanner.cpp.
use slipnet.Prelude.{
  ℕ, ◌≡◌, refl, Bool, true, false, ◌&&◌, ◌||◌, List, [], ◌∷◌, ◌++◌, map, ◌==◌, if◌then◌else◌, Bytes,
  codes, eq_bytes, to_lower,
}
use slipnet.Prelude.Int.{ℤ, pos, eq_int, lt_int}
use slipnet.Core.NetworkState.{ServiceInfo}

pub data VulnerabilitySeverity : Type 0 where
  info : VulnerabilitySeverity
  low : VulnerabilitySeverity
  medium : VulnerabilitySeverity
  high : VulnerabilitySeverity
  critical : VulnerabilitySeverity

-- `static_cast<int>` of a severity.
abbrev pub severity_code : VulnerabilitySeverity → ℕ
severity_code VulnerabilitySeverity.info = 0
severity_code VulnerabilitySeverity.low = 1
severity_code VulnerabilitySeverity.medium = 2
severity_code VulnerabilitySeverity.high = 3
severity_code VulnerabilitySeverity.critical = 4

pub data VulnerabilityCategory : Type 0 where
  exposure : VulnerabilityCategory
  legacy_software : VulnerabilityCategory
  insecure_protocol : VulnerabilityCategory
  database_exposure : VulnerabilityCategory
  remote_access : VulnerabilityCategory
  information_disclosure : VulnerabilityCategory
  configuration : VulnerabilityCategory

pub record VulnerabilityFinding : Type 0 where
  pub host : Bytes
  pub port : ℤ
  pub service : Bytes
  pub version : Bytes
  pub id : Bytes
  pub title : Bytes
  pub description : Bytes
  pub evidence : Bytes
  pub remediation : Bytes
  pub severity : VulnerabilitySeverity
  pub category : VulnerabilityCategory
  pub confidence : ℤ

-- `std::clamp(confidence, 0, 100)`.
abbrev pub clamp : ℤ → ℤ
clamp confidence =
    if lt_int confidence (pos 0)
    then pos 0
    else if lt_int (pos 100) confidence
    then pos 100
    else confidence

abbrev pub make_finding :
    ServiceInfo
    → VulnerabilitySeverity
    → VulnerabilityCategory
    → Bytes
    → Bytes
    → Bytes
    → Bytes
    → Bytes
    → ℤ
    → VulnerabilityFinding
make_finding service severity category id title description evidence remediation confidence =
    record {
      host = service.ip;
      port = service.port;
      service = service.service;
      version = service.version;
      id = id;
      title = title;
      description = description;
      evidence = evidence;
      remediation = remediation;
      severity = severity;
      category = category;
      confidence = clamp confidence;
    }

unfoldable pub lower : Bytes → Bytes
lower value = map to_lower value

-- The text starts with the other.
abbrev pub starts_with : Bytes → Bytes → Bool
starts_with value [] = true
starts_with [] (p ∷ prefix) = false
starts_with (v ∷ value) (p ∷ prefix) = v == p && starts_with value prefix

-- Whether `std::string::find` finds the other text at some position.
abbrev pub occurs : Bytes → Bytes → Bool
occurs [] search = starts_with [] search
occurs (v ∷ value) search = starts_with (v ∷ value) search || occurs value search

unfoldable pub contains : Bytes → Bytes → Bool
unfolding lower
contains value search = occurs (lower value) (lower search)

unfoldable pub version_starts_with : Bytes → Bytes → Bool
unfolding lower
version_starts_with version prefix = starts_with (lower version) (lower prefix)

unfoldable pub duplicate_finding : List VulnerabilityFinding → Bytes → ℤ → Bytes → Bool
duplicate_finding [] host port id = false
duplicate_finding (finding ∷ findings) host port id =
    (eq_bytes finding.host host && eq_int finding.port port && eq_bytes finding.id id)
    || duplicate_finding findings host port id

-- `findings.push_back` under a test.
unfoldable pub report :
    Bool → VulnerabilityFinding → List VulnerabilityFinding → List VulnerabilityFinding
report test finding findings = if test then findings ++ finding ∷ [] else findings

texts :
    (contains (codes "Apache httpd") (codes "apache") ≡ true)
    × (contains (codes "") (codes "") ≡ true)
    × (contains (codes "MariaDB") (codes "mysql") ≡ false)
    × (version_starts_with (codes "nginx/1.18.0") (codes "nginx/1.1") ≡ true)
    × (contains (codes "15.0.2") (codes "5.0") ≡ true)
unfolding contains version_starts_with to_lower
texts = (refl, refl, refl, refl, refl)
