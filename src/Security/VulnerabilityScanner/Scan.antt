-- ===== src/Security/VulnerabilityScanner/Scan.antt =====
-- `VulnerabilityScanner::scan` of src/security/vulnerability_scanner.cpp. `std::sort` is a parameter:
-- the order in which it leaves findings that compare equal is not specified.
use slipnet.Prelude.{Bool, not, List, [], ◌∷◌, ◌++◌, ltb, ◌==◌, if◌then◌else◌, eq_bytes}
use slipnet.Prelude.Int.{eq_int, lt_int}
use slipnet.Core.NetworkState.{ServiceInfo}
use slipnet.Security.SecurityDetector.Analyze.{lt_bytes}
use slipnet.Security.VulnerabilityScanner.Findings.{
  VulnerabilityFinding, severity_code, duplicate_finding,
}
use slipnet.Security.VulnerabilityScanner.Checks.{
  check_exposure, check_insecure_protocol, check_remote_access, check_database_exposure,
  check_legacy_version,
}

-- One round of the loop over the services.
unfoldable pub scan_service : ServiceInfo → List VulnerabilityFinding → List VulnerabilityFinding
scan_service service findings =
    let f1 = check_exposure service findings in
    let f2 = check_insecure_protocol service f1 in
    let f3 = check_remote_access service f2 in
    let f4 = check_database_exposure service f3 in check_legacy_version service f4

unfoldable pub scan_services :
    List ServiceInfo → List VulnerabilityFinding → List VulnerabilityFinding
unfolding scan_service
scan_services [] findings = findings
scan_services (service ∷ services) findings = scan_services services (scan_service service findings)

-- The loop that leaves out duplicates.
unfoldable pub keep_unique :
    List VulnerabilityFinding → List VulnerabilityFinding → List VulnerabilityFinding
keep_unique [] unique = unique
keep_unique (finding ∷ findings) unique = keep_unique findings (
    if duplicate_finding unique finding.host finding.port finding.id
    then unique
    else unique ++ finding ∷ [])

-- The comparison handed to `std::sort`.
unfoldable pub before : VulnerabilityFinding → VulnerabilityFinding → Bool
before a b =
    let severity_a = severity_code a.severity in
    let severity_b = severity_code b.severity in
    if not (severity_a == severity_b)
    then ltb severity_b severity_a
    else if not (eq_int a.confidence b.confidence)
    then lt_int b.confidence a.confidence
    else if not (eq_bytes a.host b.host)
    then lt_bytes a.host b.host
    else lt_int a.port b.port

module _ (sort : List VulnerabilityFinding → List VulnerabilityFinding) where
  unfoldable pub scan : List ServiceInfo → List VulnerabilityFinding
  unfolding scan_services keep_unique
  scan services = sort (keep_unique (scan_services services []) [])
