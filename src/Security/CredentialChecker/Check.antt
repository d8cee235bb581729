-- ===== src/Security/CredentialChecker/Check.antt =====
-- `CredentialChecker::check` of src/security/credential_checker.cpp. `std::sort` is a parameter: the
-- order in which it leaves findings that compare equal is not specified.
use slipnet.Prelude.{Bool, not, List, [], ◌∷◌, ltb, ◌==◌, if◌then◌else◌, eq_bytes}
use slipnet.Prelude.Int.{lt_int}
use slipnet.Core.NetworkState.{ServiceInfo}
use slipnet.Security.SecurityDetector.Analyze.{lt_bytes}
use slipnet.Security.CredentialChecker.Findings.{CredentialFinding, risk_code}
use slipnet.Security.CredentialChecker.Checks.{
  check_plaintext_authentication, check_remote_authentication_exposure,
  check_database_authentication_exposure,
}

-- One round of the loop over the services.
unfoldable pub check_service : ServiceInfo → List CredentialFinding → List CredentialFinding
check_service service findings =
    let f1 = check_plaintext_authentication service findings in
    let f2 = check_remote_authentication_exposure service f1 in
    check_database_authentication_exposure service f2

unfoldable pub check_services : List ServiceInfo → List CredentialFinding → List CredentialFinding
unfolding check_service
check_services [] findings = findings
check_services (service ∷ services) findings =
    check_services services (check_service service findings)

-- The comparison handed to `std::sort`.
unfoldable pub before : CredentialFinding → CredentialFinding → Bool
before a b =
    if not (risk_code a.risk == risk_code b.risk)
    then ltb (risk_code b.risk) (risk_code a.risk)
    else if not (eq_bytes a.host b.host)
    then lt_bytes a.host b.host
    else lt_int a.port b.port

module _ (sort : List CredentialFinding → List CredentialFinding) where
  unfoldable pub check : List ServiceInfo → List CredentialFinding
  unfolding check_services
  check services = sort (check_services services [])
