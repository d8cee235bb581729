-- ===== src/Security/SecurityDetector/Found.antt =====
-- What `SecurityDetector::analyze` of src/security/security_detector.cpp reports, and in which order.
pub mod Ports
pub mod Collected
use mathlib.Core.Path.{subst}
use slipnet.Prelude.{
  ℕ, ◌≡◌, refl, sym, inl, inr, Bool, true, false, Option, some, List, [], ◌∷◌, ◌==◌, if◌then◌else◌,
  Bool-cases, Bytes, codes, All, Has, ==_iff, arith,
}
use slipnet.Prelude.Int.{pos}
use slipnet.Core.NetworkState.{PortInfo, ServiceInfo}
use slipnet.Security.SecurityDetector.Alerts.{Alert, add_alert}
use slipnet.Security.SecurityDetector.Exposure.{
  check_legacy_protocols, check_exposed_databases, check_remote_administration,
  check_management_services, check_cleartext_services, check_high_risk_services,
}
use slipnet.Security.SecurityDetector.Context.{
  check_file_sharing, check_service_exposure, check_service_port_consistency, check_attack_surface,
  check_administrative_exposure,
}
use slipnet.Security.SecurityDetector.Analyze.{IsSort, collect, analyze}
use slipnet.Security.SecurityDetector.Causes.{
  exposures, exposure_in, exposure, IsOpenAt, IsOpen, Cause, Adds, same, Adds_trans,
}
use slipnet.Security.SecurityDetector.Causes.Ports.{
  check_legacy_protocols-Adds, check_exposed_databases-Adds, check_remote_administration-Adds,
  check_management_services-Adds, check_cleartext_services-Adds, check_high_risk_services-Adds,
}
use slipnet.Security.SecurityDetector.Causes.Others.{
  check_file_sharing-Adds, check_service_exposure-Adds, check_service_port_consistency-Adds,
  check_attack_surface-Adds, check_administrative_exposure-Adds,
}
use slipnet.Security.SecurityDetector.Growth.{
  HasType, Adds-Has, Caused, Adds-Caused, Twinless, Adds-Twinless,
}
use slipnet.Security.SecurityDetector.Sorting.{
  Perm-All, Perm-Has, Perm-Twinless, Descending, InOrder-Descending,
}
use slipnet.Security.SecurityDetector.Found.Ports.{
  check_legacy_protocols-Finds, check_exposed_databases-Finds, check_remote_administration-Finds,
  check_management_services-Finds, check_file_sharing-Finds, check_cleartext_services-Finds,
  check_high_risk_services-Finds,
}
use slipnet.Security.SecurityDetector.Found.Collected.{collect-Adds, collect-exposures}

module _ (ip : Bytes) (ports : List PortInfo) (services : List ServiceInfo) where
  abbrev C : Bytes → ℕ → Type 0
  C = Cause ip ports services

  row_found :
      (rows : List (ℕ × Bytes × ℕ)) (alerts : List Alert) (n : ℕ) (t : Bytes) (severity : ℕ)
      → All (λ r. IsOpen r.0 ports → HasType r.1 alerts) rows
      → exposure_in rows n ≡ some (t, severity)
      → IsOpen n ports
      → HasType t alerts
  row_found [] alerts n t severity h e k = absurd (cc e)
  row_found ((m, u, w) ∷ rows) alerts n t severity h e k = elim (Bool-cases (m == n)) [
    | inl q ↦
        let found : (m ≡ n) × (u ≡ t) = (ground arith, ground arith) in
        subst (λ x. HasType x alerts) found.1 (h.0 (subst (λ x. IsOpen x ports) (sym found.0) k))
    | inr q ↦ row_found rows alerts n t severity h.1 (rw q at e) k
  ]

  module _ (sort : List Alert → List Alert) (sorts : IsSort sort) where
    -- Every alert reported has a cause: an open port of the table `exposures` with the alert's type
    -- and severity, a service of the host that is identified as telnet, a service of the host whose
    -- port is not open, ten to nineteen or at least twenty open ports, or at least two administrative
    -- services.
    pub analyze-Caused : Caused C (analyze sort ip ports services)
    unfolding analyze
    analyze-Caused =
        Perm-All (λ a. C a.type a.severity) (sorts.same_alerts (collect ip ports services))
          (Adds-Caused (collect-Adds ip ports services) tt)

    -- Every open port that the table `exposures` has is reported by an alert of the type that the
    -- table has for it, whatever sorting function that meets the standard is used.
    pub analyze-HasType :
        (n : ℕ) (t : Bytes) (severity : ℕ)
        → exposure n ≡ some (t, severity)
        → IsOpen n ports
        → HasType t (analyze sort ip ports services)
    unfolding analyze exposure
    analyze-HasType n t severity e k =
        Perm-Has (λ a. a.type ≡ t) (sorts.same_alerts (collect ip ports services))
          (row_found exposures (collect ip ports services) n t severity
            (collect-exposures ip ports services) e k)

    -- No two alerts reported have the same type and description.
    pub analyze-Twinless : Twinless (analyze sort ip ports services)
    unfolding analyze
    analyze-Twinless =
        Perm-Twinless (sorts.same_alerts (collect ip ports services))
          (Adds-Twinless (collect-Adds ip ports services) tt)

    -- The alerts are reported in the order of their severity, the highest first.
    pub analyze-Descending : Descending (analyze sort ip ports services)
    unfolding analyze
    analyze-Descending =
        InOrder-Descending (analyze sort ip ports services)
          (sorts.in_order (collect ip ports services))
