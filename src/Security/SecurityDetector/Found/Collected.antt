-- ===== src/Security/SecurityDetector/Found/Collected.antt =====
-- The alerts that `SecurityDetector::analyze` of src/security/security_detector.cpp collects before it
-- sorts them.
use slipnet.Prelude.{ℕ, ◌≡◌, List, [], ◌∷◌, ◌++◌, All-append, Bytes, All}
use slipnet.Core.NetworkState.{PortInfo, ServiceInfo}
use slipnet.Security.SecurityDetector.Alerts.{Alert}
use slipnet.Security.SecurityDetector.Exposure.{
  check_legacy_protocols, check_exposed_databases, check_remote_administration,
  check_management_services, check_cleartext_services, check_high_risk_services,
}
use slipnet.Security.SecurityDetector.Context.{
  check_file_sharing, check_service_exposure, check_service_port_consistency, check_attack_surface,
  check_administrative_exposure,
}
use slipnet.Security.SecurityDetector.Analyze.{collect}
use slipnet.Security.SecurityDetector.Causes.{exposures, IsOpen, Cause, Adds, Adds_trans}
use slipnet.Security.SecurityDetector.Causes.Ports.{
  check_legacy_protocols-Adds, check_exposed_databases-Adds, check_remote_administration-Adds,
  check_management_services-Adds, check_cleartext_services-Adds, check_high_risk_services-Adds,
}
use slipnet.Security.SecurityDetector.Causes.Others.{
  check_file_sharing-Adds, check_service_exposure-Adds, check_service_port_consistency-Adds,
  check_attack_surface-Adds, check_administrative_exposure-Adds,
}
use slipnet.Security.SecurityDetector.Growth.{HasType, Adds-Has}
use slipnet.Security.SecurityDetector.Found.Ports.{
  Finds, legacy_rows, database_rows, remote_rows, management_rows, cleartext_rows, high_risk_rows,
  sharing_rows, check_legacy_protocols-Finds, check_exposed_databases-Finds,
  check_remote_administration-Finds, check_management_services-Finds, check_file_sharing-Finds,
  check_cleartext_services-Finds, check_high_risk_services-Finds,
}

module _ (ip : Bytes) (ports : List PortInfo) (services : List ServiceInfo) where
  abbrev C : Bytes → ℕ → Type 0
  C = Cause ip ports services

  -- The checks of `analyze` from one of them on.
  abbrev from_administrative_exposure : List Alert → List Alert
  from_administrative_exposure xs = check_administrative_exposure ip ports xs

  abbrev from_attack_surface : List Alert → List Alert
  from_attack_surface xs = from_administrative_exposure (check_attack_surface ip ports xs)

  abbrev from_service_port_consistency : List Alert → List Alert
  from_service_port_consistency xs =
      from_attack_surface (check_service_port_consistency ip ports services xs)

  abbrev from_service_exposure : List Alert → List Alert
  from_service_exposure xs = from_service_port_consistency (check_service_exposure ip services xs)

  abbrev from_high_risk_services : List Alert → List Alert
  from_high_risk_services xs = from_service_exposure (check_high_risk_services ip ports xs)

  abbrev from_cleartext_services : List Alert → List Alert
  from_cleartext_services xs = from_high_risk_services (check_cleartext_services ip ports xs)

  abbrev from_file_sharing : List Alert → List Alert
  from_file_sharing xs = from_cleartext_services (check_file_sharing ip ports xs)

  abbrev from_management_services : List Alert → List Alert
  from_management_services xs = from_file_sharing (check_management_services ip ports xs)

  abbrev from_remote_administration : List Alert → List Alert
  from_remote_administration xs = from_management_services (check_remote_administration ip ports xs)

  abbrev from_exposed_databases : List Alert → List Alert
  from_exposed_databases xs = from_remote_administration (check_exposed_databases ip ports xs)

  abbrev from_legacy_protocols : List Alert → List Alert
  from_legacy_protocols xs = from_exposed_databases (check_legacy_protocols ip ports xs)

  from_administrative_exposure-Adds :
      (xs : List Alert) → Adds C xs (from_administrative_exposure xs)
  from_administrative_exposure-Adds xs = check_administrative_exposure-Adds ip ports services xs

  from_attack_surface-Adds : (xs : List Alert) → Adds C xs (from_attack_surface xs)
  from_attack_surface-Adds xs =
      Adds_trans (check_attack_surface-Adds ip ports services xs)
        (from_administrative_exposure-Adds (check_attack_surface ip ports xs))

  from_service_port_consistency-Adds :
      (xs : List Alert) → Adds C xs (from_service_port_consistency xs)
  from_service_port_consistency-Adds xs =
      Adds_trans (check_service_port_consistency-Adds ip ports services xs)
        (from_attack_surface-Adds (check_service_port_consistency ip ports services xs))

  from_service_exposure-Adds : (xs : List Alert) → Adds C xs (from_service_exposure xs)
  from_service_exposure-Adds xs =
      Adds_trans (check_service_exposure-Adds ip ports services xs)
        (from_service_port_consistency-Adds (check_service_exposure ip services xs))

  from_high_risk_services-Adds : (xs : List Alert) → Adds C xs (from_high_risk_services xs)
  from_high_risk_services-Adds xs =
      Adds_trans (check_high_risk_services-Adds ip ports services xs)
        (from_service_exposure-Adds (check_high_risk_services ip ports xs))

  from_cleartext_services-Adds : (xs : List Alert) → Adds C xs (from_cleartext_services xs)
  from_cleartext_services-Adds xs =
      Adds_trans (check_cleartext_services-Adds ip ports services xs)
        (from_high_risk_services-Adds (check_cleartext_services ip ports xs))

  from_file_sharing-Adds : (xs : List Alert) → Adds C xs (from_file_sharing xs)
  from_file_sharing-Adds xs =
      Adds_trans (check_file_sharing-Adds ip ports services xs)
        (from_cleartext_services-Adds (check_file_sharing ip ports xs))

  from_management_services-Adds : (xs : List Alert) → Adds C xs (from_management_services xs)
  from_management_services-Adds xs =
      Adds_trans (check_management_services-Adds ip ports services xs)
        (from_file_sharing-Adds (check_management_services ip ports xs))

  from_remote_administration-Adds : (xs : List Alert) → Adds C xs (from_remote_administration xs)
  from_remote_administration-Adds xs =
      Adds_trans (check_remote_administration-Adds ip ports services xs)
        (from_management_services-Adds (check_remote_administration ip ports xs))

  from_exposed_databases-Adds : (xs : List Alert) → Adds C xs (from_exposed_databases xs)
  from_exposed_databases-Adds xs =
      Adds_trans (check_exposed_databases-Adds ip ports services xs)
        (from_remote_administration-Adds (check_exposed_databases ip ports xs))

  from_legacy_protocols-Adds : (xs : List Alert) → Adds C xs (from_legacy_protocols xs)
  from_legacy_protocols-Adds xs =
      Adds_trans (check_legacy_protocols-Adds ip ports services xs)
        (from_exposed_databases-Adds (check_legacy_protocols ip ports xs))

  pub collect-Adds : Adds C [] (collect ip ports services)
  unfolding collect
  collect-Adds = from_legacy_protocols-Adds []

  abbrev pub FoundIn : List Alert → ℕ × Bytes → Type 0
  FoundIn alerts row = IsOpen row.0 ports → HasType row.1 alerts

  -- What a check finds is there behind the checks that follow it.
  found_later :
      (check : List Alert → List Alert) (rows : List (ℕ × Bytes)) {xs ys : List Alert}
      → Adds C (check xs) ys
      → Finds ports check rows
      → All (FoundIn ys) rows
  found_later check [] a f = tt
  found_later check (row ∷ rows) {xs} a f =
      ((λ h. Adds-Has (λ x. x.type ≡ row.1) a (f.0 h xs)), found_later check rows a f.1)

  collect-rows : All (FoundIn (collect ip ports services)) (
      legacy_rows
      ++ (database_rows
          ++ (remote_rows
              ++ (management_rows ++ (cleartext_rows ++ (high_risk_rows ++ sharing_rows))))))
  unfolding collect
  collect-rows =
      let join = All-append (FoundIn (collect ip ports services)) in
      let legacy =
        found_later (check_legacy_protocols ip ports) legacy_rows (from_exposed_databases-Adds _)
          (check_legacy_protocols-Finds ip ports services) in
      let databases =
        found_later (check_exposed_databases ip ports) database_rows
          (from_remote_administration-Adds _) (check_exposed_databases-Finds ip ports services) in
      let remote =
        found_later (check_remote_administration ip ports) remote_rows
          (from_management_services-Adds _) (check_remote_administration-Finds ip ports services) in
      let management =
        found_later (check_management_services ip ports) management_rows (from_file_sharing-Adds _)
          (check_management_services-Finds ip ports services) in
      let cleartext =
        found_later (check_cleartext_services ip ports) cleartext_rows
          (from_high_risk_services-Adds _) (check_cleartext_services-Finds ip ports services) in
      let high_risk =
        found_later (check_high_risk_services ip ports) high_risk_rows
          (from_service_exposure-Adds _) (check_high_risk_services-Finds ip ports services) in
      let xs = check_management_services ip ports (
        check_remote_administration ip ports
          (check_exposed_databases ip ports (check_legacy_protocols ip ports []))) in
      let sharing =
        found_later (check_file_sharing ip ports) sharing_rows {xs = xs}
          (from_cleartext_services-Adds _) (check_file_sharing-Finds ip ports services) in
      let behind_cleartext = high_risk_rows ++ sharing_rows in
      let behind_management = cleartext_rows ++ behind_cleartext in
      let behind_remote = management_rows ++ behind_management in
      let behind_database = remote_rows ++ behind_remote in
      join legacy_rows (database_rows ++ behind_database) legacy (
        join database_rows behind_database databases (
          join remote_rows behind_remote remote (
            join management_rows behind_management management (
              join cleartext_rows behind_cleartext cleartext
                (join high_risk_rows sharing_rows high_risk sharing)))))

  pub collect-exposures :
      All (λ r. IsOpen r.0 ports → HasType r.1 (collect ip ports services)) exposures
  collect-exposures = collect-rows
