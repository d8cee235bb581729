-- ===== src/Security/SecurityDetector/Causes/Ports.antt =====
-- The port by port checks of src/security/security_detector.cpp add alerts with a cause.
use slipnet.Prelude.{ℕ, refl, not, List, Bytes}
use slipnet.Prelude.Int.{pos, eq_int}
use slipnet.Core.NetworkState.{PortInfo, ServiceInfo}
use slipnet.Security.SecurityDetector.Alerts.{Alert, for_ports}
use slipnet.Security.SecurityDetector.Exposure.{
  check_legacy_protocols, on_legacy_protocol, check_exposed_databases, on_exposed_database,
  check_remote_administration, on_remote_administration, check_management_services,
  on_management_service, check_cleartext_services, on_cleartext_service, check_high_risk_services,
  on_high_risk_service,
}
use slipnet.Security.SecurityDetector.Causes.{
  exposure, IsOpenAt, IsOpen, Cause, Adds, same, if_case, add_one, for_ports-Adds, All-map,
  self-IsOpen, expose,
}

module _ (ip : Bytes) (ports : List PortInfo) (services : List ServiceInfo) where
  abbrev C : Bytes → ℕ → Type 0
  C = Cause ip ports services

  -- A loop over the ports of the analysis, whose rounds add for a port that is open there.
  loop-Adds :
      (body : PortInfo → List Alert → List Alert) (alerts : List Alert)
      → ((p : PortInfo)
          → ((n : ℕ) → IsOpenAt n p → IsOpen n ports)
          → (xs : List Alert) → Adds C xs (body p xs))
      → Adds C alerts (for_ports body ports alerts)
  loop-Adds body alerts f = for_ports-Adds body ports alerts (
      All-map (λ p. (n : ℕ) → IsOpenAt n p → IsOpen n ports)
        (λ p. (xs : List Alert) → Adds C xs (body p xs)) ports f (self-IsOpen ports))

  pub on_legacy_protocol-Adds :
      (p : PortInfo)
      → ((n : ℕ) → IsOpenAt n p → IsOpen n ports)
      → (xs : List Alert) → Adds C xs (on_legacy_protocol ip p xs)
  unfolding on_legacy_protocol exposure
  on_legacy_protocol-Adds p w xs =
      if_case (Adds C xs) (not p.is_open) (λ _. same)
        λ o.
          if_case (Adds C xs) (eq_int p.port (pos 23))
            (λ e. add_one xs _ _ _ (expose p 23 w o e refl))
            λ _.
              if_case (Adds C xs) (eq_int p.port (pos 21))
                (λ e. add_one xs _ _ _ (expose p 21 w o e refl))
                λ _.
                  if_case (Adds C xs) (eq_int p.port (pos 69))
                    (λ e. add_one xs _ _ _ (expose p 69 w o e refl)) λ _. same

  pub check_legacy_protocols-Adds :
      (xs : List Alert) → Adds C xs (check_legacy_protocols ip ports xs)
  unfolding check_legacy_protocols
  check_legacy_protocols-Adds xs = loop-Adds (on_legacy_protocol ip) xs on_legacy_protocol-Adds

  pub on_exposed_database-Adds :
      (p : PortInfo)
      → ((n : ℕ) → IsOpenAt n p → IsOpen n ports)
      → (xs : List Alert) → Adds C xs (on_exposed_database ip p xs)
  unfolding on_exposed_database exposure
  on_exposed_database-Adds p w xs =
      if_case (Adds C xs) (not p.is_open) (λ _. same)
        λ o.
          if_case (Adds C xs) (eq_int p.port (pos 3306))
            (λ e. add_one xs _ _ _ (expose p 3306 w o e refl))
            λ _.
              if_case (Adds C xs) (eq_int p.port (pos 5432))
                (λ e. add_one xs _ _ _ (expose p 5432 w o e refl))
                λ _.
                  if_case (Adds C xs) (eq_int p.port (pos 27017))
                    (λ e. add_one xs _ _ _ (expose p 27017 w o e refl))
                    λ _.
                      if_case (Adds C xs) (eq_int p.port (pos 6379))
                        (λ e. add_one xs _ _ _ (expose p 6379 w o e refl))
                        λ _.
                          if_case (Adds C xs) (eq_int p.port (pos 9200))
                            (λ e. add_one xs _ _ _ (expose p 9200 w o e refl)) λ _. same

  pub check_exposed_databases-Adds :
      (xs : List Alert) → Adds C xs (check_exposed_databases ip ports xs)
  unfolding check_exposed_databases
  check_exposed_databases-Adds xs = loop-Adds (on_exposed_database ip) xs on_exposed_database-Adds

  pub on_remote_administration-Adds :
      (p : PortInfo)
      → ((n : ℕ) → IsOpenAt n p → IsOpen n ports)
      → (xs : List Alert) → Adds C xs (on_remote_administration ip p xs)
  unfolding on_remote_administration exposure
  on_remote_administration-Adds p w xs =
      if_case (Adds C xs) (not p.is_open) (λ _. same)
        λ o.
          if_case (Adds C xs) (eq_int p.port (pos 22))
            (λ e. add_one xs _ _ _ (expose p 22 w o e refl))
            λ _.
              if_case (Adds C xs) (eq_int p.port (pos 3389))
                (λ e. add_one xs _ _ _ (expose p 3389 w o e refl))
                λ _.
                  if_case (Adds C xs) (eq_int p.port (pos 5900))
                    (λ e. add_one xs _ _ _ (expose p 5900 w o e refl)) λ _. same

  pub check_remote_administration-Adds :
      (xs : List Alert) → Adds C xs (check_remote_administration ip ports xs)
  unfolding check_remote_administration
  check_remote_administration-Adds xs =
      loop-Adds (on_remote_administration ip) xs on_remote_administration-Adds

  pub on_management_service-Adds :
      (p : PortInfo)
      → ((n : ℕ) → IsOpenAt n p → IsOpen n ports)
      → (xs : List Alert) → Adds C xs (on_management_service ip p xs)
  unfolding on_management_service exposure
  on_management_service-Adds p w xs =
      if_case (Adds C xs) (not p.is_open) (λ _. same)
        λ o.
          if_case (Adds C xs) (eq_int p.port (pos 161))
            (λ e. add_one xs _ _ _ (expose p 161 w o e refl))
            λ _.
              if_case (Adds C xs) (eq_int p.port (pos 2375))
                (λ e. add_one xs _ _ _ (expose p 2375 w o e refl))
                λ _.
                  if_case (Adds C xs) (eq_int p.port (pos 2376))
                    (λ e. add_one xs _ _ _ (expose p 2376 w o e refl)) λ _. same

  pub check_management_services-Adds :
      (xs : List Alert) → Adds C xs (check_management_services ip ports xs)
  unfolding check_management_services
  check_management_services-Adds xs =
      loop-Adds (on_management_service ip) xs on_management_service-Adds

  pub on_cleartext_service-Adds :
      (p : PortInfo)
      → ((n : ℕ) → IsOpenAt n p → IsOpen n ports)
      → (xs : List Alert) → Adds C xs (on_cleartext_service ip p xs)
  unfolding on_cleartext_service exposure
  on_cleartext_service-Adds p w xs =
      if_case (Adds C xs) (not p.is_open) (λ _. same)
        λ o.
          if_case (Adds C xs) (eq_int p.port (pos 25))
            (λ e. add_one xs _ _ _ (expose p 25 w o e refl))
            λ _.
              if_case (Adds C xs) (eq_int p.port (pos 110))
                (λ e. add_one xs _ _ _ (expose p 110 w o e refl))
                λ _.
                  if_case (Adds C xs) (eq_int p.port (pos 143))
                    (λ e. add_one xs _ _ _ (expose p 143 w o e refl))
                    λ _.
                      if_case (Adds C xs) (eq_int p.port (pos 80))
                        (λ e. add_one xs _ _ _ (expose p 80 w o e refl)) λ _. same

  pub check_cleartext_services-Adds :
      (xs : List Alert) → Adds C xs (check_cleartext_services ip ports xs)
  unfolding check_cleartext_services
  check_cleartext_services-Adds xs =
      loop-Adds (on_cleartext_service ip) xs on_cleartext_service-Adds

  pub on_high_risk_service-Adds :
      (p : PortInfo)
      → ((n : ℕ) → IsOpenAt n p → IsOpen n ports)
      → (xs : List Alert) → Adds C xs (on_high_risk_service ip p xs)
  unfolding on_high_risk_service exposure
  on_high_risk_service-Adds p w xs =
      if_case (Adds C xs) (not p.is_open) (λ _. same)
        λ o.
          if_case (Adds C xs) (eq_int p.port (pos 111))
            (λ e. add_one xs _ _ _ (expose p 111 w o e refl))
            λ _.
              if_case (Adds C xs) (eq_int p.port (pos 2049))
                (λ e. add_one xs _ _ _ (expose p 2049 w o e refl))
                λ _.
                  if_case (Adds C xs) (eq_int p.port (pos 5000))
                    (λ e. add_one xs _ _ _ (expose p 5000 w o e refl)) λ _. same

  pub check_high_risk_services-Adds :
      (xs : List Alert) → Adds C xs (check_high_risk_services ip ports xs)
  unfolding check_high_risk_services
  check_high_risk_services-Adds xs =
      loop-Adds (on_high_risk_service ip) xs on_high_risk_service-Adds
