-- ===== src/Security/SecurityDetector/Found/Ports.antt =====
-- Each check of src/security/security_detector.cpp over ports finds each of its open ports.
use slipnet.Prelude.{
  ℕ, ◌≡◌, refl, inl, inr, Bool, true, false, ◌&&◌, ◌||◌, List, [], ◌∷◌, Bytes, codes, All, arith,
}
use slipnet.Prelude.Int.{pos, eq_int, eq_int_iff}
use slipnet.Core.NetworkState.{PortInfo, ServiceInfo}
use slipnet.Security.SecurityDetector.Alerts.{Alert, add_alert}
use slipnet.Security.SecurityDetector.Exposure.{
  check_legacy_protocols, on_legacy_protocol, check_exposed_databases, on_exposed_database,
  check_remote_administration, on_remote_administration, check_management_services,
  on_management_service, check_cleartext_services, on_cleartext_service, check_high_risk_services,
  on_high_risk_service,
}
use slipnet.Security.SecurityDetector.Context.{check_file_sharing, saw_open}
use slipnet.Security.SecurityDetector.Causes.{
  IsOpenAt, IsOpen, Cause, Adds, if_case, add_one, All-map, self-IsOpen,
}
use slipnet.Security.SecurityDetector.Causes.Ports.{
  on_legacy_protocol-Adds, on_exposed_database-Adds, on_remote_administration-Adds,
  on_management_service-Adds, on_cleartext_service-Adds, on_high_risk_service-Adds,
}
use slipnet.Security.SecurityDetector.Growth.{
  HasType, Adds-Has, add_alert-HasType, for_ports-HasType,
}

-- The ports that each check looks for, and the types of its alerts.
abbrev pub legacy_rows : List (ℕ × Bytes)
legacy_rows =
    (23, codes "TELNET_EXPOSED") ∷ (21, codes "FTP_EXPOSED") ∷ (69, codes "TFTP_EXPOSED") ∷ []

abbrev pub database_rows : List (ℕ × Bytes)
database_rows =
    (3306, codes "DATABASE_EXPOSED")
    ∷ (5432, codes "DATABASE_EXPOSED")
    ∷ (27017, codes "DATABASE_EXPOSED")
    ∷ (6379, codes "CACHE_EXPOSED")
    ∷ (9200, codes "SEARCH_ENGINE_EXPOSED")
    ∷ []

abbrev pub remote_rows : List (ℕ × Bytes)
remote_rows =
    (22, codes "SSH_EXPOSED") ∷ (3389, codes "RDP_EXPOSED") ∷ (5900, codes "VNC_EXPOSED") ∷ []

abbrev pub management_rows : List (ℕ × Bytes)
management_rows =
    (161, codes "SNMP_EXPOSED")
    ∷ (2375, codes "DOCKER_API_EXPOSED")
    ∷ (2376, codes "DOCKER_TLS_API_EXPOSED")
    ∷ []

abbrev pub sharing_rows : List (ℕ × Bytes)
sharing_rows = (445, codes "SMB_EXPOSED") ∷ (139, codes "NETBIOS_EXPOSED") ∷ []

abbrev pub cleartext_rows : List (ℕ × Bytes)
cleartext_rows =
    (25, codes "SMTP_EXPOSED")
    ∷ (110, codes "POP3_EXPOSED")
    ∷ (143, codes "IMAP_EXPOSED")
    ∷ (80, codes "HTTP_EXPOSED")
    ∷ []

abbrev pub high_risk_rows : List (ℕ × Bytes)
high_risk_rows =
    (111, codes "RPC_EXPOSED")
    ∷ (2049, codes "NFS_EXPOSED")
    ∷ (5000, codes "APPLICATION_SERVICE_EXPOSED")
    ∷ []

-- The open ports of the rows are found by the check.
abbrev pub Finds : List PortInfo → (List Alert → List Alert) → List (ℕ × Bytes) → Type 0
Finds ports check rows =
    All (λ r. IsOpen r.0 ports → (xs : List Alert) → HasType r.1 (check xs)) rows

module _ (ip : Bytes) (ports : List PortInfo) (services : List ServiceInfo) where
  abbrev C : Bytes → ℕ → Type 0
  C = Cause ip ports services

  grows :
      (body : PortInfo → List Alert → List Alert)
      → ((p : PortInfo)
          → ((n : ℕ) → IsOpenAt n p → IsOpen n ports)
          → (xs : List Alert) → Adds C xs (body p xs))
      → All (λ p. (xs : List Alert) → Adds C xs (body p xs)) ports
  grows body f =
      All-map (λ p. (n : ℕ) → IsOpenAt n p → IsOpen n ports)
        (λ p. (xs : List Alert) → Adds C xs (body p xs)) ports f (self-IsOpen ports)

  pub check_legacy_protocols-Finds : Finds ports (check_legacy_protocols ip ports) legacy_rows
  unfolding check_legacy_protocols on_legacy_protocol
  check_legacy_protocols-Finds =
      let grow = grows (on_legacy_protocol ip) (on_legacy_protocol-Adds ip ports services) in
      (
        λ h xs.
            for_ports-HasType C (on_legacy_protocol ip) 23 _ ports xs grow
              (λ p ys o e. rw (o, e) (add_alert-HasType ys _ _ _)) h,
        (
          λ h xs.
              for_ports-HasType C (on_legacy_protocol ip) 21 _ ports xs grow
                (λ p ys o e. rw (o, e) (add_alert-HasType ys _ _ _)) h,
          (
            λ h xs.
                for_ports-HasType C (on_legacy_protocol ip) 69 _ ports xs grow
                  (λ p ys o e. rw (o, e) (add_alert-HasType ys _ _ _)) h,
            tt,
          ),
        ),
      )

  pub check_exposed_databases-Finds : Finds ports (check_exposed_databases ip ports) database_rows
  unfolding check_exposed_databases on_exposed_database
  check_exposed_databases-Finds =
      let grow = grows (on_exposed_database ip) (on_exposed_database-Adds ip ports services) in
      (
        λ h xs.
            for_ports-HasType C (on_exposed_database ip) 3306 _ ports xs grow
              (λ p ys o e. rw (o, e) (add_alert-HasType ys _ _ _)) h,
        (
          λ h xs.
              for_ports-HasType C (on_exposed_database ip) 5432 _ ports xs grow
                (λ p ys o e. rw (o, e) (add_alert-HasType ys _ _ _)) h,
          (
            λ h xs.
                for_ports-HasType C (on_exposed_database ip) 27017 _ ports xs grow
                  (λ p ys o e. rw (o, e) (add_alert-HasType ys _ _ _)) h,
            (
              λ h xs.
                  for_ports-HasType C (on_exposed_database ip) 6379 _ ports xs grow
                    (λ p ys o e. rw (o, e) (add_alert-HasType ys _ _ _)) h,
              (
                λ h xs.
                    for_ports-HasType C (on_exposed_database ip) 9200 _ ports xs grow
                      (λ p ys o e. rw (o, e) (add_alert-HasType ys _ _ _)) h,
                tt,
              ),
            ),
          ),
        ),
      )

  pub check_remote_administration-Finds :
      Finds ports (check_remote_administration ip ports) remote_rows
  unfolding check_remote_administration on_remote_administration
  check_remote_administration-Finds =
      let grow =
        grows (on_remote_administration ip) (on_remote_administration-Adds ip ports services) in
      (
        λ h xs.
            for_ports-HasType C (on_remote_administration ip) 22 _ ports xs grow
              (λ p ys o e. rw (o, e) (add_alert-HasType ys _ _ _)) h,
        (
          λ h xs.
              for_ports-HasType C (on_remote_administration ip) 3389 _ ports xs grow
                (λ p ys o e. rw (o, e) (add_alert-HasType ys _ _ _)) h,
          (
            λ h xs.
                for_ports-HasType C (on_remote_administration ip) 5900 _ ports xs grow
                  (λ p ys o e. rw (o, e) (add_alert-HasType ys _ _ _)) h,
            tt,
          ),
        ),
      )

  pub check_management_services-Finds :
      Finds ports (check_management_services ip ports) management_rows
  unfolding check_management_services on_management_service
  check_management_services-Finds =
      let grow = grows (on_management_service ip) (on_management_service-Adds ip ports services) in
      (
        λ h xs.
            for_ports-HasType C (on_management_service ip) 161 _ ports xs grow
              (λ p ys o e. rw (o, e) (add_alert-HasType ys _ _ _)) h,
        (
          λ h xs.
              for_ports-HasType C (on_management_service ip) 2375 _ ports xs grow
                (λ p ys o e. rw (o, e) (add_alert-HasType ys _ _ _)) h,
          (
            λ h xs.
                for_ports-HasType C (on_management_service ip) 2376 _ ports xs grow
                  (λ p ys o e. rw (o, e) (add_alert-HasType ys _ _ _)) h,
            tt,
          ),
        ),
      )

  pub check_cleartext_services-Finds :
      Finds ports (check_cleartext_services ip ports) cleartext_rows
  unfolding check_cleartext_services on_cleartext_service
  check_cleartext_services-Finds =
      let grow = grows (on_cleartext_service ip) (on_cleartext_service-Adds ip ports services) in
      (
        λ h xs.
            for_ports-HasType C (on_cleartext_service ip) 25 _ ports xs grow
              (λ p ys o e. rw (o, e) (add_alert-HasType ys _ _ _)) h,
        (
          λ h xs.
              for_ports-HasType C (on_cleartext_service ip) 110 _ ports xs grow
                (λ p ys o e. rw (o, e) (add_alert-HasType ys _ _ _)) h,
          (
            λ h xs.
                for_ports-HasType C (on_cleartext_service ip) 143 _ ports xs grow
                  (λ p ys o e. rw (o, e) (add_alert-HasType ys _ _ _)) h,
            (
              λ h xs.
                  for_ports-HasType C (on_cleartext_service ip) 80 _ ports xs grow
                    (λ p ys o e. rw (o, e) (add_alert-HasType ys _ _ _)) h,
              tt,
            ),
          ),
        ),
      )

  pub check_high_risk_services-Finds :
      Finds ports (check_high_risk_services ip ports) high_risk_rows
  unfolding check_high_risk_services on_high_risk_service
  check_high_risk_services-Finds =
      let grow = grows (on_high_risk_service ip) (on_high_risk_service-Adds ip ports services) in
      (
        λ h xs.
            for_ports-HasType C (on_high_risk_service ip) 111 _ ports xs grow
              (λ p ys o e. rw (o, e) (add_alert-HasType ys _ _ _)) h,
        (
          λ h xs.
              for_ports-HasType C (on_high_risk_service ip) 2049 _ ports xs grow
                (λ p ys o e. rw (o, e) (add_alert-HasType ys _ _ _)) h,
          (
            λ h xs.
                for_ports-HasType C (on_high_risk_service ip) 5000 _ ports xs grow
                  (λ p ys o e. rw (o, e) (add_alert-HasType ys _ _ _)) h,
            tt,
          ),
        ),
      )

  saw_open-set : (n : ℕ) (rest : List PortInfo) → saw_open (pos n) true rest ≡ true
  unfolding saw_open
  saw_open-set n [] = refl
  saw_open-set n (p ∷ rest) = saw_open-set n rest

  open_test :
      (n : ℕ) (b : Bool) (p : PortInfo)
      → IsOpenAt n p
      → (b || (p.is_open && eq_int p.port (pos n))) ≡ true
  open_test n b p (o, e) = ground (arith, eq_int_iff p.port (pos n))

  IsOpen→saw_open :
      (n : ℕ) (b : Bool) (rest : List PortInfo) → IsOpen n rest → saw_open (pos n) b rest ≡ true
  unfolding saw_open
  IsOpen→saw_open n b [] h = absurd h
  IsOpen→saw_open n b (p ∷ rest) (inl h) = rw (open_test n b p h) (saw_open-set n rest)
  IsOpen→saw_open n b (p ∷ rest) (inr h) =
      IsOpen→saw_open n (b || (p.is_open && eq_int p.port (pos n))) rest h

  pub check_file_sharing-Finds : Finds ports (check_file_sharing ip ports) sharing_rows
  unfolding check_file_sharing
  check_file_sharing-Finds = (
    λ h xs. rw (IsOpen→saw_open 445 false ports h) (
        if_case (HasType (codes "SMB_EXPOSED")) (saw_open (pos 139) false ports)
          (λ _.
            Adds-Has (λ a. a.type ≡ codes "SMB_EXPOSED") (add_any _ _ _ _)
              (add_alert-HasType xs _ _ _))
          (λ _. add_alert-HasType xs _ _ _)),
    (λ h xs. rw (IsOpen→saw_open 139 false ports h) (add_alert-HasType _ _ _ _), tt),
  )
    where
      add_any :
          (ys : List Alert) (t d : Bytes) (s : ℕ) → Adds (λ _ _. Unit {0}) ys (add_alert ys t d s)
      add_any ys t d s = add_one ys t d s tt
