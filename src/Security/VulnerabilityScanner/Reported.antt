-- ===== src/Security/VulnerabilityScanner/Reported.antt =====
-- A round of the loop over the services in src/security/vulnerability_scanner.cpp: it keeps what was
-- found, and finds what the table of ports has for the service.
use mathlib.Core.List.{append-nil, append_assoc}
use mathlib.Core.Path.{subst}
use slipnet.Prelude.{
  ◌≡◌, refl, sym, ap, ◌∙◌, inl, inr, Bool, List, [], ◌∷◌, ◌++◌, Bool-cases, Bytes, is_empty, All,
  Has, Has-append_left, Has-append_right,
}
use slipnet.Prelude.Int.{pos, lt_int}
use slipnet.Core.NetworkState.{ServiceInfo}
use slipnet.Security.VulnerabilityScanner.Findings.{VulnerabilityFinding, report}
use slipnet.Security.VulnerabilityScanner.Checks.{
  check_exposure, check_insecure_protocol, check_remote_access, check_database_exposure,
  check_legacy_version,
}
use slipnet.Security.VulnerabilityScanner.Scan.{scan_service}
use slipnet.Security.VulnerabilityScanner.Rules.{PortRule, port_rules}

-- A finding of the id for the host and port of the service.
abbrev pub Reports : ServiceInfo → Bytes → List VulnerabilityFinding → Type 0
Reports service id findings =
    Has (λ f. (f.host ≡ service.ip) × (f.port ≡ service.port) × (f.id ≡ id)) findings

abbrev check_ports : ServiceInfo → List VulnerabilityFinding → List VulnerabilityFinding
check_ports service findings = check_database_exposure service (
    check_remote_access service (check_insecure_protocol service (check_exposure service findings)))

-- The second list is the first with more behind it.
record Grown (xs ys : List VulnerabilityFinding) : Type 0 where
  more : List VulnerabilityFinding
  whole : ys ≡ xs ++ more

unchanged : (xs : List VulnerabilityFinding) → Grown xs xs
unchanged xs = record { more = []; whole = sym (append-nil xs) }

report-Grown :
    {xs ys : List VulnerabilityFinding} (test : Bool) (f : VulnerabilityFinding)
    → Grown xs ys
    → Grown xs (report test f ys)
report-Grown {xs} {ys} test f g =
    unfold report in
    elim (Bool-cases test) [
      | inr e ↦ rw e g
      | inl e ↦ rw e (record {
        more = g.more ++ f ∷ [];
        whole = ap (λ l. l ++ f ∷ []) g.whole ∙ append_assoc xs g.more (f ∷ []);
      })
    ]

check_legacy_version-Grown :
    (service : ServiceInfo) (findings : List VulnerabilityFinding)
    → Grown findings (check_legacy_version service findings)
unfolding check_legacy_version
check_legacy_version-Grown service findings = elim (Bool-cases (is_empty service.version)) [
  | inl e ↦ rw e (unchanged findings)
  | inr e ↦ rw e (
      report-Grown _ _
        (report-Grown _ _ (report-Grown _ _ (report-Grown _ _ (unchanged findings)))))
]

check_exposure-Grown :
    (service : ServiceInfo) (findings : List VulnerabilityFinding)
    → Grown findings (check_exposure service findings)
unfolding check_exposure
check_exposure-Grown service findings = elim (Bool-cases (lt_int service.port (pos 1))) [
  | inl e ↦ rw e (unchanged findings)
  | inr e ↦ rw e (report-Grown _ _ (report-Grown _ _ (report-Grown _ _ (unchanged findings))))
]

check_ports-Grown :
    (service : ServiceInfo) (findings : List VulnerabilityFinding)
    → Grown findings (check_ports service findings)
unfolding check_insecure_protocol check_remote_access check_database_exposure
check_ports-Grown service findings = report-Grown _ _ (
    report-Grown _ _ (
      report-Grown _ _ (
        report-Grown _ _ (
          report-Grown _ _
            (report-Grown _ _ (report-Grown _ _ (check_exposure-Grown service findings)))))))

module _ (P : VulnerabilityFinding → Type 0) where
  Grown-Has : {xs ys : List VulnerabilityFinding} → Grown xs ys → Has P xs → Has P ys
  Grown-Has {xs} {ys} g h = subst (Has P) (sym g.whole) (Has-append_left P xs g.more h)

  pub scan_service-Has :
      (service : ServiceInfo) (findings : List VulnerabilityFinding)
      → Has P findings
      → Has P (scan_service service findings)
  unfolding scan_service
  scan_service-Has service findings h =
      Grown-Has (check_legacy_version-Grown service _)
        (Grown-Has (check_ports-Grown service findings) h)

All-Has :
    {A : Type 0} (Q : A → Type 0) (r : A) (rules : List A)
    → Has (λ q. q ≡ r) rules
    → All Q rules
    → Q r
All-Has Q r [] h k = absurd h
All-Has Q r (q ∷ rules) (inl e) k = subst Q e k.0
All-Has Q r (q ∷ rules) (inr h) k = All-Has Q r rules h k.1

-- The rule is followed where the service has its port.
abbrev Followed : ServiceInfo → List VulnerabilityFinding → PortRule → Type 0
Followed service findings r =
    service.port ≡ pos r.port → Reports service r.id (check_ports service findings)

check_ports-Reports :
    (service : ServiceInfo) (findings : List VulnerabilityFinding)
    → All (Followed service findings) port_rules
unfolding check_exposure check_insecure_protocol check_remote_access check_database_exposure report
check_ports-Reports service findings = (
  (λ e. rw e (Has-append_right _ findings _ (inl (refl, refl, refl)))),
  (
    (λ e. rw e (Has-append_right _ findings _ (inl (refl, refl, refl)))),
    (
      (λ e. rw e (Has-append_right _ findings _ (inl (refl, refl, refl)))),
      (
        (λ e. rw e (Has-append_right _ findings _ (inl (refl, refl, refl)))),
        (
          (λ e. rw e (Has-append_right _ findings _ (inl (refl, refl, refl)))),
          (
            (λ e. rw e (Has-append_right _ findings _ (inl (refl, refl, refl)))),
            (
              (λ e. rw e (Has-append_right _ findings _ (inl (refl, refl, refl)))),
              (
                (λ e. rw e (Has-append_right _ findings _ (inl (refl, refl, refl)))),
                (
                  (λ e. rw e (Has-append_right _ findings _ (inl (refl, refl, refl)))),
                  (
                    (λ e. rw e (Has-append_right _ findings _ (inl (refl, refl, refl)))),
                    (
                      (λ e. rw e (Has-append_right _ findings _ (inl (refl, refl, refl)))),
                      (
                        (λ e. rw e (Has-append_right _ findings _ (inl (refl, refl, refl)))),
                        (
                          (λ e. rw e (Has-append_right _ findings _ (inl (refl, refl, refl)))),
                          (
                            (λ e. rw e (Has-append_right _ findings _ (inl (refl, refl, refl)))),
                            (
                              (λ e. rw e (Has-append_right _ findings _ (inl (refl, refl, refl)))),
                              (
                                (λ e.
                                    rw e (Has-append_right _ findings _ (inl (refl, refl, refl)))),
                                (
                                  (λ e.
                                      rw e
                                        (Has-append_right _ findings _ (inl (refl, refl, refl)))),
                                  tt,
                                ),
                              ),
                            ),
                          ),
                        ),
                      ),
                    ),
                  ),
                ),
              ),
            ),
          ),
        ),
      ),
    ),
  ),
)

-- A round finds what the table has for the port of the service.
pub scan_service-Reports :
    (service : ServiceInfo) (findings : List VulnerabilityFinding) (r : PortRule)
    → Has (λ q. q ≡ r) port_rules
    → service.port ≡ pos r.port
    → Reports service r.id (scan_service service findings)
unfolding scan_service
scan_service-Reports service findings r known e =
    Grown-Has _ (check_legacy_version-Grown service (check_ports service findings)) (
      All-Has (Followed service findings) r port_rules known (check_ports-Reports service findings)
        e)
