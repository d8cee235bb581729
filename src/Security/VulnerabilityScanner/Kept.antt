-- ===== src/Security/VulnerabilityScanner/Kept.antt =====
-- The checks of src/security/vulnerability_scanner.cpp add what the tables say, and nothing else.
use mathlib.Core.Path.{subst}
use slipnet.Prelude.{
  ℕ, zero, suc, ◌≡◌, refl, sym, ap, inl, inr, Bool, true, false, ◌&&◌, ◌||◌, Option, none, some,
  List, [], ◌∷◌, leb, Bool-cases, Bytes, is_empty, All, Has, All-append, arith,
}
use slipnet.Prelude.Int.{ℤ, pos, eq_int, eq_int_iff, lt_int}
use slipnet.Core.NetworkState.{ServiceInfo}
use slipnet.Security.VulnerabilityScanner.Findings.{
  VulnerabilitySeverity, VulnerabilityCategory, VulnerabilityFinding, lower, contains, report,
}
use slipnet.Security.VulnerabilityScanner.Findings.VulnerabilityCategory.{legacy_software}
use slipnet.Security.VulnerabilityScanner.Checks.{
  check_exposure, check_insecure_protocol, check_remote_access, check_database_exposure,
  check_legacy_version,
}
use slipnet.Security.VulnerabilityScanner.Scan.{scan_service}
use slipnet.Security.VulnerabilityScanner.Rules.{
  PortRule, VersionRule, port_rules, version_rules, OfPort, OfVersion, Judged, nth,
}

abbrev Holds : {A : Type 0} → (A → Type 0) → Option A → Type 0
Holds P none = ⊥
Holds P (some a) = P a

-- The property holds of the entry at the place.
pick :
    {A : Type 0} (P : A → Type 0) (n : ℕ) (xs : List A) (a : A) → nth n xs ≡ some a → P a → Has P xs
pick P n [] a e p = absurd (cc e)
pick P zero (x ∷ xs) a e p = inl (subst (Holds P) (sym e) p)
pick P (suc n) (x ∷ xs) a e p = inr (pick P n xs a e p)

report-All :
    (P : VulnerabilityFinding → Type 0) {test : Bool} {f : VulnerabilityFinding}
    (findings : List VulnerabilityFinding)
    → (test ≡ true → P f)
    → All P findings
    → All P (report test f findings)
unfolding report
report-All P {test} {f} findings h k = elim (Bool-cases test) [
  | inl e ↦ rw e (All-append P findings (f ∷ []) k (h e, tt))
  | inr e ↦ rw e k
]

or-cases : {C : Type 0} (a b : Bool) → (a ≡ true → C) → (b ≡ true → C) → (a || b) ≡ true → C
or-cases true b f g h = f refl
or-cases false b f g h = g h

-- What a finding says, but its texts.
record Facts : Type 0 where
  host : Bytes
  port : ℤ
  id : Bytes
  severity : VulnerabilitySeverity
  category : VulnerabilityCategory
  confidence : ℤ

abbrev facts : VulnerabilityFinding → Facts
facts f = record {
  host = f.host;
  port = f.port;
  id = f.id;
  severity = f.severity;
  category = f.category;
  confidence = f.confidence;
}

module _ (P : VulnerabilityFinding → Type 0) (service : ServiceInfo)
    (judged : (f : VulnerabilityFinding) → Judged service f → P f) where
  abbrev Says :
      VulnerabilityFinding → Bytes → VulnerabilitySeverity → VulnerabilityCategory → ℕ → Type 0
  Says f id severity category k = facts f ≡ record {
    host = service.ip;
    port = service.port;
    id = id;
    severity = severity;
    category = category;
    confidence = pos k;
  }

  from_port :
      (f : VulnerabilityFinding) (n : ℕ) (r : PortRule) (k : ℕ)
      → nth n port_rules ≡ some r
      → Says f r.id r.severity r.category k
      → (leb 72 k && leb k 99) ≡ true
      → eq_int service.port (pos r.port) ≡ true
      → P f
  from_port f n r k at says sure e = judged f (record {
    of_host = ap (λ (t : Facts). t.host) says;
    of_port = ap (λ (t : Facts). t.port) says;
    by_rule = inl (
        pick (OfPort service f) n port_rules r at (record {
          at_port = (eq_int_iff service.port (pos r.port)).0 e;
          id_is = ap (λ (t : Facts). t.id) says;
          severity_is = ap (λ (t : Facts). t.severity) says;
          category_is = ap (λ (t : Facts). t.category) says;
        }));
    sure = (k, ap (λ (t : Facts). t.confidence) says, ground arith, ground arith);
  })

  from_version :
      (f : VulnerabilityFinding) (n : ℕ) (r : VersionRule) (k : ℕ)
      → nth n version_rules ≡ some r
      → Says f r.id r.severity legacy_software k
      → (leb 72 k && leb k 99) ≡ true
      → is_empty service.version ≡ false
      → (contains (lower service.service) r.product && r.is_legacy (lower service.version)) ≡ true
      → P f
  from_version f n r k at says sure full e = judged f (record {
    of_host = ap (λ (t : Facts). t.host) says;
    of_port = ap (λ (t : Facts). t.port) says;
    by_rule = inr (
        pick (OfVersion service f) n version_rules r at (record {
          has_version = full;
          is_product = ground arith;
          legacy = ground arith;
          id_is = ap (λ (t : Facts). t.id) says;
          severity_is = ap (λ (t : Facts). t.severity) says;
          category_is = ap (λ (t : Facts). t.category) says;
        }));
    sure = (k, ap (λ (t : Facts). t.confidence) says, ground arith, ground arith);
  })

  abbrev Keeps : (ServiceInfo → List VulnerabilityFinding → List VulnerabilityFinding) → Type 0
  Keeps check =
      (findings : List VulnerabilityFinding) → All P findings → All P (check service findings)

  check_exposure-Keeps : Keeps check_exposure
  unfolding check_exposure
  check_exposure-Keeps findings h = elim (Bool-cases (lt_int service.port (pos 1))) [
    | inl e ↦ rw e h
    | inr e ↦ rw e (
        report-All P _ (λ e. from_port _ 4 _ 96 refl refl refl e)
          (report-All P _ (λ e. from_port _ 3 _ 92 refl refl refl e)
            (report-All P findings
              (or-cases _ _
                (or-cases _ _ (λ e. from_port _ 0 _ 90 refl refl refl e)
                  (λ e. from_port _ 1 _ 90 refl refl refl e))
                (λ e. from_port _ 2 _ 90 refl refl refl e))
              h)))
  ]

  check_insecure_protocol-Keeps : Keeps check_insecure_protocol
  unfolding check_insecure_protocol
  check_insecure_protocol-Keeps findings h =
      report-All P _ (λ e. from_port _ 8 _ 90 refl refl refl e)
        (report-All P _ (λ e. from_port _ 7 _ 90 refl refl refl e)
          (report-All P _ (λ e. from_port _ 6 _ 99 refl refl refl e)
            (report-All P findings (λ e. from_port _ 5 _ 96 refl refl refl e) h)))

  check_remote_access-Keeps : Keeps check_remote_access
  unfolding check_remote_access
  check_remote_access-Keeps findings h =
      report-All P _ (λ e. from_port _ 10 _ 96 refl refl refl e)
        (report-All P findings (λ e. from_port _ 9 _ 92 refl refl refl e) h)

  check_database_exposure-Keeps : Keeps check_database_exposure
  unfolding check_database_exposure
  check_database_exposure-Keeps findings h =
      report-All P findings
        (or-cases _ _
          (or-cases _ _
            (or-cases _ _
              (or-cases _ _
                (or-cases _ _ (λ e. from_port _ 11 _ 95 refl refl refl e)
                  (λ e. from_port _ 12 _ 95 refl refl refl e))
                (λ e. from_port _ 13 _ 95 refl refl refl e))
              (λ e. from_port _ 14 _ 95 refl refl refl e))
            (λ e. from_port _ 15 _ 95 refl refl refl e))
          (λ e. from_port _ 16 _ 95 refl refl refl e))
        h

  check_legacy_version-Keeps : Keeps check_legacy_version
  unfolding check_legacy_version
  check_legacy_version-Keeps findings h = elim (Bool-cases (is_empty service.version)) [
    | inl e ↦ rw e h
    | inr full ↦ rw full (
        report-All P _ (λ e. from_version _ 3 _ 90 refl refl refl full e)
          (report-All P _ (λ e. from_version _ 2 _ 72 refl refl refl full e)
            (report-All P _ (λ e. from_version _ 1 _ 96 refl refl refl full e)
              (report-All P findings (λ e. from_version _ 0 _ 72 refl refl refl full e) h))))
  ]

  pub scan_service-Keeps : Keeps scan_service
  unfolding scan_service
  scan_service-Keeps findings h = check_legacy_version-Keeps _ (
      check_database_exposure-Keeps _ (
        check_remote_access-Keeps _
          (check_insecure_protocol-Keeps _ (check_exposure-Keeps findings h))))
