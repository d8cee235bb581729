-- ===== src/Security/VulnerabilityScanner/Answers.antt =====
-- What `VulnerabilityScanner::scan` of src/security/vulnerability_scanner.cpp reports.
use slipnet.Prelude.{◌≡◌, sym, inl, inr, List, [], ◌∷◌, All, Has}
use mathlib.Core.Path.{subst}
use slipnet.Prelude.Int.{pos}
use slipnet.Prelude.Sorting.{Perm-All}
use slipnet.Prelude.Sorting.Compared.{Sorts, Perm-Has}
use slipnet.Core.NetworkState.{ServiceInfo}
use slipnet.Security.VulnerabilityScanner.Findings.{VulnerabilityFinding}
use slipnet.Security.VulnerabilityScanner.Scan.{scan_service, scan_services, before, scan}
use slipnet.Security.VulnerabilityScanner.Rules.{PortRule, port_rules, Judged}
use slipnet.Security.VulnerabilityScanner.Kept.{scan_service-Keeps}
use slipnet.Security.VulnerabilityScanner.Reported.{Reports, scan_service-Has, scan_service-Reports}
use slipnet.Security.VulnerabilityScanner.Unique.{
  Names, Twinless, Descending, keep_unique-All, keep_unique-Twinless, keep_unique-Has,
  Perm-Twinless, Ordered-Descending,
}

All-map :
    {A : Type 0} (P Q : A → Type 0) (xs : List A) → ((x : A) → P x → Q x) → All P xs → All Q xs
All-map P Q [] f h = tt
All-map P Q (x ∷ xs) f h = (f x h.0, All-map P Q xs f h.1)

-- A rule of a table has the finding for one of the services.
abbrev pub Caused : List ServiceInfo → VulnerabilityFinding → Type 0
Caused services f = Has (λ s. Judged s f) services

-- Each service is one that may cause what it judges.
abbrev Covers : (VulnerabilityFinding → Type 0) → ServiceInfo → Type 0
Covers P s = (f : VulnerabilityFinding) → Judged s f → P f

Covers-Caused : (services : List ServiceInfo) → All (Covers (Caused services)) services
Covers-Caused [] = tt
Covers-Caused (s ∷ services) = (
  (λ f j. inl j),
  All-map (Covers (Caused services)) (Covers (Caused (s ∷ services))) services
      (λ t c f j. inr (c f j)) (Covers-Caused services),
)

scan_services-All :
    (P : VulnerabilityFinding → Type 0) (services : List ServiceInfo)
    (findings : List VulnerabilityFinding)
    → All (Covers P) services
    → All P findings
    → All P (scan_services services findings)
unfolding scan_services
scan_services-All P [] findings c h = h
scan_services-All P (s ∷ services) findings c h =
    scan_services-All P services (scan_service s findings) c.1
      (scan_service-Keeps P s c.0 findings h)

scan_services-Has :
    (P : VulnerabilityFinding → Type 0) (services : List ServiceInfo)
    (findings : List VulnerabilityFinding)
    → Has P findings
    → Has P (scan_services services findings)
unfolding scan_services
scan_services-Has P [] findings h = h
scan_services-Has P (s ∷ services) findings h =
    scan_services-Has P services (scan_service s findings) (scan_service-Has P s findings h)

scan_services-Reports :
    (service : ServiceInfo) (r : PortRule) (services : List ServiceInfo)
    (findings : List VulnerabilityFinding)
    → Has (λ s. s ≡ service) services
    → Has (λ q. q ≡ r) port_rules
    → service.port ≡ pos r.port
    → Reports service r.id (scan_services services findings)
unfolding scan_services
scan_services-Reports service r [] findings h known e = absurd h
scan_services-Reports service r (s ∷ services) findings (inl same) known e =
    scan_services-Has (Names service.ip service.port r.id) services (scan_service s findings) (
      subst (λ t. Reports service r.id (scan_service t findings)) (sym same)
        (scan_service-Reports service findings r known e))
scan_services-Reports service r (s ∷ services) findings (inr h) known e =
    scan_services-Reports service r services (scan_service s findings) h known e

module _ (sort : List VulnerabilityFinding → List VulnerabilityFinding) (sorts : Sorts before sort)
    (services : List ServiceInfo) where
  -- Every finding that a scan reports is about a service scanned, with its host and port, and is
  -- that of a rule for its port or for its product and version; its confidence is from 72 to 99.
  pub scan-Caused : All (Caused services) (scan sort services)
  unfolding scan
  scan-Caused = Perm-All (Caused services) (sorts.same_entries _) (
      keep_unique-All (Caused services) (scan_services services []) []
        (scan_services-All (Caused services) services [] (Covers-Caused services) tt) tt)

  -- Where a service scanned has the port of a rule of the table of ports, the scan reports a finding
  -- of the id of the rule for the host and port of the service.
  pub scan-Reports :
      (service : ServiceInfo) (r : PortRule)
      → Has (λ s. s ≡ service) services
      → Has (λ q. q ≡ r) port_rules
      → service.port ≡ pos r.port
      → Reports service r.id (scan sort services)
  unfolding scan
  scan-Reports service r h known e =
      Perm-Has (Names service.ip service.port r.id) (sorts.same_entries _) (
        keep_unique-Has service.ip service.port r.id (scan_services services []) []
          (inl (scan_services-Reports service r services [] h known e)))

  -- No two findings that a scan reports have the same host, port and id.
  pub scan-Twinless : Twinless (scan sort services)
  unfolding scan
  scan-Twinless =
      Perm-Twinless (sorts.same_entries _) (keep_unique-Twinless (scan_services services []) [] tt)

  -- The findings of a scan stand in order of severity, the most severe first.
  pub scan-Descending : Descending (scan sort services)
  unfolding scan
  scan-Descending = Ordered-Descending (scan sort services) (sorts.ordered _)
