-- ===== src/Security.antt =====
-- The security analyses, src/security.
pub mod SecurityDetector
pub mod FirewallProbe
pub mod VulnerabilityScanner
pub mod CredentialChecker
