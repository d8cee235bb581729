-- ===== src/Security/VulnerabilityScanner.antt =====
-- include/security/vulnerability_scanner.hpp and src/security/vulnerability_scanner.cpp.
pub mod Findings
pub mod Checks
pub mod Scan
pub mod Rules
pub mod Kept
pub mod Reported
pub mod Unique
pub mod Answers
mod Examples
