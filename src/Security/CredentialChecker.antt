-- ===== src/Security/CredentialChecker.antt =====
-- include/security/credential_checker.hpp and src/security/credential_checker.cpp.
pub mod Findings
pub mod Checks
pub mod Check
pub mod Expected
mod Examples
