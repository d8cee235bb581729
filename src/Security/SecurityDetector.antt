-- ===== src/Security/SecurityDetector.antt =====
-- include/security/security_detector.hpp and src/security/security_detector.cpp: the alerts, the
-- checks in two groups, and `analyze`; then what is proved of them.
pub mod Alerts
pub mod Exposure
pub mod Context
pub mod Analyze
pub mod Growth
pub mod Sorting
pub mod Causes
pub mod Found
mod Examples
