-- ===== src/Security/CredentialChecker/Findings.antt =====
-- The findings of include/security/credential_checker.hpp, and how src/security/credential_checker.cpp
-- makes one.
use slipnet.Prelude.{ℕ, if◌then◌else◌, Bytes}
use slipnet.Prelude.Int.{ℤ, pos, lt_int}
use slipnet.Core.NetworkState.{ServiceInfo}

pub data CredentialRisk : Type 0 where
  info : CredentialRisk
  low : CredentialRisk
  medium : CredentialRisk
  high : CredentialRisk
  critical : CredentialRisk

-- `static_cast<int>` of a risk.
abbrev pub risk_code : CredentialRisk → ℕ
risk_code CredentialRisk.info = 0
risk_code CredentialRisk.low = 1
risk_code CredentialRisk.medium = 2
risk_code CredentialRisk.high = 3
risk_code CredentialRisk.critical = 4

pub record CredentialFinding : Type 0 where
  pub host : Bytes
  pub port : ℤ
  pub service : Bytes
  pub version : Bytes
  pub id : Bytes
  pub title : Bytes
  pub description : Bytes
  pub evidence : Bytes
  pub remediation : Bytes
  pub risk : CredentialRisk
  pub confidence : ℤ

abbrev min_int : ℤ → ℤ → ℤ
min_int a b = if lt_int b a then b else a

abbrev max_int : ℤ → ℤ → ℤ
max_int a b = if lt_int a b then b else a

abbrev pub make_finding :
    ServiceInfo → CredentialRisk → Bytes → Bytes → Bytes → Bytes → Bytes → ℤ → CredentialFinding
make_finding service risk id title description evidence remediation confidence = record {
  host = service.ip;
  port = service.port;
  service = service.service;
  version = service.version;
  id = id;
  title = title;
  description = description;
  evidence = evidence;
  remediation = remediation;
  risk = risk;
  confidence = max_int (pos 0) (min_int (pos 100) confidence);
}
