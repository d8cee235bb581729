-- ===== src/Security/VulnerabilityScanner/Examples.antt =====
-- A scan of three services of one host, one of them given twice, with an insertion sort for `std::sort`.
use slipnet.Prelude.{
  ◌≡◌, refl, inl, inr, true, false, List, [], ◌∷◌, Bytes, codes, eq_bytes_iff, All, arith,
}
use slipnet.Prelude.Int.{ℤ, pos, eq_int_iff, lt_int_asym}
use slipnet.Prelude.Sorting.Compared.{insertion_sort, insertion_sort-Sorts}
use slipnet.Core.NetworkState.{ServiceInfo}
use slipnet.Security.SecurityDetector.Analyze.{lt_bytes_asym}
use slipnet.Security.VulnerabilityScanner.Findings.{VulnerabilityFinding}
use slipnet.Security.VulnerabilityScanner.Findings.VulnerabilityCategory.{remote_access}
use slipnet.Security.VulnerabilityScanner.Findings.VulnerabilitySeverity.{low}
use slipnet.Security.VulnerabilityScanner.Scan.{before, scan}
use slipnet.Security.VulnerabilityScanner.Rules.{PortRule}
use slipnet.Security.VulnerabilityScanner.Reported.{Reports}
use slipnet.Security.VulnerabilityScanner.Unique.{Twinless, Descending}
use slipnet.Security.VulnerabilityScanner.Answers.{
  Caused, scan-Caused, scan-Reports, scan-Twinless, scan-Descending,
}

before_asym : (a b : VulnerabilityFinding) → before a b ≡ true → before b a ≡ false
unfolding before
before_asym a b h = ground (
  arith,
  lt_bytes_asym a.host b.host,
  lt_int_asym b.confidence a.confidence,
  lt_int_asym a.port b.port,
  eq_int_iff a.confidence b.confidence,
  eq_int_iff b.confidence a.confidence,
  eq_bytes_iff a.host b.host,
  eq_bytes_iff b.host a.host,
)

abbrev service_at : ℤ → Bytes → Bytes → ServiceInfo
service_at port service version = record {
  ip = codes "10.0.0.5";
  port = port;
  protocol = codes "tcp";
  service = service;
  version = version;
}

abbrev ssh : ServiceInfo
ssh = service_at (pos 22) (codes "OpenSSH") (codes "OpenSSH_7.4")

abbrev services : List ServiceInfo
services =
    ssh
    ∷ service_at (pos 8080) (codes "nginx") (codes "nginx/1.18.0")
    ∷ ssh
    ∷ service_at (pos 23) (codes "telnet") []
    ∷ []

abbrev ssh_rule : PortRule
ssh_rule = record {
  port = 22;
  id = codes "SLP-SSH-EXPOSURE";
  severity = low;
  category = remote_access;
}

abbrev sort : List VulnerabilityFinding → List VulnerabilityFinding
sort = insertion_sort before

scan-Caused_example : All (Caused services) (scan sort services)
scan-Caused_example = scan-Caused sort (insertion_sort-Sorts before before_asym) services

scan-Reports_example : Reports ssh (codes "SLP-SSH-EXPOSURE") (scan sort services)
scan-Reports_example =
    scan-Reports sort (insertion_sort-Sorts before before_asym) services ssh ssh_rule (inl refl)
      (inr (inr (inr (inr (inr (inr (inr (inr (inr (inl refl)))))))))) refl

scan-Twinless_example : Twinless (scan sort services)
scan-Twinless_example = scan-Twinless sort (insertion_sort-Sorts before before_asym) services

scan-Descending_example : Descending (scan sort services)
scan-Descending_example = scan-Descending sort (insertion_sort-Sorts before before_asym) services
