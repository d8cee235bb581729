-- ===== src/Security/CredentialChecker/Examples.antt =====
-- A check of three services of one host, with an insertion sort for `std::sort`.
use mathlib.Core.List.{Permᴰ}
use slipnet.Prelude.{◌≡◌, true, false, List, [], ◌∷◌, map, Bytes, codes, eq_bytes_iff, arith}
use slipnet.Prelude.Int.{ℤ, pos, lt_int_asym}
use slipnet.Prelude.Sorting.Compared.{insertion_sort, insertion_sort-Sorts}
use slipnet.Core.NetworkState.{ServiceInfo}
use slipnet.Security.SecurityDetector.Analyze.{lt_bytes_asym}
use slipnet.Security.CredentialChecker.Findings.{CredentialFinding}
use slipnet.Security.CredentialChecker.Check.{before, check}
use slipnet.Security.CredentialChecker.Expected.{facts, expected, Descending, check-expected}

before_asym : (a b : CredentialFinding) → before a b ≡ true → before b a ≡ false
unfolding before
before_asym a b h = ground (
  arith,
  lt_bytes_asym a.host b.host,
  lt_int_asym a.port b.port,
  eq_bytes_iff a.host b.host,
  eq_bytes_iff b.host a.host,
)

abbrev service_at : ℤ → Bytes → ServiceInfo
service_at port service = record {
  ip = codes "10.0.0.5";
  port = port;
  protocol = codes "tcp";
  service = service;
  version = [];
}

abbrev services : List ServiceInfo
services =
    service_at (pos 22) (codes "ssh")
    ∷ service_at (pos 8443) (codes "https")
    ∷ service_at (pos 23) (codes "telnet")
    ∷ []

check-expected_example :
    ((found : List CredentialFinding) × (map facts found ≡ expected services)
      × Permᴰ found (check (insertion_sort before) services))
    × Descending (check (insertion_sort before) services)
check-expected_example =
    check-expected (insertion_sort before) (insertion_sort-Sorts before before_asym) services
