-- ===== src/Security/CredentialChecker/Expected.antt =====
-- What src/security/credential_checker.cpp finds, as a table of ports.
use mathlib.Core.List.{append-nil, append_assoc, Permᴰ}
use slipnet.Prelude.{
  ℕ, ◌≤◌, ◌≡◌, refl, sym, ap, ◌∙◌, inl, inr, false, List, [], ◌∷◌, ◌++◌, map, if◌then◌else◌,
  Bool-cases, Bytes, codes, All, arith,
}
use slipnet.Prelude.Int.{ℤ, pos, eq_int, eq_int_iff}
use slipnet.Prelude.Sorting.Compared.{Ordered, Sorts}
use slipnet.Core.NetworkState.{ServiceInfo}
use slipnet.Security.CredentialChecker.Findings.{CredentialRisk, CredentialFinding, risk_code}
use slipnet.Security.CredentialChecker.Findings.CredentialRisk.{low, medium, high, critical}
use slipnet.Security.CredentialChecker.Checks.{
  check_plaintext_authentication, check_remote_authentication_exposure,
  check_database_authentication_exposure,
}
use slipnet.Security.CredentialChecker.Check.{check_service, check_services, before, check}

-- What a finding says, but its texts.
pub record Facts : Type 0 where
  pub host : Bytes
  pub port : ℤ
  pub id : Bytes
  pub risk : CredentialRisk
  pub confidence : ℤ

abbrev pub facts : CredentialFinding → Facts
facts f = record {
  host = f.host;
  port = f.port;
  id = f.id;
  risk = f.risk;
  confidence = f.confidence;
}

-- A port, and the id, risk and confidence of what is found at it.
pub record Rule : Type 0 where
  pub port : ℕ
  pub id : Bytes
  pub risk : CredentialRisk
  pub confidence : ℕ

abbrev rule : ℕ → Bytes → CredentialRisk → ℕ → Rule
rule port id risk confidence = record { port = port; id = id; risk = risk; confidence = confidence }

abbrev pub rules : List Rule
rules =
    rule 21 (codes "SLP-CRED-FTP") high 95
    ∷ rule 23 (codes "SLP-CRED-TELNET") critical 98
    ∷ rule 25 (codes "SLP-CRED-SMTP") medium 80
    ∷ rule 110 (codes "SLP-CRED-POP3") high 92
    ∷ rule 143 (codes "SLP-CRED-IMAP") high 90
    ∷ rule 22 (codes "SLP-CRED-SSH") low 90
    ∷ rule 3389 (codes "SLP-CRED-RDP") high 94
    ∷ rule 445 (codes "SLP-CRED-SMB") high 93
    ∷ rule 3306 (codes "SLP-CRED-MYSQL") high 93
    ∷ rule 5432 (codes "SLP-CRED-POSTGRES") high 93
    ∷ rule 6379 (codes "SLP-CRED-REDIS") high 90
    ∷ rule 27017 (codes "SLP-CRED-MONGO") high 90
    ∷ []

-- The first rule for the port of the service gives its finding; a service at another port has none.
abbrev pub expected_one : List Rule → ServiceInfo → List Facts
expected_one [] service = []
expected_one (r ∷ rest) service =
    let others = expected_one rest service in
    if eq_int service.port (pos r.port)
    then record {
      host = service.ip;
      port = service.port;
      id = r.id;
      risk = r.risk;
      confidence = pos r.confidence;
    }
      ∷ []
    else others

abbrev pub expected : List ServiceInfo → List Facts
expected [] = []
expected (service ∷ services) = expected_one rules service ++ expected services

map_one :
    (findings : List CredentialFinding) (f : CredentialFinding)
    → map facts (findings ++ f ∷ []) ≡ map facts findings ++ facts f ∷ []
map_one [] f = refl
map_one (g ∷ findings) f = ap (λ l. facts g ∷ l) (map_one findings f)

-- A round adds what the table has for the service.
check_service-expected :
    (service : ServiceInfo) (findings : List CredentialFinding)
    → map facts (check_service service findings) ≡ map facts findings ++ expected_one rules service
unfolding check_service check_plaintext_authentication check_remote_authentication_exposure
    check_database_authentication_exposure
check_service-expected service findings = elim (Bool-cases (eq_int service.port (pos 21))) [
  | inl e ↦ rw ((eq_int_iff service.port (pos 21)).0 e) (map_one findings _)
  | inr n0 ↦ elim (Bool-cases (eq_int service.port (pos 23))) [
    | inl e ↦ rw ((eq_int_iff service.port (pos 23)).0 e) (map_one findings _)
    | inr n1 ↦ elim (Bool-cases (eq_int service.port (pos 25))) [
      | inl e ↦ rw ((eq_int_iff service.port (pos 25)).0 e) (map_one findings _)
      | inr n2 ↦ elim (Bool-cases (eq_int service.port (pos 110))) [
        | inl e ↦ rw ((eq_int_iff service.port (pos 110)).0 e) (map_one findings _)
        | inr n3 ↦ elim (Bool-cases (eq_int service.port (pos 143))) [
          | inl e ↦ rw ((eq_int_iff service.port (pos 143)).0 e) (map_one findings _)
          | inr n4 ↦ elim (Bool-cases (eq_int service.port (pos 22))) [
            | inl e ↦ rw ((eq_int_iff service.port (pos 22)).0 e) (map_one findings _)
            | inr n5 ↦ elim (Bool-cases (eq_int service.port (pos 3389))) [
              | inl e ↦ rw ((eq_int_iff service.port (pos 3389)).0 e) (map_one findings _)
              | inr n6 ↦ elim (Bool-cases (eq_int service.port (pos 445))) [
                | inl e ↦ rw ((eq_int_iff service.port (pos 445)).0 e) (map_one findings _)
                | inr n7 ↦ elim (Bool-cases (eq_int service.port (pos 3306))) [
                  | inl e ↦ rw ((eq_int_iff service.port (pos 3306)).0 e) (map_one findings _)
                  | inr n8 ↦ elim (Bool-cases (eq_int service.port (pos 5432))) [
                    | inl e ↦ rw ((eq_int_iff service.port (pos 5432)).0 e) (map_one findings _)
                    | inr n9 ↦ elim (Bool-cases (eq_int service.port (pos 6379))) [
                      | inl e ↦ rw ((eq_int_iff service.port (pos 6379)).0 e) (map_one findings _)
                      | inr n10 ↦ elim (Bool-cases (eq_int service.port (pos 27017))) [
                        | inl e ↦
                            rw ((eq_int_iff service.port (pos 27017)).0 e) (map_one findings _)
                        | inr n11 ↦
                            rw (n0, n1, n2, n3, n4, n5, n6, n7, n8, n9, n10, n11)
                              (sym (append-nil (map facts findings)))
                      ]
                    ]
                  ]
                ]
              ]
            ]
          ]
        ]
      ]
    ]
  ]
]

check_services-expected :
    (services : List ServiceInfo) (findings : List CredentialFinding)
    → map facts (check_services services findings) ≡ map facts findings ++ expected services
unfolding check_services
check_services-expected [] findings = sym (append-nil (map facts findings))
check_services-expected (s ∷ services) findings =
    check_services-expected services (check_service s findings)
    ∙ ap (λ l. l ++ expected services) (check_service-expected s findings)
    ∙ append_assoc (map facts findings) (expected_one rules s) (expected services)

-- The risk of a finding is at least that of all behind it.
abbrev pub Descending : List CredentialFinding → Type 0
Descending [] = Unit
Descending (f ∷ rest) = All (λ g. risk_code g.risk ≤ risk_code f.risk) rest × Descending rest

before_risk : (f g : CredentialFinding) → before g f ≡ false → risk_code g.risk ≤ risk_code f.risk
unfolding before
before_risk f g h = ground arith

All-le :
    (m n : ℕ) (xs : List CredentialFinding)
    → m ≤ n
    → All (λ g. risk_code g.risk ≤ m) xs
    → All (λ g. risk_code g.risk ≤ n) xs
All-le m n [] h k = tt
All-le m n (x ∷ xs) h k = (omega arith, All-le m n xs h k.1)

Ordered-Descending : (xs : List CredentialFinding) → Ordered before xs → Descending xs
Ordered-Descending [] h = tt
Ordered-Descending (f ∷ []) h = (tt, tt)
Ordered-Descending (f ∷ (g ∷ xs)) h =
    let le = before_risk f g h.0 in
    let rest = Ordered-Descending (g ∷ xs) h.1 in
    ((le, All-le (risk_code g.risk) (risk_code f.risk) xs le rest.0), rest)

module _ (sort : List CredentialFinding → List CredentialFinding) (sorts : Sorts before sort)
    (services : List ServiceInfo) where
  -- The findings of a check are, in some order, one for each service at a port of the table, with the
  -- host and port of the service and the id, risk and confidence of the table, and no others; they
  -- stand in order of risk, the highest first.
  pub check-expected :
      ((found : List CredentialFinding) × (map facts found ≡ expected services)
        × Permᴰ found (check sort services))
      × Descending (check sort services)
  unfolding check
  check-expected =
      let found = check_services services [] in
      (
        (found, check_services-expected services [], sorts.same_entries found),
        Ordered-Descending (sort found) (sorts.ordered found),
      )
