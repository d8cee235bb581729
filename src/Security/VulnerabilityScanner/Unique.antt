-- ===== src/Security/VulnerabilityScanner/Unique.antt =====
-- The duplicates that `scan` of src/security/vulnerability_scanner.cpp leaves out, and the order in
-- which `std::sort` puts the others.
use mathlib.Core.List.{Permᴰ}
use mathlib.Core.Path.{subst}
use slipnet.Prelude.{
  ℕ, ◌≤◌, ◌≡◌, refl, sym, ◌∙◌, ◌⊎◌, inl, inr, true, false, ◌&&◌, ◌||◌, List, [], ◌∷◌, ◌++◌,
  Bool-cases, Bytes, eq_bytes, eq_bytes_iff, All, Has, All-append, Has-append_left,
  Has-append_right, arith,
}
use slipnet.Prelude.Int.{ℤ, eq_int, eq_int_iff}
use slipnet.Prelude.Sorting.Compared.{Ordered}
use slipnet.Security.VulnerabilityScanner.Findings.{
  VulnerabilityFinding, severity_code, duplicate_finding,
}
use slipnet.Security.VulnerabilityScanner.Scan.{keep_unique, before}

-- The finding is for the host, the port and the id.
abbrev pub Names : Bytes → ℤ → Bytes → VulnerabilityFinding → Type 0
Names host port id f = (f.host ≡ host) × (f.port ≡ port) × (f.id ≡ id)

-- No two findings are for the same host, port and id.
abbrev pub Twinless : List VulnerabilityFinding → Type 0
Twinless [] = Unit
Twinless (f ∷ rest) = (duplicate_finding rest f.host f.port f.id ≡ false) × Twinless rest

duplicate_finding-Has :
    (findings : List VulnerabilityFinding) (host : Bytes) (port : ℤ) (id : Bytes)
    → duplicate_finding findings host port id ≡ true
    → Has (Names host port id) findings
unfolding duplicate_finding
duplicate_finding-Has [] host port id h = absurd (cc h)
duplicate_finding-Has (f ∷ findings) host port id h =
    elim (Bool-cases (eq_bytes f.host host && eq_int f.port port && eq_bytes f.id id)) [
      | inr e ↦ inr (duplicate_finding-Has findings host port id (ground arith))
      | inl e ↦ inl (
        (eq_bytes_iff f.host host).0 (ground arith),
        (eq_int_iff f.port port).0 (ground arith),
        (eq_bytes_iff f.id id).0 (ground arith),
      )
    ]

same_twins :
    (f g : VulnerabilityFinding)
    → (eq_bytes f.host g.host && eq_int f.port g.port && eq_bytes f.id g.id)
      ≡ (eq_bytes g.host f.host && eq_int g.port f.port && eq_bytes g.id f.id)
same_twins f g = ground (
  arith,
  eq_bytes_iff f.host g.host,
  eq_bytes_iff g.host f.host,
  eq_int_iff f.port g.port,
  eq_int_iff g.port f.port,
  eq_bytes_iff f.id g.id,
  eq_bytes_iff g.id f.id,
)

duplicate_finding-append :
    (xs ys : List VulnerabilityFinding) (host : Bytes) (port : ℤ) (id : Bytes)
    → duplicate_finding (xs ++ ys) host port id
      ≡ (duplicate_finding xs host port id || duplicate_finding ys host port id)
unfolding duplicate_finding
duplicate_finding-append [] ys host port id = refl
duplicate_finding-append (f ∷ xs) ys host port id =
    ground (arith, duplicate_finding-append xs ys host port id)

-- A new finding at the end has no twin.
push-Twinless :
    (findings : List VulnerabilityFinding) (f : VulnerabilityFinding)
    → duplicate_finding findings f.host f.port f.id ≡ false
    → Twinless findings
    → Twinless (findings ++ f ∷ [])
unfolding duplicate_finding
push-Twinless [] f d h = (d, tt)
push-Twinless (g ∷ findings) f d h = (
  ground
      (arith, same_twins f g, duplicate_finding-append findings (f ∷ []) g.host g.port g.id, h.0),
  push-Twinless findings f (ground arith) h.1,
)

-- The loop keeps what its entries have in common.
pub keep_unique-All :
    (P : VulnerabilityFinding → Type 0) (findings unique : List VulnerabilityFinding)
    → All P findings
    → All P unique
    → All P (keep_unique findings unique)
unfolding keep_unique
keep_unique-All P [] unique h k = k
keep_unique-All P (f ∷ findings) unique h k =
    elim (Bool-cases (duplicate_finding unique f.host f.port f.id)) [
      | inl e ↦ rw e (keep_unique-All P findings unique h.1 k)
      | inr e ↦ rw e (
          keep_unique-All P findings (unique ++ f ∷ []) h.1
            (All-append P unique (f ∷ []) k (h.0, tt)))
    ]

pub keep_unique-Twinless :
    (findings unique : List VulnerabilityFinding)
    → Twinless unique
    → Twinless (keep_unique findings unique)
unfolding keep_unique
keep_unique-Twinless [] unique k = k
keep_unique-Twinless (f ∷ findings) unique k =
    elim (Bool-cases (duplicate_finding unique f.host f.port f.id)) [
      | inl e ↦ rw e (keep_unique-Twinless findings unique k)
      | inr e ↦ rw e (keep_unique-Twinless findings (unique ++ f ∷ []) (push-Twinless unique f e k))
    ]

-- What was kept stays, and what comes is kept or has a twin that is.
pub keep_unique-Has :
    (host : Bytes) (port : ℤ) (id : Bytes) (findings unique : List VulnerabilityFinding)
    → Has (Names host port id) findings ⊎ Has (Names host port id) unique
    → Has (Names host port id) (keep_unique findings unique)
unfolding keep_unique
keep_unique-Has host port id [] unique (inl h) = absurd h
keep_unique-Has host port id [] unique (inr h) = h
keep_unique-Has host port id (f ∷ findings) unique h =
    elim (Bool-cases (duplicate_finding unique f.host f.port f.id)) [
      | inl e ↦ rw e (keep_unique-Has host port id findings unique (twin e h))
      | inr e ↦ rw e (keep_unique-Has host port id findings (unique ++ f ∷ []) (moved h))
    ]
  where
    moved :
        Has (Names host port id) (f ∷ findings) ⊎ Has (Names host port id) unique
        → Has (Names host port id) findings ⊎ Has (Names host port id) (unique ++ f ∷ [])
    moved (inl (inl p)) = inr (Has-append_right _ unique (f ∷ []) (inl p))
    moved (inl (inr k)) = inl k
    moved (inr k) = inr (Has-append_left _ unique (f ∷ []) k)

    twin :
        duplicate_finding unique f.host f.port f.id ≡ true
        → Has (Names host port id) (f ∷ findings) ⊎ Has (Names host port id) unique
        → Has (Names host port id) findings ⊎ Has (Names host port id) unique
    twin e (inl (inl p)) = inr (duplicate_finding-Has unique host port id (rw (p.0, p.1, p.2) at e))
    twin e (inl (inr k)) = inl k
    twin e (inr k) = inr k

Perm-duplicate_finding :
    (host : Bytes) (port : ℤ) (id : Bytes) {xs ys : List VulnerabilityFinding}
    → Permᴰ xs ys
    → duplicate_finding xs host port id ≡ duplicate_finding ys host port id
unfolding duplicate_finding
Perm-duplicate_finding host port id Permᴰ.nil = refl
Perm-duplicate_finding host port id (Permᴰ.cons e k) =
    ground (arith, Perm-duplicate_finding host port id k)
Perm-duplicate_finding host port id (Permᴰ.swap e f) = ground arith
Perm-duplicate_finding host port id (Permᴰ.trans k l) =
    Perm-duplicate_finding host port id k ∙ Perm-duplicate_finding host port id l

swap-Twinless :
    (f g : VulnerabilityFinding) (xs : List VulnerabilityFinding)
    → Twinless (f ∷ (g ∷ xs))
    → Twinless (g ∷ (f ∷ xs))
unfolding duplicate_finding
swap-Twinless f g xs h = (ground (arith, same_twins f g), (ground arith, h.1.1))

pub Perm-Twinless : {xs ys : List VulnerabilityFinding} → Permᴰ xs ys → Twinless xs → Twinless ys
Perm-Twinless Permᴰ.nil h = h
Perm-Twinless (Permᴰ.cons {a} {b} {l₁ = xs} {l₂ = ys} e k) h =
    subst (λ c. Twinless (c ∷ ys)) e
      (sym (Perm-duplicate_finding a.host a.port a.id k) ∙ h.0, Perm-Twinless k h.1)
Perm-Twinless (Permᴰ.swap {a} {b} {b' = b'} {l = xs} e f) h =
    subst (λ c. Twinless (c ∷ (b' ∷ xs))) f
      (subst (λ c. Twinless (b ∷ (c ∷ xs))) e (swap-Twinless a b xs h))
Perm-Twinless (Permᴰ.trans k l) h = Perm-Twinless l (Perm-Twinless k h)

-- The severity of a finding is at least that of all behind it.
abbrev pub Descending : List VulnerabilityFinding → Type 0
Descending [] = Unit
Descending (f ∷ rest) =
    All (λ g. severity_code g.severity ≤ severity_code f.severity) rest × Descending rest

before_severity :
    (f g : VulnerabilityFinding)
    → before g f ≡ false
    → severity_code g.severity ≤ severity_code f.severity
unfolding before
before_severity f g h = ground arith

All-le :
    (m n : ℕ) (xs : List VulnerabilityFinding)
    → m ≤ n
    → All (λ g. severity_code g.severity ≤ m) xs
    → All (λ g. severity_code g.severity ≤ n) xs
All-le m n [] h k = tt
All-le m n (x ∷ xs) h k = (omega arith, All-le m n xs h k.1)

pub Ordered-Descending : (xs : List VulnerabilityFinding) → Ordered before xs → Descending xs
Ordered-Descending [] h = tt
Ordered-Descending (f ∷ []) h = (tt, tt)
Ordered-Descending (f ∷ (g ∷ xs)) h =
    let le = before_severity f g h.0 in
    let rest = Ordered-Descending (g ∷ xs) h.1 in
    ((le, All-le (severity_code g.severity) (severity_code f.severity) xs le rest.0), rest)
