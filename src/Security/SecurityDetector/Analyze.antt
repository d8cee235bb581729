-- ===== src/Security/SecurityDetector/Analyze.antt =====
-- `SecurityDetector::analyze` of src/security/security_detector.cpp. `std::sort` is a parameter:
-- the order in which it leaves alerts that compare equal is not specified.
use mathlib.Core.List.{Permᴰ}
use slipnet.Prelude.{
  ◌≡◌, Bool, true, false, not, List, [], ◌∷◌, ltb, ◌==◌, refl, arith, if◌then◌else◌, Bytes,
}
use slipnet.Core.NetworkState.{PortInfo, ServiceInfo}
use slipnet.Security.SecurityDetector.Alerts.{Alert}
use slipnet.Security.SecurityDetector.Exposure.{
  check_legacy_protocols, check_exposed_databases, check_remote_administration,
  check_management_services, check_cleartext_services, check_high_risk_services,
}
use slipnet.Security.SecurityDetector.Context.{
  check_file_sharing, check_service_exposure, check_service_port_consistency, check_attack_surface,
  check_administrative_exposure,
}

-- `operator<` on two strings, by bytes.
unfoldable pub lt_bytes : Bytes → Bytes → Bool
lt_bytes [] [] = false
lt_bytes [] (y ∷ ys) = true
lt_bytes (x ∷ xs) [] = false
lt_bytes (x ∷ xs) (y ∷ ys) = if x == y then lt_bytes xs ys else ltb x y

pub lt_bytes_asym : (xs ys : Bytes) → lt_bytes xs ys ≡ true → lt_bytes ys xs ≡ false
unfolding lt_bytes
lt_bytes_asym [] [] h = refl
lt_bytes_asym [] (y ∷ ys) h = refl
lt_bytes_asym (x ∷ xs) [] h = absurd (cc h)
lt_bytes_asym (x ∷ xs) (y ∷ ys) h = ground (arith, lt_bytes_asym xs ys)

-- The comparison handed to `std::sort`.
unfoldable pub before : Alert → Alert → Bool
unfolding lt_bytes
before left right =
    if not (left.severity == right.severity)
    then ltb right.severity left.severity
    else lt_bytes left.type right.type

-- No alert stands directly behind one that it should stand before.
abbrev pub InOrder : List Alert → Type 0
InOrder [] = Unit
InOrder (a ∷ []) = Unit
InOrder (a ∷ (b ∷ rest)) = (before b a ≡ false) × InOrder (b ∷ rest)

-- What the standard says of `std::sort` with this comparison: the same alerts, in order.
pub record IsSort (sort : List Alert → List Alert) : Type 0 where
  pub same_alerts : (alerts : List Alert) → Permᴰ alerts (sort alerts)
  pub in_order : (alerts : List Alert) → InOrder (sort alerts)

-- The alerts before they are sorted.
unfoldable pub collect : Bytes → List PortInfo → List ServiceInfo → List Alert
collect ip ports services =
    let a1 = check_legacy_protocols ip ports [] in
    let a2 = check_exposed_databases ip ports a1 in
    let a3 = check_remote_administration ip ports a2 in
    let a4 = check_management_services ip ports a3 in
    let a5 = check_file_sharing ip ports a4 in
    let a6 = check_cleartext_services ip ports a5 in
    let a7 = check_high_risk_services ip ports a6 in
    let a8 = check_service_exposure ip services a7 in
    let a9 = check_service_port_consistency ip ports services a8 in
    let a10 = check_attack_surface ip ports a9 in check_administrative_exposure ip ports a10

module _ (sort : List Alert → List Alert) where
  unfoldable pub analyze : Bytes → List PortInfo → List ServiceInfo → List Alert
  unfolding collect
  analyze ip ports services = sort (collect ip ports services)
