-- ===== src/Security/SecurityDetector/Alerts.antt =====
-- The alerts and the helpers at the top of src/security/security_detector.cpp.
use slipnet.Prelude.{
  ℕ, Bool, true, false, ◌&&◌, ◌||◌, List, [], ◌∷◌, ◌++◌, leb, ltb, ◌==◌, if◌then◌else◌, Bytes,
  eq_bytes, is_empty, to_lower, length,
}
use slipnet.Core.NetworkState.{PortInfo}

pub record Alert : Type 0 where
  pub type : Bytes
  pub description : Bytes
  pub severity : ℕ

-- The inner loop of `containsInsensitive`, on the text from the position on.
match_here : Bytes → Bytes → Bool
unfolding to_lower
match_here [] value = true
match_here (s ∷ search) [] = false
match_here (s ∷ search) (v ∷ value) = to_lower v == to_lower s && match_here search value

-- The outer loop: one round for each position that leaves room for the text searched.
match_from : Bytes → Bytes → Bool
unfolding match_here
match_from search [] = false
match_from search (v ∷ value) =
    (leb (length search) (length (v ∷ value)) && match_here search (v ∷ value))
    || match_from search value

unfoldable pub contains_insensitive : Bytes → Bytes → Bool
unfolding match_from
contains_insensitive value search =
    if is_empty search
    then true
    else if ltb (length value) (length search)
    then false
    else match_from search value

-- An alert of the type and description is there.
unfoldable pub has_alert : Bytes → Bytes → List Alert → Bool
has_alert type description [] = false
has_alert type description (existing ∷ rest) =
    (eq_bytes existing.type type && eq_bytes existing.description description)
    || has_alert type description rest

unfoldable pub add_alert : List Alert → Bytes → Bytes → ℕ → List Alert
add_alert alerts type description severity =
    if has_alert type description alerts
    then alerts
    else alerts ++ record { type = type; description = description; severity = severity } ∷ []

-- `for (const auto& port : ports)` over a body that adds to the alerts.
unfoldable pub for_ports :
    (PortInfo → List Alert → List Alert) → List PortInfo → List Alert → List Alert
for_ports body [] alerts = alerts
for_ports body (port ∷ ports) alerts = for_ports body ports (body port alerts)
