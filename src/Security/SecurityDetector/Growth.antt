-- ===== src/Security/SecurityDetector/Growth.antt =====
-- What a growing list of alerts keeps, for src/security/security_detector.cpp: an alert that is
-- there stays, causes are kept, and no two alerts are the same finding.
use slipnet.Prelude.{
  ℕ, ◌≡◌, refl, inl, inr, true, false, ◌&&◌, ◌||◌, List, [], ◌∷◌, ◌++◌, Bool-cases, Bytes, eq_bytes,
  eq_bytes_iff, All, Has, All-append, Has-append_left, Has-append_right, arith,
}
use slipnet.Prelude.Int.{pos}
use slipnet.Core.NetworkState.{PortInfo}
use slipnet.Security.SecurityDetector.Alerts.{Alert, has_alert, add_alert, for_ports}
use slipnet.Security.SecurityDetector.Causes.{IsOpen, Adds, same, added, if_case, for_ports-Adds}

-- An alert of the type is there.
abbrev pub HasType : Bytes → List Alert → Type 0
HasType t alerts = Has (λ a. a.type ≡ t) alerts

add_alert-Has :
    (P : Alert → Type 0) (xs : List Alert) (t d : Bytes) (s : ℕ)
    → Has P xs
    → Has P (add_alert xs t d s)
unfolding add_alert
add_alert-Has P xs t d s h =
    if_case (Has P) (has_alert t d xs) (λ _. h) (λ _. Has-append_left P xs _ h)

pub Adds-Has :
    {C : Bytes → ℕ → Type 0} {xs ys : List Alert} (P : Alert → Type 0)
    → Adds C xs ys
    → Has P xs
    → Has P ys
Adds-Has P same h = h
Adds-Has P (added {more} t d s c k) h = add_alert-Has P more t d s (Adds-Has P k h)

has_alert-HasType : (t d : Bytes) (xs : List Alert) → has_alert t d xs ≡ true → HasType t xs
unfolding has_alert
has_alert-HasType t d [] h = absurd (cc h)
has_alert-HasType t d (x ∷ xs) h =
    elim (Bool-cases (eq_bytes x.type t && eq_bytes x.description d)) [
      | inl e ↦ inl ((eq_bytes_iff x.type t).0 (ground arith))
      | inr e ↦ inr (has_alert-HasType t d xs (ground arith))
    ]

-- After `addAlert` an alert of its type is there.
pub add_alert-HasType : (xs : List Alert) (t d : Bytes) (s : ℕ) → HasType t (add_alert xs t d s)
unfolding add_alert
add_alert-HasType xs t d s =
    if_case (HasType t) (has_alert t d xs) (λ e. has_alert-HasType t d xs e)
      (λ _. Has-append_right (λ a. a.type ≡ t) xs _ (inl refl))

-- A loop over ports finds what a round finds at an open port of the number.
pub for_ports-HasType :
    (C : Bytes → ℕ → Type 0) (body : PortInfo → List Alert → List Alert) (n : ℕ) (t : Bytes)
    (ports : List PortInfo) (xs : List Alert)
    → All (λ p. (xs : List Alert) → Adds C xs (body p xs)) ports
    → ((p : PortInfo) (xs : List Alert) → p.is_open ≡ true → p.port ≡ pos n → HasType t (body p xs))
    → IsOpen n ports
    → HasType t (for_ports body ports xs)
unfolding for_ports
for_ports-HasType C body n t [] xs grow hit h = absurd h
for_ports-HasType C body n t (p ∷ ports) xs grow hit (inl (o, e)) =
    Adds-Has (λ a. a.type ≡ t) (for_ports-Adds body ports (body p xs) grow.1) (hit p xs o e)
for_ports-HasType C body n t (p ∷ ports) xs grow hit (inr h) =
    for_ports-HasType C body n t ports (body p xs) grow.1 hit h

-- Every alert has a cause.
abbrev pub Caused : (Bytes → ℕ → Type 0) → List Alert → Type 0
Caused C alerts = All (λ a. C a.type a.severity) alerts

add_alert-Caused :
    (C : Bytes → ℕ → Type 0) (xs : List Alert) (t d : Bytes) (s : ℕ)
    → C t s
    → Caused C xs
    → Caused C (add_alert xs t d s)
unfolding add_alert
add_alert-Caused C xs t d s c h =
    if_case (Caused C) (has_alert t d xs) (λ _. h)
      (λ _. All-append (λ a. C a.type a.severity) xs _ h (c, tt))

pub Adds-Caused :
    {C : Bytes → ℕ → Type 0} {xs ys : List Alert} → Adds C xs ys → Caused C xs → Caused C ys
Adds-Caused same h = h
Adds-Caused {C} (added {more} t d s c k) h = add_alert-Caused C more t d s c (Adds-Caused k h)

-- No alert has the type and the description of one behind it.
abbrev pub Twinless : List Alert → Type 0
Twinless [] = Unit
Twinless (a ∷ alerts) = (has_alert a.type a.description alerts ≡ false) × Twinless alerts

has_alert-append :
    (t d : Bytes) (xs ys : List Alert)
    → has_alert t d (xs ++ ys) ≡ (has_alert t d xs || has_alert t d ys)
unfolding has_alert
has_alert-append t d [] ys = refl
has_alert-append t d (x ∷ xs) ys = ground (arith, has_alert-append t d xs ys)

append-Twinless :
    (xs : List Alert) (a : Alert)
    → has_alert a.type a.description xs ≡ false
    → Twinless xs
    → Twinless (xs ++ a ∷ [])
unfolding has_alert
append-Twinless [] a h k = (refl, tt)
append-Twinless (x ∷ xs) a h k = (
  ground (
    arith,
    has_alert-append x.type x.description xs (a ∷ []),
    eq_bytes_iff x.type a.type,
    eq_bytes_iff a.type x.type,
    eq_bytes_iff x.description a.description,
    eq_bytes_iff a.description x.description,
  ),
  append-Twinless xs a (ground arith) k.1,
)

pub Adds-Twinless :
    {C : Bytes → ℕ → Type 0} {xs ys : List Alert} → Adds C xs ys → Twinless xs → Twinless ys
unfolding add_alert
Adds-Twinless same h = h
Adds-Twinless (added {more} t d s c k) h =
    if_case Twinless (has_alert t d more) (λ _. Adds-Twinless k h)
      (λ e. append-Twinless more _ e (Adds-Twinless k h))
