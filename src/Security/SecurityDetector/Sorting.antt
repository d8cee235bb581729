-- ===== src/Security/SecurityDetector/Sorting.antt =====
-- What sorting keeps and what it brings about, for the alerts of
-- src/security/security_detector.cpp.
use mathlib.Core.List.{Permᴰ}
use mathlib.Core.Path.{subst}
use slipnet.Prelude.{
  ℕ, ◌≤◌, ◌≡◌, refl, sym, ◌∙◌, inl, inr, false, List, [], ◌∷◌, Bytes, eq_bytes_iff, All, Has, arith,
}
use slipnet.Security.SecurityDetector.Alerts.{Alert, has_alert}
use slipnet.Security.SecurityDetector.Analyze.{before, InOrder}
use slipnet.Security.SecurityDetector.Growth.{Twinless}

pub Perm-All : (P : Alert → Type 0) {xs ys : List Alert} → Permᴰ xs ys → All P xs → All P ys
Perm-All P Permᴰ.nil h = h
Perm-All P (Permᴰ.cons e k) h = (subst P e h.0, Perm-All P k h.1)
Perm-All P (Permᴰ.swap e f) h = (subst P f h.1.0, (subst P e h.0, h.1.1))
Perm-All P (Permᴰ.trans k l) h = Perm-All P l (Perm-All P k h)

pub Perm-Has : (P : Alert → Type 0) {xs ys : List Alert} → Permᴰ xs ys → Has P xs → Has P ys
Perm-Has P Permᴰ.nil h = h
Perm-Has P (Permᴰ.cons e k) (inl h) = inl (subst P e h)
Perm-Has P (Permᴰ.cons e k) (inr h) = inr (Perm-Has P k h)
Perm-Has P (Permᴰ.swap e f) (inl h) = inr (inl (subst P e h))
Perm-Has P (Permᴰ.swap e f) (inr (inl h)) = inl (subst P f h)
Perm-Has P (Permᴰ.swap e f) (inr (inr h)) = inr (inr h)
Perm-Has P (Permᴰ.trans k l) h = Perm-Has P l (Perm-Has P k h)

Perm-has_alert :
    (t d : Bytes) {xs ys : List Alert} → Permᴰ xs ys → has_alert t d xs ≡ has_alert t d ys
unfolding has_alert
Perm-has_alert t d Permᴰ.nil = refl
Perm-has_alert t d (Permᴰ.cons e k) = ground (arith, Perm-has_alert t d k)
Perm-has_alert t d (Permᴰ.swap e f) = ground arith
Perm-has_alert t d (Permᴰ.trans k l) = Perm-has_alert t d k ∙ Perm-has_alert t d l

swap-Twinless : (a b : Alert) (xs : List Alert) → Twinless (a ∷ (b ∷ xs)) → Twinless (b ∷ (a ∷ xs))
unfolding has_alert
swap-Twinless a b xs h = (
  ground (
    arith,
    eq_bytes_iff a.type b.type,
    eq_bytes_iff b.type a.type,
    eq_bytes_iff a.description b.description,
    eq_bytes_iff b.description a.description,
  ),
  (ground arith, h.1.1),
)

pub Perm-Twinless : {xs ys : List Alert} → Permᴰ xs ys → Twinless xs → Twinless ys
Perm-Twinless Permᴰ.nil h = h
Perm-Twinless (Permᴰ.cons {a} {b} {l₁ = xs} {l₂ = ys} e k) h =
    subst (λ c. Twinless (c ∷ ys)) e
      (sym (Perm-has_alert a.type a.description k) ∙ h.0, Perm-Twinless k h.1)
Perm-Twinless (Permᴰ.swap {a} {b} {b' = b'} {l = xs} e f) h =
    subst (λ c. Twinless (c ∷ (b' ∷ xs))) f
      (subst (λ c. Twinless (b ∷ (c ∷ xs))) e (swap-Twinless a b xs h))
Perm-Twinless (Permᴰ.trans k l) h = Perm-Twinless l (Perm-Twinless k h)

-- The severity of an alert is at least that of all behind it.
abbrev pub Descending : List Alert → Type 0
Descending [] = Unit
Descending (a ∷ alerts) = All (λ b. b.severity ≤ a.severity) alerts × Descending alerts

before_severity : (a b : Alert) → before b a ≡ false → b.severity ≤ a.severity
unfolding before
before_severity a b h = ground arith

All-le :
    (m n : ℕ) (xs : List Alert)
    → m ≤ n
    → All (λ b. b.severity ≤ m) xs
    → All (λ b. b.severity ≤ n) xs
All-le m n [] h k = tt
All-le m n (x ∷ xs) h k = (omega arith, All-le m n xs h k.1)

pub InOrder-Descending : (xs : List Alert) → InOrder xs → Descending xs
InOrder-Descending [] h = tt
InOrder-Descending (a ∷ []) h = (tt, tt)
InOrder-Descending (a ∷ (b ∷ xs)) h =
    let le = before_severity a b h.0 in
    let rest = InOrder-Descending (b ∷ xs) h.1 in
    ((le, All-le b.severity a.severity xs le rest.0), rest)
