-- ===== src/Security/SecurityDetector/Examples.antt =====
-- The theorems on src/security/security_detector.cpp at a host with two open ports, with an
-- insertion sort for `std::sort`.
use mathlib.Core.List.{Permᴰ}
use slipnet.Prelude.{
  ◌≡◌, refl, true, false, inl, inr, some, List, [], ◌∷◌, if◌then◌else◌, Bool-cases, Bytes, codes,
  arith,
}
use slipnet.Prelude.Int.{pos}
use slipnet.Core.NetworkState.{PortInfo, ServiceInfo}
use slipnet.Security.SecurityDetector.Alerts.{Alert}
use slipnet.Security.SecurityDetector.Analyze.{IsSort, InOrder, before, lt_bytes_asym, analyze}
use slipnet.Security.SecurityDetector.Causes.{Cause, exposure, IsOpen}
use slipnet.Security.SecurityDetector.Growth.{HasType, Caused, Twinless}
use slipnet.Security.SecurityDetector.Sorting.{Descending}
use slipnet.Security.SecurityDetector.Found

abbrev insert : Alert → List Alert → List Alert
insert a [] = a ∷ []
insert a (x ∷ xs) = let rest = insert a xs in if before x a then x ∷ rest else a ∷ (x ∷ xs)

abbrev sort : List Alert → List Alert
sort [] = []
sort (a ∷ alerts) = insert a (sort alerts)

Perm_refl : (xs : List Alert) → Permᴰ xs xs
Perm_refl [] = Permᴰ.nil
Perm_refl (x ∷ xs) = Permᴰ.cons refl (Perm_refl xs)

insert-Perm : (a : Alert) (xs : List Alert) → Permᴰ (a ∷ xs) (insert a xs)
insert-Perm a [] = Perm_refl (a ∷ [])
insert-Perm a (x ∷ xs) = elim (Bool-cases (before x a)) [
  | inl e ↦ rw e (Permᴰ.trans (Permᴰ.swap refl refl) (Permᴰ.cons refl (insert-Perm a xs)))
  | inr e ↦ rw e (Perm_refl (a ∷ (x ∷ xs)))
]

sort-Perm : (xs : List Alert) → Permᴰ xs (sort xs)
sort-Perm [] = Permᴰ.nil
sort-Perm (x ∷ xs) = Permᴰ.trans (Permᴰ.cons refl (sort-Perm xs)) (insert-Perm x (sort xs))

before_asym : (a b : Alert) → before a b ≡ true → before b a ≡ false
unfolding before
before_asym a b h = ground (arith, lt_bytes_asym a.type b.type)

tail-InOrder : (x : Alert) (xs : List Alert) → InOrder (x ∷ xs) → InOrder xs
tail-InOrder x [] h = tt
tail-InOrder x (y ∷ xs) h = h.1

insert-InOrder_behind :
    (x a : Alert) (xs : List Alert)
    → before x a ≡ true
    → InOrder (x ∷ xs)
    → InOrder (insert a xs)
    → InOrder (x ∷ insert a xs)
insert-InOrder_behind x a [] e h k = (before_asym x a e, tt)
insert-InOrder_behind x a (y ∷ ys) e h k = elim (Bool-cases (before y a)) [
  | inl q ↦ rw q (h.0, rw q at k)
  | inr q ↦ rw q (before_asym x a e, rw q at k)
]

insert-InOrder : (a : Alert) (xs : List Alert) → InOrder xs → InOrder (insert a xs)
insert-InOrder a [] h = tt
insert-InOrder a (x ∷ xs) h = elim (Bool-cases (before x a)) [
  | inl e ↦ rw e (insert-InOrder_behind x a xs e h (insert-InOrder a xs (tail-InOrder x xs h)))
  | inr e ↦ rw e (e, h)
]

sort-InOrder : (xs : List Alert) → InOrder (sort xs)
sort-InOrder [] = tt
sort-InOrder (x ∷ xs) = insert-InOrder x (sort xs) (sort-InOrder xs)

sort-IsSort : IsSort sort
sort-IsSort = record { same_alerts = sort-Perm; in_order = sort-InOrder }

abbrev ip : Bytes
ip = codes "10.0.0.7"

abbrev ports : List PortInfo
ports =
    record { port = pos 22; is_open = true; protocol = codes "tcp"; service = codes "ssh" }
    ∷ record { port = pos 23; is_open = true; protocol = codes "tcp"; service = codes "telnet" }
    ∷ []

abbrev services : List ServiceInfo
services = []

telnet-IsOpen : IsOpen 23 ports
telnet-IsOpen = inr (inl (refl, refl))

telnet_exposure : exposure 23 ≡ some (codes "TELNET_EXPOSED", 3)
unfolding exposure
telnet_exposure = refl

analyze-HasType_example : HasType (codes "TELNET_EXPOSED") (analyze sort ip ports services)
analyze-HasType_example =
    Found.analyze-HasType ip ports services sort sort-IsSort 23 (codes "TELNET_EXPOSED") 3
      telnet_exposure telnet-IsOpen

analyze-Caused_example : Caused (Cause ip ports services) (analyze sort ip ports services)
analyze-Caused_example = Found.analyze-Caused ip ports services sort sort-IsSort

analyze-Twinless_example : Twinless (analyze sort ip ports services)
analyze-Twinless_example = Found.analyze-Twinless ip ports services sort sort-IsSort

analyze-Descending_example : Descending (analyze sort ip ports services)
analyze-Descending_example = Found.analyze-Descending ip ports services sort sort-IsSort
