-- ===== src/Prelude/Keyed.antt =====
-- The loop that the state uses to store an entry: replace the first entry with the same key, or
-- append. Its laws, for any key with a Boolean equality.
use slipnet.Prelude.Tests.{if◌then◌else◌, Bool-cases}
use slipnet.Prelude.Lists.{length}
use Prim.Native.Nat.{ℕ, ◌+◌}
use mathlib.Core.Path.{◌≡◌, refl, ap, subst}
use mathlib.Core.Logic.{◌↔◌, inl, inr}
use mathlib.Core.Bool.{Bool, true, false}
use mathlib.Core.Option.{Option, none, some}
use mathlib.Core.List.{List, [], ◌∷◌, ◌++◌}
use native.Mathlib.Omega.{arith}

pub record Key {ℓ κ} (A : Type ℓ) (K : Type κ) : Type (ℓ ⊔ κ) where
  pub key : A → K
  pub same : K → K → Bool
  pub same_iff : (a b : K) → (same a b ≡ true) ↔ (a ≡ b)

module _ {ℓ κ} {A : Type ℓ} {K : Type κ} (k : Key A K) where
  open k use {key, same, same_iff}

  unfoldable pub upsert : A → List A → List A
  upsert a [] = a ∷ []
  upsert a (x ∷ xs) = if same (key x) (key a) then a ∷ xs else x ∷ upsert a xs

  unfoldable pub find : K → List A → Option A
  find j [] = none
  find j (x ∷ xs) = if same (key x) j then some x else find j xs

  -- No entry has key `j`.
  abbrev pub Fresh : K → List A → Type ℓ
  Fresh j [] = Unit
  Fresh j (x ∷ xs) = (same (key x) j ≡ false) × Fresh j xs

  -- The keys are pairwise different.
  abbrev pub Distinct : List A → Type ℓ
  Distinct [] = Unit
  Distinct (x ∷ xs) = Fresh (key x) xs × Distinct xs

  -- Where the key was not there, the entry is put behind the others.
  pub upsert-Fresh : (a : A) (xs : List A) → Fresh (key a) xs → upsert a xs ≡ xs ++ a ∷ []
  unfolding upsert
  upsert-Fresh a [] h = refl
  upsert-Fresh a (x ∷ xs) h = rw h.0 (ap (λ l. x ∷ l) (upsert-Fresh a xs h.1))

  pub find-upsert :
      (a : A) (j : K) (xs : List A)
      → find j (upsert a xs) ≡ (if same (key a) j then some a else find j xs)
  unfolding find upsert
  find-upsert a j [] = refl
  find-upsert a j (x ∷ xs) =
      ground (
        arith,
        same_iff (key x) (key a),
        same_iff (key x) j,
        same_iff (key a) j,
        find-upsert a j xs,
      )

  -- After a store the list holds what was stored, and every other key what it held.
  pub Fresh-upsert :
      (a : A) (j : K) (xs : List A) → same (key a) j ≡ false → Fresh j xs → Fresh j (upsert a xs)
  unfolding upsert
  Fresh-upsert a j [] d h = (d, tt)
  Fresh-upsert a j (x ∷ xs) d h = elim (Bool-cases (same (key x) (key a))) [
    | inl e ↦ rw e (d, h.1)
    | inr e ↦ rw e (h.0, Fresh-upsert a j xs d h.1)
  ]

  -- A key that `x` shares with `a` may stand for it.
  Fresh-same : (a b : K) (xs : List A) → same a b ≡ true → Fresh a xs → Fresh b xs
  Fresh-same a b xs e h = subst (λ t. Fresh t xs) ((same_iff a b).0 e) h

  same_symm_false : (a b : K) → same a b ≡ false → same b a ≡ false
  same_symm_false a b n = ground (arith, same_iff a b, same_iff b a)

  pub Distinct-upsert : (a : A) (xs : List A) → Distinct xs → Distinct (upsert a xs)
  unfolding upsert
  Distinct-upsert a [] h = (tt, tt)
  Distinct-upsert a (x ∷ xs) h = elim (Bool-cases (same (key x) (key a))) [
    | inl e ↦ rw e (Fresh-same (key x) (key a) xs e h.0, h.1)
    | inr e ↦ rw e (
      Fresh-upsert a (key x) xs (same_symm_false (key x) (key a) e) h.0,
      Distinct-upsert a xs h.1,
    )
  ]

  abbrev pub added : Option A → ℕ
  added none = 1
  added (some x) = 0

  -- A store adds an entry exactly where the key was not there.
  pub length-upsert :
      (a : A) (xs : List A) → length (upsert a xs) ≡ length xs + added (find (key a) xs)
  unfolding upsert find
  length-upsert a [] = omega arith
  length-upsert a (x ∷ xs) = ground (arith, length-upsert a xs)
