-- ===== src/Prelude/Sorting/Compared.antt =====
-- `std::sort` by a comparison: what the standard says of it, and an insertion sort that does it.
use mathlib.Core.Path.{◌≡◌, refl, subst}
use mathlib.Core.Logic.{inl, inr}
use mathlib.Core.Bool.{Bool, true, false}
use mathlib.Core.List.{List, [], ◌∷◌, Permᴰ}
use slipnet.Prelude.Tests.{if◌then◌else◌, Bool-cases}
use slipnet.Prelude.Lists.{Has}

pub Perm-Has : {A : Type 0} (P : A → Type 0) {xs ys : List A} → Permᴰ xs ys → Has P xs → Has P ys
Perm-Has P Permᴰ.nil h = h
Perm-Has P (Permᴰ.cons e k) (inl h) = inl (subst P e h)
Perm-Has P (Permᴰ.cons e k) (inr h) = inr (Perm-Has P k h)
Perm-Has P (Permᴰ.swap e f) (inl h) = inr (inl (subst P e h))
Perm-Has P (Permᴰ.swap e f) (inr (inl h)) = inl (subst P f h)
Perm-Has P (Permᴰ.swap e f) (inr (inr h)) = inr (inr h)
Perm-Has P (Permᴰ.trans k l) h = Perm-Has P l (Perm-Has P k h)

Perm_refl : {A : Type 0} (xs : List A) → Permᴰ xs xs
Perm_refl [] = Permᴰ.nil
Perm_refl (x ∷ xs) = Permᴰ.cons refl (Perm_refl xs)

module _ {A : Type 0} (before : A → A → Bool) where
  -- No entry stands directly behind one that it should stand before.
  abbrev pub Ordered : List A → Type 0
  Ordered [] = Unit
  Ordered (a ∷ []) = Unit
  Ordered (a ∷ (b ∷ rest)) = (before b a ≡ false) × Ordered (b ∷ rest)

  pub record Sorts (sort : List A → List A) : Type 0 where
    pub same_entries : (xs : List A) → Permᴰ xs (sort xs)
    pub ordered : (xs : List A) → Ordered (sort xs)

  abbrev pub insert : A → List A → List A
  insert a [] = a ∷ []
  insert a (x ∷ xs) = let rest = insert a xs in if before x a then x ∷ rest else a ∷ (x ∷ xs)

  abbrev pub insertion_sort : List A → List A
  insertion_sort [] = []
  insertion_sort (x ∷ xs) = insert x (insertion_sort xs)

  insert-Perm : (a : A) (xs : List A) → Permᴰ (a ∷ xs) (insert a xs)
  insert-Perm a [] = Perm_refl (a ∷ [])
  insert-Perm a (x ∷ xs) = elim (Bool-cases (before x a)) [
    | inl e ↦ rw e (Permᴰ.trans (Permᴰ.swap refl refl) (Permᴰ.cons refl (insert-Perm a xs)))
    | inr e ↦ rw e (Perm_refl (a ∷ (x ∷ xs)))
  ]

  insertion_sort-Perm : (xs : List A) → Permᴰ xs (insertion_sort xs)
  insertion_sort-Perm [] = Permᴰ.nil
  insertion_sort-Perm (x ∷ xs) =
      Permᴰ.trans (Permᴰ.cons refl (insertion_sort-Perm xs)) (insert-Perm x (insertion_sort xs))

  module _ (asym : (a b : A) → before a b ≡ true → before b a ≡ false) where
    insert-Ordered_behind :
        (x a : A) (xs : List A)
        → before x a ≡ true
        → Ordered (x ∷ xs)
        → Ordered (insert a xs)
        → Ordered (x ∷ insert a xs)
    insert-Ordered_behind x a [] e h k = (asym x a e, tt)
    insert-Ordered_behind x a (y ∷ ys) e h k = elim (Bool-cases (before y a)) [
      | inl q ↦ rw q (h.0, rw q at k)
      | inr q ↦ rw q (asym x a e, rw q at k)
    ]

    tail-Ordered : (x : A) (xs : List A) → Ordered (x ∷ xs) → Ordered xs
    tail-Ordered x [] h = tt
    tail-Ordered x (y ∷ xs) h = h.1

    insert-Ordered : (a : A) (xs : List A) → Ordered xs → Ordered (insert a xs)
    insert-Ordered a [] h = tt
    insert-Ordered a (x ∷ xs) h = elim (Bool-cases (before x a)) [
      | inl e ↦ rw e (insert-Ordered_behind x a xs e h (insert-Ordered a xs (tail-Ordered x xs h)))
      | inr e ↦ rw e (e, h)
    ]

    insertion_sort-Ordered : (xs : List A) → Ordered (insertion_sort xs)
    insertion_sort-Ordered [] = tt
    insertion_sort-Ordered (x ∷ xs) =
        insert-Ordered x (insertion_sort xs) (insertion_sort-Ordered xs)

    pub insertion_sort-Sorts : Sorts insertion_sort
    insertion_sort-Sorts = record {
      same_entries = insertion_sort-Perm;
      ordered = insertion_sort-Ordered;
    }
