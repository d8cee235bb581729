-- ===== src/Prelude/Sorting.antt =====
-- `std::sort` by a number. It may leave entries that compare equal in any order, so a call of it is
-- known by what the standard says; where the numbers differ, its result is.
pub mod Compared
use Prim.Native.Nat.{ℕ, ◌<◌}
use mathlib.Core.Path.{◌≡◌, refl, sym, ap, ◌∙◌, subst}
use mathlib.Core.Logic.{◌≢◌, inl, inr}
use mathlib.Core.Bool.{true, false}
use mathlib.Core.List.{List, [], ◌∷◌, Permᴰ}
use native.Mathlib.Omega.{arith}
use slipnet.Prelude.Tests.{ltb, if◌then◌else◌, Bool-cases}
use slipnet.Prelude.Lists.{All}

pub Perm-All : {A : Type 0} (P : A → Type 0) {xs ys : List A} → Permᴰ xs ys → All P xs → All P ys
Perm-All P Permᴰ.nil h = h
Perm-All P (Permᴰ.cons e k) h = (subst P e h.0, Perm-All P k h.1)
Perm-All P (Permᴰ.swap e f) h = (subst P f h.1.0, (subst P e h.0, h.1.1))
Perm-All P (Permᴰ.trans k l) h = Perm-All P l (Perm-All P k h)

module _ {A : Type 0} (key : A → ℕ) where
  -- No entry stands directly behind one with a larger number.
  abbrev pub InOrder : List A → Type 0
  InOrder [] = Unit
  InOrder (a ∷ []) = Unit
  InOrder (a ∷ (b ∷ rest)) = (ltb (key b) (key a) ≡ false) × InOrder (b ∷ rest)

  pub record IsSort (sort : List A → List A) : Type 0 where
    pub same_entries : (xs : List A) → Permᴰ xs (sort xs)
    pub in_order : (xs : List A) → InOrder (sort xs)

  -- The numbers grow.
  abbrev pub Grows : List A → Type 0
  Grows [] = Unit
  Grows (a ∷ rest) = All (λ b. key a < key b) rest × Grows rest

  -- The numbers are pairwise different.
  abbrev Apart : List A → Type 0
  Apart [] = Unit
  Apart (a ∷ rest) = All (λ b. key a ≢ key b) rest × Apart rest

  put : A → List A → List A
  put a [] = a ∷ []
  put a (x ∷ xs) = let rest = put a xs in if ltb (key x) (key a) then x ∷ rest else a ∷ (x ∷ xs)

  put_all : List A → List A
  unfolding put
  put_all [] = []
  put_all (x ∷ xs) = put x (put_all xs)

  put-put : (a b : A) (xs : List A) → key a ≢ key b → put a (put b xs) ≡ put b (put a xs)
  unfolding put
  put-put a b [] h = ground arith
  put-put a b (x ∷ xs) h = ground (arith, put-put a b xs h)

  Perm-put_all : {xs ys : List A} → Permᴰ xs ys → Apart xs → Apart ys × (put_all xs ≡ put_all ys)
  unfolding put_all
  Perm-put_all Permᴰ.nil h = (tt, refl)
  Perm-put_all (Permᴰ.cons {a} {b} {l₁ = xs} {l₂ = ys} e k) h =
      let (apart, same) = Perm-put_all k h.1 in
      subst (λ c. Apart (c ∷ ys) × (put a (put_all xs) ≡ put c (put_all ys))) e
        ((Perm-All (λ y. key a ≢ key y) k h.0, apart), ap (put a) same)
  Perm-put_all (Permᴰ.swap {a} {b} {b' = b'} {l = xs} e f) h =
      subst
        (λ c. Apart (c ∷ (b' ∷ xs)) × (put a (put b (put_all xs)) ≡ put c (put b' (put_all xs)))) f
        (subst
          (λ c. Apart (b ∷ (c ∷ xs)) × (put a (put b (put_all xs)) ≡ put b (put c (put_all xs)))) e
          (((λ q. h.0.0 (sym q), h.1.0), (h.0.1, h.1.1)), put-put a b (put_all xs) h.0.0))
  Perm-put_all (Permᴰ.trans k l) h =
      let (apart, same) = Perm-put_all k h in
      let (apart', same') = Perm-put_all l apart in (apart', same ∙ same')

  put_all-InOrder : (xs : List A) → InOrder xs → put_all xs ≡ xs
  unfolding put_all put
  put_all-InOrder [] h = refl
  put_all-InOrder (a ∷ []) h = refl
  put_all-InOrder (a ∷ (b ∷ rest)) h = ap (put a) (put_all-InOrder (b ∷ rest) h.1) ∙ rw h.0 refl

  Grows-InOrder : (xs : List A) → Grows xs → InOrder xs
  Grows-InOrder [] h = tt
  Grows-InOrder (a ∷ []) h = tt
  Grows-InOrder (a ∷ (b ∷ rest)) h = (ground (arith, h.0.0), Grows-InOrder (b ∷ rest) h.1)

  All-ne : (n : ℕ) (xs : List A) → All (λ b. n < key b) xs → All (λ b. n ≢ key b) xs
  All-ne n [] h = tt
  All-ne n (x ∷ xs) h = ((λ e. omega arith), All-ne n xs h.1)

  Grows-Apart : (xs : List A) → Grows xs → Apart xs
  Grows-Apart [] h = tt
  Grows-Apart (a ∷ rest) h = (All-ne (key a) rest h.0, Grows-Apart rest h.1)

  -- A list whose numbers grow is left as it is.
  pub sort-Grows : (sort : List A → List A) (xs : List A) → IsSort sort → Grows xs → sort xs ≡ xs
  sort-Grows sort xs s h =
      sym (put_all-InOrder (sort xs) (s.in_order xs))
      ∙ sym (Perm-put_all (s.same_entries xs) (Grows-Apart xs h)).1
      ∙ put_all-InOrder xs (Grows-InOrder xs h)

-- An insertion sort is a sort.
abbrev pub insert_by : {A : Type 0} (key : A → ℕ) → A → List A → List A
insert_by key a [] = a ∷ []
insert_by key a (x ∷ xs) =
    let rest = insert_by key a xs in if ltb (key x) (key a) then x ∷ rest else a ∷ (x ∷ xs)

abbrev pub sort_by : {A : Type 0} (key : A → ℕ) → List A → List A
sort_by key [] = []
sort_by key (x ∷ xs) = insert_by key x (sort_by key xs)

module _ {A : Type 0} (key : A → ℕ) where
  Perm_refl : (xs : List A) → Permᴰ xs xs
  Perm_refl [] = Permᴰ.nil
  Perm_refl (x ∷ xs) = Permᴰ.cons refl (Perm_refl xs)

  insert_by-Perm : (a : A) (xs : List A) → Permᴰ (a ∷ xs) (insert_by key a xs)
  insert_by-Perm a [] = Perm_refl (a ∷ [])
  insert_by-Perm a (x ∷ xs) = elim (Bool-cases (ltb (key x) (key a))) [
    | inl e ↦ rw e (Permᴰ.trans (Permᴰ.swap refl refl) (Permᴰ.cons refl (insert_by-Perm a xs)))
    | inr e ↦ rw e (Perm_refl (a ∷ (x ∷ xs)))
  ]

  sort_by-Perm : (xs : List A) → Permᴰ xs (sort_by key xs)
  sort_by-Perm [] = Permᴰ.nil
  sort_by-Perm (x ∷ xs) =
      Permᴰ.trans (Permᴰ.cons refl (sort_by-Perm xs)) (insert_by-Perm x (sort_by key xs))

  insert_by-InOrder_behind :
      (x a : A) (xs : List A)
      → ltb (key x) (key a) ≡ true
      → InOrder key (x ∷ xs)
      → InOrder key (insert_by key a xs)
      → InOrder key (x ∷ insert_by key a xs)
  insert_by-InOrder_behind x a [] e h k = (ground arith, tt)
  insert_by-InOrder_behind x a (y ∷ ys) e h k = elim (Bool-cases (ltb (key y) (key a))) [
    | inl q ↦ rw q (h.0, rw q at k)
    | inr q ↦ rw q (ground arith, rw q at k)
  ]

  tail-InOrder : (x : A) (xs : List A) → InOrder key (x ∷ xs) → InOrder key xs
  tail-InOrder x [] h = tt
  tail-InOrder x (y ∷ xs) h = h.1

  insert_by-InOrder : (a : A) (xs : List A) → InOrder key xs → InOrder key (insert_by key a xs)
  insert_by-InOrder a [] h = tt
  insert_by-InOrder a (x ∷ xs) h = elim (Bool-cases (ltb (key x) (key a))) [
    | inl e ↦
        rw e (insert_by-InOrder_behind x a xs e h (insert_by-InOrder a xs (tail-InOrder x xs h)))
    | inr e ↦ rw e (e, h)
  ]

  sort_by-InOrder : (xs : List A) → InOrder key (sort_by key xs)
  sort_by-InOrder [] = tt
  sort_by-InOrder (x ∷ xs) = insert_by-InOrder x (sort_by key xs) (sort_by-InOrder xs)

  pub sort_by-IsSort : IsSort key (sort_by key)
  sort_by-IsSort = record { same_entries = sort_by-Perm; in_order = sort_by-InOrder }
