-- ===== src/Prelude/Text/Find.antt =====
-- Laws of `find_char`: where a text is cut at the first occurrence of a character.
use Prim.Native.Nat.{ℕ, zero, suc}
use mathlib.Core.Path.{◌≡◌, refl, ap, ◌∙◌}
use mathlib.Core.Logic.{inl, inr}
use mathlib.Core.Bool.{false}
use mathlib.Core.Option.{none, some}
use mathlib.Core.List.{List, [], ◌∷◌, ◌++◌}
use native.Mathlib.Omega.{arith}
use slipnet.Prelude.Tests.{◌==◌, Bool-cases, Option-cases}
use slipnet.Prelude.Lists.{All, length, take, drop}
use slipnet.Prelude.Text.{Bytes, find_char}

-- The character does not occur.
abbrev pub Lacks : ℕ → Bytes → Type 0
Lacks c s = All (λ x. (x == c) ≡ false) s

pub find_char-Lacks : (c : ℕ) (s : Bytes) → Lacks c s → find_char c s ≡ none
find_char-Lacks c [] h = refl
find_char-Lacks c (x ∷ s) h = ground (arith, find_char-Lacks c s h.1)

pub Lacks-of_none : (c : ℕ) (s : Bytes) → find_char c s ≡ none → Lacks c s
Lacks-of_none c [] h = tt
Lacks-of_none c (x ∷ s) h = elim (Bool-cases (x == c)) [
  | inl e ↦ absurd (cc (rw e at h))
  | inr e ↦ (e, Lacks-of_none c s (ground arith))
]

-- The first occurrence stands behind a text that lacks the character.
pub find_char_here :
    (c : ℕ) (s rest : Bytes) → Lacks c s → find_char c (s ++ c ∷ rest) ≡ some (length s)
find_char_here c [] rest h = ground arith
find_char_here c (x ∷ s) rest h = ground (arith, find_char_here c s rest h.1)

pub take-append {ℓ} : {A : Type ℓ} (s t : List A) → take (length s) (s ++ t) ≡ s
take-append [] t = refl
take-append (x ∷ s) t = ap (◌∷◌ x) (take-append s t)

pub drop-append {ℓ} : {A : Type ℓ} (s t : List A) → drop (length s) (s ++ t) ≡ t
drop-append [] t = refl
drop-append (x ∷ s) t = drop-append s t

pub take-drop {ℓ} : {A : Type ℓ} (n : ℕ) (s : List A) → take n s ++ drop n s ≡ s
take-drop zero s = refl
take-drop (suc n) [] = refl
take-drop (suc n) (x ∷ s) = ap (◌∷◌ x) (take-drop n s)

pub drop_behind {ℓ} :
    {A : Type ℓ} (s : List A) (x : A) (t : List A) → drop (suc (length s)) (s ++ x ∷ t) ≡ t
drop_behind [] x t = refl
drop_behind (y ∷ s) x t = drop_behind s x t

pub record IsCut (c : ℕ) (s : Bytes) (i : ℕ) : Type 0 where
  pub front : Bytes
  pub back : Bytes
  pub splits : s ≡ front ++ c ∷ back
  pub lacks : Lacks c front
  pub at : i ≡ length front

IsCut-later :
    (c x : ℕ) (s : Bytes) (i : ℕ) {j : ℕ}
    → (x == c) ≡ false
    → i ≡ suc j
    → IsCut c s j
    → IsCut c (x ∷ s) i
IsCut-later c x s i e k cut = record {
  front = x ∷ cut.front;
  back = cut.back;
  splits = ap (◌∷◌ x) cut.splits;
  lacks = (e, cut.lacks);
  at = k ∙ ap suc cut.at;
}

pub find_char-IsCut : (c : ℕ) (s : Bytes) (i : ℕ) → find_char c s ≡ some i → IsCut c s i
find_char-IsCut c [] i h = absurd (cc h)
find_char-IsCut c (x ∷ s) i h = elim (Bool-cases (x == c)) [
  | inl e ↦ record { front = []; back = s; splits = ground arith; lacks = tt; at = ground arith }
  | inr e ↦ elim (Option-cases (find_char c s)) [
    | inl n ↦ absurd (ground arith)
    | inr (j, f) ↦ IsCut-later c x s i e (ground arith) (find_char-IsCut c s j f)
  ]
]
