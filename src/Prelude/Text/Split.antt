-- ===== src/Prelude/Text/Split.antt =====
-- `std::getline` with a delimiter, called until it fails.
use Prim.Native.Nat.{ℕ}
use mathlib.Core.Path.{◌≡◌, refl, sym, ◌∙◌}
use mathlib.Core.Logic.{◌≢◌}
use mathlib.Core.Bool.{true, false}
use mathlib.Core.List.{List, [], ◌∷◌, ◌++◌, append_assoc, append-nil}
use slipnet.Prelude.Tests.{◌==◌}
use slipnet.Prelude.Text.{Bytes}
use slipnet.Prelude.Text.Find.{Lacks}
use native.Mathlib.Omega.{arith}

-- What is left behind the last delimiter is a part if there is any.
abbrev last_part : Bytes → List Bytes
last_part [] = []
last_part (c ∷ s) = (c ∷ s) ∷ []

unfoldable pub split_on : ℕ → Bytes → Bytes → List Bytes
split_on d part [] = last_part part
split_on d part (c ∷ s) = elim (c == d) [
  | true ↦ part ∷ split_on d [] s
  | false ↦ split_on d (part ++ c ∷ []) s
]

pub split_on_part :
    (d : ℕ) (part s rest : Bytes)
    → Lacks d s
    → split_on d part (s ++ d ∷ rest) ≡ (part ++ s) ∷ split_on d [] rest
unfolding split_on
split_on_part d part [] rest h = rw append-nil (ground arith)
split_on_part d part (c ∷ s) rest h =
    rw (h.0, split_on) (split_on_part d (part ++ c ∷ []) s rest h.1 ∙ rw (append_assoc part))

last_part_ne : (s : Bytes) → s ≢ [] → last_part s ≡ s ∷ []
last_part_ne [] h = absurd (h refl)
last_part_ne (c ∷ s) h = refl

pub split_on_last :
    (d : ℕ) (part s t : Bytes) → Lacks d s → part ++ s ≡ t → t ≢ [] → split_on d part s ≡ t ∷ []
unfolding split_on
split_on_last d part [] t h e k =
    let whole : part ≡ t = sym (append-nil part) ∙ e in rw whole (last_part_ne t k)
split_on_last d part (c ∷ s) t h e k =
    rw (h.0, split_on) (split_on_last d (part ++ c ∷ []) s t h.1 (rw (append_assoc part) e) k)
