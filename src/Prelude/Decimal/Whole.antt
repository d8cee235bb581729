-- ===== src/Prelude/Decimal/Whole.antt =====
-- `std::stoi` with a position, where the caller goes on only if the whole text was read.
use Prim.Native.Nat.{ℕ, ◌<◌, ◌^◌}
use mathlib.Core.Bool.{false, ◌||◌}
use mathlib.Core.Option.{Option, none, some}
use mathlib.Core.List.{[], ◌∷◌, ◌++◌}
use mathlib.Core.Path.{◌≡◌, refl}
use mathlib.Core.Logic.{◌≢◌}
use native.Mathlib.Omega.{arith}
use slipnet.Prelude.Tests.{◌==◌, leb, if◌then◌else◌}
use slipnet.Prelude.Lists.{All}
use slipnet.Prelude.Text.{Bytes, codes, is_digit, is_empty}
use slipnet.Prelude.Text.Find.{Lacks}
use slipnet.Prelude.Int.{ℤ, pos, negsuc}
use slipnet.Prelude.Decimal.{skip_space, stoi, to_string, int_to_string}
use slipnet.Prelude.Decimal.RoundTrip.{
  IsDigit, EndsNumber, to_string-IsDigit, to_string-head, skip_space_digit, stoi-int_to_string,
}

unfoldable pub skip_digits : Bytes → Bytes
unfolding is_digit
skip_digits [] = []
skip_digits (c ∷ s) = if is_digit c then skip_digits s else c ∷ s

-- What stands behind the number that `stoi` reads.
unfoldable pub behind_number : Bytes → Bytes
unfolding skip_digits
behind_number [] = []
behind_number (c ∷ s) = if c == b'-' || c == b'+' then skip_digits s else skip_digits (c ∷ s)

-- The number, where its text ends at the position that `stoi` stores.
unfoldable pub stoi_whole : Bytes → Option ℤ
unfolding behind_number
stoi_whole s = if is_empty (behind_number (skip_space s)) then stoi s else none

whole_texts :
    (stoi_whole (codes "024") ≡ some (pos 24))
    × (stoi_whole (codes " -1") ≡ some (negsuc 0))
    × (stoi_whole (codes "1 ") ≡ none)
    × (stoi_whole (codes "1x") ≡ none)
    × (stoi_whole [] ≡ none)
unfolding stoi_whole skip_space stoi
whole_texts = (refl, refl, refl, refl, refl)

skip_digits-IsDigit : (s : Bytes) → All IsDigit s → skip_digits s ≡ []
unfolding skip_digits
skip_digits-IsDigit [] h = refl
skip_digits-IsDigit (c ∷ s) h = ground (arith, skip_digits-IsDigit s h.1)

skip_digits-append :
    (s rest : Bytes) → All IsDigit s → EndsNumber rest → skip_digits (s ++ rest) ≡ rest
unfolding skip_digits
skip_digits-append [] [] h e = refl
skip_digits-append [] (c ∷ rest) h e = rw e refl
skip_digits-append (c ∷ s) rest h e = ground (arith, skip_digits-append s rest h.1 e)

pub behind_number-append :
    (s rest : Bytes) → All IsDigit s → s ≢ [] → EndsNumber rest → behind_number (s ++ rest) ≡ rest
unfolding behind_number
behind_number-append [] rest h ne e = absurd (ne refl)
behind_number-append (c ∷ s) rest h ne e =
    ground (arith, skip_digits-append s rest h.1 e, skip_digits-append (c ∷ s) rest h e)

behind_number-IsDigit : (s : Bytes) → All IsDigit s → behind_number s ≡ []
unfolding behind_number
behind_number-IsDigit [] h = refl
behind_number-IsDigit (c ∷ s) h =
    ground (arith, skip_digits-IsDigit s h.1, skip_digits-IsDigit (c ∷ s) h)

skip_space-to_string : (n : ℕ) → skip_space (to_string n) ≡ to_string n
skip_space-to_string n = let (c, s, e, d) = to_string-head n in rw e (skip_space_digit c s d)

pub stoi_whole-to_string : (n : ℕ) → n < 2 ^ 31 → stoi_whole (to_string n) ≡ some (pos n)
unfolding stoi_whole
stoi_whole-to_string n h =
    rw (skip_space-to_string n, behind_number-IsDigit (to_string n) (to_string-IsDigit n))
      (unfold int_to_string in stoi-int_to_string (pos n) h)

-- A character that is no digit is not in the text of a number.
pub Lacks-IsDigit : (c : ℕ) (s : Bytes) → leb b'0' c ≡ false → All IsDigit s → Lacks c s
Lacks-IsDigit c [] l h = tt
Lacks-IsDigit c (x ∷ s) l h = (ground arith, Lacks-IsDigit c s l h.1)

pub to_string-ne-nil : (n : ℕ) → to_string n ≢ []
to_string-ne-nil n e = let (c, s, f, d) = to_string-head n in cc
