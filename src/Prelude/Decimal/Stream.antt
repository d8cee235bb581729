-- ===== src/Prelude/Decimal/Stream.antt =====
-- `std::istream::operator>>` of a `uint32_t` and of a `char`, on the text that the stream still holds.
use Prim.Native.Nat.{ℕ, ◌<◌, ◌-◌, ◌%◌, ◌^◌}
use mathlib.Core.Bool.{Bool, false}
use mathlib.Core.Option.{Option, none, some}
use mathlib.Core.List.{[], ◌∷◌, ◌++◌, append-nil}
use mathlib.Core.Path.{◌≡◌, refl, sym, ap, ◌∙◌}
use native.Mathlib.Omega.{arith}
use slipnet.Prelude.Tests.{leb, if◌then◌else◌}
use slipnet.Prelude.Options.{◌>>=◌}
use slipnet.Prelude.Text.{Bytes, codes}
use slipnet.Prelude.Decimal.{skip_space, signed, to_string}
use slipnet.Prelude.Decimal.Whole.{behind_number, behind_number-append, to_string-ne-nil}
use slipnet.Prelude.Decimal.RoundTrip.{
  EndsNumber, to_string-head, to_string-IsDigit, skip_space_digit, signed-to_string_front,
}

-- A magnitude past 32 bits makes the extraction fail; a minus sign negates modulo 2 ^ 32.
unfoldable pub unsigned_32 : Option (Bool × ℕ) → Option ℕ
unsigned_32 none = none
unsigned_32 (some (minus, m)) =
    if leb (2 ^ 32) m then none else some (if minus then (2 ^ 32 - m) % 2 ^ 32 else m)

unfoldable pub extract_unsigned : Bytes → Option (ℕ × Bytes)
unfolding skip_space signed unsigned_32 behind_number
extract_unsigned s = do
  n ← unsigned_32 (signed (skip_space s))
  some (n, behind_number (skip_space s))

abbrev pub first_char : Bytes → Option (ℕ × Bytes)
first_char [] = none
first_char (c ∷ s) = some (c, s)

unfoldable pub extract_char : Bytes → Option (ℕ × Bytes)
unfolding skip_space
extract_char s = first_char (skip_space s)

extracts :
    (extract_unsigned (codes " 10.0") ≡ some (10, codes ".0"))
    × (extract_unsigned (codes "4294967296") ≡ none)
    × (extract_unsigned (codes "-1") ≡ some (0xffff_ffff, []))
    × (extract_char (codes "  .5") ≡ some (b'.', codes "5"))
unfolding extract_unsigned extract_char
extracts = (refl, refl, refl, refl)

skip_space-front : (n : ℕ) (rest : Bytes) → skip_space (to_string n ++ rest) ≡ to_string n ++ rest
skip_space-front n rest =
    let (c, s, e, d) = to_string-head n in
    let whole : to_string n ++ rest ≡ c ∷ (s ++ rest) = ap (λ t. t ++ rest) e in
    ap skip_space whole ∙ skip_space_digit c (s ++ rest) d ∙ sym whole

-- A number in front of other text is extracted, and leaves that text.
pub extract_unsigned-to_string :
    (n : ℕ) (rest : Bytes)
    → n < 2 ^ 32
    → EndsNumber rest
    → extract_unsigned (to_string n ++ rest) ≡ some (n, rest)
unfolding extract_unsigned unsigned_32
extract_unsigned-to_string n rest h e =
    let small : leb (2 ^ 32) n ≡ false = ground arith in
    rw
      (
        skip_space-front n rest,
        signed-to_string_front n rest e,
        small,
        behind_number-append (to_string n) rest (to_string-IsDigit n) (to_string-ne-nil n) e,
      )
      refl

pub extract_unsigned_last : (n : ℕ) → n < 2 ^ 32 → extract_unsigned (to_string n) ≡ some (n, [])
extract_unsigned_last n h =
    ap extract_unsigned (sym (append-nil (to_string n))) ∙ extract_unsigned-to_string n [] h tt

pub extract_char_dot : (s : Bytes) → extract_char (b'.' ∷ s) ≡ some (b'.', s)
unfolding extract_char
extract_char_dot s = refl
