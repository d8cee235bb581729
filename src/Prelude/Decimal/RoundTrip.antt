-- ===== src/Prelude/Decimal/RoundTrip.antt =====
-- What `to_string` writes is read back by `stoull` and `stoi`.
use Prim.Native.Nat.{ℕ, zero, suc, ◌+◌, ◌-◌, ◌*◌, ◌/◌, ◌%◌, ◌^◌, ◌≤◌, ◌<◌}
use mathlib.Core.Bool.{true, false}
use mathlib.Core.Option.{some}
use mathlib.Core.List.{[], ◌∷◌, ◌++◌, concat-ne-nil}
use mathlib.Core.Path.{◌≡◌, refl, ◌∙◌, ap, sym, subst}
use mathlib.Core.Logic.{◌≢◌}
use native.Mathlib.Decide.{dec_lt}
use native.Mathlib.Nat.{le_refl}
use native.Mathlib.Omega.{arith}
use slipnet.Prelude.Lists.{All, All-append}
use slipnet.Prelude.Text.{Bytes, is_digit}
use slipnet.Prelude.Int.{ℤ, pos, negsuc}
use slipnet.Prelude.Decimal.{
  digits_of, to_string, int_to_string, skip_space, read_digits, magnitude, signed, stoull, stoi,
}

abbrev pub IsDigit : ℕ → Type 0
IsDigit c = (b'0' ≤ c) × (c ≤ b'9')

digits_of_short : (f n : ℕ) → n < 10 → digits_of (suc f) n ≡ (b'0' + n) ∷ []
unfolding digits_of
digits_of_short f n h = ground arith

digits_of_long :
    (f n : ℕ) → 10 ≤ n → digits_of (suc f) n ≡ digits_of f (n / 10) ++ (b'0' + n % 10) ∷ []
unfolding digits_of
digits_of_long f n h = ground arith

digits_of-IsDigit : (fuel n : ℕ) → All IsDigit (digits_of fuel n)
digits_of-IsDigit zero n = unfold digits_of in omega arith
digits_of-IsDigit (suc f) n = elim (dec_lt n 10) [
  | yes h ↦ rw (digits_of_short f n h) (omega arith)
  | no h ↦
      rw (digits_of_long f n (omega arith))
        (All-append IsDigit (digits_of f (n / 10)) _ (digits_of-IsDigit f (n / 10)) (omega arith))
]

-- It starts with a digit.
digits_of-head : (fuel n : ℕ) → (c : ℕ) × (s : Bytes) × (digits_of fuel n ≡ c ∷ s) × IsDigit c
digits_of-head fuel n = go (digits_of fuel n) refl (digits_of-IsDigit fuel n) (ne fuel n)
  where
    ne : (fuel n : ℕ) → digits_of fuel n ≢ []
    ne zero n e = unfold digits_of in cc
    ne (suc f) n e = elim (dec_lt n 10) [
      | yes h ↦ cc (digits_of_short f n h)
      | no h ↦ concat-ne-nil _ _ (sym (digits_of_long f n (omega arith)) ∙ e)
    ]

    go :
        (l : Bytes)
        → digits_of fuel n ≡ l
        → All IsDigit (digits_of fuel n)
        → digits_of fuel n ≢ []
        → (c : ℕ) × (s : Bytes) × (digits_of fuel n ≡ c ∷ s) × IsDigit c
    go [] e h k = absurd (k e)
    go (c ∷ s) e h k = let d : All IsDigit (c ∷ s) = subst (All IsDigit) e h in (c, s, e, d.0)

read_digits-append :
    (acc : ℕ) (s rest : Bytes)
    → All IsDigit s
    → read_digits acc (s ++ rest) ≡ read_digits (read_digits acc s) rest
unfolding read_digits
read_digits-append acc [] rest h = refl
read_digits-append acc (c ∷ s) rest h =
    ground (arith, read_digits-append (acc * 10 + (c - b'0')) s rest h.1)

read_digits_last : (acc c : ℕ) → IsDigit c → read_digits acc (c ∷ []) ≡ acc * 10 + (c - b'0')
unfolding read_digits
read_digits_last acc c h = ground arith

read_digits-digits_of : (fuel n : ℕ) → n ≤ fuel → read_digits 0 (digits_of fuel n) ≡ n
read_digits-digits_of zero n h = unfold digits_of read_digits in ground arith
read_digits-digits_of (suc f) n h = elim (dec_lt n 10) [
  | yes k ↦
      rw (digits_of_short f n k)
        (omega (arith, read_digits_last 0 (b'0' + n) (omega arith, omega arith)))
  | no k ↦
      rw
        (
          digits_of_long f n (omega arith),
          read_digits-append 0 (digits_of f (n / 10)) ((b'0' + n % 10) ∷ [])
              (digits_of-IsDigit f (n / 10)),
          read_digits-digits_of f (n / 10) (omega arith),
        )
        (omega (arith, read_digits_last (n / 10) (b'0' + n % 10) (omega arith, omega arith)))
]

pub to_string-head : (n : ℕ) → (c : ℕ) × (s : Bytes) × (to_string n ≡ c ∷ s) × IsDigit c
unfolding to_string
to_string-head n = digits_of-head n n

pub to_string-IsDigit : (n : ℕ) → All IsDigit (to_string n)
unfolding to_string
to_string-IsDigit n = digits_of-IsDigit n n

signed_digit :
    (c : ℕ) (s : Bytes) → IsDigit c → signed (c ∷ s) ≡ some (false, read_digits 0 (c ∷ s))
unfolding signed magnitude
signed_digit c s h = ground arith

signed_minus :
    (c : ℕ) (s : Bytes) → IsDigit c → signed (b'-' ∷ c ∷ s) ≡ some (true, read_digits 0 (c ∷ s))
unfolding signed magnitude
signed_minus c s h = ground arith

pub skip_space_digit : (c : ℕ) (s : Bytes) → IsDigit c → skip_space (c ∷ s) ≡ c ∷ s
unfolding skip_space
skip_space_digit c s h = ground arith

signed-to_string : (n : ℕ) → signed (skip_space (to_string n)) ≡ some (false, n)
unfolding to_string
signed-to_string n =
    let (c, s, e, d) = digits_of-head n n in
    rw (e, skip_space_digit c s d, signed_digit c s d)
      (ap (λ t. some (false, t))
        (ap (read_digits 0) (sym e) ∙ read_digits-digits_of n n (le_refl n)))

-- What stands behind a number does not start with a digit.
abbrev pub EndsNumber : Bytes → Type 0
EndsNumber [] = Unit
EndsNumber (c ∷ s) = is_digit c ≡ false

read_digits_stop : (acc : ℕ) (s : Bytes) → EndsNumber s → read_digits acc s ≡ acc
unfolding read_digits
read_digits_stop acc [] h = refl
read_digits_stop acc (c ∷ s) h = rw h refl

-- The number in front of other text is read.
pub signed-to_string_front :
    (n : ℕ) (rest : Bytes) → EndsNumber rest → signed (to_string n ++ rest) ≡ some (false, n)
unfolding to_string
signed-to_string_front n rest h =
    let (c, s, e, d) = digits_of-head n n in
    ap (λ t. signed (t ++ rest)) e
    ∙ signed_digit c (s ++ rest) d
    ∙ ap (λ t. some (false, t))
        (ap (λ t. read_digits 0 (t ++ rest)) (sym e)
          ∙ read_digits-append 0 (digits_of n n) rest (digits_of-IsDigit n n)
          ∙ read_digits_stop _ rest h
          ∙ read_digits-digits_of n n (le_refl n))

signed-minus_to_string : (n : ℕ) → signed (skip_space (b'-' ∷ to_string n)) ≡ some (true, n)
unfolding to_string skip_space
signed-minus_to_string n =
    let (c, s, e, d) = digits_of-head n n in
    rw (e, signed_minus c s d)
      (ap (λ t. some (true, t))
        (ap (read_digits 0) (sym e) ∙ read_digits-digits_of n n (le_refl n)))

-- A number of 64 bits is read back as written.
pub stoull-to_string : (n : ℕ) → n < 2 ^ 64 → stoull (to_string n) ≡ some n
unfolding stoull
stoull-to_string n h = rw (signed-to_string n) (ground arith)

abbrev pub IsInt : ℤ → Type 0
IsInt (pos n) = n < 2 ^ 31
IsInt (negsuc n) = n < 2 ^ 31

-- So is an `int` of 32 bits.
pub stoi-int_to_string : (z : ℤ) → IsInt z → stoi (int_to_string z) ≡ some z
unfolding stoi int_to_string
stoi-int_to_string (pos n) h = rw (signed-to_string n) (ground arith)
stoi-int_to_string (negsuc n) h = rw (signed-minus_to_string (suc n)) (ground arith)
