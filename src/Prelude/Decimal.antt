-- ===== src/Prelude/Decimal.antt =====
-- Decimal text: what `std::to_string` and `operator<<` write for a number, and what `std::stoul`,
-- `std::stoull` and `std::stoi` read. A call that throws is `none`. `unsigned long` has 64 bits.
pub mod RoundTrip
pub mod Whole
pub mod Stream
use Prim.Native.Nat.{ℕ, zero, suc, ◌+◌, ◌-◌, ◌*◌, ◌/◌, ◌%◌, ◌^◌}
use mathlib.Core.Bool.{Bool, true, false}
use mathlib.Core.Option
use mathlib.Core.Option.{Option, none, some}
use mathlib.Core.List.{[], ◌∷◌, ◌++◌}
use mathlib.Core.Path.{◌≡◌, refl}
use slipnet.Prelude.Tests.{ltb, leb, ◌==◌, if◌then◌else◌}
use slipnet.Prelude.Text.{Bytes, codes, is_space, is_digit}
use slipnet.Prelude.Int.{ℤ, pos, negsuc}

abbrev last_digit : ℕ → Bytes
last_digit n = (b'0' + n % 10) ∷ []

-- The last digit stands at the end; the number itself is enough fuel, since it falls.
digits_of : ℕ → ℕ → Bytes
digits_of zero n = last_digit n
digits_of (suc fuel) n = elim (ltb n 10) [
  | true ↦ last_digit n
  | false ↦ digits_of fuel (n / 10) ++ last_digit n
]

unfoldable pub to_string : ℕ → Bytes
unfolding digits_of
to_string n = digits_of n n

unfoldable pub int_to_string : ℤ → Bytes
unfolding to_string
int_to_string (pos n) = to_string n
int_to_string (negsuc n) = b'-' ∷ to_string (suc n)

unfoldable pub skip_space : Bytes → Bytes
unfolding is_space
skip_space [] = []
skip_space (c ∷ s) = if is_space c then skip_space s else c ∷ s

-- The value of the digits in front, onto those read so far.
unfoldable pub read_digits : ℕ → Bytes → ℕ
unfolding is_digit
read_digits acc [] = acc
read_digits acc (c ∷ s) = if is_digit c then read_digits (acc * 10 + (c - b'0')) s else acc

-- No digit in front: `std::invalid_argument`.
unfoldable pub magnitude : Bytes → Option ℕ
unfolding read_digits
magnitude [] = none
magnitude (c ∷ s) = if is_digit c then some (read_digits 0 (c ∷ s)) else none

-- The sign, true for `-`, and the magnitude behind it.
unfoldable pub signed : Bytes → Option (Bool × ℕ)
unfolding magnitude
signed [] = none
signed (c ∷ s) =
    if c == b'-'
    then Option.map (λ m. (true, m)) (magnitude s)
    else if c == b'+'
    then Option.map (λ m. (false, m)) (magnitude s)
    else Option.map (λ m. (false, m)) (magnitude (c ∷ s))

-- A magnitude past 64 bits is `std::out_of_range`; a minus sign negates modulo 2 ^ 64.
unsigned_64 : Option (Bool × ℕ) → Option ℕ
unsigned_64 none = none
unsigned_64 (some (minus, m)) =
    if leb (2 ^ 64) m then none else some (if minus then (2 ^ 64 - m) % 2 ^ 64 else m)

unfoldable pub stoull : Bytes → Option ℕ
unfolding skip_space signed unsigned_64
stoull s = unsigned_64 (signed (skip_space s))

-- `int` has 32 bits; a value outside is `std::out_of_range`.
int_32 : Option (Bool × ℕ) → Option ℤ
int_32 none = none
int_32 (some (false, m)) = if ltb m (2 ^ 31) then some (pos m) else none
int_32 (some (true, zero)) = some (pos 0)
int_32 (some (true, suc m)) = if ltb m (2 ^ 31) then some (negsuc m) else none

unfoldable pub stoi : Bytes → Option ℤ
unfolding skip_space signed int_32
stoi s = int_32 (signed (skip_space s))

read_back :
    (stoull (codes " +0042x") ≡ some 42)
    × (stoull (codes "-1") ≡ some 0xffff_ffff_ffff_ffff)
    × (stoull (codes "18446744073709551616") ≡ none)
    × (stoull (codes "x1") ≡ none)
    × (stoi (codes "-2147483648") ≡ some (negsuc 2147483647))
    × (stoi (codes "2147483648") ≡ none)
    × (to_string 65535 ≡ codes "65535")
    × (int_to_string (negsuc 4) ≡ codes "-5")
unfolding stoull stoi to_string int_to_string
read_back = (refl, refl, refl, refl, refl, refl, refl, refl)
