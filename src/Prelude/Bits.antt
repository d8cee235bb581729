-- ===== src/Prelude/Bits.antt =====
-- `&`, `|` and `~` of 32-bit words as arithmetic: a mask of high bits clears a field, and a field
-- of ones fills it.
use Prim.Native.Nat.{
  ℕ, zero, suc, ◌+◌, ◌-◌, ◌*◌, ◌/◌, ◌%◌, ◌^◌, ◌≤◌, ◌<◌, min, max, bit_and, bit_or, digits,
  bit_and-bitwise, bit_or-bitwise,
}
use mathlib.Core.Path.{◌≡◌, refl, ap, ap₂, ◌∙◌}
use native.Mathlib.Nat.{pow-suc, one-le-pow, div-div-eq-div-mul, div-lt_iff_lt-mul}
use native.Mathlib.Omega.{arith}

-- `~x` of a `std::uint32_t`.
abbrev pub bit_not : ℕ → ℕ
bit_not x = 0xffff_ffff - x

-- The digit recursion does not depend on its fuel, once that covers the first word.
same_digits :
    (rest : ℕ → ℕ) (op : ℕ → ℕ → ℕ) (a fuel b : ℕ) (more : ℕ)
    → a ≤ fuel
    → a ≤ more
    → digits rest op more a b ≡ digits rest op fuel a b
same_digits rest op (suc a) (suc fuel) b (suc more) h k =
    let smaller : suc a / 2 ≤ fuel = omega arith in
    ap (λ (t : ℕ). t * 2 + op (suc a % 2) (b % 2))
      (same_digits rest op (suc a / 2) fuel (b / 2) more smaller (omega arith))
same_digits rest op (suc a) (suc fuel) b zero h k = absurd (omega arith)
same_digits rest op (suc a) zero b more h k = absurd (omega arith)
same_digits rest op zero (suc fuel) b (suc more) h k = refl
same_digits rest op zero (suc fuel) b zero h k = refl
same_digits rest op zero zero b (suc more) h k = refl
same_digits rest op zero zero b zero h k = refl

and_unroll : (a b : ℕ) → bit_and a b ≡ bit_and (a / 2) (b / 2) * 2 + min (a % 2) (b % 2)
and_unroll zero b = omega (arith, bit_and-bitwise 0 b, bit_and-bitwise 0 (b / 2))
and_unroll (suc a) b =
    let half = suc a / 2 in
    let smaller : half ≤ a = omega arith in
    omega (
      arith,
      bit_and-bitwise (suc a) b,
      bit_and-bitwise half (b / 2),
      same_digits (λ _. 0) min half a (b / 2) half smaller (omega arith),
    )

or_unroll : (a b : ℕ) → bit_or a b ≡ bit_or (a / 2) (b / 2) * 2 + max (a % 2) (b % 2)
or_unroll zero b = omega (arith, bit_or-bitwise 0 b, bit_or-bitwise 0 (b / 2))
or_unroll (suc a) b =
    let half = suc a / 2 in
    let smaller : half ≤ a = omega arith in
    omega (
      arith,
      bit_or-bitwise (suc a) b,
      bit_or-bitwise half (b / 2),
      same_digits (λ y. y) max half a (b / 2) half smaller (omega arith),
    )

double_power : (m k : ℕ) → m * 2 ^ suc k ≡ 2 * (m * 2 ^ k)
double_power m k = omega (arith, ap (λ (t : ℕ). m * t) (pow-suc 2 k))

-- The low `k` bits of the mask are zero: they are cleared, and the others meet the rest of it.
bit_and-shift : (k m a : ℕ) → bit_and a (m * 2 ^ k) ≡ bit_and (a / 2 ^ k) m * 2 ^ k
bit_and-shift zero m a = ground arith
bit_and-shift (suc k) m a = omega (
  arith,
  and_unroll a (m * 2 ^ suc k),
  double_power m k,
  ap (λ (t : ℕ). bit_and (a / 2) t) (halve m k),
  bit_and-shift k m (a / 2),
  ap (λ (t : ℕ). bit_and t m * 2 ^ k)
      (div-div-eq-div-mul a 2 (2 ^ k) ∙ ap (λ (t : ℕ). a / t) (twice k)),
  double_power (bit_and (a / 2 ^ suc k) m) k,
)
  where
    halve : (m k : ℕ) → m * 2 ^ suc k / 2 ≡ m * 2 ^ k
    halve m k = omega (arith, double_power m k)

    twice : (k : ℕ) → 2 * 2 ^ k ≡ 2 ^ suc k
    twice k = omega (arith, pow-suc 2 k)

-- A mask of ones as wide as the word changes nothing.
bit_and-ones : (n a : ℕ) → a < 2 ^ n → bit_and a (2 ^ n - 1) ≡ a
bit_and-ones zero a h = ground arith
bit_and-ones (suc n) a h = omega (
  arith,
  and_unroll a (2 ^ suc n - 1),
  pow-suc 2 n,
  one-le-pow n 2 (omega arith),
  ap (λ (t : ℕ). bit_and (a / 2) t) (halve n),
  bit_and-ones n (a / 2) (omega (arith, pow-suc 2 n)),
)
  where
    halve : (n : ℕ) → (2 ^ suc n - 1) / 2 ≡ 2 ^ n - 1
    halve n = omega (arith, pow-suc 2 n, one-le-pow n 2 (omega arith))

-- `x & mask` for a mask of `n` ones above `k` zeros: the low `k` bits are cleared.
pub bit_and_high :
    (n k a : ℕ) → a < 2 ^ n * 2 ^ k → bit_and a ((2 ^ n - 1) * 2 ^ k) ≡ a / 2 ^ k * 2 ^ k
bit_and_high n k a h =
    bit_and-shift k (2 ^ n - 1) a
    ∙ ap (λ (t : ℕ). t * 2 ^ k)
        (bit_and-ones n (a / 2 ^ k) ((div-lt_iff_lt-mul (one-le-pow k 2 (omega arith))).1 h))

bit_or-zero : (fuel x : ℕ) → x ≤ fuel → bit_or x 0 ≡ x
bit_or-zero fuel zero h = refl
bit_or-zero zero (suc x) h = absurd (omega arith)
bit_or-zero (suc fuel) (suc x) h =
    omega (arith, or_unroll (suc x) 0, bit_or-zero fuel (suc x / 2) (omega arith))

-- `x | ones` where the low `k` bits of `x` are clear: they are filled.
pub bit_or_low : (k x : ℕ) → bit_or (x * 2 ^ k) (2 ^ k - 1) ≡ x * 2 ^ k + (2 ^ k - 1)
bit_or_low zero x = omega (arith, bit_or-zero (x * 1) (x * 1) (omega arith))
bit_or_low (suc k) x = omega (
  arith,
  or_unroll (x * 2 ^ suc k) (2 ^ suc k - 1),
  double_power x k,
  pow-suc 2 k,
  one-le-pow k 2 (omega arith),
  ap₂ bit_or (halve_field k) (halve_ones k),
  bit_or_low k x,
)
  where
    halve_field : (k : ℕ) → x * 2 ^ suc k / 2 ≡ x * 2 ^ k
    halve_field k = omega (arith, double_power x k)

    halve_ones : (k : ℕ) → (2 ^ suc k - 1) / 2 ≡ 2 ^ k - 1
    halve_ones k = omega (arith, pow-suc 2 k, one-le-pow k 2 (omega arith))
