-- ===== src/Prelude/Int.antt =====
-- The C++ `int`, as an integer; `negsuc n` is -(n + 1).
use Prim.Native.Nat.{ℕ, ◌-◌, ◌%◌, ◌^◌}
use mathlib.Core.Path.{◌≡◌, refl}
use mathlib.Core.Logic.{◌↔◌}
use mathlib.Core.Bool.{Bool, true, false}
use native.Mathlib.Omega.{arith}
use slipnet.Prelude.Tests.{ltb, ◌==◌}

pub data ℤ : Type 0 where
  pos : ℕ → ℤ
  negsuc : ℕ → ℤ

abbrev pub eq_int : ℤ → ℤ → Bool
eq_int (pos a) (pos b) = a == b
eq_int (negsuc a) (negsuc b) = a == b
eq_int _ _ = false

abbrev pub lt_int : ℤ → ℤ → Bool
lt_int (pos a) (pos b) = ltb a b
lt_int (pos a) (negsuc b) = false
lt_int (negsuc a) (pos b) = true
lt_int (negsuc a) (negsuc b) = ltb b a

pub eq_int_iff : (a b : ℤ) → (eq_int a b ≡ true) ↔ (a ≡ b)
eq_int_iff (pos a) (pos b) = ground arith
eq_int_iff (pos a) (negsuc b) = ground arith
eq_int_iff (negsuc a) (pos b) = ground arith
eq_int_iff (negsuc a) (negsuc b) = ground arith

-- `static_cast<int>` of a 64-bit number: its low 32 bits, read as a signed word.
abbrev pub to_int : ℕ → ℤ
to_int n = elim (ltb (n % 2 ^ 32) (2 ^ 31)) [
  | true ↦ pos (n % 2 ^ 32)
  | false ↦ negsuc (2 ^ 32 - n % 2 ^ 32 - 1)
]

pub lt_int_asym : (a b : ℤ) → lt_int a b ≡ true → lt_int b a ≡ false
lt_int_asym (pos a) (pos b) h = ground arith
lt_int_asym (pos a) (negsuc b) h = absurd (cc h)
lt_int_asym (negsuc a) (pos b) h = refl
lt_int_asym (negsuc a) (negsuc b) h = ground arith
