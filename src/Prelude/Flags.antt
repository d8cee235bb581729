-- ===== src/Prelude/Flags.antt =====
-- The interrupt flag, asked over and over: its answers are a sequence.
use Prim.Native.Nat.{ℕ, zero, suc, ◌+◌, ◌-◌, ◌≤◌}
use mathlib.Core.Path.{◌≡◌, ap, ◌∙◌}
use mathlib.Core.Bool.{Bool, true}
use native.Mathlib.Omega.{arith}

-- The flag stays set.
abbrev pub StaysSet : (ℕ → Bool) → Type 0
StaysSet stop = (n : ℕ) → stop n ≡ true → stop (n + 1) ≡ true

StaysSet_behind :
    (stop : ℕ → Bool) → StaysSet stop → (n k : ℕ) → stop n ≡ true → stop (n + k) ≡ true
StaysSet_behind stop stays n zero e = ap stop (let q : n + 0 ≡ n = omega arith in q) ∙ e
StaysSet_behind stop stays n (suc k) e =
    ap stop (let q : n + suc k ≡ n + k + 1 = omega arith in q)
    ∙ stays (n + k) (StaysSet_behind stop stays n k e)

-- Where it is set, it is set at each later question.
pub StaysSet-later :
    (stop : ℕ → Bool) → StaysSet stop → (n m : ℕ) → n ≤ m → stop n ≡ true → stop m ≡ true
StaysSet-later stop stays n m h e =
    ap stop (let q : m ≡ n + (m - n) = omega arith in q) ∙ StaysSet_behind stop stays n (m - n) e
