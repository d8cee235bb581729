-- ===== src/Prelude/Options.antt =====
-- `Option` as a chain of steps, each of which may end it.
use mathlib.Core.Path.{◌≡◌, refl}
use mathlib.Core.Option.{Option, none, some}

infixl 5 ◌>>=◌
abbrev pub ◌>>=◌ : {A B : Type 0} → Option A → (A → Option B) → Option B
none >>= f = none
some a >>= f = f a

pub bind_inv :
    {A B : Type 0} (m : Option A) (f : A → Option B) {b : B}
    → (m >>= f) ≡ some b
    → (a : A) × (m ≡ some a) × (f a ≡ some b)
bind_inv none f h = cc
bind_inv (some a) f h = (a, refl, h)

-- A chain whose first step has a result, and whose next has one for that.
pub bind_result :
    {A B : Type 0} (m : Option A) (f : A → Option B)
    → (a : A) × (m ≡ some a)
    → ((a : A) → m ≡ some a → (b : B) × (f a ≡ some b))
    → (b : B) × ((m >>= f) ≡ some b)
bind_result none f (a, e) k = absurd (cc e)
bind_result (some a) f h k = k a refl
