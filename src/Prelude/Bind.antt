-- ===== src/Prelude/Bind.antt =====
-- Chains of steps that may panic, for `do` blocks.
use mathlib.Core.Path.{◌≡◌, ap, refl, subst}
use mathlib.Core.Option.{Option, none, some}

infixl 5 ◌>>=◌
abbrev pub ◌>>=◌ {ℓ κ} : {A : Type ℓ} {B : Type κ} → Option A → (A → Option B) → Option B
none >>= f = none
some a >>= f = f a

-- A chain that returns has a first step that returns.
pub bind_some {ℓ κ} :
    {A : Type ℓ} {B : Type κ} (m : Option A) (f : A → Option B) (b : B)
    → (m >>= f) ≡ some b
    → (a : A) × (m ≡ some a) × (f a ≡ some b)
bind_some none f b h = cc
bind_some (some a) f b h = (a, refl, h)

-- What holds of a result holds of what it is equal to.
pub of_some {ℓ κ} : {A : Type ℓ} (P : A → Type κ) {a b : A} → some a ≡ some b → P a → P b
of_some {A = A} P {a} {b} e p = subst P (ap value e) p
  where
    value : Option A → A
    value none = a
    value (some x) = x
