-- ===== src/Spdx/Outcome.antt =====
-- The outcome of a parse: a value, an error, an index out of range, or (in the model alone) no
-- fuel left.
use osv_scanner.Prelude.{Text, refl, ◌≡◌}

pub data ParseError : Type 0 where
  unexpected : (next cur : Text) → ParseError
  missing_closing_bracket : ParseError

pub data Outcome {ℓ} (A : Type ℓ) : Type ℓ where
  ok : A → Outcome A
  err : ParseError → Outcome A
  panic : Outcome A
  out_of_fuel : Outcome A

infixl 5 ◌>>=◌
abbrev pub ◌>>=◌ {ℓ κ} : {A : Type ℓ} {B : Type κ} → Outcome A → (A → Outcome B) → Outcome B
ok a >>= f = f a
err e >>= f = err e
panic >>= f = panic
out_of_fuel >>= f = out_of_fuel

-- The run ended without a panic and within its fuel, and a value that it returns has `P`.
abbrev pub Ends {ℓ} : {A : Type ℓ} → (A → Type 0) → Outcome A → Type 0
Ends P (ok a) = P a
Ends P (err e) = Unit
Ends P panic = ⊥
Ends P out_of_fuel = ⊥

pub Ends-bind {ℓ κ} :
    {A : Type ℓ} {B : Type κ} (P : A → Type 0) (Q : B → Type 0) (r : Outcome A) (f : A → Outcome B)
    → Ends P r
    → ((a : A) → r ≡ ok a → P a → Ends Q (f a))
    → Ends Q (r >>= f)
Ends-bind P Q (ok a) f h k = k a refl h
Ends-bind P Q (err e) f h k = tt
Ends-bind P Q panic f h k = absurd h
Ends-bind P Q out_of_fuel f h k = absurd h

pub Ends-map {ℓ} :
    {A : Type ℓ} (P Q : A → Type 0) (r : Outcome A)
    → Ends P r
    → ((a : A) → P a → Ends Q (ok a))
    → Ends Q r
Ends-map P Q (ok a) h k = k a h
Ends-map P Q (err e) h k = tt
Ends-map P Q panic h k = absurd h
Ends-map P Q out_of_fuel h k = absurd h
