-- ===== src/Prelude/Maps.antt =====
-- Go maps with string keys as association lists with one entry for a key.
use Prim.Native.Nat.{ℕ, ◌+◌}
use mathlib.Core.Path.{◌≡◌, refl}
use mathlib.Core.List.{List, [], ◌∷◌}
use mathlib.Core.Option.{Option, none, some}
use native.Mathlib.Omega.{arith}
use osv_scanner.Prelude.Tests.{if◌then◌else◌}
use osv_scanner.Prelude.Strings.{Text, text_eq, text_eq_iff}
use osv_scanner.Prelude.Sort.{total}

module _ {ℓ} {V : Type ℓ} where
  unfoldable pub lookup : Text → List (Text × V) → Option V
  lookup k [] = none
  lookup k ((j, v) ∷ m) = if text_eq j k then some v else lookup k m

  -- `m[k] = v`.
  unfoldable pub assign : Text → V → List (Text × V) → List (Text × V)
  assign k v [] = (k, v) ∷ []
  assign k v ((j, w) ∷ m) = if text_eq j k then (j, v) ∷ m else (j, w) ∷ assign k v m

  pub lookup-assign :
      (k j : Text) (v : V) (m : List (Text × V))
      → lookup j (assign k v m) ≡ (if text_eq k j then some v else lookup j m)
  unfolding lookup assign
  lookup-assign k j v [] = refl
  lookup-assign k j v ((i, w) ∷ m) =
      ground (arith, text_eq_iff k j, text_eq_iff i k, text_eq_iff i j, lookup-assign k j v m)

module _ {V : Type 0} (weight : V → ℕ) where
  -- The sum of the weights of the values.
  abbrev pub total_values : List (Text × V) → ℕ
  total_values m = total (λ (e : Text × V). weight e.1) m

  abbrev pub weight_of : Option V → ℕ
  weight_of none = 0
  weight_of (some v) = weight v

  pub total_values-assign :
      (k : Text) (v : V) (m : List (Text × V))
      → total_values (assign k v m) + weight_of (lookup k m) ≡ total_values m + weight v
  unfolding lookup assign
  total_values-assign k v [] = omega arith
  total_values-assign k v ((j, w) ∷ m) = ground (arith, total_values-assign k v m)
