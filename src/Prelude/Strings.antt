-- ===== src/Prelude/Strings.antt =====
-- Go strings as lists of code points, with `==`, `strings.Compare`, `slices.Contains` and the
-- functions of package strings that the sources call.
use Prim.Native.Nat.{ℕ, compare, Ordering}
use Prim.Native.Char.{code}
use Prim.Native.String.{String}
use mathlib.Core.Path.{◌≡◌, refl, ap}
use mathlib.Core.Logic.{◌↔◌, ◌⊎◌, inl, inr}
use mathlib.Core.Bool.{Bool, true, false, ◌&&◌, ◌||◌}
use mathlib.Core.List.{List, [], ◌∷◌, ◌++◌}
use mathlib.Core.Option.{Option, none, some}
use native.Mathlib.Omega.{arith}
use osv_scanner.Prelude.Tests.{==_iff, Bool-cases, if◌then◌else◌, ◌==◌}
use osv_scanner.Prelude.Lists.{any}

abbrev pub Text : Type 0
Text = List ℕ

abbrev pub codes : String → Text
codes String.[] = []
codes (String.◌∷◌ c s) = code c ∷ codes s

-- `a == b` on strings.
unfoldable pub text_eq : Text → Text → Bool
text_eq [] [] = true
text_eq (x ∷ xs) (y ∷ ys) = x == y && text_eq xs ys
text_eq _ _ = false

pub text_eq_iff : (a b : Text) → (text_eq a b ≡ true) ↔ (a ≡ b)
unfolding text_eq
text_eq_iff (x ∷ a) (y ∷ b) = ground (arith, text_eq_iff a b)
text_eq_iff _ _ = ground arith

pub text_eq_comm : (a b : Text) → text_eq a b ≡ text_eq b a
unfolding text_eq
text_eq_comm (x ∷ a) (y ∷ b) = ground (arith, text_eq_comm a b)
text_eq_comm [] [] = refl
text_eq_comm _ _ = ground arith

pub text_eq_refl : (a : Text) → text_eq a a ≡ true
text_eq_refl a = (text_eq_iff a a).1 refl

-- `strings.Compare`: the lexicographic order. UTF-8 keeps the order of the code points.
unfoldable pub text_cmp : Text → Text → Ordering
text_cmp [] [] = Ordering.eq
text_cmp [] (y ∷ ys) = Ordering.lt
text_cmp (x ∷ xs) [] = Ordering.gt
text_cmp (x ∷ xs) (y ∷ ys) = elim (compare x y) [
  | Ordering.lt ↦ Ordering.lt
  | Ordering.gt ↦ Ordering.gt
  | Ordering.eq ↦ text_cmp xs ys
]

abbrev pub flip : Ordering → Ordering
flip Ordering.lt = Ordering.gt
flip Ordering.eq = Ordering.eq
flip Ordering.gt = Ordering.lt

pub text_cmp-flip : (a b : Text) → text_cmp b a ≡ flip (text_cmp a b)
unfolding text_cmp
text_cmp-flip [] [] = refl
text_cmp-flip [] (y ∷ ys) = refl
text_cmp-flip (x ∷ xs) [] = refl
text_cmp-flip (x ∷ xs) (y ∷ ys) = ground (arith, text_cmp-flip xs ys)

pub text_cmp-eq_iff : (a b : Text) → (text_cmp a b ≡ Ordering.eq) ↔ (a ≡ b)
unfolding text_cmp
text_cmp-eq_iff (x ∷ xs) (y ∷ ys) = ground (arith, text_cmp-eq_iff xs ys)
text_cmp-eq_iff _ _ = ground arith

pub text_cmp_trans :
    (a b c : Text)
    → text_cmp a b ≡ Ordering.lt
    → text_cmp b c ≡ Ordering.lt
    → text_cmp a c ≡ Ordering.lt
unfolding text_cmp
text_cmp_trans (x ∷ xs) (y ∷ ys) (z ∷ zs) h k = ground (arith, text_cmp_trans xs ys zs)
text_cmp_trans _ _ _ h k = ground arith

-- `slices.Contains`.
unfoldable pub contains : List Text → Text → Bool
contains [] a = false
contains (x ∷ xs) a = text_eq x a || contains xs a

pub contains-append :
    (xs ys : List Text) (a : Text) → contains (xs ++ ys) a ≡ (contains xs a || contains ys a)
unfolding contains
contains-append [] ys a = refl
contains-append (x ∷ xs) ys a = ground (arith, contains-append xs ys a)

-- `strings.HasPrefix` and `strings.TrimPrefix`.
unfoldable pub has_prefix : Text → Text → Bool
has_prefix s [] = true
has_prefix [] (c ∷ p) = false
has_prefix (x ∷ s) (c ∷ p) = x == c && has_prefix s p

-- `strings.Split(s, sep)[0]` at a separator of one code point: all before the first separator.
unfoldable pub split_first : ℕ → Text → Text
split_first sep [] = []
split_first sep (c ∷ s) = if c == sep then [] else c ∷ split_first sep s

-- `strings.Cut(s, sep)` at a separator of one code point; `none` is found = false.
unfoldable pub cut : ℕ → Text → Option (Text × Text)
cut sep [] = none
cut sep (c ∷ s) =
    let rest = cut sep s in
    if c == sep then some ([], s) else elim rest [ none ↦ none | some (a, b) ↦ some (c ∷ a, b) ]

-- What `strings.Cut` finds: no separator at all, or the text around the first one.
abbrev pub CutOf : ℕ → Text → Option (Text × Text) → Type 0
CutOf sep s none = any (λ c. c == sep) s ≡ false
CutOf sep s (some (a, b)) = (any (λ c. c == sep) a ≡ false) × (s ≡ a ++ (sep ∷ b))

CutOf-cons :
    (sep c : ℕ) (s : Text) (o : Option (Text × Text))
    → (c == sep) ≡ false
    → CutOf sep s o
    → CutOf sep (c ∷ s) (elim o [ none ↦ none | some (a, b) ↦ some (c ∷ a, b) ])
CutOf-cons sep c s none h k = ground arith
CutOf-cons sep c s (some (a, b)) h (k, e) = (ground arith, ap (◌∷◌ c) e)

pub cut-CutOf : (sep : ℕ) (s : Text) → CutOf sep s (cut sep s)
unfolding cut
cut-CutOf sep [] = refl
cut-CutOf sep (c ∷ s) = cut_at (Bool-cases (c == sep)) (cut sep s) (cut-CutOf sep s)
  where
    cut_at :
        (c == sep ≡ true) ⊎ (c == sep ≡ false)
        → (o : Option (Text × Text)) → CutOf sep s o
        → CutOf sep (c ∷ s) (
            if c == sep
            then some ([], s)
            else elim o [ none ↦ none | some (a, b) ↦ some (c ∷ a, b) ])
    cut_at (inl h) o k = rw h (refl, ap (λ t. t ∷ s) ((==_iff c sep).0 h))
    cut_at (inr h) o k = rw h (CutOf-cons sep c s o h k)
