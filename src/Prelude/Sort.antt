-- ===== src/Prelude/Sort.antt =====
-- Sorting by a comparator, for `sort.Ints`, `sort.Strings` and `slices.SortFunc`. The comparators
-- in use tie only equal values, or the order among ties is not looked at, so every sorting
-- algorithm gives the list that insertion gives.
use Prim.Native.Nat.{suc, ℕ, ◌+◌, Ordering}
use mathlib.Core.Path.{◌≡◌, ap, refl, ◌∙◌}
use mathlib.Core.Bool.{Bool, true, false, ◌&&◌, ◌||◌}
use mathlib.Core.List.{List, [], ◌∷◌, ◌++◌}
use native.Mathlib.Omega.{arith}
use osv_scanner.Prelude.Lists.{all, any, length}
use osv_scanner.Prelude.Tests.{if◌then◌else◌}
use osv_scanner.Prelude.Strings.{
  Text, contains, flip, text_cmp, text_cmp-eq_iff, text_eq, text_eq_iff,
}

module _ {A : Type 0} (cmp : A → A → Ordering) where
  -- `x` goes before the first element that is not before it.
  unfoldable pub insert_by : A → List A → List A
  insert_by x [] = x ∷ []
  insert_by x (y ∷ ys) = elim (cmp y x) [ Ordering.lt ↦ y ∷ insert_by x ys | _ ↦ x ∷ y ∷ ys ]

  unfoldable pub sort_by : List A → List A
  unfolding insert_by
  sort_by [] = []
  sort_by (x ∷ xs) = insert_by x (sort_by xs)

  -- Each element is not after the next one.
  abbrev pub in_order : A → A → Bool
  in_order x y = elim (cmp x y) [ Ordering.gt ↦ false | _ ↦ true ]

  abbrev pub is_sorted_from : A → List A → Bool
  is_sorted_from x [] = true
  is_sorted_from x (y ∷ ys) = in_order x y && is_sorted_from y ys

  abbrev pub is_sorted : List A → Bool
  is_sorted [] = true
  is_sorted (x ∷ xs) = is_sorted_from x xs

  module _ (flips : (a b : A) → cmp b a ≡ flip (cmp a b)) where
    is_sorted_from-insert_by :
        (y x : A) (xs : List A)
        → in_order y x ≡ true
        → is_sorted_from y xs ≡ true
        → is_sorted_from y (insert_by x xs) ≡ true
    unfolding insert_by
    is_sorted_from-insert_by y x [] h k = ground arith
    is_sorted_from-insert_by y x (z ∷ zs) h k =
        ground (arith, flips z x, is_sorted_from-insert_by z x zs)

    is_sorted-insert_by :
        (x : A) (xs : List A) → is_sorted xs ≡ true → is_sorted (insert_by x xs) ≡ true
    unfolding insert_by
    is_sorted-insert_by x [] h = refl
    is_sorted-insert_by x (z ∷ zs) h = ground (arith, flips z x, is_sorted_from-insert_by z x zs)

    pub is_sorted-sort_by : (xs : List A) → is_sorted (sort_by xs) ≡ true
    unfolding sort_by
    is_sorted-sort_by [] = refl
    is_sorted-sort_by (x ∷ xs) = is_sorted-insert_by x (sort_by xs) (is_sorted-sort_by xs)

  length-insert_by : (x : A) (xs : List A) → length (insert_by x xs) ≡ suc (length xs)
  unfolding insert_by
  length-insert_by x [] = refl
  length-insert_by x (y ∷ ys) = ground (arith, length-insert_by x ys)

  pub length-sort_by : (xs : List A) → length (sort_by xs) ≡ length xs
  unfolding sort_by
  length-sort_by [] = refl
  length-sort_by (x ∷ xs) = omega (arith, length-insert_by x (sort_by xs), length-sort_by xs)

-- Tests of the elements do not see the order.
module _ {A : Type 0} (p : A → Bool) (cmp : A → A → Ordering) where
  all-insert_by : (x : A) (xs : List A) → all p (insert_by cmp x xs) ≡ (p x && all p xs)
  unfolding insert_by
  all-insert_by x [] = refl
  all-insert_by x (y ∷ ys) = ground (arith, all-insert_by x ys)

  pub all-sort_by : (xs : List A) → all p (sort_by cmp xs) ≡ all p xs
  unfolding sort_by
  all-sort_by [] = refl
  all-sort_by (x ∷ xs) = all-insert_by x (sort_by cmp xs) ∙ ap (λ b. p x && b) (all-sort_by xs)

  any-insert_by : (x : A) (xs : List A) → any p (insert_by cmp x xs) ≡ (p x || any p xs)
  unfolding insert_by
  any-insert_by x [] = refl
  any-insert_by x (y ∷ ys) = ground (arith, any-insert_by x ys)

  pub any-sort_by : (xs : List A) → any p (sort_by cmp xs) ≡ any p xs
  unfolding sort_by
  any-sort_by [] = refl
  any-sort_by (x ∷ xs) = any-insert_by x (sort_by cmp xs) ∙ ap (λ b. p x || b) (any-sort_by xs)

-- Sums over a list do not see its order.
module _ {A : Type 0} (weight : A → ℕ) where
  abbrev pub total : List A → ℕ
  total [] = 0
  total (x ∷ xs) = weight x + total xs

  pub total-append : (xs ys : List A) → total (xs ++ ys) ≡ total xs + total ys
  total-append [] ys = omega arith
  total-append (x ∷ xs) ys = omega (arith, total-append xs ys)

  total-insert_by :
      (cmp : A → A → Ordering) (x : A) (xs : List A)
      → total (insert_by cmp x xs) ≡ weight x + total xs
  unfolding insert_by
  total-insert_by cmp x [] = omega arith
  total-insert_by cmp x (y ∷ ys) = ground (arith, total-insert_by cmp x ys)

  pub total-sort_by : (cmp : A → A → Ordering) (xs : List A) → total (sort_by cmp xs) ≡ total xs
  unfolding sort_by
  total-sort_by cmp [] = refl
  total-sort_by cmp (x ∷ xs) =
      omega (arith, total-insert_by cmp x (sort_by cmp xs), total-sort_by cmp xs)

-- How often a text stands in a list.
abbrev pub count : Text → List Text → ℕ
count a xs = total (λ x. if text_eq x a then 1 else 0) xs

contains-insert_by :
    (cmp : Text → Text → Ordering) (x : Text) (xs : List Text) (a : Text)
    → contains (insert_by cmp x xs) a ≡ (text_eq x a || contains xs a)
unfolding insert_by contains
contains-insert_by cmp x [] a = refl
contains-insert_by cmp x (y ∷ ys) a = ground (arith, contains-insert_by cmp x ys a)

pub contains-sort_by :
    (cmp : Text → Text → Ordering) (xs : List Text) (a : Text)
    → contains (sort_by cmp xs) a ≡ contains xs a
unfolding sort_by contains
contains-sort_by cmp [] a = refl
contains-sort_by cmp (x ∷ xs) a =
    contains-insert_by cmp x (sort_by cmp xs) a ∙ rw (contains-sort_by cmp xs a)

-- `slices.Compact`: of equal neighbours the first is kept.
compact_from : Text → List Text → List Text
compact_from prev [] = []
compact_from prev (y ∷ ys) =
    let rest = compact_from y ys in if text_eq y prev then rest else y ∷ rest

unfoldable pub compact : List Text → List Text
unfolding compact_from
compact [] = []
compact (x ∷ xs) = x ∷ compact_from x xs

contains-compact_from :
    (x : Text) (xs : List Text) (a : Text)
    → (text_eq x a || contains (compact_from x xs) a) ≡ (text_eq x a || contains xs a)
unfolding compact_from contains
contains-compact_from x [] a = refl
contains-compact_from x (y ∷ ys) a =
    ground (arith, contains-compact_from y ys a, text_eq_iff y x, text_eq_iff x a, text_eq_iff y a)

pub contains-compact : (xs : List Text) (a : Text) → contains (compact xs) a ≡ contains xs a
unfolding compact contains
contains-compact [] a = refl
contains-compact (x ∷ xs) a = contains-compact_from x xs a

-- Each text is before the next one.
abbrev pub is_increasing_from : Text → List Text → Bool
is_increasing_from x [] = true
is_increasing_from x (y ∷ ys) = elim (text_cmp x y) [
  | Ordering.lt ↦ is_increasing_from y ys
  | _ ↦ false
]

abbrev pub is_increasing : List Text → Bool
is_increasing [] = true
is_increasing (x ∷ xs) = is_increasing_from x xs

is_increasing_from-compact_from :
    (x : Text) (xs : List Text)
    → is_sorted_from text_cmp x xs ≡ true
    → is_increasing_from x (compact_from x xs) ≡ true
unfolding compact_from
is_increasing_from-compact_from x [] h = refl
is_increasing_from-compact_from x (y ∷ ys) h =
    ground (arith, is_increasing_from-compact_from y ys, text_eq_iff y x, text_cmp-eq_iff x y)

pub is_increasing-compact :
    (xs : List Text) → is_sorted text_cmp xs ≡ true → is_increasing (compact xs) ≡ true
unfolding compact
is_increasing-compact [] h = refl
is_increasing-compact (x ∷ xs) h = is_increasing_from-compact_from x xs h
