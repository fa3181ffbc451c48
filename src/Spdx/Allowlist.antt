-- ===== src/Spdx/Allowlist.antt =====
-- What an allowlist decides: `satisfiedBy` and `Satisfies` of internal/spdx/satisfies.go.
use osv_scanner.Prelude.{List, Text, [], arith, contains, map, refl, text_eq_comm, true, ◌∷◌, ◌≡◌}
use osv_scanner.Spdx.Node.{Node, leaf, branch, leaf_satisfied_by, satisfied_by}

leaf_satisfied_by-contains :
    (to_lower : Text → Text) (v : Text) (ls : List Text)
    → leaf_satisfied_by to_lower v ls ≡ contains (map to_lower ls) v
unfolding leaf_satisfied_by contains
leaf_satisfied_by-contains to_lower v [] = refl
leaf_satisfied_by-contains to_lower v (l ∷ ls) =
    rw (text_eq_comm v (to_lower l), leaf_satisfied_by-contains to_lower v ls)

-- A license expression that an allowlist satisfies stays satisfied when the allowlist gains licenses:
-- every lower-cased entry of the first list is one of the second.
pub satisfied_by_mono :
    (to_lower : Text → Text) (n : Node) (xs ys : List Text)
    → ((v : Text) → contains (map to_lower xs) v ≡ true → contains (map to_lower ys) v ≡ true)
    → satisfied_by to_lower n xs ≡ true
    → satisfied_by to_lower n ys ≡ true
unfolding satisfied_by
satisfied_by_mono to_lower (leaf value) xs ys sub h =
    rw leaf_satisfied_by-contains (sub (to_lower value) (rw leaf_satisfied_by-contains at h))
satisfied_by_mono to_lower (branch left operator right) xs ys sub h =
    ground
      (arith, satisfied_by_mono to_lower left xs ys sub, satisfied_by_mono to_lower right xs ys sub)
