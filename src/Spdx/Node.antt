-- ===== src/Spdx/Node.antt =====
-- The syntax tree: `nodeLeaf`, `nodeBranch` and their `satisfiedBy`. `strings.ToLower` is the
-- argument `to_lower`.
use osv_scanner.Prelude.{
  Bool, List, Text, [], codes, false, if◌then◌else◌, text_eq, ◌&&◌, ◌||◌, ◌∷◌,
}

pub data Node : Type 0 where
  leaf : (value : Text) → Node
  branch : (left : Node) (operator : Text) (right : Node) → Node

abbrev pub kw_and : Text
kw_and = codes "AND"

abbrev pub kw_or : Text
kw_or = codes "OR"

-- The loop of `nodeLeaf.satisfiedBy`.
unfoldable pub leaf_satisfied_by : (Text → Text) → Text → List Text → Bool
leaf_satisfied_by to_lower v [] = false
leaf_satisfied_by to_lower v (l ∷ ls) = text_eq v (to_lower l) || leaf_satisfied_by to_lower v ls

unfoldable pub satisfied_by : (Text → Text) → Node → List Text → Bool
unfolding leaf_satisfied_by
satisfied_by to_lower (leaf value) licenses = leaf_satisfied_by to_lower (to_lower value) licenses
satisfied_by to_lower (branch left operator right) licenses =
    let l = satisfied_by to_lower left licenses in
    let r = satisfied_by to_lower right licenses in
    if text_eq operator kw_and then l && r else if text_eq operator kw_or then l || r else false
