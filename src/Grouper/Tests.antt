-- ===== src/Grouper/Tests.antt =====
-- Runs of `Group` of internal/grouper/grouper.go, and its theorems at concrete vulnerabilities.
use osv_scanner.Prelude.{
  List, String, Text, [], arith, codes, compact, contains, count, map, refl, sort_by, split_first,
  text_cmp, text_eq, ◌∷◌, ◌≡◌,
}
use osv_scanner.Identifiers.{id_sort_func}
use osv_scanner.Grouper.Defs.{
  IdAliases, append_at, bucket, group, has_alias_intersection, keys, merge_pair, merge_row,
  merge_rows, merged, own_groups,
}
use osv_scanner.Grouper.Merge.{Grouped, Linked, merged-Grouped, merged-Linked}
use osv_scanner.Grouper.Extract.{all_ids, count-group}

abbrev vuln : String → List Text → IdAliases
vuln id aliases = record { id = codes id; aliases = aliases }

abbrev sample : List IdAliases
sample = vuln "CVE-1" [] ∷ vuln "GHSA-1" (codes "CVE-1" ∷ []) ∷ vuln "OSV-1" (codes "X" ∷ []) ∷ []

-- The first and the last, the second and the third, and the third and the last share identifiers.
abbrev crossed : List IdAliases
crossed =
    vuln "A" (codes "x" ∷ [])
    ∷ vuln "B" (codes "y" ∷ [])
    ∷ vuln "C" (codes "y" ∷ codes "z" ∷ [])
    ∷ vuln "D" (codes "x" ∷ codes "z" ∷ [])
    ∷ []

program : Unit {0}
unfolding group merged own_groups merge_rows merge_row merge_pair has_alias_intersection contains
    text_eq sort_by compact text_cmp id_sort_func split_first append_at bucket keys
program = tt

group-sample :
    group sample
    ≡ record {
      ids = codes "CVE-1" ∷ codes "GHSA-1" ∷ [];
      aliases = codes "CVE-1" ∷ codes "GHSA-1" ∷ [];
      experimental_analysis = [];
      max_severity = [];
    }
      ∷ record {
        ids = codes "OSV-1" ∷ [];
        aliases = codes "OSV-1" ∷ codes "X" ∷ [];
        experimental_analysis = [];
        max_severity = [];
      }
      ∷ []
unfolding program
group-sample = refl

-- `B` and `C` share the alias `y`, and are in different groups.
merged-crossed : merged crossed ≡ 0 ∷ 1 ∷ 0 ∷ 0 ∷ []
unfolding program
merged-crossed = refl

merged-Grouped_example : Grouped crossed (merged crossed)
merged-Grouped_example = merged-Grouped crossed

merged-Linked_example : Linked crossed 0 2
merged-Linked_example =
    merged-Linked crossed 0 2 (omega arith) (omega arith) (unfold program in refl)

count-group_example :
    count (codes "B") (all_ids (group crossed)) ≡ count (codes "B") (map (λ v. v.id) crossed)
count-group_example = count-group crossed (codes "B")
