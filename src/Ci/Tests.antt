-- ===== src/Ci/Tests.antt =====
-- Two results, one with an advisory more.
use osv_scanner.Prelude.{
  List, Option, [], codes, contains, if◌then◌else◌, ltb, none, refl, some, text_eq, ◌∷◌, ◌≡◌,
}
use osv_scanner.Models.Tests.{results_of}
use osv_scanner.Models.Flatten.{VulnerabilityFlattened, flatten}
use osv_scanner.Models.{VulnerabilityResults}
use osv_scanner.Ci.Defs.{Counts, diff_vulnerability_results_by_occurrences, find_count}
use osv_scanner.Ci.Occurrences.{diff_vulnerability_results_by_occurrences_lem, occurrences}

abbrev old : VulnerabilityResults
old = results_of (codes "A" ∷ [])

abbrev new : VulnerabilityResults
new = results_of (codes "A" ∷ codes "B" ∷ [])

abbrev flat : Option (List VulnerabilityFlattened) → List VulnerabilityFlattened
flat none = []
flat (some fs) = fs

diff_vulnerability_results_by_occurrences_lem_example :
    (m : Counts) × (diff_vulnerability_results_by_occurrences old new ≡ some m)
    × (find_count (codes "B") m ≡ (
        if ltb
          (occurrences (codes "B") (flat (flatten old)))
          (occurrences (codes "B") (flat (flatten new)))
        then some (occurrences (codes "B") (flat (flatten new)))
        else none))
unfolding flatten contains text_eq
diff_vulnerability_results_by_occurrences_lem_example =
    diff_vulnerability_results_by_occurrences_lem old new (flat (flatten old)) (flat (flatten new))
      (codes "B") refl refl
