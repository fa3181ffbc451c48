-- ===== src/Output/Vulns.antt =====
-- The vulnerabilities of one package in internal/output/output_result.go: `processVulnGroups`,
-- `updateVuln` and `getVulnList`. Go's maps of results are association
-- lists with one entry for an identifier. `none` is a panic.
use osv_scanner.Prelude.{
  Bool, List, Option, Text, [], assign, contains, false, if◌then◌else◌, keep, lookup, map, none,
  not, some, sort_by, text_eq, ℕ, ◌&&◌, ◌∷◌,
}
use osv_scanner.Osv.{Vulnerability}
use osv_scanner.Severity.{Cvss, unknown_rating}
use osv_scanner.Output.Counts.{
  VulnResult, calculate_rating, vuln_type_regular, vuln_type_uncalled, vuln_type_unimportant,
}
use osv_scanner.Models.{GroupInfo, PackageVulns, is_called, is_group_unimportant}
use osv_scanner.Output.Fixes.{Semantic, get_next_fix_version, version_unsupported}
use osv_scanner.Identifiers.{id_sort_func}

abbrev pub VulnMap : Type 0
VulnMap = List (Text × VulnResult)

-- Aliases are listed without the identifier, and only if it is one of them.
unfoldable pub other_aliases : Text → List Text → List Text
other_aliases id aliases =
    if contains aliases id then keep (λ a. not (text_eq a id)) aliases else []

-- What is made of a group, before the kind is set.
unfoldable pub group_result : (Text → Option ℕ) → Cvss → Text → GroupInfo → VulnResult
unfolding calculate_rating other_aliases
group_result parse_float cvss id g =
    let rating = calculate_rating parse_float cvss g.max_severity in
    record {
      id = id;
      group_ids = g.ids;
      aliases = other_aliases id g.aliases;
      description = [];
      is_fixable = false;
      fixed_version = [];
      vuln_analysis_type = vuln_type_regular;
      severity_rating = rating;
      severity_score =
          if text_eq rating unknown_rating then version_unsupported else g.max_severity;
    }

-- The maps of regular and of hidden vulnerabilities behind a group with the representative.
unfoldable pub place_group :
    (Text → Option ℕ) → Cvss → Text → GroupInfo → VulnMap × VulnMap → VulnMap × VulnMap
unfolding group_result is_called is_group_unimportant
place_group parse_float cvss id g (regular, hidden) =
    let vuln = group_result parse_float cvss id g in
    if is_called g && not (is_group_unimportant g)
    then (assign id (record vuln { vuln_analysis_type = vuln_type_regular }) regular, hidden)
    else if is_group_unimportant g
    then (regular, assign id (record vuln { vuln_analysis_type = vuln_type_unimportant }) hidden)
    else (regular, assign id (record vuln { vuln_analysis_type = vuln_type_uncalled }) hidden)

-- `group.IDs[0]` may panic.
unfoldable pub process_group :
    (Text → Option ℕ) → Cvss → GroupInfo → VulnMap × VulnMap → Option (VulnMap × VulnMap)
unfolding place_group
process_group parse_float cvss g maps = elim (g.ids) [
  | [] ↦ none
  | id ∷ ids ↦ some (place_group parse_float cvss id g maps)
]

unfoldable pub process_vuln_groups :
    (Text → Option ℕ) → Cvss → List GroupInfo → VulnMap × VulnMap → Option (VulnMap × VulnMap)
unfolding process_group
process_vuln_groups parse_float cvss [] maps = some maps
process_vuln_groups parse_float cvss (g ∷ gs) maps = elim (process_group parse_float cvss g maps) [
  | none ↦ none
  | some maps' ↦ process_vuln_groups parse_float cvss gs maps'
]

-- `outputVuln` with what the advisory says.
unfoldable pub updated : Vulnerability → Bool × Text → VulnResult → VulnResult
updated v (fixable, version) r = record r {
  fixed_version = version;
  is_fixable = fixable;
  description = if text_eq v.summary [] then v.details else v.summary;
}

module _ (semantic : Semantic) where
  -- The loop over the vulnerabilities of the package.
  unfoldable pub update_vuln : PackageVulns → List Vulnerability → VulnMap → Option VulnMap
  unfolding get_next_fix_version updated
  update_vuln pkg [] m = some m
  update_vuln pkg (v ∷ vs) m =
      let info = pkg.package_info in
      elim (get_next_fix_version semantic v.affected info.version info.name info.ecosystem) [
        | none ↦ none
        | some fix ↦
            update_vuln pkg vs
              (elim (lookup v.id m) [ none ↦ m | some r ↦ assign v.id (updated v fix r) m ])
      ]

-- `getVulnList`.
unfoldable pub get_vuln_list : VulnMap → List VulnResult
unfolding id_sort_func
get_vuln_list m =
    sort_by (λ (a b : VulnResult). id_sort_func a.id b.id) (map (λ (e : Text × VulnResult). e.1) m)
