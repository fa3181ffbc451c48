-- ===== src/Ci/Defs.antt =====
-- The maps are association lists: an assignment goes in front, the first entry for a key counts.
-- `DiffVulnerabilityResultsByOccurrences` counts identifiers; where it has the panic of `Flatten`,
-- its result is `none`.
use osv_scanner.Prelude.{
  Bool, List, Option, Text, [], contains, false, get_or, if◌then◌else◌, keep, length, ltb, map,
  none, not, some, sort_by, text_eq, true, ℕ, ◌&&◌, ◌+◌, ◌==◌, ◌∷◌,
}
use osv_scanner.Models.{
  GroupInfo, ImageOrigin, Inventory, PackageInfo, PackageSource, PackageVulns, SourceInfo,
  VulnerabilityResults,
}
use osv_scanner.Models.Flatten.{VulnerabilityFlattened, flatten}
use osv_scanner.Osv.{Vulnerability}
use osv_scanner.Identifiers.{most_upstreams_order}
use osv_scanner.Grouper.{convert_vulnerability_to_id_aliases, group}
use osv_scanner.Severity.{Cvss, max_severity}

-- `==` on the two structs; pointers are compared as pointers.
unfoldable pub source_eq : SourceInfo → SourceInfo → Bool
source_eq a b = text_eq a.path b.path && text_eq a.type b.type

abbrev pub image_origin_eq : Option ImageOrigin → Option ImageOrigin → Bool
image_origin_eq none none = true
image_origin_eq none (some q) = false
image_origin_eq (some p) none = false
image_origin_eq (some p) (some q) = p.address == q.address

abbrev pub inventory_eq : Option Inventory → Option Inventory → Bool
inventory_eq none none = true
inventory_eq none (some q) = false
inventory_eq (some p) none = false
inventory_eq (some p) (some q) = p.address == q.address

unfoldable pub package_eq : PackageInfo → PackageInfo → Bool
package_eq a b =
    text_eq a.name b.name
    && (text_eq a.os_package_name b.os_package_name
        && (text_eq a.version b.version
            && (text_eq a.ecosystem b.ecosystem
                && (text_eq a.commit b.commit
                    && ((if a.deprecated then b.deprecated else not b.deprecated)
                        && (image_origin_eq a.image_origin b.image_origin
                            && inventory_eq a.inventory b.inventory))))))

abbrev pub SourceIndex : Type 0
SourceIndex = List (SourceInfo × ℕ)

abbrev pub PackageIndex : Type 0
PackageIndex = List (PackageInfo × ℕ)

unfoldable pub index_sources : ℕ → List PackageSource → SourceIndex → SourceIndex
index_sources i [] m = m
index_sources i (s ∷ ss) m = index_sources (i + 1) ss ((s.source, i) ∷ m)

unfoldable pub index_packages : ℕ → List PackageVulns → PackageIndex → PackageIndex
index_packages i [] m = m
index_packages i (p ∷ ps) m = index_packages (i + 1) ps ((p.package_info, i) ∷ m)

pub record Caches : Type 0 where
  pub source_to_index : SourceIndex
  pub package_to_index : List PackageIndex
  pub vuln_to_index : List (List (List Text))

-- `initializeCaches`; the maps to `true` are the lists of their keys.
unfoldable pub initialize_caches : VulnerabilityResults → Caches
unfolding index_sources index_packages
initialize_caches old = record {
  source_to_index = index_sources 0 old.results [];
  package_to_index = map (λ (s : PackageSource). index_packages 0 s.packages []) old.results;
  vuln_to_index =
      map
        (λ (s : PackageSource).
          map (λ (p : PackageVulns). map (λ (v : Vulnerability). v.id) p.vulnerabilities)
            s.packages)
        old.results;
}

unfoldable pub find_source : SourceInfo → SourceIndex → Option ℕ
unfolding source_eq
find_source s [] = none
find_source s ((k, i) ∷ m) = let rest = find_source s m in if source_eq k s then some i else rest

unfoldable pub find_package : PackageInfo → PackageIndex → Option ℕ
unfolding package_eq
find_package p [] = none
find_package p ((k, i) ∷ m) = let rest = find_package p m in if package_eq k p then some i else rest

-- The new package against the identifiers of the old one: `none` if nothing is left of it. The
-- conversion for the grouper sorts the vulnerabilities in place.
unfoldable pub diff_package : Cvss → List Text → PackageVulns → Option PackageVulns
diff_package cvss known pv =
    let vulns = keep (λ (v : Vulnerability). not (contains known v.id)) pv.vulnerabilities in
    let left : PackageVulns = record {
      package_info = pv.package_info;
      dep_groups = [];
      vulnerabilities = sort_by most_upstreams_order vulns;
      groups = [];
      licenses = [];
      license_violations = [];
    } in
    let groups =
      map (λ (g : GroupInfo). record g { max_severity = max_severity cvss g left })
        (group (convert_vulnerability_to_id_aliases vulns)) in
    if length vulns == 0 then none else some (record left { groups = groups })

-- The loop over the packages of a source that was there.
unfoldable pub diff_packages :
    Cvss → PackageIndex → List (List Text) → List PackageVulns → List PackageVulns
unfolding diff_package find_package
diff_packages cvss packages vulns [] = []
diff_packages cvss packages vulns (pv ∷ pvs) =
    let rest = diff_packages cvss packages vulns pvs in
    elim (find_package pv.package_info packages) [
      | none ↦ pv ∷ rest
      | some i ↦ elim (diff_package cvss (get_or vulns i []) pv) [
        | none ↦ rest
        | some left ↦ left ∷ rest
      ]
    ]

-- The loop over the sources.
unfoldable pub diff_sources : Cvss → Caches → List PackageSource → List PackageSource
unfolding diff_packages find_source
diff_sources cvss c [] = []
diff_sources cvss c (ps ∷ pss) =
    let rest = diff_sources cvss c pss in
    elim (find_source ps.source c.source_to_index) [
      | none ↦ ps ∷ rest
      | some i ↦
          let packages =
            diff_packages cvss (get_or c.package_to_index i []) (get_or c.vuln_to_index i [])
              ps.packages in
          if length packages == 0
          then rest
          else record { source = ps.source; experimental_pes = []; packages = packages } ∷ rest
    ]

unfoldable pub diff_vulnerability_results :
    Cvss → VulnerabilityResults → VulnerabilityResults → VulnerabilityResults
unfolding diff_sources initialize_caches
diff_vulnerability_results cvss old new = record {
  results = diff_sources cvss (initialize_caches old) new.results;
}

abbrev pub Counts : Type 0
Counts = List (Text × ℕ)

unfoldable pub find_count : Text → Counts → Option ℕ
find_count k [] = none
find_count k ((k', n) ∷ m) = let rest = find_count k m in if text_eq k' k then some n else rest

-- `m[k] += 1`.
unfoldable pub increment : Text → Counts → Counts
increment k [] = (k, 1) ∷ []
increment k ((k', n) ∷ m) =
    let rest = increment k m in if text_eq k' k then (k', n + 1) ∷ m else (k', n) ∷ rest

-- `vf.Vulnerability.GetId()`, empty without a vulnerability.
unfoldable pub issue_id : VulnerabilityFlattened → Text
issue_id vf = elim (vf.vulnerability) [ none ↦ [] | some v ↦ v.id ]

unfoldable pub count_issues : List VulnerabilityFlattened → Counts → Counts
unfolding increment issue_id
count_issues [] m = m
count_issues (vf ∷ vfs) m = count_issues vfs (increment (issue_id vf) m)

unfoldable pub delete : Text → Counts → Counts
delete k m = keep (λ (e : Text × ℕ). not (text_eq e.0 k)) m

-- The body of the loop over the old counts.
unfoldable pub remove_one : Text → ℕ → Counts → Counts
unfolding delete find_count
remove_one k n m = elim (find_count k m) [
  | none ↦ delete k m
  | some n' ↦ if ltb n n' then m else delete k m
]

unfoldable pub remove_old : Counts → Counts → Counts
unfolding remove_one
remove_old [] m = m
remove_old ((k, n) ∷ old) m = remove_old old (remove_one k n m)

unfoldable pub diff_vulnerability_results_by_occurrences :
    VulnerabilityResults → VulnerabilityResults → Option Counts
unfolding remove_old count_issues
diff_vulnerability_results_by_occurrences old new = elim (flatten old) [
  | none ↦ none
  | some old_flat ↦ elim (flatten new) [
    | none ↦ none
    | some new_flat ↦ some (remove_old (count_issues old_flat []) (count_issues new_flat []))
  ]
]
