-- ===== src/Output/Sources.antt =====
-- `processSource` of internal/output/output_result.go. Go's maps are association lists with one entry
-- for a key; the order in which Go visits them is not known, and is that of the insertions here: the
-- counts do not see it, and the packages are sorted. `none` is a panic.
use osv_scanner.Prelude.{
  List, Option, Ordering, Text, [], assign, has_prefix, if◌then◌else◌, length, lookup, ltb, map,
  none, some, sort_by, text_cmp, ℕ, ◌++◌, ◌+◌, ◌==◌, ◌>>=◌, ◌∷◌,
}
use osv_scanner.Models.{ImageOrigin, PackageSource, PackageVulns, SourceInfo}
use osv_scanner.Severity.{Cvss}
use osv_scanner.Output.Counts.{AnalysisCount, VulnCount, add_vuln_count, no_vulns}
use osv_scanner.Output.Fixes.{Semantic}
use osv_scanner.Output.Packages.{PackageResult, in_layer, process_package}

pub record SourceResult : Type 0 where
  pub name : Text
  pub type : Text
  pub package_type_count : AnalysisCount
  pub packages : List PackageResult
  pub vuln_count : VulnCount
  pub license_violations_count : ℕ
  pub pkg_deprecated_count : ℕ

abbrev pub PackageMap : Type 0
PackageMap = List (Text × PackageResult)

-- `SourceInfo.String`.
unfoldable pub source_string : SourceInfo → Text
source_string s = s.type ++ (b':' ∷ s.path)

abbrev pub empty_source_result : SourceInfo → SourceResult
empty_source_result s = record {
  name = source_string s;
  type = s.type;
  package_type_count = record { regular = 0; hidden = 0 };
  packages = [];
  vuln_count = no_vulns;
  license_violations_count = 0;
  pkg_deprecated_count = 0;
}

-- The key that is meant to tell packages apart.
unfoldable pub package_map_key : PackageVulns → Text
package_map_key p =
    p.package_info.ecosystem ++ (b':' ∷ (p.package_info.name ++ (b':' ∷ p.package_info.version)))

-- The entry that a new ecosystem gets.
unfoldable pub add_source :
    SourceInfo → Text → List (Text × SourceResult) → List (Text × SourceResult)
add_source source eco m = elim (lookup eco m) [
  | none ↦ assign eco (empty_source_result source) m
  | some r ↦ m
]

-- `packageResult.LayerDetail` is set if the package has an image origin.
unfoldable pub with_layer : Option ImageOrigin → PackageResult → PackageResult
with_layer none p = p
with_layer (some o) p = record p { layer_detail = in_layer o.index }

module _ (parse_float : Text → Option ℕ) (cvss : Cvss) (semantic : Semantic) where
  -- A package with a known key only gives the name under which it is installed.
  unfoldable pub add_package_result : PackageVulns → PackageMap → Option PackageMap
  unfolding package_map_key process_package with_layer
  add_package_result pkg m = elim (lookup (package_map_key pkg) m) [
    | some p ↦ some (
        assign (package_map_key pkg)
          (record p {
            os_package_names = p.os_package_names ++ pkg.package_info.os_package_name ∷ [];
          })
          m)
    | none ↦ do
      p ← process_package parse_float cvss semantic pkg
      some (assign (package_map_key pkg) (with_layer pkg.package_info.image_origin p) m)
  ]

  -- The first loop.
  unfoldable pub add_package_results : List PackageVulns → PackageMap → Option PackageMap
  unfolding add_package_result
  add_package_results [] m = some m
  add_package_results (p ∷ ps) m = do m' ← add_package_result p m; add_package_results ps m'

-- The entries of the sources after the first loop.
unfoldable pub add_sources :
    SourceInfo → List PackageVulns → List (Text × SourceResult) → List (Text × SourceResult)
unfolding add_source
add_sources source [] m = m
add_sources source (p ∷ ps) m = add_sources source ps (add_source source p.package_info.ecosystem m)

-- What a package adds to the counts of its source.
unfoldable pub count_package : PackageResult → SourceResult → SourceResult
unfolding add_vuln_count
count_package p r = record r {
  vuln_count = add_vuln_count r.vuln_count p.vuln_count;
  license_violations_count = r.license_violations_count + length p.license_violations;
  package_type_count = record {
    regular =
        if ltb 0 (length p.regular_vulns)
        then r.package_type_count.regular + 1
        else r.package_type_count.regular;
    hidden =
        if ltb 0 (length p.hidden_vulns)
        then r.package_type_count.hidden + 1
        else r.package_type_count.hidden;
  };
  pkg_deprecated_count =
      if p.deprecated then r.pkg_deprecated_count + 1 else r.pkg_deprecated_count;
}

-- The inner loop of the second loop, over `packageMap`; `packages` are collected in `r`.
unfoldable pub count_packages : Text → PackageMap → SourceResult → SourceResult
unfolding count_package
count_packages eco [] r = r
count_packages eco ((key, p) ∷ m) r = count_packages eco m (
    if has_prefix key eco
    then count_package p (record r { packages = r.packages ++ p ∷ [] })
    else r)

-- The order of the packages.
unfoldable pub package_order : PackageResult → PackageResult → Ordering
package_order a b = elim (text_cmp a.name b.name) [
  | Ordering.eq ↦ elim (text_cmp a.installed_version b.installed_version) [
    | Ordering.eq ↦ text_cmp a.commit b.commit
    | o ↦ o
  ]
  | o ↦ o
]

unfoldable pub finish_source : PackageMap → Text × SourceResult → Text × SourceResult
unfolding count_packages package_order
finish_source m (eco, r) =
    let counted = count_packages eco m r in
    (eco, record counted { packages = sort_by package_order counted.packages })

unfoldable pub process_source :
    (Text → Option ℕ) → Cvss → Semantic → PackageSource → Option (List (Text × SourceResult))
unfolding add_package_results add_sources finish_source
process_source parse_float cvss semantic s =
    if length s.packages == 0 then some (([], empty_source_result s.source) ∷ []) else do
      m ← add_package_results parse_float cvss semantic s.packages []
      some (map (finish_source m) (add_sources s.source s.packages []))
