-- ===== src/Output/Report.antt =====
-- `BuildResults` and `buildResult` of internal/output/output_result.go without the summary of the
-- licenses. `ecosystemMap` is an association list in the order of the insertions; Go's order is not
-- known, but the ecosystems are sorted by name. The image's part is in Layers. `none` is a panic.
use osv_scanner.Prelude.{
  Bool, List, Option, Ordering, Text, [], any, assign, codes, false, has_prefix, if◌then◌else◌,
  keep, lookup, map, none, not, some, sort_by, text_cmp, true, ℕ, ◌&&◌, ◌++◌, ◌+◌, ◌>>=◌, ◌∷◌,
}
use osv_scanner.Models.{ExploitabilitySignal, PackageSource, component_not_present}
use osv_scanner.Severity.{Cvss}
use osv_scanner.Output.Counts.{AnalysisCount, VulnCount, add_vuln_count}
use osv_scanner.Output.Fixes.{Semantic}
use osv_scanner.Output.Packages.{BaseImageGroupInfo, LayerInfo}
use osv_scanner.Output.Sources.{SourceResult, process_source}

pub record EcosystemResult : Type 0 where
  pub name : Text
  pub sources : List SourceResult
  pub is_os : Bool

pub record VulnTypeSummary : Type 0 where
  pub all_vulns : ℕ
  pub os : ℕ
  pub project : ℕ
  pub hidden_vulns : ℕ

pub record ImageInfo : Type 0 where
  pub os_name : Text
  pub all_layers : List LayerInfo
  pub all_base_images : List BaseImageGroupInfo

pub record Result : Type 0 where
  pub ecosystems : List EcosystemResult
  pub is_container_scanning : Bool
  pub image_info : ImageInfo
  pub vuln_type_summary : VulnTypeSummary
  pub package_type_count : AnalysisCount
  pub vuln_count : VulnCount
  pub pkg_deprecated_count : ℕ

abbrev pub EcosystemMap : Type 0
EcosystemMap = List (Text × List SourceResult)

unfoldable pub is_os_ecosystem : Text → Bool
is_os_ecosystem eco =
    any (λ image. has_prefix eco image) (codes "Debian" ∷ codes "Alpine" ∷ codes "Ubuntu" ∷ [])

-- The test of the loop over `ExperimentalPES`: the source is left out.
unfoldable pub is_absent : ExploitabilitySignal → Bool
is_absent pes =
    pes.matches_all_vulns && (elim (pes.justification) [ component_not_present ↦ true | _ ↦ false ])

-- `append` at a key that may be missing.
unfoldable pub append_source : Text → SourceResult → EcosystemMap → EcosystemMap
append_source eco source m = elim (lookup eco m) [
  | none ↦ assign eco (source ∷ []) m
  | some sources ↦ assign eco (sources ++ source ∷ []) m
]

-- `ecosystemMap`, `resultCount` and `pkgDeprecatedCount`.
pub record Tally : Type 0 where
  pub ecosystem_map : EcosystemMap
  pub result_count : VulnCount
  pub deprecated_count : ℕ

unfoldable pub add_result : Text × SourceResult → Tally → Tally
unfolding append_source add_vuln_count
add_result (eco, source) t = record {
  ecosystem_map = append_source eco source t.ecosystem_map;
  result_count = add_vuln_count t.result_count source.vuln_count;
  deprecated_count = t.deprecated_count + source.pkg_deprecated_count;
}

unfoldable pub add_results : List (Text × SourceResult) → Tally → Tally
unfolding add_result
add_results [] t = t
add_results (r ∷ rs) t = add_results rs (add_result r t)

module _ (parse_float : Text → Option ℕ) (cvss : Cvss) (semantic : Semantic) where
  -- The loop over the sources.
  unfoldable pub tally_sources : List PackageSource → Tally → Option Tally
  unfolding is_absent process_source add_results
  tally_sources [] t = some t
  tally_sources (s ∷ ss) t =
      let skip = tally_sources ss t in
      if any is_absent s.experimental_pes
      then skip
      else do rs ← process_source parse_float cvss semantic s; tally_sources ss (add_results rs t)

unfoldable pub ecosystem_result : Text × List SourceResult → EcosystemResult
unfolding is_os_ecosystem
ecosystem_result (eco, sources) = record {
  name = eco;
  sources = sources;
  is_os = is_os_ecosystem eco;
}

abbrev pub name_order : EcosystemResult → EcosystemResult → Ordering
name_order a b = text_cmp a.name b.name

-- The ecosystems of projects in front of those of operating systems.
unfoldable pub ordered_ecosystems : EcosystemMap → List EcosystemResult
unfolding ecosystem_result
ordered_ecosystems m =
    let results = map ecosystem_result m in
    sort_by name_order (keep (λ (e : EcosystemResult). not e.is_os) results)
    ++ sort_by name_order (keep (λ (e : EcosystemResult). e.is_os) results)

-- The inner loop of `getVulnTypeSummary`.
unfoldable pub summarise_sources : Bool → List SourceResult → VulnTypeSummary → VulnTypeSummary
summarise_sources is_os [] s = s
summarise_sources is_os (r ∷ rs) s =
    let counts = r.vuln_count.analysis_count in
    let counted =
      (if is_os
        then record s { os = s.os + counts.regular }
        else record s { project = s.project + counts.regular }) in
    summarise_sources is_os rs
      (record counted { hidden_vulns = counted.hidden_vulns + counts.hidden })

unfoldable pub summarise : List EcosystemResult → VulnTypeSummary → VulnTypeSummary
unfolding summarise_sources
summarise [] s = s
summarise (e ∷ es) s = summarise es (summarise_sources e.is_os e.sources s)

unfoldable pub get_vuln_type_summary : List EcosystemResult → VulnTypeSummary
unfolding summarise
get_vuln_type_summary es =
    let s = summarise es (record { all_vulns = 0; os = 0; project = 0; hidden_vulns = 0 }) in
    record s { all_vulns = s.os + s.project }

unfoldable pub count_source_types : List SourceResult → AnalysisCount → AnalysisCount
count_source_types [] c = c
count_source_types (r ∷ rs) c = count_source_types rs (record {
  regular = c.regular + r.package_type_count.regular;
  hidden = c.hidden + r.package_type_count.hidden;
})

unfoldable pub count_package_types : List EcosystemResult → AnalysisCount → AnalysisCount
unfolding count_source_types
count_package_types [] c = c
count_package_types (e ∷ es) c = count_package_types es (count_source_types e.sources c)

unfoldable pub get_package_type_count : List EcosystemResult → AnalysisCount
unfolding count_package_types
get_package_type_count es = count_package_types es (record { regular = 0; hidden = 0 })

-- `buildResult` in front of the image metadata.
unfoldable pub summary_of : Tally → Result
unfolding ordered_ecosystems get_vuln_type_summary get_package_type_count
summary_of t =
    let es = ordered_ecosystems t.ecosystem_map in
    record {
      ecosystems = es;
      is_container_scanning = false;
      image_info = record { os_name = []; all_layers = []; all_base_images = [] };
      vuln_type_summary = get_vuln_type_summary es;
      package_type_count = get_package_type_count es;
      vuln_count = t.result_count;
      pkg_deprecated_count = t.deprecated_count;
    }
