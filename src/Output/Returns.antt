-- ===== src/Output/Returns.antt =====
-- That `BuildResults` of internal/output/output_result.go does not panic.
use osv_scanner.Prelude.{
  &&-eq-true, Bool, Bool-cases, List, Option, Option-cases, Text, [], all, any, assign, inl, inr,
  length, lookup, ltb, map, none, refl, some, split_first, true, ℕ, ◌&&◌, ◌++◌, ◌==◌, ◌∷◌, ◌≡◌,
}
use osv_scanner.Models.{GroupInfo, PackageSource, PackageVulns}
use osv_scanner.Severity.{Cvss}
use osv_scanner.Output.Fixes.{Semantic}
use osv_scanner.Output.Sources.{
  PackageMap, SourceResult, add_package_result, add_package_results, add_sources,
  empty_source_result, finish_source, package_map_key, process_source, with_layer,
}
use osv_scanner.Output.Report.{Result, Tally, add_results, is_absent, summary_of, tally_sources}
use osv_scanner.Output.Layers.{build_result, build_results}
use osv_scanner.Output.Shown.{advisory_parses, process_package_lem}
use osv_scanner.Output.Counts.{no_vulns}
use osv_scanner.Output.Totals.{AddsUp, build_results-AddsUp}

-- The groups have identifiers, and the fixed versions parse if the installed version does.
abbrev pub is_clean : Semantic → PackageVulns → Bool
is_clean semantic pkg =
    all (λ (g : GroupInfo). ltb 0 (length g.ids)) pkg.groups
    && all (advisory_parses semantic (split_first b':' pkg.package_info.ecosystem) pkg)
        pkg.vulnerabilities

module _ (parse_float : Text → Option ℕ) (cvss : Cvss) (semantic : Semantic) where
  add_package_result-returns :
      (pkg : PackageVulns) (m : PackageMap)
      → is_clean semantic pkg ≡ true
      → (m' : PackageMap) × (add_package_result parse_float cvss semantic pkg m ≡ some m')
  unfolding add_package_result
  add_package_result-returns pkg m h = elim (Option-cases (lookup (package_map_key pkg) m)) [
    | inl new ↦
        let (named, parse) =
          &&-eq-true (all (λ (g : GroupInfo). ltb 0 (length g.ids)) pkg.groups)
            (all (advisory_parses semantic (split_first b':' pkg.package_info.ecosystem) pkg)
              pkg.vulnerabilities)
            h in
        let returns = process_package_lem parse_float cvss semantic pkg named parse in
        (
          assign (package_map_key pkg) (with_layer pkg.package_info.image_origin returns.0) m,
          rw (add_package_result, new, returns.1) refl,
        )
    | inr (p, known) ↦
        let names = p.os_package_names ++ pkg.package_info.os_package_name ∷ [] in
        (
          assign (package_map_key pkg) (record p { os_package_names = names }) m,
          rw (add_package_result, known) refl,
        )
  ]

  add_package_results-returns :
      (ps : List PackageVulns) (m : PackageMap)
      → all (is_clean semantic) ps ≡ true
      → (m' : PackageMap) × (add_package_results parse_float cvss semantic ps m ≡ some m')
  unfolding add_package_results
  add_package_results-returns [] m h = (m, refl)
  add_package_results-returns (p ∷ ps) m h =
      let (here, rest) = &&-eq-true (is_clean semantic p) (all (is_clean semantic) ps) h in
      let (m1, e1) = add_package_result-returns p m here in
      let (m2, e2) = add_package_results-returns ps m1 rest in (m2, rw (add_package_results, e1) e2)

  process_source-returns :
      (s : PackageSource)
      → all (is_clean semantic) s.packages ≡ true
      → (rs : List (Text × SourceResult)) × (process_source parse_float cvss semantic s ≡ some rs)
  unfolding process_source
  process_source-returns s h = elim (Bool-cases (length s.packages == 0)) [
    | inl empty ↦ (([], empty_source_result s.source) ∷ [], rw (process_source, empty) refl)
    | inr some_there ↦
        let (m, e) = add_package_results-returns s.packages [] h in
        (
          map (finish_source m) (add_sources s.source s.packages []),
          rw (process_source, some_there, e) refl,
        )
  ]

  tally_sources-returns :
      (ss : List PackageSource) (t : Tally)
      → all (λ (s : PackageSource). all (is_clean semantic) s.packages) ss ≡ true
      → (t' : Tally) × (tally_sources parse_float cvss semantic ss t ≡ some t')
  unfolding tally_sources
  tally_sources-returns [] t h = (t, refl)
  tally_sources-returns (s ∷ ss) t h =
      let (here, rest) =
        &&-eq-true (all (is_clean semantic) s.packages)
          (all (λ (s' : PackageSource). all (is_clean semantic) s'.packages) ss) h in
      elim (Bool-cases (any is_absent s.experimental_pes)) [
        | inl absent ↦
            let (t', e) = tally_sources-returns ss t rest in (t', rw (tally_sources, absent) e)
        | inr present ↦
            let (rs, e1) = process_source-returns s here in
            let (t', e2) = tally_sources-returns ss (add_results rs t) rest in
            (t', rw (tally_sources, present, e1) e2)
      ]

  -- If the groups of all packages have identifiers, and the fixed versions parse where the installed
  -- version does, a scan that is not of an image is reported, and the report adds up.
  pub build_results_lem :
      (sources : List PackageSource)
      → all (λ (s : PackageSource). all (is_clean semantic) s.packages) sources ≡ true
      → (r : Result) × (build_results parse_float cvss semantic none sources ≡ some r) × AddsUp r
  unfolding build_results build_result
  build_results_lem sources h =
      let start : Tally = record {
        ecosystem_map = [];
        result_count = no_vulns;
        deprecated_count = 0;
      } in
      let (t, e) = tally_sources-returns sources start h in
      let built : build_results parse_float cvss semantic none sources ≡ some (summary_of t) =
        rw (build_results, e) refl in
      (
        summary_of t,
        built,
        (build_results-AddsUp parse_float cvss semantic none sources (summary_of t) built).0,
      )
