-- ===== src/Output/Tests.antt =====
-- A source with two packages, of which one is in an ecosystem whose name the other's starts with, and
-- a stand-in for the comparison of versions, by length.
use osv_scanner.Output.Report.{Result}
use osv_scanner.Output.Fixes.{
  Semantic, calculate_package_fixed_version, contains_text, get_next_fix_version, is_for,
  remove_variants, unfixed_description,
}
use osv_scanner.Output.Grouping.{represented}
use osv_scanner.Output.Shown.{process_package_lem, vuln_order}
use osv_scanner.Output.Prefixes.{
  ListsPrefixes, has_ecosystem, packages_listed, prefixes_of, process_source-prefixes,
}
use osv_scanner.Output.Named.{installed_names, names_at, names_with}
use osv_scanner.Output.Counting.{calculate_count_lem, rated}
use osv_scanner.Output.Returns.{build_results_lem}
use osv_scanner.Output.Counts.{VulnAnalysisType, VulnResult, calculate_count, no_vulns}
use osv_scanner.Output.Packages.{PackageResult, process_package}
use osv_scanner.Output.Sources.{PackageMap, SourceResult, process_source}
use osv_scanner.Output.Best.{IsBest}
use osv_scanner.Output.Layers.{ImageMetadata, build_results}
use osv_scanner.Models.{GroupInfo, PackageSource, PackageVulns}
use osv_scanner.Severity.{Cvss, unknown_rating}
use osv_scanner.Osv.{Affected, Event, RangeType, Vulnerability}
use osv_scanner.Output.Totals.{AddsUp, ImageAddsUp, build_results-AddsUp}
use osv_scanner.Prelude.{
  Bool, List, Option, Text, [], any, arith, assign, codes, compare, false, has_prefix,
  if◌then◌else◌, is_sorted, length, lookup, ltb, none, refl, some, sort_by, split_first, text_cmp,
  text_eq, total, total_values, true, ℕ, ◌+◌, ◌∷◌, ◌≡◌, ◌≢◌,
}
use osv_scanner.Output.Fixes.{
  Semantic, calculate_package_fixed_version, contains_text, get_next_fix_version, is_for,
  remove_variants, unfixed_description,
}
use osv_scanner.Output.NextFix.{
  IsOrdered, calculate_package_fixed_version_lem, fixes_of, fixes_of_vulns,
  get_next_fix_version_lem, is_less,
}

abbrev semantic : Semantic
semantic = record { parses = λ eco v. true; compare_str = λ eco a b. compare (length a) (length b) }

ordered : (eco : Text) → IsOrdered semantic eco
ordered eco = record { trans = λ a b c h k. ground (arith, h, k); irrefl = λ a. ground arith }

abbrev event : Text → Event
event v = record { introduced = []; fixed = v; last_affected = []; limit = [] }

abbrev affected : Affected
affected = record {
  pkg = some (record { name = codes "a"; ecosystem = codes "Go"; purl = [] });
  ranges =
      record {
        type = RangeType.semver;
        repo = [];
        events = event (codes "1.0.10") ∷ event (codes "1") ∷ event (codes "1.0.1") ∷ [];
      }
      ∷ [];
  versions = [];
  ecosystem_specific = none;
}

abbrev vuln : Text → Vulnerability
vuln id = record {
  id = id;
  aliases = [];
  upstream = [];
  related = [];
  summary = [];
  details = codes "text";
  severity = [];
  affected = affected ∷ [];
}

abbrev group_of : Text → Bool → GroupInfo
group_of id unimportant = record {
  ids = id ∷ [];
  aliases = id ∷ [];
  experimental_analysis = (id, record { called = true; unimportant = unimportant }) ∷ [];
  max_severity = [];
}

abbrev package_of : Text → PackageVulns
package_of eco = record {
  package_info = record {
    name = codes "a";
    os_package_name = codes "liba";
    version = codes "1.0";
    ecosystem = eco;
    commit = [];
    deprecated = false;
    image_origin = none;
    inventory = none;
  };
  dep_groups = [];
  vulnerabilities = vuln (codes "B") ∷ vuln (codes "A") ∷ [];
  groups = group_of (codes "B") false ∷ group_of (codes "A") true ∷ [];
  licenses = [];
  license_violations = [];
}

abbrev source : PackageSource
source = record {
  source = record { path = codes "go.mod"; type = codes "lockfile" };
  experimental_pes = [];
  packages = package_of (codes "Go") ∷ package_of (codes "GoX") ∷ [];
}

abbrev cvss : Cvss
cvss = record {
  score_20 = λ t. none;
  score_30 = λ t. none;
  score_31 = λ t. none;
  score_40 = λ t. none;
  rating_30 = λ s. some (codes "LOW");
  rating_31 = λ s. none;
  rating_40 = λ s. none;
}

abbrev parse_float : Text → Option ℕ
parse_float t = none

abbrev fixes : List Text
fixes = fixes_of semantic (codes "Go") (codes "1.0") (codes "a") (codes "Go") (affected ∷ [])

get_next_fix_version_lem_example :
    (v : Text) × (get_next_fix_version semantic
        (affected ∷ [])
        (codes "1.0")
        (codes "a")
        (codes "Go")
      ≡ some (ltb 0 (length fixes), v))
    × IsBest unfixed_description (is_less semantic (codes "Go")) fixes v
unfolding text_eq split_first remove_variants contains_text has_prefix is_for
get_next_fix_version_lem_example =
    get_next_fix_version_lem semantic (affected ∷ []) (codes "1.0") (codes "a") (codes "Go")
      (ordered (codes "Go")) refl refl refl

abbrev result_of : Text → Text → VulnResult
result_of id fixed = record {
  id = id;
  group_ids = id ∷ [];
  aliases = [];
  description = [];
  is_fixable = true;
  fixed_version = fixed;
  vuln_analysis_type = VulnAnalysisType.vuln_type_regular;
  severity_rating = codes "HIGH";
  severity_score = codes "7.0";
}

abbrev results : List VulnResult
results = result_of (codes "A") (codes "1.1") ∷ result_of (codes "B") (codes "1.0.1") ∷ []

calculate_package_fixed_version_lem_example :
    (v : Text) × (calculate_package_fixed_version semantic (codes "Go") results
      ≡ some (if ltb 0 (length (fixes_of_vulns results)) then v else unfixed_description))
    × IsBest [] (λ a b. is_less semantic (codes "Go") b a) (fixes_of_vulns results) v
unfolding text_eq split_first
calculate_package_fixed_version_lem_example =
    calculate_package_fixed_version_lem semantic (codes "Go") results (ordered (codes "Go")) refl
      refl

calculate_count_lem_example :
    let c = calculate_count results (result_of (codes "C") [] ∷ []) in
    (c.analysis_count.regular ≡ 2)
    × (c.analysis_count.hidden ≡ 1)
    × (c.fixable_count.fixed + c.fixable_count.unfixed ≡ 2)
    × (c.fixable_count.fixed ≡ total (λ (v : VulnResult). if v.is_fixable then 1 else 0) results)
    × (c.severity_count.critical ≡ rated (codes "CRITICAL") results)
    × (c.severity_count.high ≡ rated (codes "HIGH") results)
    × (c.severity_count.medium ≡ rated (codes "MEDIUM") results)
    × (c.severity_count.low ≡ rated (codes "LOW") results)
    × (c.severity_count.unknown ≡ rated unknown_rating results)
calculate_count_lem_example = calculate_count_lem results (result_of (codes "C") [] ∷ [])

process_package_lem_example :
    (p : PackageResult) × (process_package parse_float cvss semantic (package_of (codes "Go"))
      ≡ some p)
    × ((a : Text)
        → any (λ (v : VulnResult). text_eq v.id a) p.regular_vulns
          ≡ any (represented true a) (package_of (codes "Go")).groups)
    × ((a : Text)
        → any (λ (v : VulnResult). text_eq v.id a) p.hidden_vulns
          ≡ any (represented false a) (package_of (codes "Go")).groups)
    × (is_sorted vuln_order p.regular_vulns ≡ true)
    × (is_sorted vuln_order p.hidden_vulns ≡ true)
unfolding text_eq split_first remove_variants contains_text has_prefix is_for
process_package_lem_example =
    process_package_lem parse_float cvss semantic (package_of (codes "Go")) refl refl

build_results_lem_example :
    (r : Result) × (build_results parse_float cvss semantic none (source ∷ []) ≡ some r) × AddsUp r
unfolding text_eq split_first remove_variants contains_text has_prefix is_for
build_results_lem_example = build_results_lem parse_float cvss semantic (source ∷ []) refl

abbrev sources_of : Option (List (Text × SourceResult)) → List (Text × SourceResult)
sources_of none = []
sources_of (some rs) = rs

abbrev processed : List (Text × SourceResult)
processed = sources_of (process_source parse_float cvss semantic source)

process_source-prefixes_example :
    (m : PackageMap) × ((key : Text) → names_at key m ≡ names_with key source.packages)
    × (total_values installed_names m ≡ 2)
    × ((eco : Text)
        → has_ecosystem eco processed
          ≡ any (λ (p : PackageVulns). text_eq p.package_info.ecosystem eco) source.packages)
    × ListsPrefixes m processed
    × (packages_listed processed
        ≡ total (λ (e : Text × PackageResult). prefixes_of processed e.0) m)
unfolding process_source text_eq lookup has_prefix sort_by assign
process_source-prefixes_example =
    process_source-prefixes parse_float cvss semantic source processed (omega arith) refl

abbrev image : ImageMetadata
image = record {
  os_name = codes "Debian";
  layer_metadata =
      record { diff_id = []; command = []; is_empty = false; base_image_index = 0 } ∷ [];
  base_images = (record { name = codes "debian"; tags = [] } ∷ []) ∷ [];
}

abbrev report : Option Result → Result
report none = record {
  ecosystems = [];
  is_container_scanning = false;
  image_info = record { os_name = []; all_layers = []; all_base_images = [] };
  vuln_type_summary = record { all_vulns = 0; os = 0; project = 0; hidden_vulns = 0 };
  package_type_count = record { regular = 0; hidden = 0 };
  vuln_count = no_vulns;
  pkg_deprecated_count = 0;
}
report (some r) = r

abbrev reported : Result
reported = report (build_results parse_float cvss semantic (some image) (source ∷ []))

build_results-AddsUp_example : AddsUp reported × ((some image ≢ none) → ImageAddsUp reported)
unfolding build_results text_eq lookup has_prefix sort_by assign osv_scanner.Prelude.text_cmp
build_results-AddsUp_example =
    build_results-AddsUp parse_float cvss semantic (some image) (source ∷ []) reported refl
