-- ===== src/Build/Tests.antt =====
-- A scan of one package with two vulnerabilities, of which Debian calls one unimportant.
use osv_scanner.Build.Unimportant.{AllMarked, set_unimportant_lem}
use osv_scanner.Build.Places.{entries_for, packages_at}
use osv_scanner.Build.Analysis.{set_unimportant}
use osv_scanner.Build.Grouped.{build_vulnerability_results_lem, included_of}
use osv_scanner.Build.Sources.{build_vulnerability_results, source_order}
use osv_scanner.Build.Included.{build_package_lem, scanned_info, unignored}
use osv_scanner.Build.Licenses.{rejected}
use osv_scanner.Models.{Inventory, Justification, PackageVulns, SourceInfo, VulnerabilityResults}
use osv_scanner.Prelude.{
  List, Option, Text, [], codes, false, has_prefix, is_sorted, length, ltb, none, not, refl, some,
  if◌then◌else◌, text_eq, total, true, ℕ, ◌&&◌, ◌||◌, ◌∷◌, ◌≡◌,
}
use osv_scanner.Osv.{Vulnerability}
use osv_scanner.Config.{
  Files, Manager, empty_config, get, normalize_config_load_path,
  should_ignore_package_vulnerabilities, should_override_package_license,
}
use osv_scanner.Severity.{Cvss}
use osv_scanner.Build.Package.{
  Actions, PackageScanResult, build_package, effective_licenses, group_package, include_package,
  start_package,
}

abbrev vuln : Text → Text → Vulnerability
vuln id urgency = record {
  id = id;
  aliases = [];
  upstream = [];
  related = [];
  summary = [];
  details = [];
  severity = [];
  affected =
      record {
        pkg = none;
        ranges = [];
        versions = [];
        ecosystem_specific = some (record { urgency = some urgency; ubuntu_priority = none });
      }
      ∷ [];
}

abbrev psr : Text → PackageScanResult
psr name = record {
  info = record {
    name = name;
    version = codes "1";
    commit = [];
    ecosystem_base = codes "Debian";
    ecosystem_full = codes "Debian:12";
    ecosystem_empty = false;
    ecosystem_valid = true;
    dep_groups = [];
    location = codes "status";
  };
  os_package_name = name;
  deprecated = false;
  origin = none;
  inventory = record { address = 1; exploitability_signals = [] };
  source_type = codes "os";
  cdx_location = none;
  exploitability_signals = [];
  vulnerabilities = vuln (codes "CVE-1") (codes "unimportant") ∷ vuln (codes "CVE-2") [] ∷ [];
  licenses = codes "MIT" ∷ codes "GPL" ∷ [];
}

abbrev actions : Actions
actions = record {
  show_all_packages = false;
  jar = true;
  scan_licenses_summary = false;
  scan_licenses_allowlist = codes "MIT" ∷ [];
}

abbrev cvss : Cvss
cvss = record {
  score_20 = λ t. none;
  score_30 = λ t. none;
  score_31 = λ t. none;
  score_40 = λ t. none;
  rating_30 = λ s. none;
  rating_31 = λ s. none;
  rating_40 = λ s. none;
}

abbrev files : Files
files = record { stat = λ p. none; dir = λ p. p; join_path = λ d f. d; decode_file = λ p. none }

abbrev manager : Manager
manager = record { override_config = none; default_config = empty_config; config_map = [] }

-- Licenses are not asked for; the second package has no vulnerability.
abbrev shown : Actions
shown = record actions { show_all_packages = true; jar = false; scan_licenses_allowlist = [] }

abbrev scanned : List PackageScanResult
scanned =
    record (psr (codes "b")) { vulnerabilities = vuln (codes "CVE-1") (codes "unimportant") ∷ [] }
    ∷ record (psr (codes "a")) { vulnerabilities = [] }
    ∷ []

abbrev grouped : PackageVulns
grouped = group_package cvss (start_package (psr (codes "a")).vulnerabilities (psr (codes "a")))

set_unimportant_lem_example :
    AllMarked grouped.vulnerabilities [] grouped.groups (set_unimportant grouped).groups
    × (grouped ≡ record (set_unimportant grouped) { groups = grouped.groups })
set_unimportant_lem_example = set_unimportant_lem grouped

-- The code of the package is not in an executed path.
abbrev unexecuted : Inventory
unexecuted = record {
  address = 1;
  exploitability_signals =
      record {
        justification = Justification.vulnerable_code_not_in_execute_path;
        matches_all_vulns = true;
      }
      ∷ [];
}

abbrev unexecuted_package : PackageVulns
unexecuted_package = record grouped {
  package_info = record grouped.package_info { inventory = some unexecuted };
}

abbrev bad : List Text
bad = rejected (λ t. t) actions (codes "MIT" ∷ codes "GPL" ∷ [])

build_package_lem_example :
    (pkg : PackageVulns) × (build_package 0 cvss (λ t. t) actions empty_config (psr (codes "a"))
      ≡ some pkg)
    × (pkg.package_info ≡ scanned_info (psr (codes "a")))
    × ((w : Vulnerability → ℕ)
        → total w pkg.vulnerabilities ≡ unignored 0 empty_config (psr (codes "a")) w)
    × (pkg.dep_groups ≡ [])
    × (pkg.licenses ≡ codes "MIT" ∷ codes "GPL" ∷ [])
    × (pkg.license_violations ≡ bad)
    × (include_package actions pkg ≡ (
        false
        || (false
            || ((not (should_ignore_package_vulnerabilities 0 empty_config (psr (codes "a")).info)
                  && true)
                || ltb 0 (length bad)))))
unfolding should_override_package_license effective_licenses osv_scanner.Spdx.Tokens.not_space
    osv_scanner.Spdx.is_space
build_package_lem_example =
    build_package_lem 0 cvss (λ t. t) actions empty_config (psr (codes "a")) refl

abbrev run : Option (VulnerabilityResults × Manager)
run = build_vulnerability_results 0 files cvss (λ t. t) (λ t. t) shown (λ s ps. ps) scanned manager

abbrev outcome : VulnerabilityResults × Manager
outcome = elim run [ none ↦ (record { results = [] }, manager) | some r ↦ r ]

build_vulnerability_results_lem_example :
    ((src : SourceInfo)
      → packages_at src outcome.0.results
        ≡ included_of 0 files cvss (λ t. t) (λ t. t) shown src scanned manager)
    × ((src : SourceInfo)
        → entries_for src outcome.0.results ≡ (
            if ltb 0 (length (included_of 0 files cvss (λ t. t) (λ t. t) shown src scanned manager))
            then 1
            else 0))
    × (is_sorted source_order outcome.0.results ≡ true)
unfolding build_vulnerability_results has_prefix should_ignore_package_vulnerabilities get
    normalize_config_load_path should_override_package_license text_eq
build_vulnerability_results_lem_example =
    build_vulnerability_results_lem 0 files cvss (λ t. t) (λ t. t) shown (λ s ps. ps) scanned
      manager outcome.1 outcome.0 (λ s. refl) refl
