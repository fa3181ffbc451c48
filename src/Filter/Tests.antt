-- ===== src/Filter/Tests.antt =====
-- A package with two advisories, one of which the configuration ignores.
use osv_scanner.Prelude.{
  List, Text, [], codes, contains, false, length, none, some, text_eq, true, ◌++◌, ◌+◌, ◌∷◌, ◌≡◌,
  ◌≤◌,
}
use osv_scanner.Models.{PackageVulns, VulnerabilityResults}
use osv_scanner.Models.Tests.{package_of, results_of}
use osv_scanner.Config.{
  Config, Files, IgnoreEntry, Manager, Pkg, empty_config, should_ignore, should_ignore_timestamp,
}
use osv_scanner.Filter.Defs.{filter_package_vulns, filter_results}
use osv_scanner.Filter.Groups.{filter_package_vulns-le, filter_package_vulns_lem, is_ignored}
use osv_scanner.Filter.Counts.{filter_results_count, vulns_of}

abbrev line : IgnoreEntry
line = record { id = codes "A"; ignore_until = 0; reason = []; address = 1 }

abbrev config : Config
config = record empty_config { ignored_vulns = line ∷ [] }

abbrev files : Files
files = record {
  stat = λ p. some true;
  dir = λ p. p;
  join_path = λ d f. d ++ (b'/' ∷ f);
  decode_file = λ p. some (config, []);
}

abbrev manager : Manager
manager = record { override_config = none; default_config = empty_config; config_map = [] }

abbrev two : PackageVulns
two = package_of (codes "A" ∷ codes "B" ∷ [])

abbrev results : VulnerabilityResults
results = results_of (codes "A" ∷ codes "B" ∷ [])

abbrev pkg : Text → Pkg
pkg name = record {
  name = name;
  version = codes "1.0.0";
  commit = [];
  ecosystem_base = codes "npm";
  ecosystem_full = codes "npm";
  ecosystem_empty = false;
  ecosystem_valid = true;
  dep_groups = [];
  location = [];
}

abbrev pkgs : List Pkg
pkgs = pkg (codes "lodash") ∷ pkg [] ∷ []

filter_package_vulns_lem_example :
    (filter_package_vulns 9 config two []).0 ≡ package_of (codes "B" ∷ [])
unfolding is_ignored should_ignore should_ignore_timestamp text_eq contains
filter_package_vulns_lem_example = filter_package_vulns_lem 9 config two []

filter_package_vulns-le_example :
    length (filter_package_vulns 9 config two []).0.vulnerabilities ≤ length two.vulnerabilities
filter_package_vulns-le_example = filter_package_vulns-le 9 config two []

filter_results_count_example :
    let r = filter_results 9 files false results manager [] in
    vulns_of r.0.results + r.1 ≡ vulns_of results.results
filter_results_count_example = filter_results_count 9 files false results manager []
