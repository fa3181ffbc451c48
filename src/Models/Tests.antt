-- ===== src/Models/Tests.antt =====
-- A package with a grouped vulnerability.
use osv_scanner.Prelude.{
  List, Text, [], codes, contains, map, none, refl, some, text_eq, total, true, ◌∷◌, ◌≡◌,
}
use osv_scanner.Models.{GroupInfo, PackageSource, PackageVulns, VulnerabilityResults}
use osv_scanner.Models.Flatten.{VulnerabilityFlattened, flatten}
use osv_scanner.Models.Entries.{
  Lists, deprecated_in, flatten_lem, issues, of_sources, violations_in, vulns_in,
}
use osv_scanner.Osv.{Vulnerability}

abbrev pub vuln : Text → Vulnerability
vuln id = record {
  id = id;
  aliases = [];
  upstream = [];
  related = [];
  summary = [];
  details = [];
  severity = [];
  affected = [];
}

abbrev pub group_of : Text → GroupInfo
group_of id = record {
  ids = id ∷ [];
  aliases = id ∷ [];
  experimental_analysis = [];
  max_severity = [];
}

abbrev pub package_of : List Text → PackageVulns
package_of ids = record {
  package_info = record {
    name = codes "lodash";
    os_package_name = [];
    version = codes "1.0.0";
    ecosystem = codes "npm";
    commit = [];
    deprecated = true;
    image_origin = none;
    inventory = none;
  };
  dep_groups = [];
  vulnerabilities = map vuln ids;
  groups = map group_of ids;
  licenses = [];
  license_violations = [];
}

abbrev pub source_of : List Text → PackageSource
source_of ids = record {
  source = record { path = codes "package-lock.json"; type = codes "lockfile" };
  experimental_pes = [];
  packages = package_of ids ∷ [];
}

abbrev pub results_of : List Text → VulnerabilityResults
results_of ids = record { results = source_of ids ∷ [] }

flatten_lem_example :
    let vr = results_of (codes "A" ∷ codes "B" ∷ []) in
    (fs : List VulnerabilityFlattened) × (flatten vr ≡ some fs)
    × Lists fs
        (total (λ (s : PackageSource). total issues s.packages) vr.results)
        (of_sources vulns_in vr.results)
        (of_sources violations_in vr.results)
        (of_sources deprecated_in vr.results)
unfolding contains text_eq
flatten_lem_example = flatten_lem (results_of (codes "A" ∷ codes "B" ∷ [])) refl
