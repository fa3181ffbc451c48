-- ===== src/Build/Package.antt =====
-- The body of the loop of `buildVulnerabilityResults` over the scanned packages. `Satisfies`, which
-- may panic, makes the body panic: the result is `none`. Log lines are left out.
use osv_scanner.Identifiers.{most_upstreams_order}
use osv_scanner.Prelude.{
  Bool, List, Option, Text, [], codes, has_prefix, if◌then◌else◌, length, ltb, map, none, not, some,
  sort_by, true, ℕ, ◌&&◌, ◌==◌, ◌||◌, ◌∷◌,
}
use osv_scanner.Build.Analysis.{set_uncalled, set_unimportant}
use osv_scanner.Models.{ExploitabilitySignal, GroupInfo, ImageOrigin, Inventory, PackageVulns}
use osv_scanner.Osv.{Vulnerability}
use osv_scanner.Config.{
  Config, Pkg, should_ignore_package_vulnerabilities, should_override_package_license,
}
use osv_scanner.Grouper.{convert_vulnerability_to_id_aliases, group}
use osv_scanner.Spdx.{err, ok, out_of_fuel, panic, satisfies}
use osv_scanner.Severity.{Cvss, max_severity}

-- The fields of `ScannerActions` that are read; `jar` is `CallAnalysisStates["jar"]`.
pub record Actions : Type 0 where
  pub show_all_packages : Bool
  pub jar : Bool
  pub scan_licenses_summary : Bool
  pub scan_licenses_allowlist : List Text

-- `imodels.PackageScanResult`, with what the methods of its package answer. `origin` is a new
-- `ImageOriginDetails` if the package has layer metadata; `cdx_location` is the first location of a
-- package that the CycloneDX extractor found.
pub record PackageScanResult : Type 0 where
  pub info : Pkg
  pub os_package_name : Text
  pub deprecated : Bool
  pub origin : Option ImageOrigin
  pub inventory : Inventory
  pub source_type : Text
  pub cdx_location : Option Text
  pub exploitability_signals : List ExploitabilitySignal
  pub vulnerabilities : List Vulnerability
  pub licenses : List Text

-- `satisfies` behind the error, which is logged: an error answers false.
unfoldable pub is_violation : (Text → Text) → List Text → Text → Option Bool
is_violation to_lower allowlist license = elim (satisfies to_lower license allowlist) [
  | ok b ↦ some (not b)
  | err e ↦ some true
  | panic ↦ none
  | out_of_fuel ↦ none
]

-- The loop over the licenses.
unfoldable pub violations : (Text → Text) → List Text → List Text → Option (List Text)
unfolding is_violation
violations to_lower allowlist [] = some []
violations to_lower allowlist (l ∷ ls) =
    let rest = violations to_lower allowlist ls in
    elim (is_violation to_lower allowlist l) [
      | none ↦ none
      | some bad ↦ elim rest [ none ↦ none | some vs ↦ some (if bad then l ∷ vs else vs) ]
    ]

abbrev pub scans_licenses : Actions → Bool
scans_licenses actions =
    actions.scan_licenses_summary || ltb 0 (length actions.scan_licenses_allowlist)

-- `psr.Licenses` behind the override of the configuration.
unfoldable pub effective_licenses : ℕ → Config → PackageScanResult → List Text
effective_licenses now c psr =
    let (override, entry) = should_override_package_license now c psr.info in
    if override then (if entry.license_ignore then [] else entry.license_override) else psr.licenses

-- The vulnerabilities that are reported.
unfoldable pub reported_vulns : ℕ → Config → PackageScanResult → List Vulnerability
reported_vulns now c psr =
    if ltb 0 (length psr.vulnerabilities)
      && not (should_ignore_package_vulnerabilities now c psr.info)
    then psr.vulnerabilities
    else []

-- The package without groups and licenses.
unfoldable pub start_package : List Vulnerability → PackageScanResult → PackageVulns
start_package vulns psr = record {
  package_info = record {
    name = psr.info.name;
    os_package_name = psr.os_package_name;
    version = psr.info.version;
    ecosystem = psr.info.ecosystem_full;
    commit = psr.info.commit;
    deprecated = psr.deprecated;
    image_origin = psr.origin;
    inventory = some psr.inventory;
  };
  dep_groups = psr.info.dep_groups;
  vulnerabilities = vulns;
  groups = [];
  licenses = [];
  license_violations = [];
}

-- `pkg.Groups = Group(...)`, each with its severity. The conversion sorts the vulnerabilities.
unfoldable pub group_package : Cvss → PackageVulns → PackageVulns
group_package cvss pkg =
    let sorted = record pkg {
      vulnerabilities = sort_by most_upstreams_order pkg.vulnerabilities;
    } in
    if length pkg.vulnerabilities == 0 then pkg else record sorted {
      groups =
          map (λ (g : GroupInfo). record g { max_severity = max_severity cvss g sorted })
            (group (convert_vulnerability_to_id_aliases pkg.vulnerabilities));
    }

-- Debian and Ubuntu packages have their unimportant vulnerabilities marked, and jar call analysis
-- marks what is not called.
unfoldable pub analyse_package : Actions → PackageVulns → Option PackageVulns
unfolding set_unimportant set_uncalled
analyse_package actions pkg =
    let marked =
      if has_prefix pkg.package_info.ecosystem (codes "Debian")
        || has_prefix pkg.package_info.ecosystem (codes "Ubuntu")
      then set_unimportant pkg
      else pkg in
    if actions.jar then set_uncalled marked else some marked

-- What is set for the licenses.
unfoldable pub license_package :
    (Text → Text) → Actions → List Text → PackageVulns → Option PackageVulns
unfolding violations
license_package to_lower actions licenses pkg =
    if scans_licenses actions
    then if ltb 0 (length actions.scan_licenses_allowlist)
      then elim (violations to_lower actions.scan_licenses_allowlist licenses) [
        | none ↦ none
        | some vs ↦ some (record pkg { licenses = licenses; license_violations = vs })
      ]
      else some (record pkg { licenses = licenses })
    else some pkg

-- `includePackage` at the end of the body.
unfoldable pub include_package : Actions → PackageVulns → Bool
include_package actions pkg =
    actions.show_all_packages
    || (pkg.package_info.deprecated
        || (ltb 0 (length pkg.vulnerabilities) || ltb 0 (length pkg.license_violations)))

-- The body up to `if includePackage`.
unfoldable pub build_package :
    ℕ → Cvss → (Text → Text) → Actions → Config → PackageScanResult → Option PackageVulns
unfolding start_package group_package analyse_package license_package reported_vulns
    effective_licenses
build_package now cvss to_lower actions c psr =
    let grouped = group_package cvss (start_package (reported_vulns now c psr) psr) in
    elim (analyse_package actions grouped) [
      | none ↦ none
      | some pkg ↦ license_package to_lower actions (effective_licenses now c psr) pkg
    ]
