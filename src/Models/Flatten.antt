-- ===== src/Models/Flatten.antt =====
-- `Flatten` of pkg/models/results.go. `none` is the panic of `groups[-1]`.
use osv_scanner.Prelude.{
  Bool, List, Option, Text, [], contains, false, find, if◌then◌else◌, length, ltb, none, some, true,
  ◌++◌, ◌∷◌,
}
use osv_scanner.Models.{
  GroupInfo, PackageInfo, PackageSource, PackageVulns, SourceInfo, VulnerabilityResults,
}
use osv_scanner.Osv.{Vulnerability}

pub record VulnerabilityFlattened : Type 0 where
  pub source : SourceInfo
  pub package_info : PackageInfo
  pub dep_groups : List Text
  pub vulnerability : Option Vulnerability
  pub group_info : Option GroupInfo
  pub licenses : List Text
  pub license_violations : List Text
  pub deprecated : Bool

unfoldable pub get_group_info_for_vuln : List GroupInfo → Text → Option GroupInfo
get_group_info_for_vuln groups id = find (λ (g : GroupInfo). contains g.ids id) groups

abbrev pub flat_vuln :
    SourceInfo → PackageVulns → Vulnerability → GroupInfo → VulnerabilityFlattened
flat_vuln src p v g = record {
  source = src;
  package_info = p.package_info;
  dep_groups = p.dep_groups;
  vulnerability = some v;
  group_info = some g;
  licenses = [];
  license_violations = [];
  deprecated = false;
}

-- The loop over the vulnerabilities of a package.
unfoldable pub flatten_vulns :
    SourceInfo → PackageVulns → List Vulnerability → Option (List VulnerabilityFlattened)
unfolding get_group_info_for_vuln
flatten_vulns src p [] = some []
flatten_vulns src p (v ∷ vs) =
    let rest = flatten_vulns src p vs in
    elim (get_group_info_for_vuln p.groups v.id) [
      | none ↦ none
      | some g ↦ elim rest [ none ↦ none | some fs ↦ some (flat_vuln src p v g ∷ fs) ]
    ]

-- The entries for license violations and for a deprecated package.
unfoldable pub flatten_extra : SourceInfo → PackageVulns → List VulnerabilityFlattened
flatten_extra src p =
    (if ltb 0 (length p.license_violations)
      then record {
        source = src;
        package_info = p.package_info;
        dep_groups = p.dep_groups;
        vulnerability = none;
        group_info = none;
        licenses = p.licenses;
        license_violations = p.license_violations;
        deprecated = false;
      }
        ∷ []
      else [])
    ++ (if p.package_info.deprecated
        then record {
          source = src;
          package_info = p.package_info;
          dep_groups = [];
          vulnerability = none;
          group_info = none;
          licenses = [];
          license_violations = [];
          deprecated = true;
        }
          ∷ []
        else [])

-- The results so far, `append`ed to in order.
abbrev append_all :
    Option (List VulnerabilityFlattened)
    → Option (List VulnerabilityFlattened)
    → Option (List VulnerabilityFlattened)
append_all none o = none
append_all (some xs) none = none
append_all (some xs) (some ys) = some (xs ++ ys)

unfoldable pub flatten_packages :
    SourceInfo → List PackageVulns → Option (List VulnerabilityFlattened)
unfolding flatten_vulns flatten_extra
flatten_packages src [] = some []
flatten_packages src (p ∷ ps) =
    append_all (append_all (flatten_vulns src p p.vulnerabilities) (some (flatten_extra src p)))
      (flatten_packages src ps)

unfoldable pub flatten_sources : List PackageSource → Option (List VulnerabilityFlattened)
unfolding flatten_packages
flatten_sources [] = some []
flatten_sources (s ∷ ss) = append_all (flatten_packages s.source s.packages) (flatten_sources ss)

unfoldable pub flatten : VulnerabilityResults → Option (List VulnerabilityFlattened)
unfolding flatten_sources
flatten vr = flatten_sources vr.results
