-- ===== src/Output/Packages.antt =====
-- `processPackage` of internal/output/output_result.go, with the types that describe a package and
-- the image layer that it comes from. `none` is a panic.
use osv_scanner.Prelude.{Bool, List, Option, Text, [], false, some, ℕ, ◌>>=◌, ◌∷◌}
use osv_scanner.Models.{PackageVulns}
use osv_scanner.Severity.{Cvss}
use osv_scanner.Output.Counts.{VulnCount, VulnResult, calculate_count, no_vulns}
use osv_scanner.Output.Fixes.{Semantic, calculate_package_fixed_version}
use osv_scanner.Output.Vulns.{get_vuln_list, process_vuln_groups, update_vuln}

-- `models.LayerMetadata` and `models.BaseImageDetails`.
pub record LayerMetadata : Type 0 where
  pub diff_id : Text
  pub command : Text
  pub is_empty : Bool
  pub base_image_index : ℕ

pub record BaseImageDetails : Type 0 where
  pub name : Text
  pub tags : List Text

pub record LayerInfo : Type 0 where
  pub index : ℕ
  pub layer_metadata : LayerMetadata
  pub count : VulnCount

pub record BaseImageGroupInfo : Type 0 where
  pub index : ℕ
  pub base_image_info : List BaseImageDetails
  pub all_layers : List LayerInfo
  pub count : VulnCount

pub record PackageContainerInfo : Type 0 where
  pub layer_index : ℕ
  pub layer_info : LayerInfo
  pub base_image_info : BaseImageGroupInfo

pub record PackageResult : Type 0 where
  pub name : Text
  pub os_package_names : List Text
  pub installed_version : Text
  pub commit : Text
  pub fixed_version : Text
  pub regular_vulns : List VulnResult
  pub hidden_vulns : List VulnResult
  pub layer_detail : PackageContainerInfo
  pub vuln_count : VulnCount
  pub licenses : List Text
  pub license_violations : List Text
  pub dep_groups : List Text
  pub deprecated : Bool

-- The layer at an index, with zero values for the rest.
abbrev pub in_layer : ℕ → PackageContainerInfo
in_layer i = record {
  layer_index = i;
  layer_info = record {
    index = 0;
    layer_metadata = record { diff_id = []; command = []; is_empty = false; base_image_index = 0 };
    count = no_vulns;
  };
  base_image_info = record { index = 0; base_image_info = []; all_layers = []; count = no_vulns };
}

-- The package of the lists of vulnerabilities and its fixed version.
unfoldable pub package_result :
    PackageVulns → List VulnResult → List VulnResult → Text → PackageResult
unfolding calculate_count
package_result pkg regular hidden fixed = record {
  name = pkg.package_info.name;
  os_package_names = pkg.package_info.os_package_name ∷ [];
  installed_version = pkg.package_info.version;
  commit = pkg.package_info.commit;
  fixed_version = fixed;
  regular_vulns = regular;
  hidden_vulns = hidden;
  layer_detail = in_layer 0;
  vuln_count = calculate_count regular hidden;
  licenses = pkg.licenses;
  license_violations = pkg.license_violations;
  dep_groups = pkg.dep_groups;
  deprecated = pkg.package_info.deprecated;
}

module _ (parse_float : Text → Option ℕ) (cvss : Cvss) (semantic : Semantic) where
  unfoldable pub process_package : PackageVulns → Option PackageResult
  unfolding process_vuln_groups update_vuln get_vuln_list package_result
      calculate_package_fixed_version
  process_package pkg = do
    maps ← process_vuln_groups parse_float cvss pkg.groups ([], [])
    regular ← update_vuln semantic pkg pkg.vulnerabilities maps.0
    hidden ← update_vuln semantic pkg pkg.vulnerabilities maps.1
    fixed ←
        calculate_package_fixed_version semantic pkg.package_info.ecosystem (get_vuln_list regular)
    some (package_result pkg (get_vuln_list regular) (get_vuln_list hidden) fixed)
