-- ===== src/Filter/Counts.antt =====
-- The number that `filterResults` of pkg/osvscanner/filter.go returns.
use osv_scanner.Filter.Groups.{filter_package_vulns-le}
use osv_scanner.Prelude.{Bool, List, [], arith, false, length, ltb, refl, total, ℕ, ◌+◌, ◌∷◌, ◌≡◌}
use osv_scanner.Models.{PackageSource, PackageVulns, VulnerabilityResults}
use osv_scanner.Config.{Config, Files, Manager, Marks, get}
use osv_scanner.Filter.Defs.{filter_package_vulns, filter_packages, filter_results, filter_sources}

abbrev pub vulns_in : List PackageVulns → ℕ
vulns_in pvs = total (λ (pv : PackageVulns). length pv.vulnerabilities) pvs

abbrev pub vulns_of : List PackageSource → ℕ
vulns_of srcs = total (λ (s : PackageSource). vulns_in s.packages) srcs

vulns_in-empty : (pvs : List PackageVulns) → ltb 0 (length pvs) ≡ false → vulns_in pvs ≡ 0
vulns_in-empty [] h = refl
vulns_in-empty (pv ∷ pvs) h = absurd (ground arith)

filter_packages_count :
    (now : ℕ) (c : Config) (all_packages : Bool) (pvs : List PackageVulns) (marks : Marks)
    → let r = filter_packages now c all_packages pvs marks in vulns_in r.0 + r.1 ≡ vulns_in pvs
unfolding filter_packages
filter_packages_count now c all_packages [] marks = refl
filter_packages_count now c all_packages (pv ∷ pvs) marks =
    let (new, marks') = filter_package_vulns now c pv marks in
    ground (
      arith,
      filter_package_vulns-le now c pv marks,
      filter_packages_count now c all_packages pvs marks',
    )

filter_sources_count :
    (now : ℕ) (fs : Files) (all_packages : Bool) (srcs : List PackageSource) (m : Manager)
    (marks : Marks)
    → let r = filter_sources now fs all_packages srcs m marks in vulns_of r.0 + r.1 ≡ vulns_of srcs
unfolding filter_sources
filter_sources_count now fs all_packages [] m marks = refl
filter_sources_count now fs all_packages (src ∷ srcs) m marks =
    let (c, m') = get fs m src.source.path in
    let (packages, removed, marks') = filter_packages now c all_packages src.packages marks in
    ground (
      arith,
      filter_packages_count now c all_packages src.packages marks,
      filter_sources_count now fs all_packages srcs m' marks',
      vulns_in-empty packages,
    )

-- The number returned is that of the vulnerabilities that are gone: with those that stay it makes up
-- all of them, whatever is kept for its licenses or for --all-packages.
pub filter_results_count :
    (now : ℕ) (fs : Files) (all_packages : Bool) (vr : VulnerabilityResults) (m : Manager)
    (marks : Marks)
    → let r = filter_results now fs all_packages vr m marks in
      vulns_of r.0.results + r.1 ≡ vulns_of vr.results
unfolding filter_results
filter_results_count now fs all_packages vr m marks =
    filter_sources_count now fs all_packages vr.results m marks
