-- ===== src/Build/Included.antt =====
-- What the body of `buildVulnerabilityResults` in pkg/osvscanner/vulnerability_result.go makes of one
-- scanned package.
use osv_scanner.Build.Analysis.{
  is_not_executed, set_uncalled, set_uncalled_by, set_uncalled_group, set_unimportant,
}
use osv_scanner.Osv.{Vulnerability}
use osv_scanner.Prelude.{
  Bool, Bool-cases, List, Text, [], all, any, ap, arith, codes, false, has_prefix, if◌then◌else◌,
  inl, inr, length, length-sort_by, ltb, map, not, refl, some, total, total-sort_by, true, ℕ, ◌&&◌,
  ◌==◌, ◌||◌, ◌∙◌, ◌∷◌, ◌≡◌,
}
use osv_scanner.Build.Licenses.{is_blank, license_package_lem, rejected, reported_licenses}
use osv_scanner.Config.{
  Config, should_ignore_package_vulnerabilities, should_override_package_license,
}
use osv_scanner.Severity.{Cvss}
use osv_scanner.Build.Analysis.{
  is_not_executed, set_uncalled, set_uncalled_by, set_uncalled_group, set_unimportant,
}
use osv_scanner.Identifiers.{most_upstreams_order}
use osv_scanner.Models.{GroupInfo, PackageInfo, PackageVulns}
use osv_scanner.Build.Package.{
  Actions, PackageScanResult, analyse_package, build_package, effective_licenses, group_package,
  include_package, reported_vulns, start_package,
}

-- What the scan says of the package.
abbrev pub scanned_info : PackageScanResult → PackageInfo
scanned_info psr = record {
  name = psr.info.name;
  os_package_name = psr.os_package_name;
  version = psr.info.version;
  ecosystem = psr.info.ecosystem_full;
  commit = psr.info.commit;
  deprecated = psr.deprecated;
  image_origin = psr.origin;
  inventory = some psr.inventory;
}

-- The licenses that count: those of an override, which may be none, or else those of the scan.
abbrev pub licenses_that_count : ℕ → Config → PackageScanResult → List Text
licenses_that_count now c psr =
    let overridden = should_override_package_license now c psr.info in
    if overridden.0
    then (if overridden.1.license_ignore then [] else overridden.1.license_override)
    else psr.licenses

-- The sum over the vulnerabilities, none of which is reported if the configuration ignores them.
abbrev pub unignored : ℕ → Config → PackageScanResult → (Vulnerability → ℕ) → ℕ
unignored now c psr w =
    if should_ignore_package_vulnerabilities now c psr.info then 0 else total w psr.vulnerabilities

total-reported_vulns :
    (now : ℕ) (c : Config) (psr : PackageScanResult) (w : Vulnerability → ℕ)
    → total w (reported_vulns now c psr) ≡ unignored now c psr w
unfolding reported_vulns
total-reported_vulns now c psr w =
    elim (Bool-cases (should_ignore_package_vulnerabilities now c psr.info)) [
      | inl e ↦ rw e (empty psr.vulnerabilities)
      | inr e ↦ rw e (whole psr.vulnerabilities)
    ]
  where
    empty : (vs : List Vulnerability) → total w (if ltb 0 (length vs) && false then vs else []) ≡ 0
    empty vs = ground arith

    whole :
        (vs : List Vulnerability)
        → total w (if ltb 0 (length vs) && true then vs else []) ≡ total w vs
    whole [] = refl
    whole (v ∷ vs) = ground arith

some-reported_vulns :
    (now : ℕ) (c : Config) (psr : PackageScanResult)
    → ltb 0 (length (reported_vulns now c psr)) ≡ (
        not (should_ignore_package_vulnerabilities now c psr.info)
        && ltb 0 (length psr.vulnerabilities))
unfolding reported_vulns
some-reported_vulns now c psr =
    elim (Bool-cases (should_ignore_package_vulnerabilities now c psr.info)) [
      | inl e ↦ ground arith
      | inr e ↦ ground arith
    ]

module _ (now : ℕ) (cvss : Cvss) (to_lower : Text → Text) (actions : Actions) (c : Config)
    (psr : PackageScanResult) where
  vulns : List Vulnerability
  vulns = reported_vulns now c psr

  -- What holds of the package from the grouping on.
  record Kept (pkg : PackageVulns) : Type 0 where
    info : pkg.package_info ≡ (start_package (reported_vulns now c psr) psr).package_info
    as_many : length pkg.vulnerabilities ≡ length (reported_vulns now c psr)
    each :
        (w : Vulnerability → ℕ) → total w pkg.vulnerabilities ≡ total w (reported_vulns now c psr)
    no_violations : pkg.license_violations ≡ []
    no_licenses : pkg.licenses ≡ []
    deps : pkg.dep_groups ≡ psr.info.dep_groups

  group_package-Kept : Kept (group_package cvss (start_package (reported_vulns now c psr) psr))
  unfolding group_package start_package
  group_package-Kept = elim (Bool-cases (length (reported_vulns now c psr) == 0)) [
    | inl e ↦ rw e (record {
      info = refl;
      as_many = refl;
      each = λ w. refl;
      no_violations = refl;
      no_licenses = refl;
      deps = refl;
    })
    | inr e ↦ rw e (record {
      info = refl;
      as_many = length-sort_by most_upstreams_order (reported_vulns now c psr);
      each = λ w. total-sort_by w most_upstreams_order (reported_vulns now c psr);
      no_violations = refl;
      no_licenses = refl;
      deps = refl;
    })
  ]

  -- Other groups change nothing of it.
  regrouped-Kept :
      (pkg : PackageVulns) (gs : List GroupInfo) → Kept pkg → Kept (record pkg { groups = gs })
  regrouped-Kept pkg gs k = record {
    info = k.info;
    as_many = k.as_many;
    each = k.each;
    no_violations = k.no_violations;
    no_licenses = k.no_licenses;
    deps = k.deps;
  }

  set_uncalled-Kept :
      (pkg : PackageVulns)
      → Kept pkg
      → (pkg' : PackageVulns) × (set_uncalled pkg ≡ some pkg') × Kept pkg'
  unfolding set_uncalled start_package
  set_uncalled-Kept pkg k =
      let inventory : pkg.package_info.inventory ≡ some psr.inventory =
        ap (λ (i : PackageInfo). i.inventory) k.info in
      (
        record pkg {
          groups =
              map (set_uncalled_group (any is_not_executed psr.inventory.exploitability_signals))
                pkg.groups;
        },
        λ i. set_uncalled_by (inventory i) pkg,
        regrouped-Kept pkg _ k,
      )

  analyse_package-Kept :
      (pkg : PackageVulns)
      → Kept pkg
      → (pkg' : PackageVulns) × (analyse_package actions pkg ≡ some pkg') × Kept pkg'
  unfolding analyse_package set_unimportant
  analyse_package-Kept pkg k = go actions.jar marked-Kept
    where
      marked : PackageVulns
      marked =
          if has_prefix pkg.package_info.ecosystem (codes "Debian")
            || has_prefix pkg.package_info.ecosystem (codes "Ubuntu")
          then set_unimportant pkg
          else pkg

      marked-Kept : Kept marked
      marked-Kept =
          elim (Bool-cases (
            has_prefix pkg.package_info.ecosystem (codes "Debian")
            || has_prefix pkg.package_info.ecosystem (codes "Ubuntu"))) [
              | inl e ↦ rw e (regrouped-Kept pkg (set_unimportant pkg).groups k)
              | inr e ↦ rw e k
            ]

      go :
          (jar : Bool)
          → Kept marked
          → (pkg' : PackageVulns) × ((if jar then set_uncalled marked else some marked) ≡ some pkg')
            × Kept pkg'
      go true h = set_uncalled-Kept marked h
      go false h = (marked, refl, h)

  -- If no license that counts is blank, the package is built without a panic: its facts and dependency
  -- groups are those of the scan; it has the scan's vulnerabilities, each as often, or none if the
  -- configuration ignores them; it has the licenses that count, if a summary is asked for or there is an
  -- allowlist; its violations are those that the allowlist rejects; and it is included exactly if all
  -- packages are shown, it is deprecated, it has vulnerabilities that the configuration does not ignore,
  -- or it has violations.
  pub build_package_lem :
      all (λ l. not (is_blank l)) (licenses_that_count now c psr) ≡ true
      → let bad = rejected to_lower actions (licenses_that_count now c psr) in
        (pkg : PackageVulns) × (build_package now cvss to_lower actions c psr ≡ some pkg)
        × (pkg.package_info ≡ scanned_info psr)
        × ((w : Vulnerability → ℕ) → total w pkg.vulnerabilities ≡ unignored now c psr w)
        × (pkg.dep_groups ≡ psr.info.dep_groups)
        × (pkg.licenses ≡ reported_licenses actions (licenses_that_count now c psr))
        × (pkg.license_violations ≡ bad)
        × (include_package actions pkg ≡ (
            actions.show_all_packages
            || (psr.deprecated
                || ((not (should_ignore_package_vulnerabilities now c psr.info)
                      && ltb 0 (length psr.vulnerabilities))
                    || ltb 0 (length bad)))))
  unfolding build_package include_package effective_licenses start_package
  build_package_lem h =
      let (pkg, e, k) =
        analyse_package-Kept (group_package cvss (start_package (reported_vulns now c psr) psr))
          group_package-Kept in
      let (pkg', e', info, same, bad, listed, deps) =
        license_package_lem to_lower actions (effective_licenses now c psr) pkg h k.no_violations
          k.no_licenses in
      let deprecated : pkg'.package_info.deprecated ≡ psr.deprecated =
        ap (λ (i : PackageInfo). i.deprecated) (info ∙ k.info) in
      let reported : ltb 0 (length pkg'.vulnerabilities) ≡ (
          not (should_ignore_package_vulnerabilities now c psr.info)
          && ltb 0 (length psr.vulnerabilities)) =
        ap (λ n. ltb 0 n) (ap length same ∙ k.as_many) ∙ some-reported_vulns now c psr in
      (
        pkg',
        rw (build_package, e) e',
        info ∙ k.info,
        λ w. ap (total w) same ∙ k.each w ∙ total-reported_vulns now c psr w,
        deps ∙ k.deps,
        listed,
        bad,
        λ i. actions.show_all_packages || (deprecated i || (reported i || ltb 0 (length (bad i)))),
      )
