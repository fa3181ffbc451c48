-- ===== src/Build/Sources.antt =====
-- `groupedBySource` and what `buildVulnerabilityResults` makes of it. Iterating over the map visits
-- the sources in an unknown order, but the result is sorted by source, and no two entries have the
-- same. `analyse` stands for `sourceanalysis.Run`, which marks groups in place.
use osv_scanner.Prelude.{
  List, Option, Ordering, Text, [], if◌then◌else◌, map, none, some, sort_by, text_cmp, ℕ, ◌++◌, ◌∷◌,
}
use osv_scanner.Build.Package.{Actions, PackageScanResult, build_package, include_package}
use osv_scanner.Models.{
  ExploitabilitySignal, PackageSource, PackageVulns, SourceInfo, VulnerabilityResults,
}
use osv_scanner.Config.{Files, Manager, get}
use osv_scanner.Severity.{Cvss}
use osv_scanner.Ci.{source_eq}

-- The source of a package; `to_slash` is `filepath.ToSlash`.
unfoldable pub source_of : (Text → Text) → PackageScanResult → SourceInfo
source_of to_slash psr = record {
  path = elim (psr.cdx_location) [
    | none ↦ to_slash psr.info.location
    | some location ↦ to_slash psr.info.location ++ (b':' ∷ location)
  ];
  type = psr.source_type;
}

-- `groupedBySource[source]`: the package is appended, and the annotations are overwritten.
unfoldable pub add_package :
    SourceInfo → List ExploitabilitySignal → PackageVulns → List PackageSource → List PackageSource
unfolding source_eq
add_package src annotations pkg [] =
    record { source = src; experimental_pes = annotations; packages = pkg ∷ [] } ∷ []
add_package src annotations pkg (s ∷ ss) =
    if source_eq s.source src
    then record s { experimental_pes = annotations; packages = s.packages ++ pkg ∷ [] } ∷ ss
    else s ∷ add_package src annotations pkg ss

-- The order of `sort.Slice` at the end.
unfoldable pub source_order : PackageSource → PackageSource → Ordering
source_order a b = elim (text_cmp a.source.path b.source.path) [
  | Ordering.eq ↦ text_cmp a.source.type b.source.type
  | o ↦ o
]

module _ (now : ℕ) (fs : Files) (cvss : Cvss) (to_lower to_slash : Text → Text)
    (actions : Actions) where
  -- The loop over the scanned packages; the configuration of a package is that of its location.
  unfoldable pub add_packages :
      List PackageScanResult → Manager → List PackageSource → Option (List PackageSource × Manager)
  unfolding build_package include_package add_package source_of
  add_packages [] m grouped = some (grouped, m)
  add_packages (psr ∷ psrs) m grouped =
      let (c, m') = get fs m psr.info.location in
      elim (build_package now cvss to_lower actions c psr) [
        | none ↦ none
        | some pkg ↦ add_packages psrs m' (
            if include_package actions pkg
            then add_package (source_of to_slash psr) psr.exploitability_signals pkg grouped
            else grouped)
      ]

  unfoldable pub build_vulnerability_results :
      (SourceInfo → List PackageVulns → List PackageVulns)
      → List PackageScanResult
      → Manager
      → Option (VulnerabilityResults × Manager)
  unfolding add_packages source_order
  build_vulnerability_results analyse psrs m = elim (add_packages psrs m []) [
    | none ↦ none
    | some (grouped, m') ↦
        let analysed =
          map (λ (s : PackageSource). record s { packages = analyse s.source s.packages })
            grouped in
        some (record { results = sort_by source_order analysed }, m')
  ]
