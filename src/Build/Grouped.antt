-- ===== src/Build/Grouped.antt =====
-- How `buildVulnerabilityResults` of pkg/osvscanner/vulnerability_result.go groups packages by source.
use mathlib.Core.Path.{subst}
use osv_scanner.Prelude.{
  append-nil, append_assoc, Bool, Bool-cases, List, Option, Option-cases, Text, [], ap, arith, flip,
  if◌then◌else◌, inl, inr, is_sorted, is_sorted-sort_by, length, ltb, none, refl, some, sort_by,
  sym, text_cmp-flip, text_eq, total-sort_by, true, ℕ, ◌&&◌, ◌++◌, ◌∙◌, ◌∷◌, ◌≡◌,
}
use osv_scanner.Build.Package.{Actions, PackageScanResult, build_package, include_package}
use osv_scanner.Build.Sources.{
  add_package, add_packages, build_vulnerability_results, source_of, source_order,
}
use osv_scanner.Build.Places.{
  IsOnce, IsOnce-add_package, analysed, entries_for, entries_for-analysed, packages_at,
  packages_at-add_package, packages_at-analysed, packages_at-sort_by,
}
use osv_scanner.Models.{PackageSource, PackageVulns, SourceInfo, VulnerabilityResults}
use osv_scanner.Config.{Files, Manager, get}
use osv_scanner.Severity.{Cvss}
use osv_scanner.Ci.{source_eq}

-- The results, or what is given instead.
abbrev results_of :
    List PackageSource → Option (VulnerabilityResults × Manager) → List PackageSource
results_of ss none = ss
results_of ss (some (vr, m)) = vr.results

source_order-flip : (a b : PackageSource) → source_order b a ≡ flip (source_order a b)
unfolding source_order
source_order-flip a b =
    ground
      (arith, text_cmp-flip a.source.path b.source.path, text_cmp-flip a.source.type b.source.type)

module _ (now : ℕ) (fs : Files) (cvss : Cvss) (to_lower to_slash : Text → Text)
    (actions : Actions) where
  -- The scanned package has that source: its location, with that of the CycloneDX extractor behind a
  -- colon, and its type.
  abbrev pub is_from : SourceInfo → PackageScanResult → Bool
  is_from src psr =
      text_eq
        (elim (psr.cdx_location) [
          | none ↦ to_slash psr.info.location
          | some location ↦ to_slash psr.info.location ++ (b':' ∷ location)
        ])
        src.path
      && text_eq psr.source_type src.type

  -- The packages of a source that are built and included, in order, each with the configuration of
  -- its location.
  abbrev pub included_of : SourceInfo → List PackageScanResult → Manager → List PackageVulns
  included_of src [] m = []
  included_of src (psr ∷ psrs) m =
      let (c, m') = get fs m psr.info.location in
      let rest = included_of src psrs m' in
      elim (build_package now cvss to_lower actions c psr) [
        | none ↦ rest
        | some pkg ↦ if include_package actions pkg && is_from src psr then pkg ∷ rest else rest
      ]

  -- A run that returns has added those to what there was, with one entry for a source.
  abbrev Grouped :
      List PackageSource
      → List PackageScanResult
      → Manager
      → Option (List PackageSource × Manager)
      → Type 0
  Grouped grouped psrs m none = Unit
  Grouped grouped psrs m (some (ss, m')) =
      IsOnce ss
      × ((src : SourceInfo)
          → packages_at src ss ≡ packages_at src grouped ++ included_of src psrs m)

  add_packages-Grouped :
      (psrs : List PackageScanResult) (m : Manager) (grouped : List PackageSource)
      → IsOnce grouped
      → Grouped grouped psrs m (add_packages now fs cvss to_lower to_slash actions psrs m grouped)
  unfolding add_packages source_of source_eq
  add_packages-Grouped [] m grouped once = (once, λ src. sym (append-nil (packages_at src grouped)))
  add_packages-Grouped (psr ∷ psrs) m grouped once =
      let c = (get fs m psr.info.location).0 in
      let m' = (get fs m psr.info.location).1 in
      elim (Option-cases (build_package now cvss to_lower actions c psr)) [
        | inl fails ↦ rw (add_packages, fails) tt
        | inr (pkg, built) ↦ elim (Bool-cases (include_package actions pkg)) [
          | inl inc ↦
              let s = source_of to_slash psr in
              let signals = psr.exploitability_signals in
              let grouped' = add_package s signals pkg grouped in
              let next : (src : SourceInfo)
                  → packages_at src grouped' ++ included_of src psrs m'
                    ≡ packages_at src grouped ++ included_of src (psr ∷ psrs) m =
                λ src.
                  ap (λ ps. ps ++ included_of src psrs m')
                    (packages_at-add_package s signals pkg src grouped)
                  ∙ append_assoc (packages_at src grouped)
                      (if source_eq s src then pkg ∷ [] else []) (included_of src psrs m')
                  ∙ ap (λ ps. packages_at src grouped ++ ps)
                      (rw (included_of, built, inc) (ground arith)) in
              rw (add_packages, built, inc)
                (regrouped grouped' grouped psrs (psr ∷ psrs) m' m
                  (add_packages now fs cvss to_lower to_slash actions psrs m' grouped') next
                  (add_packages-Grouped psrs m' grouped'
                    (IsOnce-add_package s signals pkg grouped once)))
          | inr exc ↦
              let next : (src : SourceInfo)
                  → packages_at src grouped ++ included_of src psrs m'
                    ≡ packages_at src grouped ++ included_of src (psr ∷ psrs) m =
                λ src.
                  ap (λ ps. packages_at src grouped ++ ps) (rw (included_of, built, exc) refl) in
              rw (add_packages, built, exc)
                (regrouped grouped grouped psrs (psr ∷ psrs) m' m
                  (add_packages now fs cvss to_lower to_slash actions psrs m' grouped) next
                  (add_packages-Grouped psrs m' grouped once))
        ]
      ]
    where
      regrouped :
          (ss ss' : List PackageSource) (qs qs' : List PackageScanResult) (n n' : Manager)
          (o : Option (List PackageSource × Manager))
          → ((src : SourceInfo)
              → packages_at src ss ++ included_of src qs n
                ≡ packages_at src ss' ++ included_of src qs' n')
          → Grouped ss qs n o
          → Grouped ss' qs' n' o
      regrouped ss ss' qs qs' n n' none h k = tt
      regrouped ss ss' qs qs' n n' (some r) h (once, k) = (once, λ src. k src ∙ h src)

  -- What is claimed of the results.
  abbrev pub Placed :
      (SourceInfo → List PackageVulns → List PackageVulns)
      → List PackageScanResult
      → Manager
      → List PackageSource
      → Type 0
  Placed analyse psrs m rs =
      ((src : SourceInfo) → packages_at src rs ≡ analyse src (included_of src psrs m))
      × ((src : SourceInfo)
          → entries_for src rs ≡ (if ltb 0 (length (included_of src psrs m)) then 1 else 0))
      × (is_sorted source_order rs ≡ true)

  Placed-sort_by :
      (analyse : SourceInfo → List PackageVulns → List PackageVulns) (psrs : List PackageScanResult)
      (m : Manager) (ss : List PackageSource)
      → ((src : SourceInfo) → analyse src [] ≡ [])
      → IsOnce ss
      → ((src : SourceInfo) → packages_at src ss ≡ included_of src psrs m)
      → Placed analyse psrs m (sort_by source_order (analysed analyse ss))
  Placed-sort_by analyse psrs m ss nothing once at = (
    λ src.
        packages_at-sort_by source_order src (analysed analyse ss)
          (ground (arith, entries_for-analysed analyse src ss, once src))
        ∙ packages_at-analysed analyse src ss (nothing src)
        ∙ ap (analyse src) (at src),
    λ src.
        total-sort_by (λ (s : PackageSource). if source_eq s.source src then 1 else 0) source_order
          (analysed analyse ss)
        ∙ entries_for-analysed analyse src ss
        ∙ once src
        ∙ ap (λ (ps : List PackageVulns). if ltb 0 (length ps) then 1 else 0) (at src),
    is_sorted-sort_by source_order source_order-flip (analysed analyse ss),
  )

  -- If source analysis makes no package out of none, then in results that are returned each source has
  -- what its analysis makes of the packages that were built and included for its path and type, in the
  -- order of the scan; it has one entry if there are such packages, and none otherwise; and the
  -- entries are sorted by path and type.
  pub build_vulnerability_results_lem :
      (analyse : SourceInfo → List PackageVulns → List PackageVulns) (psrs : List PackageScanResult)
      (m m' : Manager) (vr : VulnerabilityResults)
      → ((src : SourceInfo) → analyse src [] ≡ [])
      → build_vulnerability_results now fs cvss to_lower to_slash actions analyse psrs m
        ≡ some (vr, m')
      → Placed analyse psrs m vr.results
  unfolding build_vulnerability_results
  build_vulnerability_results_lem analyse psrs m m' vr nothing h =
      go (add_packages now fs cvss to_lower to_slash actions psrs m [])
        (add_packages-Grouped psrs m [] (λ src. refl)) h
    where
      go :
          (o : Option (List PackageSource × Manager))
          → Grouped [] psrs m o
          → (let r : Option (VulnerabilityResults × Manager) = elim o [
            | none ↦ none
            | some (ss, m'') ↦
                some (record { results = sort_by source_order (analysed analyse ss) }, m'')
          ] in
              r ≡ some (vr, m'))
          → Placed analyse psrs m vr.results
      go none c e = cc
      go (some (ss, m'')) (once, at) e =
          subst (λ (rs : List PackageSource). Placed analyse psrs m rs)
            (ap (results_of (sort_by source_order (analysed analyse ss))) e)
            (Placed-sort_by analyse psrs m ss nothing once at)
