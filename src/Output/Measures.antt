-- ===== src/Output/Measures.antt =====
-- The counts that internal/output/output_result.go keeps for a source are sums over its packages.
use osv_scanner.Output.Fixes.{Semantic}
use osv_scanner.Severity.{Cvss}
use osv_scanner.Prelude.{
  Bool, Bool-cases, List, Option, Option-cases, Text, [], ap, arith, assign, bind_some, false,
  has_prefix, if◌then◌else◌, inl, inr, length, lookup, ltb, map, of_some, refl, some, sort_by, sym,
  text_eq, total, total-append, total-sort_by, true, ℕ, ◌++◌, ◌+◌, ◌==◌, ◌>>=◌, ◌∙◌, ◌∷◌, ◌≡◌,
}
use osv_scanner.Output.Counts.{VulnCount, add_vuln_count, no_vulns}
use osv_scanner.Models.{PackageSource, PackageVulns, SourceInfo}
use osv_scanner.Output.Packages.{PackageResult}
use osv_scanner.Output.Sources.{
  PackageMap, SourceResult, add_package_results, add_source, add_sources, count_package,
  count_packages, empty_source_result, finish_source, package_order, process_source,
}

-- The numbers of `VulnCount`.
pub data Field : Type 0 where
  regular_field hidden_field critical_field high_field medium_field : Field
  low_field unknown_field fixed_field unfixed_field : Field

abbrev pub at : Field → VulnCount → ℕ
at regular_field c = c.analysis_count.regular
at hidden_field c = c.analysis_count.hidden
at critical_field c = c.severity_count.critical
at high_field c = c.severity_count.high
at medium_field c = c.severity_count.medium
at low_field c = c.severity_count.low
at unknown_field c = c.severity_count.unknown
at fixed_field c = c.fixable_count.fixed
at unfixed_field c = c.fixable_count.unfixed

pub at-add : (f : Field) (a b : VulnCount) → at f (add_vuln_count a b) ≡ at f a + at f b
unfolding add_vuln_count
at-add regular_field a b = refl
at-add hidden_field a b = refl
at-add critical_field a b = refl
at-add high_field a b = refl
at-add medium_field a b = refl
at-add low_field a b = refl
at-add unknown_field a b = refl
at-add fixed_field a b = refl
at-add unfixed_field a b = refl

pub at-none : (f : Field) → at f no_vulns ≡ 0
at-none regular_field = refl
at-none hidden_field = refl
at-none critical_field = refl
at-none high_field = refl
at-none medium_field = refl
at-none low_field = refl
at-none unknown_field = refl
at-none fixed_field = refl
at-none unfixed_field = refl

-- The counts of a source.
pub data Measure : Type 0 where
  vulns_at : Field → Measure
  violation_count regular_package_count : Measure
  hidden_package_count deprecated_package_count : Measure

abbrev pub of_source : Measure → SourceResult → ℕ
of_source (vulns_at f) s = at f s.vuln_count
of_source violation_count s = s.license_violations_count
of_source regular_package_count s = s.package_type_count.regular
of_source hidden_package_count s = s.package_type_count.hidden
of_source deprecated_package_count s = s.pkg_deprecated_count

-- What one package counts.
abbrev pub of_package : Measure → PackageResult → ℕ
of_package (vulns_at f) p = at f p.vuln_count
of_package violation_count p = length p.license_violations
of_package regular_package_count p = if ltb 0 (length p.regular_vulns) then 1 else 0
of_package hidden_package_count p = if ltb 0 (length p.hidden_vulns) then 1 else 0
of_package deprecated_package_count p = if p.deprecated then 1 else 0

-- The sum over the packages of a source.
abbrev pub over_packages : Measure → SourceResult → ℕ
over_packages m s = total (of_package m) s.packages

of_source-count_package :
    (m : Measure) (p : PackageResult) (s : SourceResult)
    → of_source m (count_package p s) ≡ of_source m s + of_package m p
unfolding count_package
of_source-count_package (vulns_at f) p s = at-add f s.vuln_count p.vuln_count
of_source-count_package violation_count p s = refl
of_source-count_package regular_package_count p s = ground arith
of_source-count_package hidden_package_count p s = ground arith
of_source-count_package deprecated_package_count p s = ground arith

-- Collecting packages is not counted.
pub of_source_kept :
    (m : Measure) (ps : List PackageResult) (s : SourceResult)
    → of_source m (record s { packages = ps }) ≡ of_source m s
of_source_kept (vulns_at f) ps s = refl
of_source_kept violation_count ps s = refl
of_source_kept regular_package_count ps s = refl
of_source_kept hidden_package_count ps s = refl
of_source_kept deprecated_package_count ps s = refl

of_source-count_packages :
    (m : Measure) (eco : Text) (packages : PackageMap) (s : SourceResult)
    → of_source m s ≡ over_packages m s
    → of_source m (count_packages eco packages s) ≡ over_packages m (count_packages eco packages s)
unfolding count_packages
of_source-count_packages m eco [] s h = h
of_source-count_packages m eco ((key, p) ∷ rest) s h = elim (Bool-cases (has_prefix key eco)) [
  | inl e ↦
      let collected : SourceResult = record s { packages = s.packages ++ p ∷ [] } in
      let counted : of_source m (count_package p collected)
          ≡ over_packages m (count_package p collected) =
        of_source-count_package m p collected
        ∙ omega (
          arith,
          h,
          of_source_kept m (s.packages ++ p ∷ []) s,
          total-append (of_package m) s.packages (p ∷ []),
        ) in
      rw (count_packages, e)
        (of_source-count_packages m eco rest (count_package p collected) counted)
  | inr e ↦ rw (count_packages, e) (of_source-count_packages m eco rest s h)
]

of_source-empty : (m : Measure) (source : SourceInfo) → of_source m (empty_source_result source) ≡ 0
of_source-empty (vulns_at f) source = at-none f
of_source-empty violation_count source = refl
of_source-empty regular_package_count source = refl
of_source-empty hidden_package_count source = refl
of_source-empty deprecated_package_count source = refl

-- Every count of the sources adds up.
abbrev pub Sums : Measure → List (Text × SourceResult) → Type 0
Sums m rs =
    total (λ (e : Text × SourceResult). of_source m e.1) rs
    ≡ total (λ (e : Text × SourceResult). over_packages m e.1) rs

-- A map of sources without packages and without counts.
abbrev pub IsFresh : List (Text × SourceResult) → Type 0
IsFresh [] = Unit
IsFresh ((eco, s) ∷ rs) = ((m : Measure) → of_source m s ≡ 0) × (s.packages ≡ []) × IsFresh rs

IsFresh-assign :
    (eco : Text) (source : SourceInfo) (rs : List (Text × SourceResult))
    → IsFresh rs
    → IsFresh (assign eco (empty_source_result source) rs)
unfolding assign
IsFresh-assign eco source [] h = (λ m. of_source-empty m source, refl, tt)
IsFresh-assign eco source ((eco', s) ∷ rs) (counts, empty, rest) =
    elim (Bool-cases (text_eq eco' eco)) [
      | inl e ↦ rw (assign, e) (λ m. of_source-empty m source, refl, rest)
      | inr e ↦ rw (assign, e) (counts, empty, IsFresh-assign eco source rs rest)
    ]

IsFresh-add_source :
    (eco : Text) (source : SourceInfo) (rs : List (Text × SourceResult))
    → IsFresh rs
    → IsFresh (add_source source eco rs)
unfolding add_source
IsFresh-add_source eco source rs h = elim (Option-cases (lookup eco rs)) [
  | inl e ↦ rw (add_source, e) (IsFresh-assign eco source rs h)
  | inr (r, e) ↦ rw (add_source, e) h
]

pub IsFresh-add_sources :
    (source : SourceInfo) (ps : List PackageVulns) (rs : List (Text × SourceResult))
    → IsFresh rs
    → IsFresh (add_sources source ps rs)
unfolding add_sources
IsFresh-add_sources source [] rs h = h
IsFresh-add_sources source (p ∷ ps) rs h =
    IsFresh-add_sources source ps (add_source source p.package_info.ecosystem rs)
      (IsFresh-add_source p.package_info.ecosystem source rs h)

Sums-finish_source :
    (m : Measure) (packages : PackageMap) (rs : List (Text × SourceResult))
    → IsFresh rs
    → Sums m (map (finish_source packages) rs)
unfolding finish_source
Sums-finish_source m packages [] h = refl
Sums-finish_source m packages ((eco, s) ∷ rs) (counts, empty, rest) =
    let start : of_source m s ≡ over_packages m s =
      counts m ∙ ap (total (of_package m)) (sym empty) in
    let counted = count_packages eco packages s in
    omega (
      arith,
      of_source-count_packages m eco packages s start,
      of_source_kept m (sort_by package_order counted.packages) counted,
      total-sort_by (of_package m) package_order counted.packages,
      Sums-finish_source m packages rs rest,
    )

-- Every count of the sources that a source of packages is split into is the sum over their packages.
pub process_source-Sums :
    (parse_float : Text → Option ℕ) (cvss : Cvss) (semantic : Semantic) (s : PackageSource)
    (rs : List (Text × SourceResult))
    → process_source parse_float cvss semantic s ≡ some rs
    → (m : Measure) → Sums m rs
unfolding process_source
process_source-Sums parse_float cvss semantic s rs h m = go (length s.packages == 0) h
  where
    go :
        (empty : Bool)
        → (if empty
            then some (([], empty_source_result s.source) ∷ [])
            else add_package_results parse_float cvss semantic s.packages [] >>= λ packages.
                some (map (finish_source packages) (add_sources s.source s.packages [])))
          ≡ some rs
        → Sums m rs
    go true e = of_some (Sums m) e (ap (λ n. n + 0) (of_source-empty m s.source))
    go false e =
        let (packages, built, e') =
          bind_some (add_package_results parse_float cvss semantic s.packages [])
            (λ packages. some (map (finish_source packages) (add_sources s.source s.packages [])))
            rs e in
        of_some (Sums m) e' (
          Sums-finish_source m packages (add_sources s.source s.packages [])
            (IsFresh-add_sources s.source s.packages [] tt))
