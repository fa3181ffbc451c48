-- ===== src/Output/Tallies.antt =====
-- What `BuildResults` of internal/output/output_result.go collects over the sources adds up.
use osv_scanner.Output.Counts.{AnalysisCount}
use osv_scanner.Prelude.{
  Bool, Bool-cases, List, Option, Option-cases, Text, [], any, arith, bind_some, false, inl, inr,
  keep, lookup, map, not, of_some, refl, some, sort_by, total, total-append, total-sort_by,
  total_values, total_values-assign, true, ℕ, ◌++◌, ◌+◌, ◌∷◌, ◌≡◌,
}
use osv_scanner.Models.{PackageSource}
use osv_scanner.Severity.{Cvss}
use osv_scanner.Output.Fixes.{Semantic}
use osv_scanner.Output.Sources.{SourceResult, process_source}
use osv_scanner.Output.Measures.{
  Field, Measure, Sums, at, at-add, deprecated_package_count, hidden_field, hidden_package_count,
  of_source, over_packages, process_source-Sums, regular_field, regular_package_count, vulns_at,
}
use osv_scanner.Output.Report.{
  EcosystemMap, EcosystemResult, Tally, VulnTypeSummary, add_result, add_results, append_source,
  count_package_types, count_source_types, ecosystem_result, is_absent, name_order,
  ordered_ecosystems, summarise, summarise_sources, tally_sources,
}

-- The sum of the weights of the sources in the map.
abbrev pub over_map : (SourceResult → ℕ) → EcosystemMap → ℕ
over_map w m = total_values (total w) m

over_map-append_source :
    (w : SourceResult → ℕ) (eco : Text) (s : SourceResult) (m : EcosystemMap)
    → over_map w (append_source eco s m) ≡ over_map w m + w s
unfolding append_source
over_map-append_source w eco s m = elim (Option-cases (lookup eco m)) [
  | inl e ↦
      let added = total_values-assign (total w) eco (s ∷ []) m in
      rw (append_source, e) (omega (arith, rw e at added))
  | inr (ss, e) ↦
      let added = total_values-assign (total w) eco (ss ++ s ∷ []) m in
      rw (append_source, e) (omega (arith, rw e at added, total-append w ss (s ∷ [])))
]

over_map-add_results :
    (w : SourceResult → ℕ) (rs : List (Text × SourceResult)) (t : Tally)
    → over_map w (add_results rs t).ecosystem_map
      ≡ over_map w t.ecosystem_map + total (λ (e : Text × SourceResult). w e.1) rs
unfolding add_results
over_map-add_results w [] t = omega arith
over_map-add_results w ((eco, s) ∷ rs) t = omega (
  arith,
  over_map-add_results w rs (add_result (eco, s) t),
  over_map-append_source w eco s t.ecosystem_map,
)

at-add_results :
    (f : Field) (rs : List (Text × SourceResult)) (t : Tally)
    → at f (add_results rs t).result_count
      ≡ at f t.result_count + total (λ (e : Text × SourceResult). at f e.1.vuln_count) rs
unfolding add_results
at-add_results f [] t = omega arith
at-add_results f ((eco, s) ∷ rs) t =
    omega (arith, at-add_results f rs (add_result (eco, s) t), at-add f t.result_count s.vuln_count)

deprecated_count-add_results :
    (rs : List (Text × SourceResult)) (t : Tally)
    → (add_results rs t).deprecated_count
      ≡ t.deprecated_count + total (λ (e : Text × SourceResult). e.1.pkg_deprecated_count) rs
unfolding add_results
deprecated_count-add_results [] t = omega arith
deprecated_count-add_results ((eco, s) ∷ rs) t =
    omega (arith, deprecated_count-add_results rs (add_result (eco, s) t))

-- The totals are those of the sources in the map, and each count of the sources is the sum over their
-- packages.
pub record TallySums (t : Tally) : Type 0 where
  pub vulns : (f : Field) → at f t.result_count ≡ over_map (of_source (vulns_at f)) t.ecosystem_map
  pub deprecated :
      t.deprecated_count ≡ over_map (of_source deprecated_package_count) t.ecosystem_map
  pub packages :
      (m : Measure)
      → over_map (of_source m) t.ecosystem_map ≡ over_map (over_packages m) t.ecosystem_map

TallySums-add_results :
    (rs : List (Text × SourceResult)) (t : Tally)
    → ((m : Measure) → Sums m rs)
    → TallySums t
    → TallySums (add_results rs t)
TallySums-add_results rs t sums h = record {
  vulns = λ f.
      omega (
        arith,
        h.vulns f,
        at-add_results f rs t,
        over_map-add_results (of_source (vulns_at f)) rs t,
      );
  deprecated = omega (
    arith,
    h.deprecated,
    deprecated_count-add_results rs t,
    over_map-add_results (of_source deprecated_package_count) rs t,
  );
  packages = λ m. omega (
    arith,
    h.packages m,
    sums m,
    over_map-add_results (of_source m) rs t,
    over_map-add_results (over_packages m) rs t,
  );
}

module _ (parse_float : Text → Option ℕ) (cvss : Cvss) (semantic : Semantic) where
  pub tally_sources-TallySums :
      (ss : List PackageSource) (t t' : Tally)
      → TallySums t
      → tally_sources parse_float cvss semantic ss t ≡ some t'
      → TallySums t'
  unfolding tally_sources
  tally_sources-TallySums [] t t' h e = of_some TallySums e h
  tally_sources-TallySums (s ∷ ss) t t' h e = elim (Bool-cases (any is_absent s.experimental_pes)) [
    | inl absent ↦ tally_sources-TallySums ss t t' h (rw (tally_sources, absent) at e)
    | inr present ↦
        let e' = rw (tally_sources, present) at e in
        let (rs, processed, rest) =
          bind_some (process_source parse_float cvss semantic s)
            (λ rs. tally_sources parse_float cvss semantic ss (add_results rs t)) t' e' in
        tally_sources-TallySums ss (add_results rs t) t'
          (TallySums-add_results rs t (process_source-Sums parse_float cvss semantic s rs processed)
            h)
          rest
  ]

-- The sum of the weights of the sources of all ecosystems.
abbrev pub over_ecosystems : (SourceResult → ℕ) → List EcosystemResult → ℕ
over_ecosystems w es = total (λ (e : EcosystemResult). total w e.sources) es

total-keep_split :
    {A : Type 0} (w : A → ℕ) (p : A → Bool) (xs : List A)
    → total w (keep (λ x. not (p x)) xs) + total w (keep p xs) ≡ total w xs
total-keep_split w p [] = refl
total-keep_split w p (x ∷ xs) = ground (arith, total-keep_split w p xs)

over_ecosystems-map :
    (w : SourceResult → ℕ) (m : EcosystemMap)
    → over_ecosystems w (map ecosystem_result m) ≡ over_map w m
unfolding ecosystem_result
over_ecosystems-map w [] = refl
over_ecosystems-map w ((eco, ss) ∷ m) = omega (arith, over_ecosystems-map w m)

pub over_ecosystems-ordered_ecosystems :
    (w : SourceResult → ℕ) (m : EcosystemMap)
    → over_ecosystems w (ordered_ecosystems m) ≡ over_map w m
unfolding ordered_ecosystems
over_ecosystems-ordered_ecosystems w m =
    let results = map ecosystem_result m in
    let weigh : EcosystemResult → ℕ = λ e. total w e.sources in
    let os : EcosystemResult → Bool = λ e. e.is_os in
    let projects : EcosystemResult → Bool = λ e. not e.is_os in
    omega (
      arith,
      total-append weigh (sort_by name_order (keep projects results))
          (sort_by name_order (keep os results)),
      total-sort_by weigh name_order (keep projects results),
      total-sort_by weigh name_order (keep os results),
      total-keep_split weigh os results,
      over_ecosystems-map w m,
    )

-- The parts of a summary that a list of sources adds.
record Summarised (s s' : VulnTypeSummary) (regular hidden : ℕ) : Type 0 where
  shown : s'.os + s'.project ≡ s.os + s.project + regular
  concealed : s'.hidden_vulns ≡ s.hidden_vulns + hidden

Summarised-summarise_sources :
    (is_os : Bool) (rs : List SourceResult) (s : VulnTypeSummary)
    → Summarised s
        (summarise_sources is_os rs s)
        (total (of_source (vulns_at regular_field)) rs)
        (total (of_source (vulns_at hidden_field)) rs)
unfolding summarise_sources
Summarised-summarise_sources is_os [] s = record { shown = omega arith; concealed = omega arith }
Summarised-summarise_sources true (r ∷ rs) s =
    let rest = Summarised-summarise_sources true rs (record s {
      os = s.os + r.vuln_count.analysis_count.regular;
      hidden_vulns = s.hidden_vulns + r.vuln_count.analysis_count.hidden;
    }) in
    record { shown = omega (arith, rest.shown); concealed = omega (arith, rest.concealed) }
Summarised-summarise_sources false (r ∷ rs) s =
    let rest = Summarised-summarise_sources false rs (record s {
      project = s.project + r.vuln_count.analysis_count.regular;
      hidden_vulns = s.hidden_vulns + r.vuln_count.analysis_count.hidden;
    }) in
    record { shown = omega (arith, rest.shown); concealed = omega (arith, rest.concealed) }

pub summarise_lem :
    (es : List EcosystemResult) (s : VulnTypeSummary)
    → ((summarise es s).os + (summarise es s).project
        ≡ s.os + s.project + over_ecosystems (of_source (vulns_at regular_field)) es)
      × ((summarise es s).hidden_vulns
          ≡ s.hidden_vulns + over_ecosystems (of_source (vulns_at hidden_field)) es)
unfolding summarise
summarise_lem [] s = (omega arith, omega arith)
summarise_lem (e ∷ es) s =
    let here = Summarised-summarise_sources e.is_os e.sources s in
    let (shown, concealed) = summarise_lem es (summarise_sources e.is_os e.sources s) in
    (omega (arith, here.shown, shown), omega (arith, here.concealed, concealed))

count_source_types_lem :
    (rs : List SourceResult) (c : AnalysisCount)
    → ((count_source_types rs c).regular ≡ c.regular + total (of_source regular_package_count) rs)
      × ((count_source_types rs c).hidden ≡ c.hidden + total (of_source hidden_package_count) rs)
unfolding count_source_types
count_source_types_lem [] c = (omega arith, omega arith)
count_source_types_lem (r ∷ rs) c =
    let (regular, hidden) = count_source_types_lem rs (record {
      regular = c.regular + r.package_type_count.regular;
      hidden = c.hidden + r.package_type_count.hidden;
    }) in
    (omega (arith, regular), omega (arith, hidden))

pub count_package_types_lem :
    (es : List EcosystemResult) (c : AnalysisCount)
    → ((count_package_types es c).regular
        ≡ c.regular + over_ecosystems (of_source regular_package_count) es)
      × ((count_package_types es c).hidden
          ≡ c.hidden + over_ecosystems (of_source hidden_package_count) es)
unfolding count_package_types
count_package_types_lem [] c = (omega arith, omega arith)
count_package_types_lem (e ∷ es) c =
    let (r, h) = count_source_types_lem e.sources c in
    let (regular, hidden) = count_package_types_lem es (count_source_types e.sources c) in
    (omega (arith, r, regular), omega (arith, h, hidden))
