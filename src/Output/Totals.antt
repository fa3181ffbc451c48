-- ===== src/Output/Totals.antt =====
-- The numbers that `BuildResults` of internal/output/output_result.go reports are sums over the
-- packages that it reports.
use osv_scanner.Output.Counts.{no_vulns}
use osv_scanner.Output.Fixes.{Semantic}
use osv_scanner.Output.LayerCounts.{
  count_layers-total, fill_ecosystems-kept, fill_source-kept, length-map, total-no_vulns,
  total-set_base_images, total-set_layer_counts,
}
use osv_scanner.Models.{PackageSource}
use osv_scanner.Severity.{Cvss}
use osv_scanner.Prelude.{
  Bool, List, Option, Text, [], arith, bind_some, map, none, of_some, refl, some, total,
  total-append, total-sort_by, ℕ, ◌+◌, ◌∙◌, ◌∷◌, ◌≡◌, ◌≢◌,
}
use osv_scanner.Output.Packages.{BaseImageGroupInfo, LayerInfo, PackageResult}
use osv_scanner.Output.Sources.{SourceResult}
use osv_scanner.Output.Report.{
  EcosystemResult, ImageInfo, Result, Tally, ordered_ecosystems, summary_of, tally_sources,
}
use osv_scanner.Output.Layers.{
  ImageMetadata, build_base_images_from, build_layers_from, build_result, build_results,
  by_index_down, count_layers, fill_ecosystem, map_all, packages_of, packages_of_sources,
  populate_result_with_image_metadata, set_base_images, set_layer_counts,
}
use osv_scanner.Output.Measures.{
  Field, Measure, at, at-none, deprecated_package_count, hidden_field, hidden_package_count,
  of_package, of_source, over_packages, regular_field, regular_package_count, vulns_at,
}
use osv_scanner.Output.Tallies.{
  TallySums, count_package_types_lem, over_ecosystems, over_ecosystems-ordered_ecosystems,
  summarise_lem, tally_sources-TallySums,
}

-- The sum over all reported packages.
abbrev pub over_all_packages : Measure → Result → ℕ
over_all_packages m r = total (of_package m) (packages_of r.ecosystems)

-- All numbers of the report are sums over its packages.
pub record AddsUp (r : Result) : Type 0 where
  pub vulns : (f : Field) → at f r.vuln_count ≡ over_all_packages (vulns_at f) r
  pub shown : r.vuln_type_summary.all_vulns ≡ r.vuln_count.analysis_count.regular
  pub os_and_projects :
      r.vuln_type_summary.os + r.vuln_type_summary.project ≡ r.vuln_type_summary.all_vulns
  pub concealed : r.vuln_type_summary.hidden_vulns ≡ r.vuln_count.analysis_count.hidden
  pub affected : r.package_type_count.regular ≡ over_all_packages regular_package_count r
  pub affected_hidden : r.package_type_count.hidden ≡ over_all_packages hidden_package_count r
  pub deprecated : r.pkg_deprecated_count ≡ over_all_packages deprecated_package_count r
  pub sources : (m : Measure) → over_ecosystems (of_source m) r.ecosystems ≡ over_all_packages m r

total-packages_of_sources :
    (w : PackageResult → ℕ) (ss : List SourceResult)
    → total w (packages_of_sources ss) ≡ total (λ (s : SourceResult). total w s.packages) ss
unfolding packages_of_sources
total-packages_of_sources w [] = refl
total-packages_of_sources w (s ∷ ss) =
    omega
      (arith, total-append w s.packages (packages_of_sources ss), total-packages_of_sources w ss)

total-packages_of :
    (w : PackageResult → ℕ) (es : List EcosystemResult)
    → total w (packages_of es) ≡ over_ecosystems (λ (s : SourceResult). total w s.packages) es
unfolding packages_of
total-packages_of w [] = refl
total-packages_of w (e ∷ es) = omega (
  arith,
  total-append w (packages_of_sources e.sources) (packages_of es),
  total-packages_of_sources w e.sources,
  total-packages_of w es,
)

summary_of-AddsUp : (t : Tally) → TallySums t → AddsUp (summary_of t)
unfolding summary_of
summary_of-AddsUp t h =
    let es = ordered_ecosystems t.ecosystem_map in
    let sources : (m : Measure)
        → over_ecosystems (of_source m) es ≡ total (of_package m) (packages_of es) =
      λ m. omega (
        arith,
        h.packages m,
        over_ecosystems-ordered_ecosystems (of_source m) t.ecosystem_map,
        over_ecosystems-ordered_ecosystems (over_packages m) t.ecosystem_map,
        total-packages_of (of_package m) es,
      ) in
    let vulns : (f : Field) → at f t.result_count ≡ over_ecosystems (of_source (vulns_at f)) es =
      λ f. omega (
        arith,
        h.vulns f,
        over_ecosystems-ordered_ecosystems (of_source (vulns_at f)) t.ecosystem_map,
      ) in
    let (shown, concealed) =
      summarise_lem es (record { all_vulns = 0; os = 0; project = 0; hidden_vulns = 0 }) in
    let (affected, affected_hidden) =
      count_package_types_lem es (record { regular = 0; hidden = 0 }) in
    record {
      vulns = λ f. vulns f ∙ sources (vulns_at f);
      shown = omega (arith, shown, vulns regular_field);
      os_and_projects = refl;
      concealed = omega (arith, concealed, vulns hidden_field);
      affected = omega (arith, affected, sources regular_package_count);
      affected_hidden = omega (arith, affected_hidden, sources hidden_package_count);
      deprecated = omega (
        arith,
        h.deprecated,
        over_ecosystems-ordered_ecosystems (of_source deprecated_package_count) t.ecosystem_map,
        sources deprecated_package_count,
      );
      sources = sources;
    }

-- A report with other ecosystems, whose sums are the same, and other parts of the image.
AddsUp-kept :
    (r : Result) (es : List EcosystemResult) (image : ImageInfo) (scanning : Bool)
    → ((m : Measure)
        → over_ecosystems (of_source m) es ≡ over_ecosystems (of_source m) r.ecosystems)
    → ((m : Measure)
        → over_ecosystems (over_packages m) es ≡ over_ecosystems (over_packages m) r.ecosystems)
    → AddsUp r
    → AddsUp (record r { ecosystems = es; image_info = image; is_container_scanning = scanning })
AddsUp-kept r es image scanning by_source by_package h =
    let same : (m : Measure)
        → total (of_package m) (packages_of r.ecosystems) ≡ total (of_package m) (packages_of es) =
      λ m. omega (
        arith,
        by_package m,
        total-packages_of (of_package m) es,
        total-packages_of (of_package m) r.ecosystems,
      ) in
    record {
      vulns = λ f. h.vulns f ∙ same (vulns_at f);
      shown = h.shown;
      os_and_projects = h.os_and_projects;
      concealed = h.concealed;
      affected = h.affected ∙ same regular_package_count;
      affected_hidden = h.affected_hidden ∙ same hidden_package_count;
      deprecated = h.deprecated ∙ same deprecated_package_count;
      sources = λ m. by_source m ∙ h.sources m ∙ same m;
    }

-- The layers of the image share out the vulnerabilities of the report, and so do its base images.
abbrev pub ImageAddsUp : Result → Type 0
ImageAddsUp r =
    (f : Field)
    → (total (λ (l : LayerInfo). at f l.count) r.image_info.all_layers ≡ at f r.vuln_count)
      × (total (λ (b : BaseImageGroupInfo). at f b.count) r.image_info.all_base_images
          ≡ at f r.vuln_count)

populate-AddsUp :
    (m : ImageMetadata) (r r' : Result)
    → AddsUp r
    → populate_result_with_image_metadata m r ≡ some r'
    → AddsUp r' × ImageAddsUp r'
unfolding populate_result_with_image_metadata
populate-AddsUp m r r' h e =
    let layers = build_layers_from 0 m.layer_metadata in
    let images = build_base_images_from 0 m.base_images in
    let (counts, counted, e1) =
      bind_some
        (count_layers layers (packages_of r.ecosystems)
          (map (λ l. no_vulns) layers, map (λ b. no_vulns) images))
        _ r' e in
    let layers' = set_layer_counts layers counts.0 in
    let images' = set_base_images layers' images counts.1 in
    let (es, filled, e2) =
      bind_some (map_all (fill_ecosystem layers' images') r.ecosystems) _ r' e1 in
    of_some (λ (x : Result). AddsUp x × ImageAddsUp x) e2
      (
        AddsUp-kept r es _ _
            (λ k.
              fill_ecosystems-kept layers' images' (of_source k)
                (λ s s' t. (fill_source-kept layers' images' k s s' t).0) r.ecosystems es filled)
            (λ k.
              fill_ecosystems-kept layers' images' (over_packages k)
                (λ s s' t. (fill_source-kept layers' images' k s s' t).1) r.ecosystems es filled)
            h,
        λ f.
            let (total_layers, total_images, as_many, as_many') =
              count_layers-total f layers (packages_of r.ecosystems) _ counts counted in
            (
              omega (
                arith,
                total_layers,
                h.vulns f,
                total-no_vulns f layers,
                total-set_layer_counts f layers counts.0
                    (as_many ∙ length-map (λ l. no_vulns) layers),
              ),
              total-sort_by (λ (b : BaseImageGroupInfo). at f b.count) by_index_down images'
                  ∙ omega (
                    arith,
                    total_images,
                    h.vulns f,
                    total-no_vulns f images,
                    total-set_base_images f layers' images counts.1
                        (as_many' ∙ length-map (λ b. no_vulns) images),
                  ),
            ),
      )

-- Whatever is reported adds up: the counts of vulnerabilities by kind, severity and fix, of packages
-- with regular and with hidden vulnerabilities and of deprecated packages are the sums over the
-- packages of the report, in total and over the sources; the summary's totals agree with the counts;
-- and
-- for an image so do the counts of its layers and those of its base images.
pub build_results-AddsUp :
    (parse_float : Text → Option ℕ) (cvss : Cvss) (semantic : Semantic)
    (image : Option ImageMetadata) (sources : List PackageSource) (r : Result)
    → build_results parse_float cvss semantic image sources ≡ some r
    → AddsUp r × ((image ≢ none) → ImageAddsUp r)
unfolding build_results build_result
build_results-AddsUp parse_float cvss semantic image sources r e =
    let start : Tally = record {
      ecosystem_map = [];
      result_count = no_vulns;
      deprecated_count = 0;
    } in
    let (t, tallied, e') =
      bind_some (tally_sources parse_float cvss semantic sources start) _ r e in
    let sums =
      tally_sources-TallySums parse_float cvss semantic sources start t
        (record { vulns = at-none; deprecated = refl; packages = λ m. refl }) tallied in
    go image t sums e'
  where
    go :
        (image : Option ImageMetadata) (t : Tally)
        → TallySums t
        → build_result image t ≡ some r
        → AddsUp r × ((image ≢ none) → ImageAddsUp r)
    go none t sums e = (of_some AddsUp e (summary_of-AddsUp t sums), λ n. absurd (n refl))
    go (some m) t sums e =
        let (a, l) = populate-AddsUp m (summary_of t) r (summary_of-AddsUp t sums) e in (a, λ n. l)
