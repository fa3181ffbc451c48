-- ===== src/Output/Layers.antt =====
-- `populateResultWithImageMetadata` of internal/output/output_result.go and the end of `buildResult`.
-- An index out of range panics: `none`.
use osv_scanner.Prelude.{
  List, Option, Ordering, Text, [], compare, get_elem?, keep, length, ltb, map, none, set, some,
  sort_by, ℕ, ◌++◌, ◌+◌, ◌==◌, ◌>>=◌, ◌||◌, ◌∷◌,
}
use osv_scanner.Models.{PackageSource}
use osv_scanner.Severity.{Cvss}
use osv_scanner.Output.Counts.{VulnCount, add_vuln_count, no_vulns}
use osv_scanner.Output.Fixes.{Semantic}
use osv_scanner.Output.Packages.{
  BaseImageDetails, BaseImageGroupInfo, LayerInfo, LayerMetadata, PackageResult,
}
use osv_scanner.Output.Sources.{SourceResult}
use osv_scanner.Output.Report.{EcosystemResult, Result, Tally, summary_of, tally_sources}

pub record ImageMetadata : Type 0 where
  pub os_name : Text
  pub layer_metadata : List LayerMetadata
  pub base_images : List (List BaseImageDetails)

unfoldable pub build_layers_from : ℕ → List LayerMetadata → List LayerInfo
build_layers_from i [] = []
build_layers_from i (l ∷ ls) =
    record { index = i; layer_metadata = l; count = no_vulns } ∷ build_layers_from (i + 1) ls

unfoldable pub build_base_images_from : ℕ → List (List BaseImageDetails) → List BaseImageGroupInfo
build_base_images_from i [] = []
build_base_images_from i (b ∷ bs) =
    record { index = i; base_image_info = b; all_layers = []; count = no_vulns }
    ∷ build_base_images_from (i + 1) bs

-- `counts[i].Add(count)`.
unfoldable pub add_at : ℕ → VulnCount → List VulnCount → Option (List VulnCount)
unfolding add_vuln_count
add_at i c counts = elim (get_elem? counts i) [
  | none ↦ none
  | some old ↦ some (set counts i (add_vuln_count old c))
]

-- All packages of the report, in the order of the three loops.
unfoldable pub packages_of_sources : List SourceResult → List PackageResult
packages_of_sources [] = []
packages_of_sources (s ∷ ss) = s.packages ++ packages_of_sources ss

unfoldable pub packages_of : List EcosystemResult → List PackageResult
unfolding packages_of_sources
packages_of [] = []
packages_of (e ∷ es) = packages_of_sources e.sources ++ packages_of es

-- The first loop: `layerCount` and `baseImageCount`.
unfoldable pub count_layers :
    List LayerInfo
    → List PackageResult
    → List VulnCount × List VulnCount
    → Option (List VulnCount × List VulnCount)
unfolding add_at
count_layers layers [] counts = some counts
count_layers layers (p ∷ ps) (layer_count, base_image_count) = do
  layer_count' ← add_at p.layer_detail.layer_index p.vuln_count layer_count
  layer ← get_elem? layers p.layer_detail.layer_index
  base_image_count' ← add_at layer.layer_metadata.base_image_index p.vuln_count base_image_count
  count_layers layers ps (layer_count', base_image_count')

-- `allLayers[i].Count = layerCount[i]` for every layer.
unfoldable pub set_layer_counts : List LayerInfo → List VulnCount → List LayerInfo
set_layer_counts [] counts = []
set_layer_counts (l ∷ ls) [] = l ∷ ls
set_layer_counts (l ∷ ls) (c ∷ cs) = record l { count = c } ∷ set_layer_counts ls cs

-- The loop over the base images. The layers of a base image are already in the order of their
-- indices, so that sorting them does nothing.
unfoldable pub set_base_images :
    List LayerInfo → List BaseImageGroupInfo → List VulnCount → List BaseImageGroupInfo
set_base_images layers [] counts = []
set_base_images layers (b ∷ bs) [] = b ∷ bs
set_base_images layers (b ∷ bs) (c ∷ cs) =
    record b {
      count = c;
      all_layers = keep (λ (l : LayerInfo). l.layer_metadata.base_image_index == b.index) layers;
    }
    ∷ set_base_images layers bs cs

-- The last loop, for one package.
unfoldable pub fill_layer :
    List LayerInfo → List BaseImageGroupInfo → PackageResult → Option PackageResult
fill_layer layers base_images p = do
  layer ← get_elem? layers p.layer_detail.layer_index
  base_image ← get_elem? base_images layer.layer_metadata.base_image_index
  some (record p {
    layer_detail = record {
      layer_index = p.layer_detail.layer_index;
      layer_info = layer;
      base_image_info = base_image;
    };
  })

-- A step for every element, the first panic included.
unfoldable pub map_all : {A : Type 0} → (A → Option A) → List A → Option (List A)
map_all f [] = some []
map_all f (x ∷ xs) = do y ← f x; ys ← map_all f xs; some (y ∷ ys)

unfoldable pub fill_source :
    List LayerInfo → List BaseImageGroupInfo → SourceResult → Option SourceResult
unfolding fill_layer map_all
fill_source layers base_images s = do
  packages ← map_all (fill_layer layers base_images) s.packages
  some (record s { packages = packages })

unfoldable pub fill_ecosystem :
    List LayerInfo → List BaseImageGroupInfo → EcosystemResult → Option EcosystemResult
unfolding fill_source map_all
fill_ecosystem layers base_images e = do
  sources ← map_all (fill_source layers base_images) e.sources
  some (record e { sources = sources })

abbrev pub by_index_down : BaseImageGroupInfo → BaseImageGroupInfo → Ordering
by_index_down a b = compare b.index a.index

unfoldable pub populate_result_with_image_metadata : ImageMetadata → Result → Option Result
unfolding build_layers_from build_base_images_from count_layers set_layer_counts set_base_images
    fill_ecosystem packages_of
populate_result_with_image_metadata m result = do
  let layers = build_layers_from 0 m.layer_metadata
  let base_images = build_base_images_from 0 m.base_images
  counts ←
      count_layers layers (packages_of result.ecosystems)
        (map (λ l. no_vulns) layers, map (λ b. no_vulns) base_images)
  let layers' = set_layer_counts layers counts.0
  let base_images' = set_base_images layers' base_images counts.1
  ecosystems ← map_all (fill_ecosystem layers' base_images') result.ecosystems
  some (record result {
    ecosystems = ecosystems;
    image_info = record {
      os_name = m.os_name;
      all_layers = layers';
      all_base_images = sort_by by_index_down base_images';
    };
    is_container_scanning = ltb 0 (length layers') || result.is_container_scanning;
  })

unfoldable pub build_result : Option ImageMetadata → Tally → Option Result
unfolding summary_of populate_result_with_image_metadata
build_result none t = some (summary_of t)
build_result (some m) t = populate_result_with_image_metadata m (summary_of t)

-- `BuildResults`; `image` is `vulnResult.ImageMetadata`.
unfoldable pub build_results :
    (Text → Option ℕ) → Cvss → Semantic → Option ImageMetadata → List PackageSource → Option Result
unfolding tally_sources build_result
build_results parse_float cvss semantic image sources = do
  t ←
      tally_sources parse_float cvss semantic sources
        (record { ecosystem_map = []; result_count = no_vulns; deprecated_count = 0 })
  build_result image t
