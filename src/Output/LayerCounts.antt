-- ===== src/Output/LayerCounts.antt =====
-- What `populateResultWithImageMetadata` of internal/output/output_result.go leaves as it is in the
-- packages, and what it counts for the layers.
use osv_scanner.Prelude.{
  List, Option, Option-cases, [], arith, bind_some, get_elem?, inl, inr, length, map, of_some, refl,
  set, some, suc, total, zero, ℕ, ◌+◌, ◌∙◌, ◌∷◌, ◌≡◌,
}
use osv_scanner.Output.Packages.{BaseImageGroupInfo, LayerInfo, PackageContainerInfo, PackageResult}
use osv_scanner.Output.Sources.{SourceResult}
use osv_scanner.Output.Report.{EcosystemResult}
use osv_scanner.Output.Counts.{VulnCount, add_vuln_count, no_vulns}
use osv_scanner.Output.Layers.{
  add_at, count_layers, fill_ecosystem, fill_layer, fill_source, map_all, set_base_images,
  set_layer_counts,
}
use osv_scanner.Output.Measures.{
  Field, Measure, at, at-add, at-none, deprecated_package_count, hidden_package_count, of_package,
  of_source, of_source_kept, over_packages, regular_package_count, violation_count, vulns_at,
}
use osv_scanner.Output.Tallies.{over_ecosystems}

total-map_all :
    {A : Type 0} (f : A → Option A) (w : A → ℕ)
    → ((x y : A) → f x ≡ some y → w y ≡ w x)
    → (xs ys : List A) → map_all f xs ≡ some ys
    → total w ys ≡ total w xs
unfolding map_all
total-map_all {A} f w keeps [] ys e = of_some (λ (zs : List A). total w zs ≡ 0) e refl
total-map_all {A} f w keeps (x ∷ xs) ys e =
    let (y, first, e') = bind_some (f x) _ ys e in
    let (rest, others, e'') = bind_some (map_all f xs) _ ys e' in
    of_some (λ (zs : List A). total w zs ≡ w x + total w xs) e''
      (omega (arith, keeps x y first, total-map_all f w keeps xs rest others))

of_package_kept :
    (m : Measure) (d : PackageContainerInfo) (p : PackageResult)
    → of_package m (record p { layer_detail = d }) ≡ of_package m p
of_package_kept (vulns_at f) d p = refl
of_package_kept violation_count d p = refl
of_package_kept regular_package_count d p = refl
of_package_kept hidden_package_count d p = refl
of_package_kept deprecated_package_count d p = refl

module _ (layers : List LayerInfo) (base_images : List BaseImageGroupInfo) where
  fill_layer-kept :
      (m : Measure) (p q : PackageResult)
      → fill_layer layers base_images p ≡ some q
      → of_package m q ≡ of_package m p
  unfolding fill_layer
  fill_layer-kept m p q e =
      let (layer, found, e') = bind_some (get_elem? layers p.layer_detail.layer_index) _ q e in
      let (base_image, found', e'') =
        bind_some (get_elem? base_images layer.layer_metadata.base_image_index) _ q e' in
      of_some (λ (r : PackageResult). of_package m r ≡ of_package m p) e'' (of_package_kept m _ p)

  pub fill_source-kept :
      (m : Measure) (s s' : SourceResult)
      → fill_source layers base_images s ≡ some s'
      → (of_source m s' ≡ of_source m s) × (over_packages m s' ≡ over_packages m s)
  unfolding fill_source
  fill_source-kept m s s' e =
      let (ps, filled, e') =
        bind_some (map_all (fill_layer layers base_images) s.packages) _ s' e in
      of_some
        (λ (r : SourceResult).
          (of_source m r ≡ of_source m s) × (over_packages m r ≡ over_packages m s))
        e'
        (
          of_source_kept m ps s,
          total-map_all (fill_layer layers base_images) (of_package m) (fill_layer-kept m)
              s.packages ps filled,
        )

  pub fill_ecosystems-kept :
      (w : SourceResult → ℕ)
      → ((s s' : SourceResult) → fill_source layers base_images s ≡ some s' → w s' ≡ w s)
      → (es es' : List EcosystemResult) → map_all (fill_ecosystem layers base_images) es ≡ some es'
      → over_ecosystems w es' ≡ over_ecosystems w es
  unfolding fill_ecosystem
  fill_ecosystems-kept w keeps =
      total-map_all (fill_ecosystem layers base_images) (λ (x : EcosystemResult). total w x.sources)
        (λ x y e.
          let (ss, filled, e') =
            bind_some (map_all (fill_source layers base_images) x.sources) _ y e in
          of_some (λ (z : EcosystemResult). total w z.sources ≡ total w x.sources) e'
            (total-map_all (fill_source layers base_images) w keeps x.sources ss filled))

total-set :
    {A : Type 0} (w : A → ℕ) (i : ℕ) (old new : A) (xs : List A)
    → get_elem? xs i ≡ some old
    → total w (set xs i new) + w old ≡ total w xs + w new
total-set w i old new [] e = cc
total-set w zero old new (x ∷ xs) e =
    of_some (λ y. w new + total w xs + w y ≡ w x + total w xs + w new) e (omega arith)
total-set w (suc i) old new (x ∷ xs) e = omega (arith, total-set w i old new xs e)

length-set : {A : Type 0} (i : ℕ) (new : A) (xs : List A) → length (set xs i new) ≡ length xs
length-set i new [] = refl
length-set zero new (x ∷ xs) = refl
length-set (suc i) new (x ∷ xs) = omega (arith, length-set i new xs)

add_at-total :
    (f : Field) (i : ℕ) (c : VulnCount) (counts counts' : List VulnCount)
    → add_at i c counts ≡ some counts'
    → (total (at f) counts' ≡ total (at f) counts + at f c) × (length counts' ≡ length counts)
unfolding add_at
add_at-total f i c counts counts' e = elim (Option-cases (get_elem? counts i)) [
  | inl missing ↦ absurd cc
  | inr (old, found) ↦
      of_some
        (λ (cs : List VulnCount).
          (total (at f) cs ≡ total (at f) counts + at f c) × (length cs ≡ length counts))
        (rw (add_at, found) at e)
        (
          omega (arith, total-set (at f) i old (add_vuln_count old c) counts found, at-add f old c),
          length-set i (add_vuln_count old c) counts,
        )
]

-- Each package is counted once, for one layer and for one base image.
pub count_layers-total :
    (f : Field) (layers : List LayerInfo) (ps : List PackageResult)
    (counts counts' : List VulnCount × List VulnCount)
    → count_layers layers ps counts ≡ some counts'
    → (total (at f) counts'.0
        ≡ total (at f) counts.0 + total (λ (p : PackageResult). at f p.vuln_count) ps)
      × (total (at f) counts'.1
          ≡ total (at f) counts.1 + total (λ (p : PackageResult). at f p.vuln_count) ps)
      × (length counts'.0 ≡ length counts.0)
      × (length counts'.1 ≡ length counts.1)
unfolding count_layers
count_layers-total f layers [] counts counts' e =
    of_some
      (λ (cs : List VulnCount × List VulnCount).
        (total (at f) cs.0 ≡ total (at f) counts.0 + 0)
        × (total (at f) cs.1 ≡ total (at f) counts.1 + 0)
        × (length cs.0 ≡ length counts.0)
        × (length cs.1 ≡ length counts.1))
      e (omega arith, omega arith, refl, refl)
count_layers-total f layers (p ∷ ps) (layer_count, base_image_count) counts' e =
    let (layer_count', counted, e1) =
      bind_some (add_at p.layer_detail.layer_index p.vuln_count layer_count) _ counts' e in
    let (layer, found, e2) = bind_some (get_elem? layers p.layer_detail.layer_index) _ counts' e1 in
    let (base_image_count', counted', e3) =
      bind_some (add_at layer.layer_metadata.base_image_index p.vuln_count base_image_count) _
        counts' e2 in
    let (layer_total, layer_length) =
      add_at-total f _ p.vuln_count layer_count layer_count' counted in
    let (base_total, base_length) =
      add_at-total f _ p.vuln_count base_image_count base_image_count' counted' in
    let (lt, bt, ll, bl) =
      count_layers-total f layers ps (layer_count', base_image_count') counts' e3 in
    (
      omega (arith, lt, layer_total),
      omega (arith, bt, base_total),
      ll ∙ layer_length,
      bl ∙ base_length,
    )

pub total-set_layer_counts :
    (f : Field) (layers : List LayerInfo) (counts : List VulnCount)
    → length counts ≡ length layers
    → total (λ (l : LayerInfo). at f l.count) (set_layer_counts layers counts) ≡ total (at f) counts
unfolding set_layer_counts
total-set_layer_counts f [] [] h = refl
total-set_layer_counts f [] (c ∷ cs) h = absurd (omega arith)
total-set_layer_counts f (l ∷ ls) [] h = absurd (omega arith)
total-set_layer_counts f (l ∷ ls) (c ∷ cs) h =
    omega (arith, total-set_layer_counts f ls cs (omega arith))

pub total-set_base_images :
    (f : Field) (layers : List LayerInfo) (images : List BaseImageGroupInfo)
    (counts : List VulnCount)
    → length counts ≡ length images
    → total (λ (b : BaseImageGroupInfo). at f b.count) (set_base_images layers images counts)
      ≡ total (at f) counts
unfolding set_base_images
total-set_base_images f layers [] [] h = refl
total-set_base_images f layers [] (c ∷ cs) h = absurd (omega arith)
total-set_base_images f layers (b ∷ bs) [] h = absurd (omega arith)
total-set_base_images f layers (b ∷ bs) (c ∷ cs) h =
    omega (arith, total-set_base_images f layers bs cs (omega arith))

pub total-no_vulns :
    {A : Type 0} (f : Field) (xs : List A) → total (at f) (map (λ x. no_vulns) xs) ≡ 0
total-no_vulns f [] = refl
total-no_vulns f (x ∷ xs) = omega (arith, at-none f, total-no_vulns f xs)

pub length-map : {A B : Type 0} (g : A → B) (xs : List A) → length (map g xs) ≡ length xs
length-map g [] = refl
length-map g (x ∷ xs) = omega (arith, length-map g xs)
