-- ===== src/Output/Prefixes.antt =====
-- How `processSource` of internal/output/output_result.go shares out the packages: the entry of an
-- ecosystem takes the packages whose key starts with its name.
use osv_scanner.Output.Measures.{IsFresh, IsFresh-add_sources}
use osv_scanner.Output.Named.{
  add_package_results-named, add_package_results-names_at, installed_names, names_at, names_with,
}
use osv_scanner.Prelude.{
  append-nil, append_assoc, Bool, Bool-cases, List, Option, Option-cases, Text, [], any, ap, arith,
  assign, bind_some, false, has_prefix, if◌then◌else◌, inl, inr, length, length-append,
  length-sort_by, lookup, map, of_some, refl, some, sort_by, sym, text_eq, text_eq_iff, total,
  total_values, ℕ, ◌++◌, ◌+◌, ◌<◌, ◌==◌, ◌||◌, ◌∙◌, ◌∷◌, ◌≡◌,
}
use osv_scanner.Models.{PackageSource, PackageVulns, SourceInfo}
use osv_scanner.Severity.{Cvss}
use osv_scanner.Output.Fixes.{Semantic}
use osv_scanner.Output.Packages.{PackageResult}
use osv_scanner.Output.Sources.{
  PackageMap, SourceResult, add_package_results, add_source, add_sources, count_package,
  count_packages, empty_source_result, finish_source, package_order, process_source,
}

-- How many of the ecosystems are prefixes of the key.
abbrev pub prefixes_of : List (Text × SourceResult) → Text → ℕ
prefixes_of rs key = total (λ (e : Text × SourceResult). if has_prefix key e.0 then 1 else 0) rs

-- How many packages the sources have.
abbrev pub packages_listed : List (Text × SourceResult) → ℕ
packages_listed rs = total (λ (e : Text × SourceResult). length e.1.packages) rs

length-count_packages :
    (eco : Text) (m : PackageMap) (r : SourceResult)
    → length (count_packages eco m r).packages
      ≡ length r.packages
        + total (λ (e : Text × PackageResult). if has_prefix e.0 eco then 1 else 0) m
unfolding count_packages count_package
length-count_packages eco [] r = omega arith
length-count_packages eco ((key, p) ∷ m) r = ground (
  arith,
  length-append r.packages (p ∷ []),
  length-count_packages eco m r,
  length-count_packages eco m (count_package p (record r { packages = r.packages ++ p ∷ [] })),
)

prefixes_of-finish_source :
    (m : PackageMap) (rs : List (Text × SourceResult)) (key : Text)
    → prefixes_of (map (finish_source m) rs) key ≡ prefixes_of rs key
unfolding finish_source
prefixes_of-finish_source m [] key = refl
prefixes_of-finish_source m ((eco, r) ∷ rs) key = omega (arith, prefixes_of-finish_source m rs key)

total-sum :
    {A : Type 0} (v w : A → ℕ) (xs : List A) → total (λ x. v x + w x) xs ≡ total v xs + total w xs
total-sum v w [] = refl
total-sum v w (x ∷ xs) = omega (arith, total-sum v w xs)

total-cong :
    {A : Type 0} (v w : A → ℕ) → ((x : A) → v x ≡ w x) → (xs : List A) → total v xs ≡ total w xs
total-cong v w h [] = refl
total-cong v w h (x ∷ xs) = omega (arith, h x, total-cong v w h xs)

total-none : {A : Type 0} (xs : List A) → total (λ x. 0) xs ≡ 0
total-none [] = refl
total-none (x ∷ xs) = omega (arith, total-none xs)

packages_listed-finish_source :
    (m : PackageMap) (rs : List (Text × SourceResult))
    → IsFresh rs
    → packages_listed (map (finish_source m) rs)
      ≡ total (λ (e : Text × PackageResult). prefixes_of rs e.0) m
unfolding finish_source
packages_listed-finish_source m [] h = sym (total-none m)
packages_listed-finish_source m ((eco, r) ∷ rs) (counts, empty, rest) =
    let counted = count_packages eco m r in
    let none_yet : length r.packages ≡ 0 = ap length empty in
    omega (
      arith,
      none_yet,
      length-sort_by package_order counted.packages,
      length-count_packages eco m r,
      packages_listed-finish_source m rs rest,
      total-sum (λ (e : Text × PackageResult). if has_prefix e.0 eco then 1 else 0)
          (λ (e : Text × PackageResult). prefixes_of rs e.0) m,
    )

-- The packages that are kept apart whose key starts with the text.
abbrev pub with_prefix : Text → PackageMap → List PackageResult
with_prefix eco [] = []
with_prefix eco ((key, p) ∷ m) =
    if has_prefix key eco then p ∷ with_prefix eco m else with_prefix eco m

-- Every ecosystem lists, sorted, those whose key starts with its name.
abbrev pub ListsPrefixes : PackageMap → List (Text × SourceResult) → Type 0
ListsPrefixes m [] = Unit
ListsPrefixes m ((eco, r) ∷ rs) =
    (r.packages ≡ sort_by package_order (with_prefix eco m)) × ListsPrefixes m rs

packages-count_packages :
    (eco : Text) (m : PackageMap) (r : SourceResult)
    → (count_packages eco m r).packages ≡ r.packages ++ with_prefix eco m
unfolding count_packages count_package
packages-count_packages eco [] r = sym (append-nil r.packages)
packages-count_packages eco ((key, p) ∷ m) r =
    let more = count_package p (record r { packages = r.packages ++ p ∷ [] }) in
    elim (Bool-cases (has_prefix key eco)) [
      | inl e ↦
          rw (count_packages, with_prefix, e)
            (packages-count_packages eco m more
              ∙ append_assoc r.packages (p ∷ []) (with_prefix eco m))
      | inr e ↦ rw (count_packages, with_prefix, e) (packages-count_packages eco m r)
    ]

ListsPrefixes-finish_source :
    (m : PackageMap) (rs : List (Text × SourceResult))
    → IsFresh rs
    → ListsPrefixes m (map (finish_source m) rs)
unfolding finish_source
ListsPrefixes-finish_source m [] h = tt
ListsPrefixes-finish_source m ((eco, r) ∷ rs) (counts, empty, rest) = (
  ap (sort_by package_order)
      (packages-count_packages eco m r ∙ ap (λ ps. ps ++ with_prefix eco m) empty),
  ListsPrefixes-finish_source m rs rest,
)

-- The source has an entry for the ecosystem.
abbrev pub has_ecosystem : Text → List (Text × SourceResult) → Bool
has_ecosystem eco rs = any (λ (e : Text × SourceResult). text_eq e.0 eco) rs

has_ecosystem-assign :
    (eco k : Text) (r : SourceResult) (rs : List (Text × SourceResult))
    → has_ecosystem eco (assign k r rs) ≡ (text_eq k eco || has_ecosystem eco rs)
unfolding assign
has_ecosystem-assign eco k r [] = ground arith
has_ecosystem-assign eco k r ((j, w) ∷ rs) =
    ground (arith, text_eq_iff j k, has_ecosystem-assign eco k r rs)

has_ecosystem-lookup :
    (eco k : Text) (rs : List (Text × SourceResult)) (r : SourceResult)
    → lookup k rs ≡ some r
    → has_ecosystem eco rs ≡ (text_eq k eco || has_ecosystem eco rs)
unfolding lookup
has_ecosystem-lookup eco k [] r h = cc
has_ecosystem-lookup eco k ((j, w) ∷ rs) r h = elim (Bool-cases (text_eq j k)) [
  | inl e ↦ let same = (text_eq_iff j k).0 e in rw same (ground arith)
  | inr e ↦ ground (arith, has_ecosystem-lookup eco k rs r (rw e at h))
]

has_ecosystem-add_source :
    (src : SourceInfo) (eco k : Text) (rs : List (Text × SourceResult))
    → has_ecosystem eco (add_source src k rs) ≡ (text_eq k eco || has_ecosystem eco rs)
unfolding add_source
has_ecosystem-add_source src eco k rs = elim (Option-cases (lookup k rs)) [
  | inl e ↦ rw (add_source, e) (has_ecosystem-assign eco k (empty_source_result src) rs)
  | inr (r, e) ↦ rw (add_source, e) (has_ecosystem-lookup eco k rs r e)
]

has_ecosystem-add_sources :
    (src : SourceInfo) (eco : Text) (ps : List PackageVulns) (rs : List (Text × SourceResult))
    → has_ecosystem eco (add_sources src ps rs) ≡ (
        any (λ (p : PackageVulns). text_eq p.package_info.ecosystem eco) ps || has_ecosystem eco rs)
unfolding add_sources
has_ecosystem-add_sources src eco [] rs = refl
has_ecosystem-add_sources src eco (p ∷ ps) rs = ground (
  arith,
  has_ecosystem-add_sources src eco ps (add_source src p.package_info.ecosystem rs),
  has_ecosystem-add_source src eco p.package_info.ecosystem rs,
)

has_ecosystem-finish_source :
    (m : PackageMap) (eco : Text) (rs : List (Text × SourceResult))
    → has_ecosystem eco (map (finish_source m) rs) ≡ has_ecosystem eco rs
unfolding finish_source
has_ecosystem-finish_source m eco [] = refl
has_ecosystem-finish_source m eco ((k, r) ∷ rs) =
    ap (λ b. text_eq k eco || b) (has_ecosystem-finish_source m eco rs)

-- A source with packages that is processed keeps them apart by ecosystem, name and version: under such
-- a key it has the installed names of the packages with it, and as many names as there are packages.
-- It has an entry for each ecosystem of a package and no other, and each entry lists, sorted, all that
-- are kept apart whose key starts with the name of the ecosystem; so each is listed as often, over the
-- entries, as there are ecosystems in the source whose names its key starts with.
pub process_source-prefixes :
    (parse_float : Text → Option ℕ) (cvss : Cvss) (semantic : Semantic) (s : PackageSource)
    (rs : List (Text × SourceResult))
    → 0 < length s.packages
    → process_source parse_float cvss semantic s ≡ some rs
    → (m : PackageMap) × ((key : Text) → names_at key m ≡ names_with key s.packages)
      × (total_values installed_names m ≡ length s.packages)
      × ((eco : Text)
          → has_ecosystem eco rs
            ≡ any (λ (p : PackageVulns). text_eq p.package_info.ecosystem eco) s.packages)
      × ListsPrefixes m rs
      × (packages_listed rs ≡ total (λ (e : Text × PackageResult). prefixes_of rs e.0) m)
unfolding process_source lookup
process_source-prefixes parse_float cvss semantic s rs h e =
    let some_there : (length s.packages == 0) ≡ false = ground arith in
    let (m, kept, e') =
      bind_some (add_package_results parse_float cvss semantic s.packages []) _ rs
        (rw (process_source, some_there) at e) in
    let fresh = add_sources s.source s.packages [] in
    let is_fresh = IsFresh-add_sources s.source s.packages [] tt in
    (
      m,
      λ key. add_package_results-names_at parse_float cvss semantic s.packages [] m key kept,
      omega (arith, add_package_results-named parse_float cvss semantic s.packages [] m kept),
      λ eco.
          of_some
            (λ (x : List (Text × SourceResult)).
              has_ecosystem eco x
              ≡ any (λ (p : PackageVulns). text_eq p.package_info.ecosystem eco) s.packages)
            e'
            (has_ecosystem-finish_source m eco fresh
              ∙ ground (arith, has_ecosystem-add_sources s.source eco s.packages [])),
      of_some (λ (x : List (Text × SourceResult)). ListsPrefixes m x) e'
          (ListsPrefixes-finish_source m fresh is_fresh),
      of_some
          (λ (x : List (Text × SourceResult)).
            packages_listed x ≡ total (λ (e : Text × PackageResult). prefixes_of x e.0) m)
          e'
          (packages_listed-finish_source m fresh is_fresh
            ∙ sym (
                total-cong
                  (λ (e : Text × PackageResult). prefixes_of (map (finish_source m) fresh) e.0)
                  (λ (e : Text × PackageResult). prefixes_of fresh e.0)
                  (λ x. prefixes_of-finish_source m fresh x.0) m)),
    )
