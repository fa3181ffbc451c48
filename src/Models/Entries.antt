-- ===== src/Models/Entries.antt =====
-- What `Flatten` of pkg/models/results.go lists.
use osv_scanner.Prelude.{
  append-nil, &&-eq-true, Bool, Bool-cases, List, Option, Text, [], all, any, arith, contains,
  false, if◌then◌else◌, inl, inr, length, length-append, ltb, none, refl, map, ap, Option-cases,
  ◌∙◌, some, total, true, ℕ, ◌++◌, ◌+◌, ◌∷◌, ◌≡◌,
}
use osv_scanner.Models.{
  GroupInfo, PackageInfo, PackageSource, PackageVulns, SourceInfo, VulnerabilityResults,
}
use osv_scanner.Osv.{Vulnerability}
use osv_scanner.Models.Flatten.{
  VulnerabilityFlattened, flat_vuln, flatten, flatten_extra, flatten_packages, flatten_sources,
  flatten_vulns, get_group_info_for_vuln,
}

-- Every vulnerability of the package has a group with its identifier.
abbrev pub is_grouped : PackageVulns → Bool
is_grouped p =
    all (λ (v : Vulnerability). any (λ (g : GroupInfo). contains g.ids v.id) p.groups)
      p.vulnerabilities

abbrev pub all_grouped : List PackageSource → Bool
all_grouped ss = all (λ (s : PackageSource). all is_grouped s.packages) ss

find-any :
    (gs : List GroupInfo) (id : Text)
    → any (λ (g : GroupInfo). contains g.ids id) gs ≡ true
    → (g : GroupInfo) × (get_group_info_for_vuln gs id ≡ some g) × (contains g.ids id ≡ true)
unfolding get_group_info_for_vuln
find-any [] id h = cc
find-any (g ∷ gs) id h = elim (Bool-cases (contains g.ids id)) [
  | inl e ↦ (g, rw e refl, e)
  | inr e ↦ let (h', found, has) = find-any gs id (ground arith) in (h', rw e found, has)
]

abbrev pub Flat : Type 0
Flat = List VulnerabilityFlattened

-- What an entry says of a vulnerability, of licenses and of deprecation.
abbrev pub vuln_entry : VulnerabilityFlattened → Option (SourceInfo × (PackageInfo × Vulnerability))
vuln_entry f = elim (f.vulnerability) [
  | none ↦ none
  | some v ↦ some (f.source, (f.package_info, v))
]

abbrev pub license_entry : VulnerabilityFlattened → Option (SourceInfo × (PackageInfo × List Text))
license_entry f =
    if ltb 0 (length f.license_violations)
    then some (f.source, (f.package_info, f.license_violations))
    else none

abbrev pub deprecated_entry : VulnerabilityFlattened → Option (SourceInfo × PackageInfo)
deprecated_entry f = if f.deprecated then some (f.source, f.package_info) else none

-- The entries that say something, in order.
abbrev pub collect : {B : Type 0} → (VulnerabilityFlattened → Option B) → Flat → List B
collect f [] = []
collect f (x ∷ xs) = elim (f x) [ none ↦ collect f xs | some b ↦ b ∷ collect f xs ]

-- What the packages of all sources give, in order.
abbrev pub of_packages :
    {B : Type 0} → (SourceInfo → PackageVulns → List B) → SourceInfo → List PackageVulns → List B
of_packages g src [] = []
of_packages g src (p ∷ ps) = g src p ++ of_packages g src ps

abbrev pub of_sources :
    {B : Type 0} → (SourceInfo → PackageVulns → List B) → List PackageSource → List B
of_sources g [] = []
of_sources g (s ∷ ss) = of_packages g s.source s.packages ++ of_sources g ss

abbrev pub vulns_in : SourceInfo → PackageVulns → List (SourceInfo × (PackageInfo × Vulnerability))
vulns_in src p = map (λ v. (src, (p.package_info, v))) p.vulnerabilities

abbrev pub violations_in : SourceInfo → PackageVulns → List (SourceInfo × (PackageInfo × List Text))
violations_in src p =
    if ltb 0 (length p.license_violations)
    then (src, (p.package_info, p.license_violations)) ∷ []
    else []

abbrev pub deprecated_in : SourceInfo → PackageVulns → List (SourceInfo × PackageInfo)
deprecated_in src p = if p.package_info.deprecated then (src, p.package_info) ∷ [] else []

-- An entry with a vulnerability has a group with its identifier.
abbrev pub has_group : VulnerabilityFlattened → Bool
has_group f = elim (f.vulnerability) [
  | none ↦ true
  | some v ↦ elim (f.group_info) [ none ↦ false | some g ↦ contains g.ids v.id ]
]

-- The issues of a package: its vulnerabilities, one for license violations, one for deprecation.
abbrev pub issues : PackageVulns → ℕ
issues p =
    length p.vulnerabilities
    + ((if ltb 0 (length p.license_violations) then 1 else 0)
        + (if p.package_info.deprecated then 1 else 0))

-- The entries are so many, and say this of vulnerabilities, licenses and deprecation.
pub record Lists (fs : Flat) (n : ℕ) (vs : List (SourceInfo × (PackageInfo × Vulnerability)))
    (ls : List (SourceInfo × (PackageInfo × List Text))) (ds : List (SourceInfo × PackageInfo))
    : Type 0 where
  pub as_many : length fs ≡ n
  pub vulns : collect vuln_entry fs ≡ vs
  pub grouped : all has_group fs ≡ true
  pub violations : collect license_entry fs ≡ ls
  pub deprecated : collect deprecated_entry fs ≡ ds

collect-append :
    {B : Type 0} (f : VulnerabilityFlattened → Option B) (xs ys : Flat)
    → collect f (xs ++ ys) ≡ collect f xs ++ collect f ys
collect-append f [] ys = refl
collect-append f (x ∷ xs) ys = elim (Option-cases (f x)) [
  | inl e ↦ rw (collect, e) (collect-append f xs ys)
  | inr (b, e) ↦ rw (collect, e) (ap (λ r. b ∷ r) (collect-append f xs ys))
]

all-append :
    (p : VulnerabilityFlattened → Bool) (xs ys : Flat)
    → all p xs ≡ true
    → all p ys ≡ true
    → all p (xs ++ ys) ≡ true
all-append p [] ys h k = k
all-append p (x ∷ xs) ys h k = ground (arith, all-append p xs ys)

Lists-append :
    {xs ys : Flat} {m n : ℕ} {vs vs' : List (SourceInfo × (PackageInfo × Vulnerability))}
    {ls ls' : List (SourceInfo × (PackageInfo × List Text))}
    {ds ds' : List (SourceInfo × PackageInfo)}
    → Lists xs m vs ls ds
    → Lists ys n vs' ls' ds'
    → Lists (xs ++ ys) (m + n) (vs ++ vs') (ls ++ ls') (ds ++ ds')
Lists-append {xs} {ys} a b = record {
  as_many = omega (arith, length-append xs ys, a.as_many, b.as_many);
  vulns = collect-append vuln_entry xs ys ∙ (λ i. a.vulns i ++ b.vulns i);
  grouped = all-append has_group xs ys a.grouped b.grouped;
  violations = collect-append license_entry xs ys ∙ (λ i. a.violations i ++ b.violations i);
  deprecated = collect-append deprecated_entry xs ys ∙ (λ i. a.deprecated i ++ b.deprecated i);
}

flatten_vulns-Lists :
    (src : SourceInfo) (p : PackageVulns) (vs : List Vulnerability)
    → all (λ (v : Vulnerability). any (λ (g : GroupInfo). contains g.ids v.id) p.groups) vs ≡ true
    → (fs : Flat) × (flatten_vulns src p vs ≡ some fs)
      × Lists fs (length vs) (map (λ v. (src, (p.package_info, v))) vs) [] []
unfolding flatten_vulns
flatten_vulns-Lists src p [] h = (
  [],
  refl,
  record { as_many = refl; vulns = refl; grouped = refl; violations = refl; deprecated = refl },
)
flatten_vulns-Lists src p (v ∷ vs) h =
    let (now, later) = &&-eq-true (any (λ (g : GroupInfo). contains g.ids v.id) p.groups) _ h in
    let (g, e, has) = find-any p.groups v.id now in
    let (fs, q, l) = flatten_vulns-Lists src p vs later in
    (
      flat_vuln src p v g ∷ fs,
      rw (flatten_vulns, e, q) refl,
      record {
        as_many = omega (arith, l.as_many);
        vulns = ap (λ r. (src, (p.package_info, v)) ∷ r) l.vulns;
        grouped = rw has l.grouped;
        violations = l.violations;
        deprecated = l.deprecated;
      },
    )

flatten_extra-Lists :
    (src : SourceInfo) (p : PackageVulns)
    → Lists
        (flatten_extra src p)
        ((if ltb 0 (length p.license_violations) then 1 else 0)
          + (if p.package_info.deprecated then 1 else 0))
        []
        (violations_in src p)
        (deprecated_in src p)
unfolding flatten_extra
flatten_extra-Lists src p = record {
  as_many = ground arith;
  vulns = ground arith;
  grouped = ground arith;
  violations = ground arith;
  deprecated = ground arith;
}

flatten_packages-Lists :
    (src : SourceInfo) (ps : List PackageVulns)
    → all is_grouped ps ≡ true
    → (fs : Flat) × (flatten_packages src ps ≡ some fs)
      × Lists fs
          (total issues ps)
          (of_packages vulns_in src ps)
          (of_packages violations_in src ps)
          (of_packages deprecated_in src ps)
unfolding flatten_packages
flatten_packages-Lists src [] h = (
  [],
  refl,
  record { as_many = refl; vulns = refl; grouped = refl; violations = refl; deprecated = refl },
)
flatten_packages-Lists src (p ∷ ps) h =
    let (now, later) = &&-eq-true (is_grouped p) (all is_grouped ps) h in
    let (vs, e, n) = flatten_vulns-Lists src p p.vulnerabilities now in
    let (fs, q, k) = flatten_packages-Lists src ps later in
    let own = Lists-append n (flatten_extra-Lists src p) in
    let whole = Lists-append own k in
    (
      (vs ++ flatten_extra src p) ++ fs,
      rw (e, q) refl,
      record {
        as_many = whole.as_many;
        vulns =
            whole.vulns ∙ ap (λ r. r ++ of_packages vulns_in src ps) (append-nil (vulns_in src p));
        grouped = whole.grouped;
        violations = whole.violations;
        deprecated = whole.deprecated;
      },
    )

flatten_sources-Lists :
    (ss : List PackageSource)
    → all_grouped ss ≡ true
    → (fs : Flat) × (flatten_sources ss ≡ some fs)
      × Lists fs
          (total (λ (s : PackageSource). total issues s.packages) ss)
          (of_sources vulns_in ss)
          (of_sources violations_in ss)
          (of_sources deprecated_in ss)
unfolding flatten_sources
flatten_sources-Lists [] h = (
  [],
  refl,
  record { as_many = refl; vulns = refl; grouped = refl; violations = refl; deprecated = refl },
)
flatten_sources-Lists (s ∷ ss) h =
    let (now, later) = &&-eq-true (all is_grouped s.packages) (all_grouped ss) h in
    let (vs, e, n) = flatten_packages-Lists s.source s.packages now in
    let (fs, q, k) = flatten_sources-Lists ss later in (vs ++ fs, rw (e, q) refl, Lists-append n k)

-- If each vulnerability has a group with its identifier, flattening does not panic. In the order of
-- sources and packages there is an entry with source and package for each vulnerability, which has a
-- group with its identifier, one with the violations for each package with license violations, and
-- one for each deprecated package; and there are no other entries.
pub flatten_lem :
    (vr : VulnerabilityResults)
    → all_grouped vr.results ≡ true
    → (fs : List VulnerabilityFlattened) × (flatten vr ≡ some fs)
      × Lists fs
          (total (λ (s : PackageSource). total issues s.packages) vr.results)
          (of_sources vulns_in vr.results)
          (of_sources violations_in vr.results)
          (of_sources deprecated_in vr.results)
unfolding flatten
flatten_lem vr h = flatten_sources-Lists vr.results h
