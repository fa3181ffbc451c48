-- ===== src/Output/Shown.antt =====
-- What `processPackage` of internal/output/output_result.go makes of a package.
use osv_scanner.Output.Packages.{PackageResult, package_result, process_package}
use osv_scanner.Severity.{Cvss}
use osv_scanner.Identifiers.{id_sort_func, prefix_order}
use osv_scanner.Identifiers.Order.{id_sort-IsComparator}
use osv_scanner.Prelude.{
  Bool, Bool-cases, List, Option, Option-cases, Ordering, Text, [], all, all-sort_by, any,
  any-sort_by, ap, arith, assign, contains, false, if◌then◌else◌, inl, inr, is_sorted,
  is_sorted-sort_by, length, lookup, ltb, map, not, refl, some, split_first, text_eq, text_eq_iff,
  true, ℕ, ◌||◌, ◌∙◌, ◌∷◌, ◌≡◌,
}
use osv_scanner.Models.{GroupInfo, PackageVulns}
use osv_scanner.Osv.{Vulnerability}
use osv_scanner.Output.Counts.{VulnResult}
use osv_scanner.Output.Best.{all-best, best}
use osv_scanner.Output.Fixes.{
  Semantic, calculate_package_fixed_version, get_next_fix_version, unfixed_description,
  version_unsupported,
}
use osv_scanner.Output.NextFix.{
  fix_affected-best, fixes_of, fixes_of_vulns, is_less, package_fixed_from-best,
}
use osv_scanner.Output.Vulns.{VulnMap, get_vuln_list, update_vuln, updated}
use osv_scanner.Output.Grouping.{
  Keyed, Keyed-assign, contains-assign, keys, lookup-Keyed, process_vuln_groups-Split, represented,
}

module _ (semantic : Semantic) (eco : Text) where
  -- The version that fixes a fixable vulnerability parses.
  abbrev pub fix_parses : VulnResult → Bool
  fix_parses v = not v.is_fixable || semantic.parses eco v.fixed_version

  -- If the installed version parses, so do the versions of an advisory that fix it.
  abbrev pub advisory_parses : PackageVulns → Vulnerability → Bool
  advisory_parses pkg v =
      not (semantic.parses eco pkg.package_info.version)
      || all (semantic.parses eco) (
          fixes_of semantic eco pkg.package_info.version pkg.package_info.name
            pkg.package_info.ecosystem v.affected)

  all-Keyed :
      (m : VulnMap)
      → Keyed fix_parses m
      → all fix_parses (map (λ (e : Text × VulnResult). e.1) m) ≡ true
  all-Keyed [] h = refl
  all-Keyed ((k, v) ∷ m) (here, fine, rest) = ground (arith, all-Keyed m rest)

  all-get_vuln_list : (m : VulnMap) → Keyed fix_parses m → all fix_parses (get_vuln_list m) ≡ true
  unfolding get_vuln_list
  all-get_vuln_list m h =
      all-sort_by fix_parses (λ (x y : VulnResult). id_sort_func x.id y.id)
        (map (λ (e : Text × VulnResult). e.1) m)
      ∙ all-Keyed m h

  parses-fixes_of_vulns :
      (vs : List VulnResult)
      → all fix_parses vs ≡ true
      → all (semantic.parses eco) (fixes_of_vulns vs) ≡ true
  parses-fixes_of_vulns [] h = refl
  parses-fixes_of_vulns (v ∷ vs) h = ground (arith, parses-fixes_of_vulns vs)

all_weaken :
    (p q : Text → Bool)
    → ((x : Text) → p x ≡ true → q x ≡ true)
    → (xs : List Text) → all p xs ≡ true
    → all q xs ≡ true
all_weaken p q h [] k = refl
all_weaken p q h (x ∷ xs) k = ground (arith, h x, all_weaken p q h xs)

-- The list of a map has the identifiers of the map, and is sorted.
any-get_vuln_list :
    (ok : VulnResult → Bool) (m : VulnMap) (a : Text)
    → Keyed ok m
    → any (λ (v : VulnResult). text_eq v.id a) (get_vuln_list m) ≡ contains (keys m) a
unfolding get_vuln_list contains
any-get_vuln_list ok m a h =
    any-sort_by (λ (v : VulnResult). text_eq v.id a) (λ (x y : VulnResult). id_sort_func x.id y.id)
      (map (λ (e : Text × VulnResult). e.1) m)
    ∙ go m h
  where
    go :
        (m : VulnMap)
        → Keyed ok m
        → any (λ (v : VulnResult). text_eq v.id a) (map (λ (e : Text × VulnResult). e.1) m)
          ≡ contains (keys m) a
    go [] h = refl
    go ((k, v) ∷ m) (here, fine, rest) =
        ground (arith, go m rest, ap (λ (x : Text). text_eq x a) here)

abbrev pub vuln_order : VulnResult → VulnResult → Ordering
vuln_order a b = id_sort_func a.id b.id

is_sorted-get_vuln_list : (m : VulnMap) → is_sorted vuln_order (get_vuln_list m) ≡ true
unfolding get_vuln_list id_sort_func
is_sorted-get_vuln_list m =
    is_sorted-sort_by vuln_order (λ a b. (id_sort-IsComparator prefix_order).0.flips a.id b.id)
      (map (λ (e : Text × VulnResult). e.1) m)

module _ (semantic : Semantic) (pkg : PackageVulns) where
  get_next_fix_version-parses :
      (v : Vulnerability)
      → advisory_parses semantic (split_first b':' pkg.package_info.ecosystem) pkg v ≡ true
      → (r : Bool × Text) × (get_next_fix_version semantic v.affected pkg.package_info.version
            pkg.package_info.name pkg.package_info.ecosystem
          ≡ some r)
        × ((not r.0 || semantic.parses (split_first b':' pkg.package_info.ecosystem) r.1) ≡ true)
  unfolding get_next_fix_version text_eq
  get_next_fix_version-parses v h =
      let info = pkg.package_info in
      let e = split_first b':' info.ecosystem in
      let cs = fixes_of semantic e info.version info.name info.ecosystem v.affected in
      let found = best unfixed_description (is_less semantic e) unfixed_description cs in
      elim (Bool-cases (semantic.parses e info.version)) [
        | inl ok ↦
            let all_parse : all (semantic.parses e) cs ≡ true = ground arith in
            (
              (not (text_eq found unfixed_description), found),
              rw
                  (
                    get_next_fix_version,
                    ok,
                    fix_affected-best semantic e info.version info.name info.ecosystem v.affected
                        unfixed_description all_parse,
                  )
                  refl,
              (let p : Text → Bool = λ x. text_eq x unfixed_description || semantic.parses e x in
                  let holds : p found ≡ true =
                    all-best unfixed_description (is_less semantic e) p unfixed_description cs refl
                      (all_weaken (semantic.parses e) p (λ x k. ground (arith, k)) cs all_parse) in
                  ground (arith, holds)),
            )
        | inr bad ↦ ((false, version_unsupported), rw (get_next_fix_version, bad) refl, refl)
      ]

  -- The advisories are written into the map, whose identifiers stay.
  update_vuln-Keyed :
      (vs : List Vulnerability) (m : VulnMap)
      → let e = split_first b':' pkg.package_info.ecosystem in
        all (advisory_parses semantic e pkg) vs ≡ true
        → Keyed (fix_parses semantic e) m
        → (m' : VulnMap) × (update_vuln semantic pkg vs m ≡ some m')
          × Keyed (fix_parses semantic e) m'
          × ((a : Text) → contains (keys m') a ≡ contains (keys m) a)
  unfolding update_vuln updated
  update_vuln-Keyed [] m h k = (m, refl, k, λ a. refl)
  update_vuln-Keyed (v ∷ vs) m h k =
      let e = split_first b':' pkg.package_info.ecosystem in
      let (fix, found, fine) = get_next_fix_version-parses v (ground arith) in
      elim (Option-cases (lookup v.id m)) [
        | inl missing ↦
            let (m', run, keyed, same) = update_vuln-Keyed vs m (ground arith) k in
            (m', rw (update_vuln, found, missing) run, keyed, same)
        | inr (r, there) ↦
            let (id, member) = lookup-Keyed (fix_parses semantic e) v.id m r k there in
            let m1 = assign v.id (updated v fix r) m in
            let k1 : Keyed (fix_parses semantic e) m1 =
              Keyed-assign (fix_parses semantic e) v.id (updated v fix r) m id fine k in
            let (m', run, keyed, same) = update_vuln-Keyed vs m1 (ground arith) k1 in
            (
              m',
              rw (update_vuln, found, there) run,
              keyed,
              λ a.
                  same a
                  ∙ ground (
                    arith,
                    contains-assign v.id (updated v fix r) m a,
                    member,
                    text_eq_iff v.id a,
                    λ (e' : v.id ≡ a). ap (contains (keys m)) e',
                  ),
            )
      ]

-- A group is shown if it is called and not unimportant, and hidden otherwise. For a package whose
-- groups have identifiers, and whose fixed versions parse if the installed version does, the work does
-- not panic, the shown and the hidden vulnerabilities are those that the first identifiers of the
-- groups name, and both lists are sorted.
pub process_package_lem :
    (parse_float : Text → Option ℕ) (cvss : Cvss) (semantic : Semantic) (pkg : PackageVulns)
    → let e = split_first b':' pkg.package_info.ecosystem in
      all (λ (g : GroupInfo). ltb 0 (length g.ids)) pkg.groups ≡ true
      → all (advisory_parses semantic e pkg) pkg.vulnerabilities ≡ true
      → (p : PackageResult) × (process_package parse_float cvss semantic pkg ≡ some p)
        × ((a : Text)
            → any (λ (v : VulnResult). text_eq v.id a) p.regular_vulns
              ≡ any (represented true a) pkg.groups)
        × ((a : Text)
            → any (λ (v : VulnResult). text_eq v.id a) p.hidden_vulns
              ≡ any (represented false a) pkg.groups)
        × (is_sorted vuln_order p.regular_vulns ≡ true)
        × (is_sorted vuln_order p.hidden_vulns ≡ true)
unfolding process_package package_result calculate_package_fixed_version contains
process_package_lem parse_float cvss semantic pkg named parse =
    let e = split_first b':' pkg.package_info.ecosystem in
    let ok = fix_parses semantic e in
    let (maps, grouped, split) =
      process_vuln_groups-Split parse_float cvss ok (λ v h. ground arith) pkg.groups ([], []) named
        tt tt in
    let (regular, run, keyed, same) =
      update_vuln-Keyed semantic pkg pkg.vulnerabilities maps.0 parse split.regular_keyed in
    let (hidden, run', keyed', same') =
      update_vuln-Keyed semantic pkg pkg.vulnerabilities maps.1 parse split.hidden_keyed in
    let listed : all ok (get_vuln_list regular) ≡ true =
      all-get_vuln_list semantic e regular keyed in
    let found =
      package_fixed_from-best semantic e (get_vuln_list regular) []
        (parses-fixes_of_vulns semantic e (get_vuln_list regular) listed) in
    let greatest =
      best [] (λ a b. is_less semantic e b a) [] (fixes_of_vulns (get_vuln_list regular)) in
    (
      package_result pkg (get_vuln_list regular) (get_vuln_list hidden)
          (if text_eq greatest [] then unfixed_description else greatest),
      rw (process_package, grouped, run, run', calculate_package_fixed_version, found) refl,
      λ a. any-get_vuln_list ok regular a keyed ∙ same a ∙ split.regular_ids a,
      λ a. any-get_vuln_list ok hidden a keyed' ∙ same' a ∙ split.hidden_ids a,
      is_sorted-get_vuln_list regular,
      is_sorted-get_vuln_list hidden,
    )
