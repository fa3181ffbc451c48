-- ===== src/Output/Named.antt =====
-- What `processSource` of internal/output/output_result.go keeps apart: the names under which packages
-- with the same key are installed.
use osv_scanner.Prelude.{
  append-nil, append_assoc, List, Option, Option-cases, Text, [], ap, arith, assign, bind_some,
  if◌then◌else◌, inl, inr, length, length-append, lookup, lookup-assign, none, of_some, some, refl,
  suc, sym, text_eq, total_values, total_values-assign, ℕ, ◌++◌, ◌+◌, ◌∙◌, ◌∷◌, ◌≡◌, Bool-cases,
  text_eq_iff,
}
use osv_scanner.Models.{ImageOrigin, PackageVulns}
use osv_scanner.Severity.{Cvss}
use osv_scanner.Output.Fixes.{Semantic, calculate_package_fixed_version}
use osv_scanner.Output.Vulns.{get_vuln_list, process_vuln_groups, update_vuln, updated}
use osv_scanner.Output.Packages.{PackageResult, package_result, process_package}
use osv_scanner.Output.Sources.{
  PackageMap, add_package_result, add_package_results, package_map_key, with_layer,
}

-- Ecosystem, name and version of a package, with colons between.
abbrev pub key_text : PackageVulns → Text
key_text p =
    p.package_info.ecosystem ++ (b':' ∷ (p.package_info.name ++ (b':' ∷ p.package_info.version)))

abbrev names_of : Option PackageResult → List Text
names_of none = []
names_of (some p) = p.os_package_names

-- The names under which what has the key is installed.
abbrev pub names_at : Text → PackageMap → List Text
names_at key m = names_of (lookup key m)

-- Those of the scanned packages with that ecosystem, name and version, in order.
abbrev pub names_with : Text → List PackageVulns → List Text
names_with key [] = []
names_with key (p ∷ ps) =
    if text_eq (key_text p) key
    then p.package_info.os_package_name ∷ names_with key ps
    else names_with key ps

-- A name is added at the key.
names_at-assign :
    (key k : Text) (p : PackageResult) (m : PackageMap) (name : Text)
    → p.os_package_names ≡ names_at k m ++ name ∷ []
    → names_at key (assign k p m) ≡ names_at key m ++ (if text_eq k key then name ∷ [] else [])
names_at-assign key k p m name h =
    ap names_of (lookup-assign k key p m) ∙ (elim (Bool-cases (text_eq k key)) [
      | inl e ↦
          let same : names_at k m ++ name ∷ [] ≡ names_at key m ++ name ∷ [] =
            λ i. names_at ((text_eq_iff k key).0 e i) m ++ name ∷ [] in
          rw e (h ∙ same)
      | inr e ↦ rw e (sym (append-nil (names_at key m)))
    ])

abbrev pub installed_names : PackageResult → ℕ
installed_names p = length p.os_package_names

module _ (parse_float : Text → Option ℕ) (cvss : Cvss) (semantic : Semantic) where
  process_package-named :
      (pkg : PackageVulns) (p : PackageResult)
      → process_package parse_float cvss semantic pkg ≡ some p
      → p.os_package_names ≡ pkg.package_info.os_package_name ∷ []
  unfolding process_package package_result
  process_package-named pkg p e =
      let (maps, grouped, e1) =
        bind_some (process_vuln_groups parse_float cvss pkg.groups ([], [])) _ p e in
      let (regular, updated, e2) =
        bind_some (update_vuln semantic pkg pkg.vulnerabilities maps.0) _ p e1 in
      let (hidden, updated', e3) =
        bind_some (update_vuln semantic pkg pkg.vulnerabilities maps.1) _ p e2 in
      let (fixed, found, e4) =
        bind_some
          (calculate_package_fixed_version semantic pkg.package_info.ecosystem
            (get_vuln_list regular))
          _ p e3 in
      of_some (λ (q : PackageResult). q.os_package_names ≡ pkg.package_info.os_package_name ∷ []) e4
        refl

  with_layer-named :
      (o : Option ImageOrigin) (p : PackageResult)
      → (with_layer o p).os_package_names ≡ p.os_package_names
  unfolding with_layer
  with_layer-named none p = refl
  with_layer-named (some o) p = refl

  add_package_result-named :
      (pkg : PackageVulns) (m m' : PackageMap)
      → add_package_result parse_float cvss semantic pkg m ≡ some m'
      → total_values installed_names m' ≡ suc (total_values installed_names m)
  unfolding add_package_result
  add_package_result-named pkg m m' e = elim (Option-cases (lookup (package_map_key pkg) m)) [
    | inl new ↦
        let (p, processed, e') =
          bind_some (process_package parse_float cvss semantic pkg) _ m'
            (rw (add_package_result, new) at e) in
        let layered = with_layer pkg.package_info.image_origin p in
        let added = total_values-assign installed_names (package_map_key pkg) layered m in
        of_some
          (λ (x : PackageMap).
            total_values installed_names x ≡ suc (total_values installed_names m))
          e'
          (omega (
            arith,
            rw new at added,
            ap length (process_package-named pkg p processed),
            ap length (with_layer-named pkg.package_info.image_origin p),
          ))
    | inr (p, known) ↦
        let names = p.os_package_names ++ pkg.package_info.os_package_name ∷ [] in
        let added =
          total_values-assign installed_names (package_map_key pkg)
            (record p { os_package_names = names }) m in
        of_some
          (λ (x : PackageMap).
            total_values installed_names x ≡ suc (total_values installed_names m))
          (rw (add_package_result, known) at e)
          (omega (
            arith,
            rw known at added,
            length-append p.os_package_names (pkg.package_info.os_package_name ∷ []),
          ))
  ]

  -- Every scanned package is named in one of the packages that are kept apart.
  pub add_package_results-named :
      (ps : List PackageVulns) (m m' : PackageMap)
      → add_package_results parse_float cvss semantic ps m ≡ some m'
      → total_values installed_names m' ≡ total_values installed_names m + length ps
  unfolding add_package_results
  add_package_results-named [] m m' e =
      of_some
        (λ (x : PackageMap). total_values installed_names x ≡ total_values installed_names m + 0) e
        (omega arith)
  add_package_results-named (p ∷ ps) m m' e =
      let (m1, added, e') = bind_some (add_package_result parse_float cvss semantic p m) _ m' e in
      omega (arith, add_package_result-named p m m1 added, add_package_results-named ps m1 m' e')

  -- The name of the package is added at its key.
  abbrev AddedAt : PackageVulns → PackageMap → Text → PackageMap → Type 0
  AddedAt pkg m key x =
      names_at key x
      ≡ names_at key m
        ++ (if text_eq (key_text pkg) key then pkg.package_info.os_package_name ∷ [] else [])

  add_package_result-names_at :
      (pkg : PackageVulns) (m m' : PackageMap) (key : Text)
      → add_package_result parse_float cvss semantic pkg m ≡ some m'
      → names_at key m'
        ≡ names_at key m
          ++ (if text_eq (key_text pkg) key then pkg.package_info.os_package_name ∷ [] else [])
  unfolding add_package_result package_map_key
  add_package_result-names_at pkg m m' key e =
      let name = pkg.package_info.os_package_name in
      elim (Option-cases (lookup (key_text pkg) m)) [
        | inl new ↦
            let (p, processed, e') =
              bind_some (process_package parse_float cvss semantic pkg) _ m'
                (rw (add_package_result, new) at e) in
            let layered = with_layer pkg.package_info.image_origin p in
            let names : layered.os_package_names ≡ names_at (key_text pkg) m ++ name ∷ [] =
              with_layer-named pkg.package_info.image_origin p
              ∙ process_package-named pkg p processed
              ∙ rw new refl in
            of_some (AddedAt pkg m key) e' (names_at-assign key (key_text pkg) layered m name names)
        | inr (p, known) ↦
            let named = record p { os_package_names = p.os_package_names ++ name ∷ [] } in
            let names : named.os_package_names ≡ names_at (key_text pkg) m ++ name ∷ [] =
              rw known refl in
            of_some (AddedAt pkg m key) (rw (add_package_result, known) at e)
              (names_at-assign key (key_text pkg) named m name names)
      ]

  -- What is installed under a key are the packages with it.
  pub add_package_results-names_at :
      (ps : List PackageVulns) (m m' : PackageMap) (key : Text)
      → add_package_results parse_float cvss semantic ps m ≡ some m'
      → names_at key m' ≡ names_at key m ++ names_with key ps
  unfolding add_package_results
  add_package_results-names_at [] m m' key e =
      of_some (λ (x : PackageMap). names_at key x ≡ names_at key m ++ []) e
        (sym (append-nil (names_at key m)))
  add_package_results-names_at (p ∷ ps) m m' key e =
      let (m1, added, e') = bind_some (add_package_result parse_float cvss semantic p m) _ m' e in
      let name = p.package_info.os_package_name in
      add_package_results-names_at ps m1 m' key e'
      ∙ ap (λ ns. ns ++ names_with key ps) (add_package_result-names_at p m m1 key added)
      ∙ append_assoc (names_at key m) (if text_eq (key_text p) key then name ∷ [] else [])
          (names_with key ps)
      ∙ ap (λ ns. names_at key m ++ ns) (ground arith)
