-- ===== src/Filter/Defs.antt =====
-- The messages that are logged are not modelled. The configuration manager and the marks of used
-- lines are passed on explicitly.
use osv_scanner.Prelude.{
  Bool, List, Option, Text, [], codes, contains, if◌then◌else◌, keep, length, ltb, none, not, some,
  text_eq, ℕ, ◌&&◌, ◌++◌, ◌+◌, ◌-◌, ◌||◌, ◌∷◌,
}
use osv_scanner.Osv.{Vulnerability}
use osv_scanner.Models.{GroupInfo, PackageSource, PackageVulns, VulnerabilityResults}
use osv_scanner.Config.{
  Config, Files, IgnoreEntry, Manager, Marks, Pkg, get, mark_as_used, should_ignore,
  should_ignore_package,
}

-- The inner loop over `group.Aliases`: the line of the first alias that is to be ignored.
unfoldable pub ignored_line : ℕ → Config → List Text → Option IgnoreEntry
unfolding should_ignore
ignored_line now c [] = none
ignored_line now c (id ∷ aliases) =
    let rest = ignored_line now c aliases in
    let (ignore, line) = should_ignore now c id in if ignore then line else rest

-- What the loop over the groups has so far.
pub record Progress : Type 0 where
  pub ignored_vulns : List Text
  pub new_groups : List GroupInfo
  pub marks : Marks

-- The body of the loop over the groups.
unfoldable pub filter_group : ℕ → Config → GroupInfo → Progress → Progress
filter_group now c group p = elim (ignored_line now c group.aliases) [
  | none ↦ record p { new_groups = p.new_groups ++ group ∷ [] }
  | some line ↦ record p {
    ignored_vulns = p.ignored_vulns ++ group.aliases;
    marks = mark_as_used line p.marks;
  }
]

unfoldable pub filter_groups : ℕ → Config → List GroupInfo → Progress → Progress
filter_groups now c [] p = p
filter_groups now c (g ∷ gs) p = filter_groups now c gs (filter_group now c g p)

unfoldable pub filter_package_vulns : ℕ → Config → PackageVulns → Marks → PackageVulns × Marks
filter_package_vulns now c pkg_vulns marks =
    let p =
      filter_groups now c pkg_vulns.groups
        (record { ignored_vulns = []; new_groups = []; marks = marks }) in
    let new_vulns =
      if ltb 0 (length p.new_groups)
      then keep (λ (v : Vulnerability). not (contains p.ignored_vulns v.id))
          pkg_vulns.vulnerabilities
      else [] in
    (record pkg_vulns { groups = p.new_groups; vulnerabilities = new_vulns }, p.marks)

-- The loop over the packages of one source: the packages that stay, the vulnerabilities removed,
-- and the marks.
unfoldable pub filter_packages :
    ℕ → Config → Bool → List PackageVulns → Marks → List PackageVulns × ℕ × Marks
filter_packages now c all_packages [] marks = ([], 0, marks)
filter_packages now c all_packages (pv ∷ pvs) marks =
    let (new, marks') = filter_package_vulns now c pv marks in
    let (kept, removed, marks'') = filter_packages now c all_packages pvs marks' in
    (
      if all_packages
            || (ltb 0 (length new.vulnerabilities)
                || (ltb 0 (length pv.license_violations) || pv.package_info.deprecated))
          then new ∷ kept
          else kept,
      length pv.vulnerabilities - length new.vulnerabilities + removed,
      marks'',
    )

-- The loop over the sources.
unfoldable pub filter_sources :
    ℕ
    → Files
    → Bool
    → List PackageSource
    → Manager
    → Marks
    → List PackageSource × ℕ × Manager × Marks
filter_sources now fs all_packages [] m marks = ([], 0, m, marks)
filter_sources now fs all_packages (src ∷ srcs) m marks =
    let (c, m') = get fs m src.source.path in
    let (packages, removed, marks') = filter_packages now c all_packages src.packages marks in
    let (kept, removed', m'', marks'') = filter_sources now fs all_packages srcs m' marks' in
    (
      if ltb 0 (length packages) then record src { packages = packages } ∷ kept else kept,
      removed + removed',
      m'',
      marks'',
    )

-- `filterResults` returns the results, the number of vulnerabilities removed, and the state.
unfoldable pub filter_results :
    ℕ
    → Files
    → Bool
    → VulnerabilityResults
    → Manager
    → Marks
    → VulnerabilityResults × ℕ × Manager × Marks
unfolding filter_sources filter_packages
filter_results now fs all_packages vr m marks =
    let (results, removed, m', marks') = filter_sources now fs all_packages vr.results m marks in
    (record { results = results }, removed, m', marks')

-- The first switch of `filterUnscannablePackages`: a package with enough information.
unfoldable pub is_scannable : Pkg → Bool
is_scannable p =
    (not p.ecosystem_empty && (not (text_eq p.name []) && not (text_eq p.version [])))
    || not (text_eq p.commit [])

-- The second switch: a package to skip all the same.
unfoldable pub is_skipped : Pkg → Bool
is_skipped p =
    (text_eq p.ecosystem_base (codes "Maven") && text_eq p.name (codes "unknown"))
    || (not p.ecosystem_valid && not p.ecosystem_empty)

-- `filterUnscannablePackages`: the packages that stay, and those returned.
unfoldable pub filter_unscannable_packages : Bool → List Pkg → List Pkg × List Pkg
filter_unscannable_packages show_all [] = ([], [])
filter_unscannable_packages show_all (p ∷ ps) =
    let (kept, filtered) = filter_unscannable_packages show_all ps in
    if not (is_scannable p) || is_skipped p
    then (kept, if show_all then p ∷ filtered else filtered)
    else (p ∷ kept, filtered)

-- `filterNonContainerRelevantPackages`.
unfoldable pub filter_non_container_relevant_packages : List Pkg → List Pkg
filter_non_container_relevant_packages = keep (λ p. not (text_eq p.name (codes "linux")))

-- `filterIgnoredPackages`.
unfoldable pub filter_ignored_packages : ℕ → Files → List Pkg → Manager → List Pkg × Manager
filter_ignored_packages now fs [] m = ([], m)
filter_ignored_packages now fs (p ∷ ps) m =
    let (c, m') = get fs m p.location in
    let (out, m'') = filter_ignored_packages now fs ps m' in
    (if (should_ignore_package now c p).0 then out else p ∷ out, m'')
