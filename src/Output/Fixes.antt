-- ===== src/Output/Fixes.antt =====
-- The search for fixed versions in internal/output/output_result.go. `none` is the panic of
-- `MustParse`.
use osv_scanner.Prelude.{
  Bool, List, Option, Ordering, Text, [], codes, false, has_prefix, if◌then◌else◌, length, ltb,
  none, not, some, split_first, text_eq, true, ℕ, ◌&&◌, ◌-◌, ◌||◌, ◌∷◌,
}
use osv_scanner.Osv.{Affected, Event, Range}
use osv_scanner.Output.Counts.{VulnResult}

-- The package `semantic`: whether `Parse` takes a version of an and the number that
-- `CompareStr` answers for it and another, beside an error too.
pub record Semantic : Type 0 where
  pub parses : Text → Text → Bool
  pub compare_str : Text → Text → Text → Ordering

abbrev pub unfixed_description : Text
unfixed_description = codes "No fix available"

abbrev pub version_unsupported : Text
version_unsupported = codes "N/A"

-- `strings.Contains`.
unfoldable pub contains_text : Text → Text → Bool
contains_text [] pattern = has_prefix [] pattern
contains_text (c ∷ cs) pattern = has_prefix (c ∷ cs) pattern || contains_text cs pattern

-- `strings.ReplaceAll(s, pattern, "")` for a pattern that is not empty; `skipped` characters are
-- still of a match.
unfoldable pub remove_all_from : ℕ → Text → Text → Text
remove_all_from skipped pattern [] = []
remove_all_from skipped pattern (c ∷ cs) =
    let inside = remove_all_from (skipped - 1) pattern cs in
    let matched = remove_all_from (length pattern - 1) pattern cs in
    let rest = remove_all_from 0 pattern cs in
    if ltb 0 skipped then inside else if has_prefix (c ∷ cs) pattern then matched else c ∷ rest

unfoldable pub remove_variants : Text → Text
unfolding contains_text remove_all_from
remove_variants ecosystem =
    if contains_text ecosystem (codes "Ubuntu")
    then remove_all_from 0 (codes ":LTS") (remove_all_from 0 (codes ":Pro") ecosystem)
    else ecosystem

module _ (semantic : Semantic) where
  -- The loop over the events. `installed` parses; `least` is `minFixVersion`.
  unfoldable pub fix_events : Text → Text → List Event → Text → Option Text
  fix_events eco installed [] least = some least
  fix_events eco installed (e ∷ es) least =
      let skip = fix_events eco installed es least in
      let take_it = fix_events eco installed es e.fixed in
      if text_eq e.fixed []
        || (elim (semantic.compare_str eco installed e.fixed) [ Ordering.gt ↦ true | _ ↦ false ])
      then skip
      else if semantic.parses eco e.fixed
      then (if text_eq least unfixed_description
            || (elim (semantic.compare_str eco e.fixed least) [ Ordering.lt ↦ true | _ ↦ false ])
          then take_it
          else skip)
      else none

  unfoldable pub fix_ranges : Text → Text → List Range → Text → Option Text
  unfolding fix_events
  fix_ranges eco installed [] least = some least
  fix_ranges eco installed (r ∷ rs) least = elim (fix_events eco installed r.events least) [
    | none ↦ none
    | some least' ↦ fix_ranges eco installed rs least'
  ]

  -- Whether the affected entry is about the package; an unset package has an empty name and ecosystem.
  unfoldable pub is_for : Text → Text → Affected → Bool
  unfolding remove_variants
  is_for name ecosystem a = elim (a.pkg) [
    | none ↦ text_eq [] name && text_eq (remove_variants []) ecosystem
    | some p ↦ text_eq p.name name && text_eq (remove_variants p.ecosystem) ecosystem
  ]

  unfoldable pub fix_affected : Text → Text → Text → Text → List Affected → Text → Option Text
  unfolding fix_ranges is_for
  fix_affected eco installed name ecosystem [] least = some least
  fix_affected eco installed name ecosystem (a ∷ as') least =
      let skip = fix_affected eco installed name ecosystem as' least in
      if is_for name ecosystem a
      then (elim (fix_ranges eco installed a.ranges least) [
        | none ↦ none
        | some least' ↦ fix_affected eco installed name ecosystem as' least'
      ])
      else skip

  -- Whether there is a fix, and its version.
  unfoldable pub get_next_fix_version : List Affected → Text → Text → Text → Option (Bool × Text)
  unfolding fix_affected
  get_next_fix_version affected installed name ecosystem =
      let eco = split_first b':' ecosystem in
      if semantic.parses eco installed
      then (elim (fix_affected eco installed name ecosystem affected unfixed_description) [
        | none ↦ none
        | some least ↦ some (not (text_eq least unfixed_description), least)
      ])
      else some (false, version_unsupported)

  -- The loop over the vulnerabilities. `vp` is the parsed `maxFixVersion`, so it is not kept.
  unfoldable pub package_fixed_from : Text → List VulnResult → Text → Option Text
  package_fixed_from eco [] greatest = some greatest
  package_fixed_from eco (v ∷ vs) greatest =
      let skip = package_fixed_from eco vs greatest in
      let take_it = package_fixed_from eco vs v.fixed_version in
      if not v.is_fixable
      then skip
      else if text_eq greatest [] || (elim (semantic.compare_str eco greatest v.fixed_version) [
        | Ordering.lt ↦ true
        | _ ↦ false
      ])
      then (if semantic.parses eco v.fixed_version then take_it else none)
      else skip

  unfoldable pub calculate_package_fixed_version : Text → List VulnResult → Option Text
  unfolding package_fixed_from
  calculate_package_fixed_version ecosystem vulns =
      elim (package_fixed_from (split_first b':' ecosystem) vulns []) [
        | none ↦ none
        | some greatest ↦ some (if text_eq greatest [] then unfixed_description else greatest)
      ]
