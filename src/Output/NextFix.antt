-- ===== src/Output/NextFix.antt =====
-- What the searches for fixed versions in internal/output/output_result.go find.
use osv_scanner.Output.Counts.{VulnResult}
use osv_scanner.Prelude.{
  &&-eq-true, Bool, Bool-cases, List, Ordering, Text, [], all, arith, false, if◌then◌else◌, inl,
  inr, keep, none, Option-cases, length, ltb, map, not, refl, some, split_first, sym, text_eq, true,
  ◌&&◌, ◌++◌, ◌||◌, ◌∙◌, ◌∷◌, ◌≡◌, ◌≢◌,
}
use osv_scanner.Osv.{Affected, Event, Range}
use osv_scanner.Output.Best.{IsBest, best, best-IsBest, best-append, is_other}
use osv_scanner.Output.Fixes.{
  Semantic, calculate_package_fixed_version, fix_affected, fix_events, fix_ranges,
  get_next_fix_version, is_for, remove_variants, package_fixed_from, unfixed_description,
}

-- The test of the loops: a version is less than another.
abbrev pub is_less : Semantic → Text → Text → Text → Bool
is_less semantic eco a b = elim (semantic.compare_str eco a b) [ Ordering.lt ↦ true | _ ↦ false ]

-- The versions that events, ranges and so on call fixed, unless the installed version is greater.
module _ (semantic : Semantic) (eco installed : Text) where
  abbrev pub is_fix : Event → Bool
  is_fix e = not (
      text_eq e.fixed []
      || (elim (semantic.compare_str eco installed e.fixed) [ Ordering.gt ↦ true | _ ↦ false ]))

  abbrev pub fixes_of_events : List Event → List Text
  fixes_of_events es = map (λ (e : Event). e.fixed) (keep is_fix es)

  abbrev pub fixes_of_ranges : List Range → List Text
  fixes_of_ranges [] = []
  fixes_of_ranges (r ∷ rs) = fixes_of_events r.events ++ fixes_of_ranges rs

  -- The package of an entry and its ecosystem, without the variants of Ubuntu, are those.
  abbrev pub is_about : Text → Text → Affected → Bool
  is_about name ecosystem a =
      text_eq (elim (a.pkg) [ none ↦ [] | some p ↦ p.name ]) name
      && text_eq (remove_variants (elim (a.pkg) [ none ↦ [] | some p ↦ p.ecosystem ])) ecosystem

  is_for-is_about :
      (name ecosystem : Text) (a : Affected)
      → is_for semantic name ecosystem a ≡ is_about name ecosystem a
  unfolding is_for
  is_for-is_about name ecosystem a = elim (Option-cases a.pkg) [
    | inl e ↦ rw (is_for, e) refl
    | inr (p, e) ↦ rw (is_for, e) refl
  ]

  abbrev pub fixes_of : Text → Text → List Affected → List Text
  fixes_of name ecosystem [] = []
  fixes_of name ecosystem (a ∷ as') =
      if is_about name ecosystem a
      then fixes_of_ranges a.ranges ++ fixes_of name ecosystem as'
      else fixes_of name ecosystem as'

  abbrev least : Text → List Text → Text
  least = best unfixed_description (is_less semantic eco)

  fix_events-best :
      (es : List Event) (cur : Text)
      → all (semantic.parses eco) (fixes_of_events es) ≡ true
      → fix_events semantic eco installed es cur ≡ some (least cur (fixes_of_events es))
  unfolding fix_events best
  fix_events-best [] cur h = refl
  fix_events-best (e ∷ es) cur h =
      ground (arith, fix_events-best es cur, fix_events-best es e.fixed)

  all-append : (p : Text → Bool) (xs ys : List Text) → all p (xs ++ ys) ≡ (all p xs && all p ys)
  all-append p [] ys = refl
  all-append p (x ∷ xs) ys = ground (arith, all-append p xs ys)

  fix_ranges-best :
      (rs : List Range) (cur : Text)
      → all (semantic.parses eco) (fixes_of_ranges rs) ≡ true
      → fix_ranges semantic eco installed rs cur ≡ some (least cur (fixes_of_ranges rs))
  unfolding fix_ranges best
  fix_ranges-best [] cur h = refl
  fix_ranges-best (r ∷ rs) cur h =
      let (here, rest) = &&-eq-true _ _ (
        sym (all-append (semantic.parses eco) (fixes_of_events r.events) (fixes_of_ranges rs))
        ∙ h) in
      rw
        (
          fix_ranges,
          fix_events-best r.events cur here,
          best-append unfixed_description (is_less semantic eco) cur (fixes_of_events r.events)
              (fixes_of_ranges rs),
        )
        (fix_ranges-best rs (least cur (fixes_of_events r.events)) rest)

  pub fix_affected-best :
      (name ecosystem : Text) (as' : List Affected) (cur : Text)
      → all (semantic.parses eco) (fixes_of name ecosystem as') ≡ true
      → fix_affected semantic eco installed name ecosystem as' cur
        ≡ some (least cur (fixes_of name ecosystem as'))
  unfolding fix_affected best
  fix_affected-best name ecosystem [] cur h = refl
  fix_affected-best name ecosystem (a ∷ as') cur h = elim (Bool-cases (is_about name ecosystem a)) [
    | inl e ↦
        let matches = is_for-is_about name ecosystem a ∙ e in
        let joined = fixes_of_ranges a.ranges ++ fixes_of name ecosystem as' in
        let h' : all (semantic.parses eco) joined ≡ true = rw (fixes_of, e) at h in
        let (here, rest) = &&-eq-true _ _ (
          sym (
            all-append (semantic.parses eco) (fixes_of_ranges a.ranges)
              (fixes_of name ecosystem as'))
          ∙ h') in
        rw
          (
            fix_affected,
            fixes_of,
            e,
            matches,
            fix_ranges-best a.ranges cur here,
            best-append unfixed_description (is_less semantic eco) cur (fixes_of_ranges a.ranges)
                (fixes_of name ecosystem as'),
          )
          (fix_affected-best name ecosystem as' (least cur (fixes_of_ranges a.ranges)) rest)
    | inr e ↦
        rw (fix_affected, fixes_of, e, is_for-is_about name ecosystem a ∙ e)
          (fix_affected-best name ecosystem as' cur (rw (fixes_of, e) at h))
  ]

-- How versions of an ecosystem are compared: an irreflexive and transitive "less".
pub record IsOrdered (semantic : Semantic) (eco : Text) : Type 0 where
  pub trans :
      (a b c : Text)
      → semantic.compare_str eco a b ≡ Ordering.lt
      → semantic.compare_str eco b c ≡ Ordering.lt
      → semantic.compare_str eco a c ≡ Ordering.lt
  pub irrefl : (a : Text) → semantic.compare_str eco a a ≢ Ordering.lt

module _ (semantic : Semantic) (eco : Text) (ordered : IsOrdered semantic eco) where
  is_less_trans :
      (a b c : Text)
      → is_less semantic eco a b ≡ true
      → is_less semantic eco b c ≡ true
      → is_less semantic eco a c ≡ true
  is_less_trans a b c h k = ground (arith, ordered.trans a b c)

  is_less_irrefl : (a : Text) → is_less semantic eco a a ≡ false
  is_less_irrefl a = ground (arith, ordered.irrefl a)

-- Versions of the ecosystem being ordered, if the installed version parses, and the fixed versions of
-- entries for that package and ecosystem that are not below the installed one parse and are not the
-- text that there is no fix, the search returns: it finds a fix exactly if there is such a fixed
-- version, and then it is one of them, below which there is no other.
pub get_next_fix_version_lem :
    (semantic : Semantic) (affected : List Affected) (installed name ecosystem : Text)
    → let eco = split_first b':' ecosystem in
      let cs = fixes_of semantic eco installed name ecosystem affected in
      IsOrdered semantic eco
      → semantic.parses eco installed ≡ true
      → all (semantic.parses eco) cs ≡ true
      → all (is_other unfixed_description) cs ≡ true
      → (v : Text) × (get_next_fix_version semantic affected installed name ecosystem
          ≡ some (ltb 0 (length cs), v))
        × IsBest unfixed_description (is_less semantic eco) cs v
unfolding get_next_fix_version
get_next_fix_version_lem semantic affected installed name ecosystem ordered ok parse others =
    let eco = split_first b':' ecosystem in
    let cs = fixes_of semantic eco installed name ecosystem affected in
    let v = best unfixed_description (is_less semantic eco) unfixed_description cs in
    let is_best =
      best-IsBest unfixed_description (is_less semantic eco) (is_less_trans semantic eco ordered)
        (is_less_irrefl semantic eco ordered) cs others in
    (
      v,
      rw
          (
            get_next_fix_version,
            ok,
            fix_affected-best semantic eco installed name ecosystem affected unfixed_description
                parse,
          )
          (λ i. some (is_best.2 i, v)),
      is_best,
    )

-- The fixed versions of the vulnerabilities that have one.
abbrev pub fixes_of_vulns : List VulnResult → List Text
fixes_of_vulns vs =
    map (λ (v : VulnResult). v.fixed_version) (keep (λ (v : VulnResult). v.is_fixable) vs)

pub package_fixed_from-best :
    (semantic : Semantic) (eco : Text) (vs : List VulnResult) (cur : Text)
    → all (semantic.parses eco) (fixes_of_vulns vs) ≡ true
    → package_fixed_from semantic eco vs cur
      ≡ some (best [] (λ a b. is_less semantic eco b a) cur (fixes_of_vulns vs))
unfolding package_fixed_from best
package_fixed_from-best semantic eco [] cur h = refl
package_fixed_from-best semantic eco (v ∷ vs) cur h = ground (
  arith,
  package_fixed_from-best semantic eco vs cur,
  package_fixed_from-best semantic eco vs v.fixed_version,
)

-- Versions of the ecosystem being ordered, if the fixed versions of the vulnerabilities that have one
-- parse and are not empty, the package gets the greatest of them, and the text that there is no fix
-- exactly if no vulnerability has one.
pub calculate_package_fixed_version_lem :
    (semantic : Semantic) (ecosystem : Text) (vs : List VulnResult)
    → let eco = split_first b':' ecosystem in
      let cs = fixes_of_vulns vs in
      IsOrdered semantic eco
      → all (semantic.parses eco) cs ≡ true
      → all (is_other []) cs ≡ true
      → (v : Text) × (calculate_package_fixed_version semantic ecosystem vs
          ≡ some (if ltb 0 (length cs) then v else unfixed_description))
        × IsBest [] (λ a b. is_less semantic eco b a) cs v
unfolding calculate_package_fixed_version
calculate_package_fixed_version_lem semantic ecosystem vs ordered parse others =
    let eco = split_first b':' ecosystem in
    let cs = fixes_of_vulns vs in
    let v = best [] (λ a b. is_less semantic eco b a) [] cs in
    let is_best =
      best-IsBest [] (λ a b. is_less semantic eco b a)
        (λ a b c h k. is_less_trans semantic eco ordered c b a k h)
        (is_less_irrefl semantic eco ordered) cs others in
    let empty : text_eq v [] ≡ not (ltb 0 (length cs)) = ground (arith, is_best.2) in
    (
      v,
      rw (calculate_package_fixed_version, package_fixed_from-best semantic eco vs [] parse, empty)
          (ground arith),
      is_best,
    )
