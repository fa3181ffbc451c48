-- ===== src/Build/Licenses.antt =====
-- What the body of `buildVulnerabilityResults` in pkg/osvscanner/vulnerability_result.go sets for the
-- licenses of a package.
use osv_scanner.Prelude.{
  &&-eq-true, Bool, Bool-cases, List, Option, Text, [], all, ap, arith, false, if◌then◌else◌, inl,
  inr, keep, length, ltb, none, not, refl, some, true, ◌==◌, ◌||◌, ◌∷◌, ◌≡◌, ◌≢◌,
}
use osv_scanner.Models.{PackageVulns}
use osv_scanner.Build.Package.{Actions, is_violation, license_package, scans_licenses, violations}
use osv_scanner.Spdx.Tokens.{not_space}
use osv_scanner.Spdx.{satisfies}
use osv_scanner.Spdx.Outcome.{Ends, Outcome, err, ok, out_of_fuel, panic}
use osv_scanner.Spdx.Satisfies.{satisfies-Ends}

-- The license holds something but spaces.
abbrev pub is_blank : Text → Bool
is_blank license = length (keep not_space license) == 0

-- The allowlist satisfies the license; an invalid license is not satisfied.
abbrev pub accepts : (Text → Text) → List Text → Text → Bool
accepts to_lower allowlist license = elim (satisfies to_lower license allowlist) [
  | ok b ↦ b
  | _ ↦ false
]

is_violation_of_Ends :
    (to_lower : Text → Text) (allowlist : List Text) (license : Text)
    → Ends (λ _. Unit) (satisfies to_lower license allowlist)
    → is_violation to_lower allowlist license ≡ some (not (accepts to_lower allowlist license))
unfolding is_violation
is_violation_of_Ends to_lower allowlist license h = go (satisfies to_lower license allowlist) h
  where
    go :
        (o : Outcome Bool)
        → Ends (λ _. Unit) o
        → let violation : Option Bool = elim o [
          | ok b ↦ some (not b)
          | err e ↦ some true
          | panic ↦ none
          | out_of_fuel ↦ none
        ] in
          let accepted : Bool = elim o [ ok b ↦ b | _ ↦ false ] in violation ≡ some (not accepted)
    go (ok b) h = refl
    go (err e) h = refl
    go panic h = absurd h
    go out_of_fuel h = absurd h

not_nil_of_not_blank : (l : Text) → is_blank l ≡ false → keep not_space l ≢ []
not_nil_of_not_blank l h e = let n : length (keep not_space l) ≡ 0 = ap length e in ground arith

violations_lem :
    (to_lower : Text → Text) (allowlist licenses : List Text)
    → all (λ l. not (is_blank l)) licenses ≡ true
    → violations to_lower allowlist licenses
      ≡ some (keep (λ l. not (accepts to_lower allowlist l)) licenses)
unfolding violations
violations_lem to_lower allowlist [] h = refl
violations_lem to_lower allowlist (l ∷ ls) h =
    let (now, later) = &&-eq-true (not (is_blank l)) (all (λ l. not (is_blank l)) ls) h in
    let ends = satisfies-Ends to_lower l allowlist (not_nil_of_not_blank l (ground arith)) in
    rw
      (
        violations,
        is_violation_of_Ends to_lower allowlist l ends,
        violations_lem to_lower allowlist ls later,
      )
      refl

-- The licenses that the allowlist rejects, if it is asked.
abbrev pub rejected : (Text → Text) → Actions → List Text → List Text
rejected to_lower actions licenses =
    if ltb 0 (length actions.scan_licenses_allowlist)
    then keep (λ l. not (accepts to_lower actions.scan_licenses_allowlist l)) licenses
    else []

-- The licenses are reported if a summary is asked for or there is an allowlist.
abbrev pub reported_licenses : Actions → List Text → List Text
reported_licenses actions licenses =
    if actions.scan_licenses_summary || ltb 0 (length actions.scan_licenses_allowlist)
    then licenses
    else []

-- The allowlist is asked only for licenses that hold something but spaces.
pub license_package_lem :
    (to_lower : Text → Text) (actions : Actions) (licenses : List Text) (pkg : PackageVulns)
    → all (λ l. not (is_blank l)) licenses ≡ true
    → pkg.license_violations ≡ []
    → pkg.licenses ≡ []
    → (pkg' : PackageVulns) × (license_package to_lower actions licenses pkg ≡ some pkg')
      × (pkg'.package_info ≡ pkg.package_info)
      × (pkg'.vulnerabilities ≡ pkg.vulnerabilities)
      × (pkg'.license_violations ≡ rejected to_lower actions licenses)
      × (pkg'.licenses ≡ reported_licenses actions licenses)
      × (pkg'.dep_groups ≡ pkg.dep_groups)
unfolding license_package
license_package_lem to_lower actions licenses pkg h none_yet none_listed =
    elim (Bool-cases (ltb 0 (length actions.scan_licenses_allowlist))) [
      | inl asked ↦
          let bad = keep (λ l. not (accepts to_lower actions.scan_licenses_allowlist l)) licenses in
          let scans : scans_licenses actions ≡ true = ground arith in
          (
            record pkg { licenses = licenses; license_violations = bad },
            rw (scans, asked, violations_lem to_lower actions.scan_licenses_allowlist licenses h)
                refl,
            refl,
            refl,
            rw asked refl,
            rw scans refl,
            refl,
          )
      | inr unasked ↦ elim (Bool-cases (scans_licenses actions)) [
        | inl scans ↦ (
          record pkg { licenses = licenses },
          rw (scans, unasked) refl,
          refl,
          refl,
          rw unasked none_yet,
          rw scans refl,
          refl,
        )
        | inr scans ↦
            (pkg, rw scans refl, refl, refl, rw unasked none_yet, rw scans none_listed, refl)
      ]
    ]
