-- ===== src/Output/Counting.antt =====
-- What `calculateCount` of internal/output/output_result.go counts.
use osv_scanner.Prelude.{
  Bool, Bool-cases, ◌&&◌, false, text_eq_iff, List, Option, Text, [], arith, codes, if◌then◌else◌,
  inl, inr, length, none, refl, some, text_eq, total, true, ℕ, ◌+◌, ◌||◌, ◌∷◌, ◌≡◌,
}
use osv_scanner.Severity.{Cvss, unknown_rating}
use osv_scanner.Output.Counts.{
  SeverityCount, VulnCount, VulnResult, calculate_count, calculate_rating, count_regular,
  increase_severity_count, no_vulns,
}

-- One of the five ratings that are counted.
abbrev pub is_rating : Text → Bool
is_rating r =
    text_eq r (codes "CRITICAL")
    || (text_eq r (codes "HIGH")
        || (text_eq r (codes "MEDIUM") || (text_eq r (codes "LOW") || text_eq r unknown_rating)))

-- How many have the rating.
abbrev pub rated : Text → List VulnResult → ℕ
rated r vs = total (λ (v : VulnResult). if text_eq v.severity_rating r then 1 else 0) vs

-- A rating that is one text is no other.
is_no_other : (r a b : Text) → text_eq a b ≡ false → (text_eq r a && text_eq r b) ≡ false
is_no_other r a b h = elim (Bool-cases (text_eq r a)) [
  | inl e ↦ let same = (text_eq_iff r a).0 e in rw e (rw same h)
  | inr e ↦ rw e refl
]

record Increased (c : SeverityCount) (r : Text) (c' : SeverityCount) : Type 0 where
  critical : c'.critical ≡ c.critical + (if text_eq r (codes "CRITICAL") then 1 else 0)
  high : c'.high ≡ c.high + (if text_eq r (codes "HIGH") then 1 else 0)
  medium : c'.medium ≡ c.medium + (if text_eq r (codes "MEDIUM") then 1 else 0)
  low : c'.low ≡ c.low + (if text_eq r (codes "LOW") then 1 else 0)
  unknown : c'.unknown ≡ c.unknown + (if text_eq r unknown_rating then 1 else 0)

Increased-increase_severity_count :
    (c : SeverityCount) (r : Text) → Increased c r (increase_severity_count c r)
unfolding increase_severity_count text_eq
Increased-increase_severity_count c r =
    let a = is_no_other r (codes "CRITICAL") (codes "HIGH") refl in
    let b = is_no_other r (codes "CRITICAL") (codes "MEDIUM") refl in
    let d = is_no_other r (codes "CRITICAL") (codes "LOW") refl in
    let e = is_no_other r (codes "CRITICAL") unknown_rating refl in
    let f = is_no_other r (codes "HIGH") (codes "MEDIUM") refl in
    let g = is_no_other r (codes "HIGH") (codes "LOW") refl in
    let h = is_no_other r (codes "HIGH") unknown_rating refl in
    let i = is_no_other r (codes "MEDIUM") (codes "LOW") refl in
    let j = is_no_other r (codes "MEDIUM") unknown_rating refl in
    let k = is_no_other r (codes "LOW") unknown_rating refl in
    record {
      critical = ground arith;
      high = ground arith;
      medium = ground arith;
      low = ground arith;
      unknown = ground arith;
    }

record Counted (vs : List VulnResult) (c c' : VulnCount) : Type 0 where
  fixes :
      c'.fixable_count.fixed + c'.fixable_count.unfixed
      ≡ c.fixable_count.fixed + c.fixable_count.unfixed + length vs
  fixed :
      c'.fixable_count.fixed
      ≡ c.fixable_count.fixed + total (λ (v : VulnResult). if v.is_fixable then 1 else 0) vs
  critical : c'.severity_count.critical ≡ c.severity_count.critical + rated (codes "CRITICAL") vs
  high : c'.severity_count.high ≡ c.severity_count.high + rated (codes "HIGH") vs
  medium : c'.severity_count.medium ≡ c.severity_count.medium + rated (codes "MEDIUM") vs
  low : c'.severity_count.low ≡ c.severity_count.low + rated (codes "LOW") vs
  unknown : c'.severity_count.unknown ≡ c.severity_count.unknown + rated unknown_rating vs

Counted-count_regular : (vs : List VulnResult) (c : VulnCount) → Counted vs c (count_regular vs c)
unfolding count_regular
Counted-count_regular [] c = record {
  fixes = omega arith;
  fixed = omega arith;
  critical = omega arith;
  high = omega arith;
  medium = omega arith;
  low = omega arith;
  unknown = omega arith;
}
Counted-count_regular (v ∷ vs) c =
    let fixable =
      (if v.is_fixable
        then record c.fixable_count { fixed = c.fixable_count.fixed + 1 }
        else record c.fixable_count { unfixed = c.fixable_count.unfixed + 1 }) in
    let rest = Counted-count_regular vs (record c {
      fixable_count = fixable;
      severity_count = increase_severity_count c.severity_count v.severity_rating;
    }) in
    let step = Increased-increase_severity_count c.severity_count v.severity_rating in
    record {
      fixes = ground (arith, rest.fixes);
      fixed = ground (arith, rest.fixed);
      critical = omega (arith, rest.critical, step.critical);
      high = omega (arith, rest.high, step.high);
      medium = omega (arith, rest.medium, step.medium);
      low = omega (arith, rest.low, step.low);
      unknown = omega (arith, rest.unknown, step.unknown);
    }

-- The counts of regular and hidden vulnerabilities are the lengths of the lists; the regular ones are
-- counted as fixed or not, by whether they are fixable; and each of the five severities counts the
-- regular ones with that rating.
pub calculate_count_lem :
    (regular hidden : List VulnResult)
    → let c = calculate_count regular hidden in
      (c.analysis_count.regular ≡ length regular)
      × (c.analysis_count.hidden ≡ length hidden)
      × (c.fixable_count.fixed + c.fixable_count.unfixed ≡ length regular)
      × (c.fixable_count.fixed ≡ total (λ (v : VulnResult). if v.is_fixable then 1 else 0) regular)
      × (c.severity_count.critical ≡ rated (codes "CRITICAL") regular)
      × (c.severity_count.high ≡ rated (codes "HIGH") regular)
      × (c.severity_count.medium ≡ rated (codes "MEDIUM") regular)
      × (c.severity_count.low ≡ rated (codes "LOW") regular)
      × (c.severity_count.unknown ≡ rated unknown_rating regular)
unfolding calculate_count
calculate_count_lem regular hidden =
    let counted = Counted-count_regular regular no_vulns in
    (
      refl,
      refl,
      omega (arith, counted.fixes),
      omega (arith, counted.fixed),
      omega (arith, counted.critical),
      omega (arith, counted.high),
      omega (arith, counted.medium),
      omega (arith, counted.low),
      omega (arith, counted.unknown),
    )

-- If the third-party rating answers one of the words of the CVSS specification, `CalculateRating`
-- answers one of the five ratings that are counted.
pub calculate_rating-is_rating :
    (parse_float : Text → Option ℕ) (cvss : Cvss)
    → ((s : ℕ) (r : Text)
        → cvss.rating_30 s ≡ some r
        → (is_rating r || text_eq r (codes "NONE")) ≡ true)
    → (score : Text) → is_rating (calculate_rating parse_float cvss score) ≡ true
unfolding calculate_rating text_eq
calculate_rating-is_rating parse_float cvss words score = go (parse_float score)
  where
    answered :
        (r : Option Text)
        → ((t : Text) → r ≡ some t → (is_rating t || text_eq t (codes "NONE")) ≡ true)
        → is_rating (elim r [
          | none ↦ unknown_rating
          | some rating ↦ if text_eq rating (codes "NONE") then unknown_rating else rating
        ])
          ≡ true
    answered none h = refl
    answered (some r) h = elim (Bool-cases (text_eq r (codes "NONE"))) [
      | inl e ↦ rw e refl
      | inr e ↦ rw e (ground (arith, h r refl))
    ]

    go :
        (parsed : Option ℕ)
        → is_rating (elim parsed [
          | none ↦ unknown_rating
          | some p ↦ elim (cvss.rating_30 p) [
            | none ↦ unknown_rating
            | some rating ↦ if text_eq rating (codes "NONE") then unknown_rating else rating
          ]
        ])
          ≡ true
    go none = refl
    go (some p) = answered (cvss.rating_30 p) (words p)
