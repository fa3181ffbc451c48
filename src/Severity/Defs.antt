-- ===== src/Severity/Defs.antt =====
-- The scores come from the go-cvss packages. They are decimal numbers with one digit behind the
-- point, so a score is a number of tenths, and -1, which stands for no score, is `none`. The parsers
-- and the rating are parameters, and their errors are `none`.
use osv_scanner.Prelude.{
  Bool, List, Option, Text, [], codes, false, has_prefix, if◌then◌else◌, ltb, none, some, text_eq,
  true, ℕ, ◌%◌, ◌++◌, ◌+◌, ◌/◌, ◌∷◌,
}
use osv_scanner.Osv.{
  Severity, SeverityType, Vulnerability, cvss_v2, cvss_v3, cvss_v4, ubuntu, unspecified,
}
use osv_scanner.Models.{GroupInfo, PackageVulns}
use osv_scanner.Semverlike.{decimal}

pub record Cvss : Type 0 where
  pub score_20 : Text → Option ℕ
  pub score_30 : Text → Option ℕ
  pub score_31 : Text → Option ℕ
  pub score_40 : Text → Option ℕ
  pub rating_30 : ℕ → Option Text
  pub rating_31 : ℕ → Option Text
  pub rating_40 : ℕ → Option Text

abbrev pub Score : Type 0
Score = Option ℕ

abbrev pub unknown_rating : Text
unknown_rating = codes "UNKNOWN"

-- The three results of the functions; `failed` is that the error is not nil.
pub record Scored : Type 0 where
  pub score : Score
  pub rating : Text
  pub failed : Bool

-- `score = vec.BaseScore(); rating, err = Rating(score)` behind a parser.
unfoldable pub rate : (ℕ → Option Text) → Option ℕ → Scored
rate rating none = record { score = none; rating = unknown_rating; failed = true }
rate rating (some s) = elim (rating s) [
  | none ↦ record { score = some s; rating = []; failed = true }
  | some r ↦ record { score = some s; rating = r; failed = false }
]

-- The switch of `CalculateScore` on the type; CVSS 2.0 takes the rating of CVSS 3.0.
unfoldable pub score_of_type : Cvss → SeverityType → Text → Scored
unfolding rate
score_of_type cvss unspecified text = record {
  score = none;
  rating = unknown_rating;
  failed = false;
}
score_of_type cvss cvss_v2 text = rate cvss.rating_30 (cvss.score_20 text)
score_of_type cvss cvss_v3 text =
    if has_prefix text (codes "CVSS:3.0")
    then rate cvss.rating_30 (cvss.score_30 text)
    else if has_prefix text (codes "CVSS:3.1")
    then rate cvss.rating_31 (cvss.score_31 text)
    else record { score = none; rating = unknown_rating; failed = false }
score_of_type cvss cvss_v4 text = rate cvss.rating_40 (cvss.score_40 text)
score_of_type cvss ubuntu text = record { score = none; rating = text; failed = false }

unfoldable pub calculate_score : Cvss → Severity → Scored
unfolding score_of_type
calculate_score cvss s = score_of_type cvss s.type s.score

-- `a > b` on scores.
unfoldable pub score_gt : Score → Score → Bool
score_gt none b = false
score_gt (some a) none = true
score_gt (some a) (some b) = ltb b a

-- The loop of `CalculateOverallScore`, from the largest score and its rating so far.
unfoldable pub overall_from : Cvss → Score → Text → List Severity → Scored
overall_from cvss max_score max_rating [] = record {
  score = max_score;
  rating = max_rating;
  failed = false;
}
overall_from cvss max_score max_rating (s ∷ ss) =
    let r = calculate_score cvss s in
    let larger = score_gt r.score max_score in
    let rest =
      overall_from cvss (if larger then r.score else max_score)
        (if larger then r.rating else max_rating) ss in
    if r.failed then record { score = none; rating = unknown_rating; failed = true } else rest

unfoldable pub calculate_overall_score : Cvss → List Severity → Scored
unfolding overall_from
calculate_overall_score cvss ss = overall_from cvss none unknown_rating ss

-- The inner loop of `MaxSeverity`: the severities of the last vulnerability with the identifier.
unfoldable pub severities_of : Text → List Severity → List Vulnerability → List Severity
severities_of id found [] = found
severities_of id found (v ∷ vs) =
    severities_of id (if text_eq v.id id then v.severity else found) vs

unfoldable pub max_score : Score → Score → Score
max_score a b = if score_gt b a then b else a

-- The loop of `MaxSeverity` over `group.IDs`.
unfoldable pub max_severity_from : Cvss → Score → List Text → List Vulnerability → Score
max_severity_from cvss m [] vs = m
max_severity_from cvss m (id ∷ ids) vs =
    max_severity_from cvss
      (max_score m (calculate_overall_score cvss (severities_of id [] vs)).score) ids vs

-- `fmt.Sprintf("%.1f", maxSeverity)` on tenths.
unfoldable pub one_decimal : ℕ → Text
one_decimal s = decimal (s / 10) ++ (b'.' ∷ (b'0' + s % 10) ∷ [])

unfoldable pub max_severity : Cvss → GroupInfo → PackageVulns → Text
max_severity cvss group pkg = elim (max_severity_from cvss none group.ids pkg.vulnerabilities) [
  | none ↦ []
  | some s ↦ one_decimal s
]
