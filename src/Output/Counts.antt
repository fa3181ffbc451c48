-- ===== src/Output/Counts.antt =====
-- The counts of internal/output/output_result.go, and `CalculateRating` of
-- internal/utility/severity/severity.go. Counts are Go's int, far from overflow.
use osv_scanner.Prelude.{
  Bool, List, Option, Text, [], codes, if◌then◌else◌, length, none, some, text_eq, ℕ, ◌+◌, ◌∷◌,
}
use osv_scanner.Severity.{Cvss, unknown_rating}

pub record SeverityCount : Type 0 where
  pub critical : ℕ
  pub high : ℕ
  pub medium : ℕ
  pub low : ℕ
  pub unknown : ℕ

pub record AnalysisCount : Type 0 where
  pub regular : ℕ
  pub hidden : ℕ

pub record FixableCount : Type 0 where
  pub fixed : ℕ
  pub unfixed : ℕ

pub record VulnCount : Type 0 where
  pub analysis_count : AnalysisCount
  pub severity_count : SeverityCount
  pub fixable_count : FixableCount

-- `VulnAnalysisType`.
pub data VulnAnalysisType : Type 0 where
  vuln_type_regular vuln_type_uncalled vuln_type_unimportant : VulnAnalysisType

pub record VulnResult : Type 0 where
  pub id : Text
  pub group_ids : List Text
  pub aliases : List Text
  pub description : Text
  pub is_fixable : Bool
  pub fixed_version : Text
  pub vuln_analysis_type : VulnAnalysisType
  pub severity_rating : Text
  pub severity_score : Text

-- The zero values.
abbrev pub no_severities : SeverityCount
no_severities = record { critical = 0; high = 0; medium = 0; low = 0; unknown = 0 }

abbrev pub no_vulns : VulnCount
no_vulns = record {
  analysis_count = record { regular = 0; hidden = 0 };
  severity_count = no_severities;
  fixable_count = record { fixed = 0; unfixed = 0 };
}

unfoldable pub add_severity_count : SeverityCount → SeverityCount → SeverityCount
add_severity_count c other = record {
  critical = c.critical + other.critical;
  high = c.high + other.high;
  medium = c.medium + other.medium;
  low = c.low + other.low;
  unknown = c.unknown + other.unknown;
}

unfoldable pub add_analysis_count : AnalysisCount → AnalysisCount → AnalysisCount
add_analysis_count c other = record {
  regular = c.regular + other.regular;
  hidden = c.hidden + other.hidden;
}

unfoldable pub add_fixable_count : FixableCount → FixableCount → FixableCount
add_fixable_count c other = record {
  fixed = c.fixed + other.fixed;
  unfixed = c.unfixed + other.unfixed;
}

unfoldable pub add_vuln_count : VulnCount → VulnCount → VulnCount
unfolding add_severity_count add_analysis_count add_fixable_count
add_vuln_count v other = record {
  analysis_count = add_analysis_count v.analysis_count other.analysis_count;
  severity_count = add_severity_count v.severity_count other.severity_count;
  fixable_count = add_fixable_count v.fixable_count other.fixable_count;
}

-- A rating of another name is not counted.
unfoldable pub increase_severity_count : SeverityCount → Text → SeverityCount
increase_severity_count c rating =
    if text_eq rating (codes "CRITICAL")
    then record c { critical = c.critical + 1 }
    else if text_eq rating (codes "HIGH")
    then record c { high = c.high + 1 }
    else if text_eq rating (codes "MEDIUM")
    then record c { medium = c.medium + 1 }
    else if text_eq rating (codes "LOW")
    then record c { low = c.low + 1 }
    else if text_eq rating unknown_rating
    then record c { unknown = c.unknown + 1 }
    else c

-- The loop over the regular vulnerabilities.
unfoldable pub count_regular : List VulnResult → VulnCount → VulnCount
unfolding increase_severity_count
count_regular [] c = c
count_regular (v ∷ vs) c =
    let fixable =
      (if v.is_fixable
        then record c.fixable_count { fixed = c.fixable_count.fixed + 1 }
        else record c.fixable_count { unfixed = c.fixable_count.unfixed + 1 }) in
    count_regular vs (record c {
      fixable_count = fixable;
      severity_count = increase_severity_count c.severity_count v.severity_rating;
    })

unfoldable pub calculate_count : List VulnResult → List VulnResult → VulnCount
unfolding count_regular
calculate_count regular_vulns hidden_vulns = record (count_regular regular_vulns no_vulns) {
  analysis_count = record { regular = length regular_vulns; hidden = length hidden_vulns };
}

-- `parse_float` is `strconv.ParseFloat`, in tenths as the scores of `Cvss`. The error, which the
-- caller drops, is left out.
unfoldable pub calculate_rating : (Text → Option ℕ) → Cvss → Text → Text
calculate_rating parse_float cvss score = elim (parse_float score) [
  | none ↦ unknown_rating
  | some parsed ↦ elim (cvss.rating_30 parsed) [
    | none ↦ unknown_rating
    | some rating ↦ if text_eq rating (codes "NONE") then unknown_rating else rating
  ]
]
