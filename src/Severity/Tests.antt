-- ===== src/Severity/Tests.antt =====
-- Concrete severities, with a stand-in for the CVSS packages.
use osv_scanner.Prelude.{[], codes, false, has_prefix, length, none, refl, some, ◌+◌, ◌∷◌, ◌≡◌, ◌⊎◌}
use osv_scanner.Osv.{Severity, cvss_v2, cvss_v3}
use osv_scanner.Severity.Defs.{Cvss, calculate_overall_score, calculate_score, unknown_rating}
use osv_scanner.Severity.Overall.{Attained, Covers, calculate_overall_score_lem}

abbrev cvss : Cvss
cvss = record {
  score_20 = λ t. some (length t);
  score_30 = λ t. none;
  score_31 = λ t. some (10 + length t);
  score_40 = λ t. none;
  rating_30 = λ s. some (codes "LOW");
  rating_31 = λ s. some (codes "LOW");
  rating_40 = λ s. some (codes "LOW");
}

abbrev low : Severity
low = record { type = cvss_v2; score = codes "AV:N" }

abbrev high : Severity
high = record { type = cvss_v3; score = codes "CVSS:3.1/AV:N" }

abbrev broken : Severity
broken = record { type = cvss_v3; score = codes "CVSS:3.0/AV:N" }

calculate_overall_score_lem_example :
    let o = calculate_overall_score cvss (low ∷ high ∷ low ∷ []) in
    (o.failed ≡ false)
    × Covers cvss o.score (low ∷ high ∷ low ∷ [])
    × (((o.score ≡ none) × (o.rating ≡ unknown_rating)) ⊎ Attained cvss o (low ∷ high ∷ low ∷ []))
unfolding calculate_score has_prefix
calculate_overall_score_lem_example = calculate_overall_score_lem cvss (low ∷ high ∷ low ∷ []) refl
