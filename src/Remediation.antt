-- ===== src/Remediation.antt =====
-- internal/remediation/remediation.go: which vulnerabilities a remediation considers. `MinSeverity` is
-- in tenths, rounded, and `MaxDepth` is 0 for every depth that is not positive. The root of a graph is
-- its node 0.
pub mod Match
mod Tests
use osv_scanner.Prelude.{
  Bool, List, Text, [], any, contains, false, if◌then◌else◌, leb, length, ltb, none, not, some,
  true, ℕ, ◌&&◌, ◌==◌, ◌||◌, ◌∷◌,
}
use osv_scanner.Osv.{Severity}
use osv_scanner.Severity.{Cvss, Score, calculate_score, score_gt}
use osv_scanner.Subgraph.{DependencySubgraph, node_at}

-- `resolution.Vulnerability`; `osv` is its advisory.
pub record Vulnerability : Type 0 where
  pub osv : osv_scanner.Osv.Vulnerability
  pub dev_only : Bool
  pub subgraphs : List DependencySubgraph

-- The fields that `MatchVuln` reads.
pub record Options : Type 0 where
  pub ignore_vulns : List Text
  pub explicit_vulns : List Text
  pub dev_deps : Bool
  pub min_severity : ℕ
  pub max_depth : ℕ

unfoldable pub match_id : Vulnerability → List Text → Bool
match_id v ids = contains ids v.osv.id || any (contains ids) v.osv.aliases

-- The loop over the severities.
unfoldable pub greatest_score : Cvss → Score → List Severity → Score
greatest_score cvss greatest [] = greatest
greatest_score cvss greatest (s ∷ ss) =
    let score = (calculate_score cvss s).score in
    greatest_score cvss (if score_gt score greatest then score else greatest) ss

-- The test behind the loop.
unfoldable pub is_severe : ℕ → Score → Bool
is_severe least none = true
is_severe least (some score) = leb least score

unfoldable pub match_severity : Cvss → Options → Vulnerability → Bool
unfolding greatest_score is_severe
match_severity cvss opts v = is_severe opts.min_severity (greatest_score cvss none v.osv.severity)

unfoldable pub match_depth : Options → Vulnerability → Bool
match_depth opts v =
    if opts.max_depth == 0
    then true
    else any (λ (sg : DependencySubgraph). leb (node_at 0 sg.nodes).distance opts.max_depth)
        v.subgraphs

unfoldable pub match_vuln : Cvss → Options → Vulnerability → Bool
unfolding match_id match_severity match_depth
match_vuln cvss opts v =
    if match_id v opts.ignore_vulns
    then false
    else if ltb 0 (length opts.explicit_vulns) && not (match_id v opts.explicit_vulns)
    then false
    else if not opts.dev_deps && v.dev_only
    then false
    else match_severity cvss opts v && match_depth opts v
