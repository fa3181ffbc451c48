-- ===== src/Remediation/Match.antt =====
-- When `MatchVuln` of internal/remediation/remediation.go considers a vulnerability.
use osv_scanner.Subgraph.Complete.{compute_subgraph_lem, Depends}
use osv_scanner.Subgraph.{compute_subgraph, node_at, Graph, Edge, DependencySubgraph}
use osv_scanner.Prelude.{
  ==_iff, Bool, Bool-cases, List, Text, [], all, any, ap, arith, contains, false, if◌then◌else◌,
  inl, inr, leb, leb→le, length, ltb, map, none, not, refl, some, true, ℕ, ◌&&◌, ◌==◌, ◌||◌, ◌↔◌,
  ◌∙◌, ◌∷◌, ◌≡◌, ◌≤◌, ◌⊎◌,
}
use osv_scanner.Osv.{Severity}
use osv_scanner.Severity.{Cvss, Score, calculate_score, score_gt}
use osv_scanner.Remediation.{
  Options, Vulnerability, greatest_score, is_severe, match_depth, match_id, match_severity,
  match_vuln,
}

-- The scores of the severities.
abbrev pub scores : Cvss → List Severity → List Score
scores cvss ss = map (λ (s : Severity). (calculate_score cvss s).score) ss

-- There is a score, of at least so much.
abbrev pub reaches : ℕ → Score → Bool
reaches least none = false
reaches least (some n) = leb least n

abbrev pub is_scored : Score → Bool
is_scored none = false
is_scored (some n) = true

greatest_of : Score → List Score → Score
greatest_of greatest [] = greatest
greatest_of greatest (score ∷ rest) =
    greatest_of (if score_gt score greatest then score else greatest) rest

greatest_score-scores :
    (cvss : Cvss) (ss : List Severity) (greatest : Score)
    → greatest_score cvss greatest ss ≡ greatest_of greatest (scores cvss ss)
unfolding greatest_score greatest_of
greatest_score-scores cvss [] greatest = refl
greatest_score-scores cvss (s ∷ ss) greatest =
    let score = (calculate_score cvss s).score in
    greatest_score-scores cvss ss (if score_gt score greatest then score else greatest)

is_severe-greatest_of :
    (least n : ℕ) (ss : List Score)
    → is_severe least (greatest_of (some n) ss) ≡ (leb least n || any (reaches least) ss)
unfolding greatest_of is_severe score_gt
is_severe-greatest_of least n [] = ground arith
is_severe-greatest_of least n (none ∷ ss) = is_severe-greatest_of least n ss
is_severe-greatest_of least n (some m ∷ ss) =
    ground (arith, is_severe-greatest_of least n ss, is_severe-greatest_of least m ss)

is_severe-greatest_of-none :
    (least : ℕ) (ss : List Score)
    → is_severe least (greatest_of none ss) ≡ (any (reaches least) ss || not (any is_scored ss))
unfolding greatest_of is_severe score_gt
is_severe-greatest_of-none least [] = refl
is_severe-greatest_of-none least (none ∷ ss) = is_severe-greatest_of-none least ss
is_severe-greatest_of-none least (some m ∷ ss) = ground (arith, is_severe-greatest_of least m ss)

-- The vulnerability or one of its aliases is listed.
abbrev pub is_listed : Vulnerability → List Text → Bool
is_listed v listed = any (contains listed) (v.osv.id ∷ v.osv.aliases)

-- A vulnerability is considered exactly if none of its identifiers is ignored; the explicit list is
-- empty or has one of them; it is not for development only, unless those are considered; one of its
-- scores is the least or more, or it has none; and the depth is not limited or the root is not deeper
-- in one of its subgraphs.
pub match_vuln_lem :
    (cvss : Cvss) (opts : Options) (v : Vulnerability)
    → let found = scores cvss v.osv.severity in
      match_vuln cvss opts v ≡ (
        not (is_listed v opts.ignore_vulns)
        && ((length opts.explicit_vulns == 0 || is_listed v opts.explicit_vulns)
            && ((opts.dev_deps || not v.dev_only)
                && ((any (reaches opts.min_severity) found || not (any is_scored found))
                    && (opts.max_depth == 0
                        || any
                            (λ (sg : DependencySubgraph).
                              leb (node_at 0 sg.nodes).distance opts.max_depth)
                            v.subgraphs)))))
unfolding match_vuln match_id match_severity match_depth
match_vuln_lem cvss opts v =
    let severe : match_severity cvss opts v ≡ (
        any (reaches opts.min_severity) (scores cvss v.osv.severity)
        || not (any is_scored (scores cvss v.osv.severity))) =
      ap (is_severe opts.min_severity) (greatest_score-scores cvss v.osv.severity none)
      ∙ is_severe-greatest_of-none opts.min_severity (scores cvss v.osv.severity) in
    ground (arith, severe)

-- For a vulnerability with the subgraph that is computed for a node on which the root depends, the
-- depth matches exactly if it is not limited or the root depends on the node over that many edges or
-- fewer.
pub match_depth-compute_subgraph :
    (opts : Options) (v : Vulnerability) (g : Graph) (target k : ℕ)
    → all (λ (e : Edge). ltb e.from (length g.versions)) g.edges ≡ true
    → ltb target (length g.versions) ≡ true
    → Depends g.edges target k 0
    → (d : DependencySubgraph) × (compute_subgraph g target ≡ some d)
      × ((match_depth opts (record v { subgraphs = d ∷ [] }) ≡ true)
          ↔ ((opts.max_depth ≡ 0) ⊎ ((j : ℕ) × (j ≤ opts.max_depth) × Depends g.edges target j 0)))
unfolding match_depth
match_depth-compute_subgraph opts v g target k in_graph h depends =
    let (d, run, nodes, shortest) = compute_subgraph_lem g target in_graph h in
    let (path, least) = shortest 0 k depends in
    let depth = (node_at 0 d.nodes).distance in
    (
      d,
      run,
      (
        λ e. elim (Bool-cases (opts.max_depth == 0)) [
          | inl free ↦ inl ((==_iff opts.max_depth 0).0 free)
          | inr bound ↦
              let near : leb depth opts.max_depth ≡ true = ground (arith, e) in
              inr (depth, leb→le depth opts.max_depth near, path)
        ],
        λ c. elim c [
          | inl free ↦ ground (arith, (==_iff opts.max_depth 0).1 free)
          | inr (j, near, path') ↦ let le = least j path' in ground (arith, near, le)
        ],
      ),
    )
