-- ===== src/Remediation/Tests.antt =====
-- A vulnerability of a transitive dependency.
use osv_scanner.Osv.{cvss_v3}
use osv_scanner.Prelude.{
  [], any, codes, false, leb, length, none, not, refl, some, true, ℕ, ◌&&◌, ◌==◌, ◌||◌, ◌↔◌, ◌∷◌,
  ◌≡◌, ◌≤◌, ◌⊎◌,
}
use osv_scanner.Severity.{Cvss}
use osv_scanner.Subgraph.{DependencySubgraph, Edge, Graph, compute_subgraph, node_at}
use osv_scanner.Subgraph.Complete.{Depends}
use osv_scanner.Remediation.{Options, Vulnerability, match_depth, match_vuln}
use osv_scanner.Remediation.Match.{
  is_listed, is_scored, match_depth-compute_subgraph, match_vuln_lem, reaches, scores,
}

abbrev cvss : Cvss
cvss = record {
  score_20 = λ t. none;
  score_30 = λ t. none;
  score_31 = λ t. some 75;
  score_40 = λ t. none;
  rating_30 = λ s. none;
  rating_31 = λ s. some (codes "HIGH");
  rating_40 = λ s. none;
}

abbrev vuln : Vulnerability
vuln = record {
  osv = record {
    id = codes "GHSA-1";
    aliases = codes "CVE-1" ∷ [];
    upstream = [];
    related = [];
    summary = [];
    details = [];
    severity = record { type = cvss_v3; score = codes "CVSS:3.1/AV:N" } ∷ [];
    affected = [];
  };
  dev_only = false;
  subgraphs = [];
}

abbrev opts : Options
opts = record {
  ignore_vulns = codes "CVE-2" ∷ [];
  explicit_vulns = codes "CVE-1" ∷ [];
  dev_deps = false;
  min_severity = 70;
  max_depth = 1;
}

match_vuln_lem_example : match_vuln cvss opts vuln ≡ (
    not (is_listed vuln opts.ignore_vulns)
    && ((length opts.explicit_vulns == 0 || is_listed vuln opts.explicit_vulns)
        && ((opts.dev_deps || not vuln.dev_only)
            && ((any (reaches opts.min_severity) (scores cvss vuln.osv.severity)
                  || not (any is_scored (scores cvss vuln.osv.severity)))
                && (opts.max_depth == 0
                    || any
                        (λ (sg : DependencySubgraph).
                          leb (node_at 0 sg.nodes).distance opts.max_depth)
                        vuln.subgraphs)))))
match_vuln_lem_example = match_vuln_lem cvss opts vuln

abbrev edge : ℕ → ℕ → Edge
edge a b = record { from = a; to = b; requirement = [] }

abbrev graph : Graph
graph = record {
  versions = codes "root" ∷ codes "a" ∷ codes "b" ∷ [];
  edges = edge 0 1 ∷ edge 1 2 ∷ [];
}

match_depth-compute_subgraph_example :
    (d : DependencySubgraph) × (compute_subgraph graph 2 ≡ some d)
    × ((match_depth opts (record vuln { subgraphs = d ∷ [] }) ≡ true)
        ↔ ((opts.max_depth ≡ 0) ⊎ ((j : ℕ) × (j ≤ opts.max_depth) × Depends graph.edges 2 j 0)))
match_depth-compute_subgraph_example =
    match_depth-compute_subgraph opts vuln graph 2 2 refl refl (1, refl, (2, refl, refl))
