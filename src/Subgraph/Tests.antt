-- ===== src/Subgraph/Tests.antt =====
-- A graph with a direct and a transitive dependency on the last node.
use osv_scanner.Prelude.{[], codes, refl, some, true, ℕ, ◌==◌, ◌||◌, ◌↔◌, ◌∷◌, ◌≡◌}
use osv_scanner.Subgraph.{DependencySubgraph, Edge, Graph, compute_subgraph, has_id, node_at}
use osv_scanner.Subgraph.Reach.{ids}
use osv_scanner.Subgraph.Complete.{Depends, IsShortest, compute_subgraph_lem}

abbrev edge : ℕ → ℕ → Edge
edge a b = record { from = a; to = b; requirement = [] }

abbrev graph : Graph
graph = record {
  versions = codes "root" ∷ codes "a" ∷ codes "b" ∷ [];
  edges = edge 0 1 ∷ edge 1 2 ∷ edge 0 2 ∷ edge 1 1 ∷ [];
}

compute_subgraph_lem_example :
    (d : DependencySubgraph) × (compute_subgraph graph 2 ≡ some d)
    × ((a : ℕ)
        → (((2 == a) || has_id (ids d.nodes) a) ≡ true) ↔ ((k : ℕ) × Depends graph.edges 2 k a))
    × ((a k : ℕ)
        → Depends graph.edges 2 k a
        → IsShortest graph.edges 2 (node_at a d.nodes).distance a)
compute_subgraph_lem_example = compute_subgraph_lem graph 2 refl refl
