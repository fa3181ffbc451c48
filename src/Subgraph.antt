-- ===== src/Subgraph.antt =====
-- internal/resolution/dependency_subgraph.go: `ComputeSubgraphs`. A node is its index in the graph, a
-- version key an opaque text, and an edge the fields that are read. `none` is an index out of range,
-- or too little fuel for the levels, of which there are as many as there are nodes at most.
pub mod Reach
pub mod Complete
mod Tests
use osv_scanner.Prelude.{
  Bool, List, Option, Text, [], any, get_elem?, if◌then◌else◌, keep, length, none, not, some, suc,
  zero, ℕ, ◌&&◌, ◌++◌, ◌+◌, ◌==◌, ◌>>=◌, ◌∷◌,
}

pub record Edge : Type 0 where
  pub from : ℕ
  pub to : ℕ
  pub requirement : Text

pub record Graph : Type 0 where
  pub versions : List Text
  pub edges : List Edge

pub record GraphNode : Type 0 where
  pub version : Text
  pub distance : ℕ
  pub parents : List Edge
  pub children : List Edge

pub record DependencySubgraph : Type 0 where
  pub dependency : ℕ
  pub nodes : List (ℕ × GraphNode)

-- The zero value that a missing key gives.
abbrev pub no_node : GraphNode
no_node = record { version = []; distance = 0; parents = []; children = [] }

unfoldable pub node_at : ℕ → List (ℕ × GraphNode) → GraphNode
node_at n [] = no_node
node_at n ((k, v) ∷ m) = if k == n then v else node_at n m

unfoldable pub set_node : ℕ → GraphNode → List (ℕ × GraphNode) → List (ℕ × GraphNode)
set_node n v [] = (n, v) ∷ []
set_node n v ((k, w) ∷ m) = if k == n then (k, v) ∷ m else (k, w) ∷ set_node n v m

abbrev pub has_id : List ℕ → ℕ → Bool
has_id ids n = any (λ i. i == n) ids

-- `parentEdges[n]`: the edges to the node, without those to themselves.
unfoldable pub parent_edges : List Edge → ℕ → List Edge
parent_edges es n = keep (λ (e : Edge). not (e.from == e.to) && (e.to == n)) es

-- `gNodes`, `seen` and `next`.
pub record Search : Type 0 where
  pub g_nodes : List (ℕ × GraphNode)
  pub seen : List ℕ
  pub next : List ℕ

unfoldable pub visit_parent : Edge → Search → Search
unfolding node_at set_node
visit_parent e s =
    let p = node_at e.from s.g_nodes in
    let g_nodes = set_node e.from (record p { children = p.children ++ e ∷ [] }) s.g_nodes in
    if has_id s.seen e.from
    then record s { g_nodes = g_nodes }
    else record { g_nodes = g_nodes; seen = e.from ∷ s.seen; next = s.next ++ e.from ∷ [] }

-- The loop over the parents.
unfoldable pub visit_parents : List Edge → Search → Search
unfolding visit_parent
visit_parents [] s = s
visit_parents (e ∷ es) s = visit_parents es (visit_parent e s)

-- The loop over a level.
unfoldable pub process_nodes : Graph → ℕ → List ℕ → Search → Option Search
unfolding visit_parents parent_edges node_at set_node
process_nodes g distance [] s = some s
process_nodes g distance (n ∷ ns) s = do
  version ← get_elem? g.versions n
  let parents = parent_edges g.edges n
  let node = node_at n s.g_nodes
  let entered = record s {
    g_nodes =
        set_node n (record node { version = version; distance = distance; parents = parents })
          s.g_nodes;
  }
  process_nodes g distance ns (visit_parents parents entered)

-- The loop over the levels.
unfoldable pub process_levels : ℕ → Graph → ℕ → Search → Option Search
unfolding process_nodes
process_levels zero g distance s = none
process_levels (suc fuel) g distance s = elim (s.next) [
  | [] ↦ some s
  | n ∷ ns ↦ process_nodes g distance (n ∷ ns) (record s { next = [] }) >>= λ s'.
      process_levels fuel g (distance + 1) s'
]

abbrev pub start_search : ℕ → Search
start_search n = record { g_nodes = []; seen = n ∷ []; next = n ∷ [] }

unfoldable pub compute_subgraph : Graph → ℕ → Option DependencySubgraph
unfolding process_levels
compute_subgraph g n = do
  s ← process_levels (length g.versions + 2) g 0 (start_search n)
  some (record { dependency = n; nodes = s.g_nodes })

-- The loop over the nodes of interest.
unfoldable pub compute_subgraphs : Graph → List ℕ → Option (List DependencySubgraph)
unfolding compute_subgraph
compute_subgraphs g [] = some []
compute_subgraphs g (n ∷ ns) = do
  s ← compute_subgraph g n
  ss ← compute_subgraphs g ns
  some (s ∷ ss)
