-- ===== src/Subgraph/Complete.antt =====
-- The whole search of internal/resolution/dependency_subgraph.go.
use mathlib.Core.Path.{subst}
use osv_scanner.Subgraph.{
  DependencySubgraph, Edge, Graph, GraphNode, Search, compute_subgraph, has_id, node_at,
  parent_edges, process_levels, start_search,
}
use osv_scanner.Prelude.{
  ==_iff, Bool, Bool-cases, List, [], all, any, ap, arith, false, if◌then◌else◌, inl, inr, leb,
  leb→le, length, ltb, refl, some, suc, sym, true, zero, ℕ, ◌&&◌, ◌+◌, ◌<◌, ◌==◌, ◌||◌, ◌↔◌, ◌∙◌,
  ◌∷◌, ◌≡◌, ◌≤◌,
}
use osv_scanner.Subgraph.{
  DependencySubgraph, Edge, Graph, GraphNode, Search, compute_subgraph, has_id, node_at,
  parent_edges, process_levels, start_search,
}
use osv_scanner.Subgraph.Reach.{
  Visited, ids, parent_ids, parent_of_any, process_nodes-Visited, unseen,
}

-- There is an edge between the nodes.
abbrev pub has_edge : List Edge → ℕ → ℕ → Bool
has_edge es n b = any (λ (e : Edge). (e.from == n) && (e.to == b)) es

-- The node depends on the target over that many edges.
abbrev pub Depends : List Edge → ℕ → ℕ → ℕ → Type 0
Depends es target zero n = n ≡ target
Depends es target (suc k) n = (b : ℕ) × (has_edge es n b ≡ true) × Depends es target k b

edge_of_parent :
    (es : List Edge) (b n : ℕ) → has_id (parent_ids es b) n ≡ true → has_edge es n b ≡ true
unfolding parent_edges
edge_of_parent [] b n h = h
edge_of_parent (e ∷ es) b n h = ground (arith, edge_of_parent es b n)

parent_of_edge :
    (es : List Edge) (b n : ℕ)
    → has_edge es n b ≡ true
    → (n == b) ≡ false
    → has_id (parent_ids es b) n ≡ true
unfolding parent_edges
parent_of_edge [] b n h k = h
parent_of_edge (e ∷ es) b n h k = ground (arith, parent_of_edge es b n)

any-witness :
    (p : ℕ → Bool) (ns : List ℕ) → any p ns ≡ true → (n : ℕ) × (has_id ns n ≡ true) × (p n ≡ true)
any-witness p [] h = cc
any-witness p (n ∷ ns) h = elim (Bool-cases (p n)) [
  | inl e ↦ (n, ground arith, e)
  | inr e ↦ let (m, member, holds) = any-witness p ns (ground arith) in (m, ground arith, holds)
]

any-of : (p : ℕ → Bool) (ns : List ℕ) (n : ℕ) → has_id ns n ≡ true → p n ≡ true → any p ns ≡ true
any-of p [] n h k = cc
any-of p (m ∷ ns) n h k =
    ground (arith, any-of p ns n, (λ (e : (m == n) ≡ true). ap p ((==_iff m n).0 e)))

unseen-le : (n : ℕ) (seen : List ℕ) → unseen n seen ≤ n
unseen-le zero seen = omega arith
unseen-le (suc n) seen = ground (arith, unseen-le n seen)

-- It depends on the target over that many edges, and not over fewer.
abbrev pub IsShortest : List Edge → ℕ → ℕ → ℕ → Type 0
IsShortest es target k n = Depends es target k n × ((j : ℕ) → Depends es target j n → k ≤ j)

module _ (g : Graph) (target : ℕ)
    (in_graph : all (λ (e : Edge). ltb e.from (length g.versions)) g.edges ≡ true) where
  -- Before the level of a distance: what is seen, what has its distance, and what is next.
  record Inv (distance : ℕ) (s : Search) : Type 0 where
    level : (a : ℕ) → has_id s.next a ≡ true → IsShortest g.edges target distance a
    shortest :
        (a : ℕ)
        → has_id s.seen a ≡ true
        → has_id s.next a ≡ false
        → IsShortest g.edges target (node_at a s.g_nodes).distance a
    reached : (j a : ℕ) → j ≤ distance → Depends g.edges target j a → has_id s.seen a ≡ true
    closed :
        (b a : ℕ)
        → has_id s.seen b ≡ true
        → has_id s.next b ≡ false
        → has_id (parent_ids g.edges b) a ≡ true
        → has_id s.seen a ≡ true
    pending : (a : ℕ) → has_id s.next a ≡ true → has_id s.seen a ≡ true
    keys : (a : ℕ) → ((target == a) || has_id (ids s.g_nodes) a) ≡ has_id s.seen a
    in_range : all (λ i. ltb i (length g.versions)) s.next ≡ true

  module _ (distance : ℕ) (gn : List (ℕ × GraphNode)) (seen ns : List ℕ) (s' : Search)
      (inv : Inv distance (record { g_nodes = gn; seen = seen; next = ns }))
      (v : Visited
        (length g.versions)
        (parent_of_any g.edges ns)
        (record { g_nodes = gn; seen = seen; next = [] })
        s') where
    -- A node that is seen after the level and not next was seen before.
    seen_before :
        (b : ℕ) → has_id s'.seen b ≡ true → has_id s'.next b ≡ false → has_id seen b ≡ true
    seen_before b h not_next = ground (arith, v.seen_ids b, v.next_ids b)

    level-closed :
        (b a : ℕ)
        → has_id seen b ≡ true
        → has_id (parent_ids g.edges b) a ≡ true
        → has_id s'.seen a ≡ true
    level-closed b a h parent = elim (Bool-cases (has_id ns b)) [
      | inl now ↦
          let added = any-of (λ n. has_id (parent_ids g.edges n) a) ns b now parent in
          ground (arith, v.seen_ids a, added)
      | inr before ↦ ground (arith, v.seen_ids a, inv.closed b a h before parent)
    ]

    level-reached :
        (j a : ℕ) → j ≤ distance + 1 → Depends g.edges target j a → has_id s'.seen a ≡ true
    level-reached zero a h depends =
        ground (arith, v.seen_ids a, inv.reached 0 a (omega arith) depends)
    level-reached (suc j) a h (b, edge, depends) =
        let b_seen = inv.reached j b (omega (arith, h)) depends in
        elim (Bool-cases (a == b)) [
          | inl same ↦
              let a_seen = subst (λ x. has_id seen x ≡ true) (sym ((==_iff a b).0 same)) b_seen in
              ground (arith, v.seen_ids a, a_seen)
          | inr apart ↦ level-closed b a b_seen (parent_of_edge g.edges b a edge apart)
        ]

    level-level : (a : ℕ) → has_id s'.next a ≡ true → IsShortest g.edges target (suc distance) a
    level-level a h =
        let (n, member, parent) =
          any-witness (λ n. has_id (parent_ids g.edges n) a) ns (ground (arith, v.next_ids a)) in
        let (depends, least) = inv.level n member in
        let new : has_id seen a ≡ false = ground (arith, v.next_ids a) in
        (
          (n, edge_of_parent g.edges n a parent, depends),
          λ j path. elim (Bool-cases (leb j distance)) [
            | inl early ↦
                absurd (ground (arith, new, inv.reached j a (leb→le j distance early) path))
            | inr late ↦ ground (arith, late)
          ],
        )

  level-Inv :
      (distance : ℕ) (gn : List (ℕ × GraphNode)) (seen ns : List ℕ) (s' : Search)
      → Inv distance (record { g_nodes = gn; seen = seen; next = ns })
      → Visited
          (length g.versions)
          (parent_of_any g.edges ns)
          (record { g_nodes = gn; seen = seen; next = [] })
          s'
      → ((a : ℕ)
          → has_id (ids s'.g_nodes) a
            ≡ (has_id ns a || (parent_of_any g.edges ns a || has_id (ids gn) a)))
      → ((a : ℕ)
          → (node_at a s'.g_nodes).distance
            ≡ (if has_id ns a then distance else (node_at a gn).distance))
      → Inv (distance + 1) s'
  level-Inv distance gn seen ns s' inv v keys distances = record {
    level = λ a h.
        let more : suc distance ≡ distance + 1 = omega arith in
        subst (λ k. IsShortest g.edges target k a) more
          (level-level distance gn seen ns s' inv v a h);
    shortest = λ a h not_next.
        let before = seen_before distance gn seen ns s' inv v a h not_next in
        elim (Bool-cases (has_id ns a)) [
          | inl now ↦
              subst (λ k. IsShortest g.edges target k a) (sym (rw now at (distances a)))
                (inv.level a now)
          | inr earlier ↦
              subst (λ k. IsShortest g.edges target k a) (sym (rw earlier at (distances a)))
                (inv.shortest a before earlier)
        ];
    reached = level-reached distance gn seen ns s' inv v;
    closed = λ b a h not_next parent.
        level-closed distance gn seen ns s' inv v b a
          (seen_before distance gn seen ns s' inv v b h not_next) parent;
    pending = λ a h. ground (arith, v.seen_ids a, v.next_ids a);
    keys = λ a. ground (arith, keys a, v.seen_ids a, inv.keys a, inv.pending a);
    in_range = v.in_range refl;
  }

  process_levels-Inv :
      (fuel distance : ℕ) (gn : List (ℕ × GraphNode)) (seen ns : List ℕ)
      → Inv distance (record { g_nodes = gn; seen = seen; next = ns })
      → unseen (length g.versions) seen + (if ltb 0 (length ns) then 1 else 0) < fuel
      → (s' : Search) × (process_levels fuel g distance
            (record { g_nodes = gn; seen = seen; next = ns })
          ≡ some s')
        × (s'.next ≡ [])
        × ((d : ℕ) × Inv d s')
  unfolding process_levels
  process_levels-Inv zero distance gn seen ns inv h = absurd (omega arith)
  process_levels-Inv (suc fuel) distance gn seen [] inv h =
      (record { g_nodes = gn; seen = seen; next = [] }, refl, refl, (distance, inv))
  process_levels-Inv (suc fuel) distance gn seen (n ∷ ns) inv h =
      let start : Search = record { g_nodes = gn; seen = seen; next = [] } in
      let (s1, run, visited, keys, distances) =
        process_nodes-Visited g in_graph distance (n ∷ ns) start inv.in_range in
      let inv1 = level-Inv distance gn seen (n ∷ ns) s1 inv visited keys distances in
      let (s2, run2, done, inv2) =
        process_levels-Inv fuel (distance + 1) s1.g_nodes s1.seen s1.next inv1
          (ground (arith, visited.measure, h)) in
      (s2, rw (process_levels, run) run2, done, inv2)

  start-reached : (j a : ℕ) → j ≤ 0 → Depends g.edges target j a → has_id (target ∷ []) a ≡ true
  start-reached zero a le path = ground (arith, (==_iff target a).1 (sym path))
  start-reached (suc j) a le path = absurd (omega (arith, le))

  start-Inv : ltb target (length g.versions) ≡ true → Inv 0 (start_search target)
  start-Inv h = record {
    level = λ a e. (sym ((==_iff target a).0 (ground (arith, e))), λ j path. omega arith);
    shortest = λ a e f. absurd (ground (arith, e, f));
    reached = start-reached;
    closed = λ b a e f. ground arith;
    pending = λ a e. e;
    keys = λ a. ground arith;
    in_range = ground arith;
  }

  complete :
      (d : ℕ) (s : Search)
      → Inv d s
      → s.next ≡ []
      → (k a : ℕ) → Depends g.edges target k a
      → has_id s.seen a ≡ true
  complete d s inv done zero a e = ground (arith, inv.keys a, (==_iff target a).1 (sym e))
  complete d s inv done (suc k) a (b, edge, depends) =
      let b_seen = complete d s inv done k b depends in
      elim (Bool-cases (a == b)) [
        | inl same ↦ subst (λ x. has_id s.seen x ≡ true) (sym ((==_iff a b).0 same)) b_seen
        | inr apart ↦
            inv.closed b a b_seen (ap (λ xs. has_id xs b) done)
              (parent_of_edge g.edges b a edge apart)
      ]

-- In a graph whose edges come from nodes of it, the subgraph of a node of it is computed; its nodes,
-- with that node itself, are exactly those that depend on it, directly or over others, and the
-- distance of each is the least number of edges over which it does.
pub compute_subgraph_lem :
    (g : Graph) (target : ℕ)
    → all (λ (e : Edge). ltb e.from (length g.versions)) g.edges ≡ true
    → ltb target (length g.versions) ≡ true
    → (d : DependencySubgraph) × (compute_subgraph g target ≡ some d)
      × ((a : ℕ)
          → (((target == a) || has_id (ids d.nodes) a) ≡ true)
            ↔ ((k : ℕ) × Depends g.edges target k a))
      × ((a k : ℕ)
          → Depends g.edges target k a
          → IsShortest g.edges target (node_at a d.nodes).distance a)
unfolding compute_subgraph
compute_subgraph_lem g target in_graph h =
    let (s, run, done, (last, inv)) =
      process_levels-Inv g target in_graph (length g.versions + 2) 0 [] (target ∷ []) (target ∷ [])
        (start-Inv g target in_graph h)
        (ground (arith, unseen-le (length g.versions) (target ∷ []))) in
    let finished : (a : ℕ) → has_id s.next a ≡ false = λ a. ap (λ xs. has_id xs a) done in
    (
      record { dependency = target; nodes = s.g_nodes },
      rw (compute_subgraph, run) refl,
      λ a. (
        λ e.
            let (path, least) = inv.shortest a (sym (inv.keys a) ∙ e) (finished a) in
            ((node_at a s.g_nodes).distance, path),
        λ (k, depends). inv.keys a ∙ complete g target in_graph last s inv done k a depends,
      ),
      λ a k depends.
          inv.shortest a (complete g target in_graph last s inv done k a depends) (finished a),
    )
