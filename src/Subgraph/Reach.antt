-- ===== src/Subgraph/Reach.antt =====
-- What one level of the search of internal/resolution/dependency_subgraph.go adds.
use osv_scanner.Prelude.{
  ==_iff, Bool, Bool-cases, List, Text, [], all, any, ap, arith, false, get_elem?, if◌then◌else◌,
  inl, inr, keep, length, length-append, ltb, map, not, refl, some, suc, sym, true, zero, ℕ, ◌&&◌,
  ◌++◌, ◌+◌, ◌==◌, ◌||◌, ◌∙◌, ◌∷◌, ◌≡◌,
}
use osv_scanner.Subgraph.{
  Edge, Graph, GraphNode, Search, has_id, node_at, parent_edges, process_nodes, set_node,
  visit_parent, visit_parents,
}

abbrev pub parent_ids : List Edge → ℕ → List ℕ
parent_ids es n = map (λ (e : Edge). e.from) (parent_edges es n)

abbrev pub ids : List (ℕ × GraphNode) → List ℕ
ids m = map (λ (e : ℕ × GraphNode). e.0) m

abbrev pub parent_of_any : List Edge → List ℕ → ℕ → Bool
parent_of_any es ns a = any (λ n. has_id (parent_ids es n) a) ns

-- How many of the nodes below `n` are not seen.
abbrev pub unseen : ℕ → List ℕ → ℕ
unseen zero seen = 0
unseen (suc n) seen = unseen n seen + (if has_id seen n then 0 else 1)

has_id-set_node :
    (n : ℕ) (v : GraphNode) (m : List (ℕ × GraphNode)) (a : ℕ)
    → has_id (ids (set_node n v m)) a ≡ ((n == a) || has_id (ids m) a)
unfolding set_node
has_id-set_node n v [] a = refl
has_id-set_node n v ((k, w) ∷ m) a = ground (arith, has_id-set_node n v m a)

has_id-append : (xs ys : List ℕ) (a : ℕ) → has_id (xs ++ ys) a ≡ (has_id xs a || has_id ys a)
has_id-append [] ys a = refl
has_id-append (x ∷ xs) ys a = ground (arith, has_id-append xs ys a)

unseen-cons :
    (n : ℕ) (a : ℕ) (seen : List ℕ)
    → has_id seen a ≡ false
    → unseen n (a ∷ seen) + (if ltb a n then 1 else 0) ≡ unseen n seen
unseen-cons zero a seen h = ground arith
unseen-cons (suc n) a seen h = ground (arith, unseen-cons n a seen h)

-- What a part of the search adds: the nodes that were to be visited.
pub record Visited (n : ℕ) (added : ℕ → Bool) (s s' : Search) : Type 0 where
  pub seen_ids : (a : ℕ) → has_id s'.seen a ≡ (added a || has_id s.seen a)
  pub next_ids :
      (a : ℕ) → has_id s'.next a ≡ (has_id s.next a || (added a && not (has_id s.seen a)))
  pub measure : unseen n s'.seen + length s'.next ≡ unseen n s.seen + length s.next
  pub in_range : all (λ i. ltb i n) s.next ≡ true → all (λ i. ltb i n) s'.next ≡ true

all-append : (p : ℕ → Bool) (xs ys : List ℕ) → all p (xs ++ ys) ≡ (all p xs && all p ys)
all-append p [] ys = refl
all-append p (x ∷ xs) ys = ground (arith, all-append p xs ys)

has_id_same : (x a : ℕ) (xs : List ℕ) → (x == a) ≡ true → has_id xs a ≡ has_id xs x
has_id_same x a xs e = ap (has_id xs) (sym ((==_iff x a).0 e))

visit_parent-Visited :
    (n : ℕ) (e : Edge) (s : Search)
    → ltb e.from n ≡ true
    → Visited n (λ a. e.from == a) s (visit_parent e s)
unfolding visit_parent
visit_parent-Visited n e s h = elim (Bool-cases (has_id s.seen e.from)) [
  | inl known ↦
      rw (visit_parent, known)
        (record {
          seen_ids = λ a. ground (arith, has_id_same e.from a s.seen);
          next_ids = λ a. ground (arith, has_id_same e.from a s.seen);
          measure = refl;
          in_range = λ r. r;
        })
  | inr new ↦
      rw (visit_parent, new)
        (record {
          seen_ids = λ a. refl;
          next_ids = λ a.
              ground (arith, has_id-append s.next (e.from ∷ []) a, has_id_same e.from a s.seen);
          measure =
              ground (arith, unseen-cons n e.from s.seen new, length-append s.next (e.from ∷ []));
          in_range = λ r. ground (arith, all-append (λ i. ltb i n) s.next (e.from ∷ []));
        })
]

-- Parts of the search follow one another.
Visited-trans :
    (n : ℕ) (added added' : ℕ → Bool) (s s' s'' : Search)
    → Visited n added s s'
    → Visited n added' s' s''
    → Visited n (λ a. added a || added' a) s s''
Visited-trans n added added' s s' s'' v w = record {
  seen_ids = λ a. ground (arith, v.seen_ids a, w.seen_ids a);
  next_ids = λ a. ground (arith, v.seen_ids a, v.next_ids a, w.next_ids a);
  measure = w.measure ∙ v.measure;
  in_range = λ r. w.in_range (v.in_range r);
}

-- The distances of the nodes, which visiting the parents keeps.
node_at-set_node :
    (n : ℕ) (v : GraphNode) (m : List (ℕ × GraphNode)) (a : ℕ)
    → (node_at a (set_node n v m)).distance
      ≡ (if n == a then v.distance else (node_at a m).distance)
unfolding node_at set_node
node_at-set_node n v [] a = ground arith
node_at-set_node n v ((k, w) ∷ m) a = ground (arith, node_at-set_node n v m a)

-- Only what is added counts.
Visited-cong :
    (n : ℕ) (added added' : ℕ → Bool) (s s' : Search)
    → ((a : ℕ) → added a ≡ added' a)
    → Visited n added s s'
    → Visited n added' s s'
Visited-cong n added added' s s' h v = record {
  seen_ids = λ a. ground (arith, v.seen_ids a, h a);
  next_ids = λ a. ground (arith, v.next_ids a, h a);
  measure = v.measure;
  in_range = v.in_range;
}

Visited-none : (n : ℕ) (s : Search) → Visited n (λ a. false) s s
Visited-none n s = record {
  seen_ids = λ a. refl;
  next_ids = λ a. ground arith;
  measure = refl;
  in_range = λ r. r;
}

visit_parents-Visited :
    (n : ℕ) (es : List Edge) (s : Search)
    → all (λ (e : Edge). ltb e.from n) es ≡ true
    → Visited n (λ a. has_id (map (λ (e : Edge). e.from) es) a) s (visit_parents es s)
unfolding visit_parents
visit_parents-Visited n [] s h = Visited-none n s
visit_parents-Visited n (e ∷ es) s h =
    Visited-trans n (λ a. e.from == a) (λ a. has_id (map (λ (x : Edge). x.from) es) a) s
      (visit_parent e s) (visit_parents es (visit_parent e s))
      (visit_parent-Visited n e s (ground arith))
      (visit_parents-Visited n es (visit_parent e s) (ground arith))

-- The keys that are added to the map of nodes.
has_id-visit_parent :
    (e : Edge) (s : Search) (a : ℕ)
    → has_id (ids (visit_parent e s).g_nodes) a ≡ ((e.from == a) || has_id (ids s.g_nodes) a)
unfolding visit_parent
has_id-visit_parent e s a =
    let p = node_at e.from s.g_nodes in
    let v : GraphNode = record p { children = p.children ++ e ∷ [] } in
    elim (Bool-cases (has_id s.seen e.from)) [
      | inl known ↦ rw (visit_parent, known) (has_id-set_node e.from v s.g_nodes a)
      | inr new ↦ rw (visit_parent, new) (has_id-set_node e.from v s.g_nodes a)
    ]

has_id-visit_parents :
    (es : List Edge) (s : Search) (a : ℕ)
    → has_id (ids (visit_parents es s).g_nodes) a
      ≡ (has_id (map (λ (e : Edge). e.from) es) a || has_id (ids s.g_nodes) a)
unfolding visit_parents
has_id-visit_parents [] s a = refl
has_id-visit_parents (e ∷ es) s a =
    ground (arith, has_id-visit_parents es (visit_parent e s) a, has_id-visit_parent e s a)

distance-visit_parent :
    (e : Edge) (s : Search) (a : ℕ)
    → (node_at a (visit_parent e s).g_nodes).distance ≡ (node_at a s.g_nodes).distance
unfolding visit_parent
distance-visit_parent e s a =
    let p = node_at e.from s.g_nodes in
    let v : GraphNode = record p { children = p.children ++ e ∷ [] } in
    let kept : (if e.from == a then p.distance else (node_at a s.g_nodes).distance)
        ≡ (node_at a s.g_nodes).distance =
      elim (Bool-cases (e.from == a)) [
        | inl same ↦ rw same (ap (λ n. (node_at n s.g_nodes).distance) ((==_iff e.from a).0 same))
        | inr apart ↦ rw apart refl
      ] in
    elim (Bool-cases (has_id s.seen e.from)) [
      | inl known ↦ rw (visit_parent, known) (node_at-set_node e.from v s.g_nodes a ∙ kept)
      | inr new ↦ rw (visit_parent, new) (node_at-set_node e.from v s.g_nodes a ∙ kept)
    ]

distance-visit_parents :
    (es : List Edge) (s : Search) (a : ℕ)
    → (node_at a (visit_parents es s).g_nodes).distance ≡ (node_at a s.g_nodes).distance
unfolding visit_parents
distance-visit_parents [] s a = refl
distance-visit_parents (e ∷ es) s a =
    distance-visit_parents es (visit_parent e s) a ∙ distance-visit_parent e s a

all-keep_of : (p q : Edge → Bool) (es : List Edge) → all p es ≡ true → all p (keep q es) ≡ true
all-keep_of p q [] h = refl
all-keep_of p q (e ∷ es) h = ground (arith, all-keep_of p q es)

get_elem?-returns :
    (xs : List Text) (n : ℕ) → ltb n (length xs) ≡ true → (x : Text) × (get_elem? xs n ≡ some x)
get_elem?-returns [] n h = absurd (ground (arith, h))
get_elem?-returns (x ∷ xs) zero h = (x, refl)
get_elem?-returns (x ∷ xs) (suc n) h = get_elem?-returns xs n (ground (arith, h))

module _ (g : Graph)
    (closed : all (λ (e : Edge). ltb e.from (length g.versions)) g.edges ≡ true) where
  -- A level of nodes that are in range is processed: their parents are visited, and they and their
  -- parents get entries.
  pub process_nodes-Visited :
      (distance : ℕ) (ns : List ℕ) (s : Search)
      → all (λ i. ltb i (length g.versions)) ns ≡ true
      → (s' : Search) × (process_nodes g distance ns s ≡ some s')
        × Visited (length g.versions) (parent_of_any g.edges ns) s s'
        × ((a : ℕ)
            → has_id (ids s'.g_nodes) a
              ≡ (has_id ns a || (parent_of_any g.edges ns a || has_id (ids s.g_nodes) a)))
        × ((a : ℕ)
            → (node_at a s'.g_nodes).distance
              ≡ (if has_id ns a then distance else (node_at a s.g_nodes).distance))
  unfolding process_nodes parent_edges
  process_nodes-Visited distance [] s h =
      (s, refl, Visited-none (length g.versions) s, λ a. refl, λ a. refl)
  process_nodes-Visited distance (n ∷ ns) s h =
      let (version, found) = get_elem?-returns g.versions n (ground arith) in
      let parents = parent_edges g.edges n in
      let node = node_at n s.g_nodes in
      let v : GraphNode = record node {
        version = version;
        distance = distance;
        parents = parents;
      } in
      let entered : Search = record s { g_nodes = set_node n v s.g_nodes } in
      let in_range =
        all-keep_of (λ (e : Edge). ltb e.from (length g.versions))
          (λ (e : Edge). not (e.from == e.to) && (e.to == n)) g.edges closed in
      let visited = visit_parents-Visited (length g.versions) parents entered in_range in
      let (s', run, rest, keys, distances) =
        process_nodes-Visited distance ns (visit_parents parents entered) (ground arith) in
      let first : Visited (length g.versions) (has_id (parent_ids g.edges n)) s
          (visit_parents parents entered) =
        record {
          seen_ids = visited.seen_ids;
          next_ids = visited.next_ids;
          measure = visited.measure;
          in_range = visited.in_range;
        } in
      (
        s',
        rw (process_nodes, found) run,
        Visited-trans (length g.versions) (has_id (parent_ids g.edges n)) (parent_of_any g.edges ns)
            s (visit_parents parents entered) s' first rest,
        λ a. ground (
          arith,
          keys a,
          has_id-visit_parents parents entered a,
          has_id-set_node n v s.g_nodes a,
        ),
        λ a. ground (
          arith,
          distances a,
          distance-visit_parents parents entered a,
          node_at-set_node n v s.g_nodes a,
        ),
      )
