-- ===== src/Domain/Graph/Accepted.antt =====
-- What a locked dependency graph that was accepted is like.
use mathlib.Core.List.{Perm}
use heliopause.Base.{
  ==-refl, ==→≡, All, Bool, Bool-cases, List, Option, Result-cases, [], any, ap, arith, contains,
  false, if◌then◌else◌, inl, inr, is_empty, length, length-map, list_eq, nat_eq, none, ok, refl,
  some, subst, suc, true, ℕ, ◌&&◌, ◌+◌, ◌==◌, ◌∷◌, ◌≡◌, ◌≤◌, ◌⊎◌,
}
use heliopause.Base.Coverage.{Distinct, coverage}
use heliopause.Base.Order.{sort, sort-perm}
use heliopause.Domain.Graph.{
  DependencyEdge, DependencyNodeId, DerivedGraphBinding, LockedDependency, LockedDependencyGraph,
  edge_eq, edge_lt, is_inbound, is_primary, max_dependency_edges, max_dependency_nodes, new_graph,
  node_id_eq, node_ids, scan_edges, scan_nodes, search_from, successors,
}
use heliopause.Domain.Graph.Reach.{Reachable, along, at_root}
use heliopause.Domain.Graph.Visited.{search_from-exact}
use heliopause.Text.{text_lt}

-- The nodes that the first loop accepted: complete, under identifiers that are new.
abbrev Scanned : List DependencyNodeId → List LockedDependency → Type 0
Scanned seen [] = Unit
Scanned seen (n ∷ nodes) =
    (is_empty n.artifact.declared_integrity ≡ false)
    × (contains n.node seen ≡ false)
    × Scanned (n.node ∷ seen) nodes

abbrev pub count_primary : List LockedDependency → ℕ
count_primary [] = 0
count_primary (n ∷ nodes) =
    let rest = count_primary nodes in if is_primary n.role then suc rest else rest

abbrev taken : Option DependencyNodeId → ℕ
taken none = 0
taken (some p) = 1

scan_nodes-Scanned :
    (seen : List DependencyNodeId) (found r : Option DependencyNodeId)
    (nodes : List LockedDependency)
    → scan_nodes seen found nodes ≡ ok r
    → Scanned seen nodes × (taken found + count_primary nodes ≡ taken r)
unfolding scan_nodes
scan_nodes-Scanned seen none r [] h = ground arith
scan_nodes-Scanned seen (some p) r [] h = ground arith
scan_nodes-Scanned seen none r (n ∷ nodes) h = elim (Bool-cases (is_primary n.role)) [
  | inl first ↦ rw first (ground (arith, scan_nodes-Scanned (n.node ∷ seen) (some n.node) r nodes))
  | inr later ↦ rw later (ground (arith, scan_nodes-Scanned (n.node ∷ seen) none r nodes))
]
scan_nodes-Scanned seen (some p) r (n ∷ nodes) h = elim (Bool-cases (is_primary n.role)) [
  | inl second ↦ absurd (ground arith)
  | inr later ↦ rw later (ground (arith, scan_nodes-Scanned (n.node ∷ seen) (some p) r nodes))
]

-- The primary that the loop returns was there before, or is one of the nodes.
scan_nodes-found :
    (seen : List DependencyNodeId) (found : Option DependencyNodeId) (p : DependencyNodeId)
    (nodes : List LockedDependency)
    → scan_nodes seen found nodes ≡ ok (some p)
    → (found ≡ some p) ⊎ (contains p (node_ids nodes) ≡ true)
unfolding scan_nodes
scan_nodes-found seen found p [] h = inl (ground arith)
scan_nodes-found seen found p (n ∷ nodes) h = elim (Bool-cases (is_primary n.role)) [
  | inl first ↦ elim (scan_nodes-found (n.node ∷ seen) (some n.node) p nodes (ground arith)) [
    | inl e ↦ let same : n.node ≡ p = cc in inr (rw same (rw (==-refl p)))
    | inr later ↦ inr (ground arith)
  ]
  | inr other ↦ elim (scan_nodes-found (n.node ∷ seen) found p nodes (ground arith)) [
    | inl e ↦ inl e
    | inr later ↦ inr (ground arith)
  ]
]

-- A node of the primary role.
abbrev pub has_primary : DependencyNodeId → List LockedDependency → Bool
has_primary p nodes = any (λ n. n.node == p && is_primary n.role) nodes

scan_nodes-primary :
    (seen : List DependencyNodeId) (found : Option DependencyNodeId) (p : DependencyNodeId)
    (nodes : List LockedDependency)
    → scan_nodes seen found nodes ≡ ok (some p)
    → (found ≡ some p) ⊎ (has_primary p nodes ≡ true)
unfolding scan_nodes
scan_nodes-primary seen found p [] h = inl (ground arith)
scan_nodes-primary seen found p (n ∷ nodes) h = elim (Bool-cases (is_primary n.role)) [
  | inl first ↦ elim (scan_nodes-primary (n.node ∷ seen) (some n.node) p nodes (ground arith)) [
    | inl e ↦ let same : n.node ≡ p = cc in inr (rw (same, first) (rw (==-refl p)))
    | inr later ↦ inr (ground arith)
  ]
  | inr other ↦ elim (scan_nodes-primary (n.node ∷ seen) found p nodes (ground arith)) [
    | inl e ↦ inl e
    | inr later ↦ inr (ground arith)
  ]
]

Scanned-absent :
    (seen : List DependencyNodeId) (nodes : List LockedDependency) (k : DependencyNodeId)
    → Scanned seen nodes
    → contains k seen ≡ true
    → contains k (node_ids nodes) ≡ false
Scanned-absent seen [] k s h = refl
Scanned-absent seen (n ∷ nodes) k s h = elim (Bool-cases (n.node == k)) [
  | inl same ↦ cc (h, s.1, ap (λ t. contains t seen) (==→≡ n.node k same))
  | inr differs ↦ rw differs (Scanned-absent (n.node ∷ seen) nodes k s.2 (ground arith))
]

Scanned-Distinct :
    (seen : List DependencyNodeId) (nodes : List LockedDependency)
    → Scanned seen nodes
    → Distinct (node_ids nodes)
Scanned-Distinct seen [] s = tt
Scanned-Distinct seen (n ∷ nodes) s = (
  Scanned-absent (n.node ∷ seen) nodes n.node s.2 (rw (==-refl n.node)),
  Scanned-Distinct (n.node ∷ seen) nodes s.2,
)

-- An edge joins two different nodes of the graph.
abbrev pub Joins : List DependencyNodeId → DependencyEdge → Type 0
Joins ids e = (contains e.from ids ≡ true) × (contains e.to ids ≡ true) × ((e.from == e.to) ≡ false)

scan_edges-Joins :
    (ids : List DependencyNodeId) (seen edges : List DependencyEdge)
    → scan_edges ids seen edges ≡ ok tt
    → All (Joins ids) edges
      × Distinct edges
      × ((e : DependencyEdge) → contains e seen ≡ true → contains e edges ≡ false)
unfolding scan_edges
scan_edges-Joins ids seen [] h = (tt, tt, λ e k. refl)
scan_edges-Joins ids seen (x ∷ edges) h =
    let rest = scan_edges-Joins ids (x ∷ seen) edges (ground arith) in
    (
      ground arith,
      (rest.2 x (rw (==-refl x)), rest.1),
      λ e k. elim (Bool-cases (x == e)) [
        | inl same ↦
            let fresh : contains x seen ≡ false = ground arith in
            cc (k, fresh, ap (λ t. contains t seen) (==→≡ x e same))
        | inr differs ↦ rw differs (rest.2 e (ground arith))
      ],
    )

-- A successor is the end of an edge, and so a node of the graph.
successors-known :
    (ids : List DependencyNodeId) (edges : List DependencyEdge) (from to : DependencyNodeId)
    → All (Joins ids) edges
    → contains to (successors from edges) ≡ true
    → contains to ids ≡ true
unfolding successors
successors-known ids [] from to j h = cc
successors-known ids (e ∷ edges) from to j h = elim (Bool-cases (e.from == from)) [
  | inr away ↦ successors-known ids edges from to j.1 (rw away at h)
  | inl out ↦ elim (Bool-cases (e.to == to)) [
    | inl same ↦ subst (λ t. contains t ids ≡ true) (==→≡ e.to to same) j.0.1
    | inr differs ↦ successors-known ids edges from to j.1 (ground arith)
  ]
]

Reachable-known :
    (ids : List DependencyNodeId) (edges : List DependencyEdge) (root : DependencyNodeId)
    {n : DependencyNodeId}
    → All (Joins ids) edges
    → contains root ids ≡ true
    → Reachable edges root n
    → contains n ids ≡ true
Reachable-known ids edges root j h at_root = h
Reachable-known ids edges root j h (along from to path k) = successors-known ids edges from to j k

-- What the constructor has established when it returns a graph, with the primary that it found and
-- the nodes that it visited.
record Steps (nodes : List LockedDependency) (edges : List DependencyEdge) (root : DependencyNodeId)
    (r : List DependencyNodeId) (g : LockedDependencyGraph) : Type 0 where
  primary_kept : g.primary ≡ root
  joined : scan_edges (node_ids nodes) [] edges ≡ ok tt
  inbound : is_inbound root edges ≡ false
  counted : length r ≡ length nodes
  few_nodes : length nodes ≤ max_dependency_nodes
  few_edges : length edges ≤ max_dependency_edges
  nodes_sorted : g.nodes ≡ sort (λ a b. text_lt a.node.value b.node.value) nodes
  edges_sorted : g.edges ≡ sort edge_lt edges

new_graph-Steps :
    (nodes : List LockedDependency) (edges : List DependencyEdge) (ds : List DerivedGraphBinding)
    (g : LockedDependencyGraph) (root : DependencyNodeId) (r : List DependencyNodeId)
    → scan_nodes [] none nodes ≡ ok (some root)
    → search_from (suc (length edges)) edges (root ∷ []) (root ∷ []) ≡ some r
    → new_graph nodes edges ds ≡ ok g
    → Steps nodes edges root r g
unfolding new_graph
new_graph-Steps nodes edges ds g root r scanned found h = ground arith

new_graph-root :
    (nodes : List LockedDependency) (edges : List DependencyEdge) (ds : List DerivedGraphBinding)
    (g : LockedDependencyGraph)
    → new_graph nodes edges ds ≡ ok g
    → (root : DependencyNodeId) × (scan_nodes [] none nodes ≡ ok (some root))
unfolding new_graph
new_graph-root nodes edges ds g h = elim (Result-cases (scan_nodes [] none nodes)) [
  | inr (x, e) ↦ absurd (ground arith)
  | inl (none, e) ↦ absurd (ground arith)
  | inl (some root, e) ↦ (root, e)
]

-- An accepted graph: within its bounds, with one primary, nodes and edges without repetition, edges
-- between its nodes, none into the primary, and a path from the primary to every node.
pub record IsAccepted (nodes : List LockedDependency) (edges : List DependencyEdge)
    (g : LockedDependencyGraph) : Type 0 where
  pub few_nodes : length nodes ≤ max_dependency_nodes
  pub few_edges : length edges ≤ max_dependency_edges
  pub one_primary : count_primary nodes ≡ 1
  pub primary_known : contains g.primary (node_ids nodes) ≡ true
  pub primary_role : has_primary g.primary nodes ≡ true
  pub nodes_distinct : Distinct (node_ids nodes)
  pub edges_distinct : Distinct edges
  pub joins : All (Joins (node_ids nodes)) edges
  pub no_inbound : is_inbound g.primary edges ≡ false
  pub connected :
      (n : DependencyNodeId) → contains n (node_ids nodes) ≡ true → Reachable edges g.primary n
  pub same_nodes : Perm g.nodes nodes
  pub same_edges : Perm g.edges edges

-- A graph that the constructor returns is within its bounds, has one node with the primary role,
-- which is its primary, nodes and edges without repetition, edges between its nodes, none into the
-- primary, and a path from the primary to every node; its nodes and edges are the given ones,
-- reordered.
pub new_graph-IsAccepted :
    (nodes : List LockedDependency) (edges : List DependencyEdge) (ds : List DerivedGraphBinding)
    (g : LockedDependencyGraph)
    → new_graph nodes edges ds ≡ ok g
    → IsAccepted nodes edges g
new_graph-IsAccepted nodes edges ds g h =
    let (root, scanned) = new_graph-root nodes edges ds g h in
    let (r, found, exact, once) = search_from-exact edges root in
    let s = new_graph-Steps nodes edges ds g root r scanned found h in
    let first = scan_nodes-Scanned [] none (some root) nodes scanned in
    let joined = scan_edges-Joins (node_ids nodes) [] edges s.joined in
    let known = known_root root (scan_nodes-found [] none root nodes scanned) in
    let counted : length (node_ids nodes) ≤ length r =
      omega (arith, s.counted, length-map nodes (λ n. n.node)) in
    record {
      few_nodes = s.few_nodes;
      few_edges = s.few_edges;
      one_primary = omega (arith, first.1);
      primary_known = rw s.primary_kept known;
      primary_role =
          rw s.primary_kept (the_primary root (scan_nodes-primary [] none root nodes scanned));
      nodes_distinct = Scanned-Distinct [] nodes first.0;
      edges_distinct = joined.1;
      joins = joined.0;
      no_inbound = rw s.primary_kept s.inbound;
      connected = λ n k. rw s.primary_kept (
          (exact n).0 (
            coverage r (node_ids nodes) once
              (λ z v. Reachable-known (node_ids nodes) edges root joined.0 known ((exact z).0 v))
              counted n k));
      same_nodes = rw s.nodes_sorted (sort-perm (λ a b. text_lt a.node.value b.node.value) nodes);
      same_edges = rw s.edges_sorted (sort-perm edge_lt edges);
    }
  where
    known_root :
        (root : DependencyNodeId)
        → (none ≡ some root) ⊎ (contains root (node_ids nodes) ≡ true)
        → contains root (node_ids nodes) ≡ true
    known_root root (inl e) = cc
    known_root root (inr k) = k

    the_primary :
        (root : DependencyNodeId)
        → (none ≡ some root) ⊎ (has_primary root nodes ≡ true)
        → has_primary root nodes ≡ true
    the_primary root (inl e) = cc
    the_primary root (inr k) = k
