-- ===== src/Domain/Derivation/Appended.antt =====
-- internal/core/domain/derivation.go: an extended graph and the one that it extends.
use mathlib.Core.List.{append-nil, append_assoc}
use heliopause.Base.{
  >>=-eq-ok, List, [], ap, arith, contains, list_eq, map, nat_eq, not, ok, reject, subst, sym, ◌++◌,
  ◌||◌, ◌∙◌, ◌∷◌, ◌≡◌,
}
use heliopause.Domain.Derivation.{
  DerivedDependency, Extension, extend_by, extend_locked_dependency_graph,
}
use heliopause.Domain.Graph.{
  DependencyEdge, DependencyNodeId, LockedDependencyGraph, new_dependency_edge, node_id_eq,
}
use heliopause.Domain.Graph.Accepted.{IsAccepted, new_graph-IsAccepted}

-- The edge from a source to what was derived from it.
abbrev pub derived_edge : DerivedDependency → DependencyEdge
derived_edge d = record { from = d.source; to = d.node.node }

new_dependency_edge-eq_ok :
    (from to : DependencyNodeId) (e : DependencyEdge)
    → new_dependency_edge from to ≡ ok e
    → e ≡ record { from = from; to = to }
unfolding new_dependency_edge
new_dependency_edge-eq_ok from to e h = ground arith

extend_by-appends :
    (derived : List DerivedDependency) (x y : Extension)
    → extend_by x derived ≡ ok y
    → (y.nodes ≡ x.nodes ++ map (λ d. d.node) derived)
      × (y.edges ≡ x.edges ++ map derived_edge derived)
unfolding extend_by
extend_by-appends [] x y h =
    let same : x ≡ y = ground arith in
    (
      ap (λ t. t.nodes) (sym same) ∙ sym (append-nil x.nodes),
      ap (λ t. t.edges) (sym same) ∙ sym (append-nil x.edges),
    )
extend_by-appends (d ∷ ds) x y h =
    let (u, a, h1) =
      >>=-eq-ok (reject (not (contains d.source x.known) || contains d.node.node x.known) _) _ h in
    let (edge, made, h2) = >>=-eq-ok (new_dependency_edge d.source d.node.node) _ h1 in
    let (nodes, edges) = extend_by-appends ds _ y h2 in
    let is_edge = new_dependency_edge-eq_ok d.source d.node.node edge made in
    (
      nodes ∙ append_assoc x.nodes (d.node ∷ []) (map (λ t. t.node) ds),
      edges
          ∙ append_assoc x.edges (edge ∷ []) (map derived_edge ds)
          ∙ ap (λ t. x.edges ++ t ∷ map derived_edge ds) is_edge,
    )

-- A graph that was extended by derived dependencies is an accepted graph of the nodes it had
-- followed by the derived ones, and of the edges it had followed by one from each source to what
-- was derived from it.
pub extend_locked_dependency_graph-IsAccepted :
    (graph : LockedDependencyGraph) (derived : List DerivedDependency) (g : LockedDependencyGraph)
    → extend_locked_dependency_graph graph derived ≡ ok g
    → IsAccepted
        (graph.nodes ++ map (λ d. d.node) derived)
        (graph.edges ++ map derived_edge derived)
        g
unfolding extend_locked_dependency_graph
extend_locked_dependency_graph-IsAccepted graph derived g h =
    let (y, extended, built) = >>=-eq-ok (extend_by _ derived) _ h in
    let (nodes, edges) = extend_by-appends derived _ y extended in
    subst (λ t. IsAccepted t (graph.edges ++ map derived_edge derived) g) nodes
      (subst (λ t. IsAccepted y.nodes t g) edges
        (new_graph-IsAccepted y.nodes y.edges y.bindings g built))
