-- ===== src/Domain/Inspected/Coverage.antt =====
-- internal/core/domain/verified_set.go: an inspected set and its graph.
use mathlib.Core.List.{Perm}
use heliopause.Base.{
  ==-refl, ==→≡, >>=-eq-ok, All, Bool, Bool-cases, List, Option-cases, [], ap, arith, contains,
  false, inl, inr, length, length-map, list_eq, map, nat_eq, ok, refl, some, true, ◌==◌, ◌∷◌, ◌≡◌,
}
use heliopause.Base.Coverage.{All-contains, Distinct, coverage}
use heliopause.Base.Order.{sort, sort-All, sort-perm}
use heliopause.Domain.Artifact.{identity_eq}
use heliopause.Domain.Graph.{
  DependencyNodeId, LockedDependency, LockedDependencyGraph, node_id_eq, node_ids,
}
use heliopause.Domain.Inspected.{
  DependencyInspection, InspectedDependencySet, check_inspection, check_inspections, locked_node,
  matches_locked, new_inspected_dependency_set,
}
use heliopause.Text.{text_lt}

-- An inspection of a node of the graph, of what was locked for that node.
abbrev pub Inspects : List LockedDependency → DependencyInspection → Type 0
Inspects nodes i =
    (n : LockedDependency) × (locked_node i.node nodes ≡ some n)
    × (i.artifact.identity ≡ n.artifact.identity)
    × (i.artifact.declared_integrity ≡ n.artifact.declared_integrity)

abbrev pub inspected_ids : List DependencyInspection → List DependencyNodeId
inspected_ids = map (λ i. i.node)

check_inspection-Inspects :
    (nodes : List LockedDependency) (seen : List DependencyNodeId) (i : DependencyInspection)
    → check_inspection nodes seen i ≡ ok tt
    → Inspects nodes i × (contains i.node seen ≡ false)
unfolding check_inspection matches_locked
check_inspection-Inspects nodes seen i h = elim (Option-cases (locked_node i.node nodes)) [
  | inl e ↦ absurd (ground arith)
  | inr (n, e) ↦ (
    (
      n,
      e,
      ==→≡ i.artifact.identity n.artifact.identity (ground arith),
      ==→≡ i.artifact.declared_integrity n.artifact.declared_integrity (ground arith),
    ),
    ground arith,
  )
]

check_inspections-covers :
    (nodes : List LockedDependency) (seen : List DependencyNodeId) (is : List DependencyInspection)
    → check_inspections nodes seen is ≡ ok tt
    → All (Inspects nodes) is
      × Distinct (inspected_ids is)
      × ((k : DependencyNodeId) → contains k seen ≡ true → contains k (inspected_ids is) ≡ false)
unfolding check_inspections
check_inspections-covers nodes seen [] h = (tt, tt, λ k e. refl)
check_inspections-covers nodes seen (i ∷ is) h =
    let (u, first, later) =
      >>=-eq-ok (check_inspection nodes seen i) (λ _. check_inspections nodes (i.node ∷ seen) is)
        h in
    let (good, fresh) = check_inspection-Inspects nodes seen i first in
    let rest = check_inspections-covers nodes (i.node ∷ seen) is later in
    (
      (good, rest.0),
      (rest.2 i.node (rw (==-refl i.node)), rest.1),
      λ k e. elim (Bool-cases (i.node == k)) [
        | inl same ↦ cc (e, fresh, ap (λ t. contains t seen) (==→≡ i.node k same))
        | inr differs ↦ rw differs (rest.2 k (ground arith))
      ],
    )

locked_node-known :
    (id : DependencyNodeId) (nodes : List LockedDependency) (n : LockedDependency)
    → locked_node id nodes ≡ some n
    → contains id (node_ids nodes) ≡ true
unfolding locked_node
locked_node-known id [] n h = cc
locked_node-known id (m ∷ nodes) n h = elim (Option-cases (locked_node id nodes)) [
  | inl e ↦ ground arith
  | inr (k, e) ↦ ground (arith, locked_node-known id nodes k e)
]

Inspects-known :
    (nodes : List LockedDependency) (is : List DependencyInspection)
    → All (Inspects nodes) is
    → All (λ k. contains k (node_ids nodes) ≡ true) (inspected_ids is)
Inspects-known nodes [] h = tt
Inspects-known nodes (i ∷ is) h =
    (locked_node-known i.node nodes h.0.0 h.0.1, Inspects-known nodes is h.1)

-- A set that was accepted holds the given inspections, each of a locked subject, no node twice, and
-- one for every node of the graph.
pub new_inspected_dependency_set-covers :
    (graph : LockedDependencyGraph) (is : List DependencyInspection) (s : InspectedDependencySet)
    → new_inspected_dependency_set graph is ≡ ok s
    → (s.graph ≡ graph)
      × Perm s.inspections is
      × All (Inspects graph.nodes) s.inspections
      × Distinct (inspected_ids is)
      × ((k : DependencyNodeId)
          → contains k (node_ids graph.nodes) ≡ true
          → contains k (inspected_ids is) ≡ true)
new_inspected_dependency_set-covers graph is s h =
    let (checked, sized, kept, sorted) = parts in
    let (good, once, _) = check_inspections-covers graph.nodes [] is checked in
    (
      kept,
      rw sorted (sort-perm by_node is),
      rw sorted (sort-All by_node (Inspects graph.nodes) is good),
      once,
      coverage (inspected_ids is) (node_ids graph.nodes) once
          (λ z k.
            All-contains (λ t. contains t (node_ids graph.nodes) ≡ true) (inspected_ids is)
              (Inspects-known graph.nodes is good) z k)
          (omega (arith, sized, length-map is (λ i. i.node), length-map graph.nodes (λ n. n.node))),
    )
  where
    by_node : DependencyInspection → DependencyInspection → Bool
    by_node a b = text_lt a.node.value b.node.value

    parts :
        (check_inspections graph.nodes [] is ≡ ok tt)
        × (length is ≡ length graph.nodes)
        × (s.graph ≡ graph)
        × (s.inspections ≡ sort by_node is)
    parts = unfold new_inspected_dependency_set in ground arith
