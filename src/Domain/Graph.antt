-- ===== src/Domain/Graph.antt =====
-- internal/core/domain/install.go: locked dependency graphs, with the derived bindings of derivation.go.
pub mod Reach
pub mod Visited
pub mod Accepted
use heliopause.Base.{
  Bool, Eq, List, Option, Result, [], any, arith, contains, eq_via, err, false, if◌then◌else◌,
  is_empty, length, list_eq, ltb, map, nat_eq, none, not, ok, or_error, reject, some, suc, true,
  zero, ℕ, ◌&&◌, ◌++◌, ◌==◌, ◌>>=◌, ◌>>◌, ◌||◌, ◌∷◌, ◌≡◌,
}
use heliopause.Base.Order.{sort}
use heliopause.Domain.Artifact.{
  ContentDigest, ResolvedArtifact, content_digest_eq, max_coordinate_length, validate_bounded_text,
  validate_normalized_identifier,
}
use heliopause.Domain.Install.{max_install_target_length}
use heliopause.Text.{Text, codes, text_lt}

abbrev pub max_dependency_nodes : ℕ
max_dependency_nodes = 4096

abbrev pub max_dependency_edges : ℕ
max_dependency_edges = 16384

pub record DependencyNodeId : Type 0 where
  pub value : Text

pub DependencyNodeId-injective : (a b : DependencyNodeId) → a.value ≡ b.value → a ≡ b
DependencyNodeId-injective a b p = λ i. record { value = p i }

instance abbrev pub node_id_eq : Eq DependencyNodeId
node_id_eq = eq_via (λ n. n.value) DependencyNodeId-injective

unfoldable pub new_dependency_node_id : Text → Result DependencyNodeId
new_dependency_node_id value = do
  validate_normalized_identifier value max_coordinate_length "dependency node ID"
  ok (record { value = value })

pub data DependencyRole : Type 0 where
  primary transitive : DependencyRole
  other : Text → DependencyRole

pub record LockedDependency : Type 0 where
  pub node : DependencyNodeId
  pub role : DependencyRole
  pub artifact : ResolvedArtifact
  pub record_path : Text
  pub host_install_action : Bool

abbrev pub is_known_role : DependencyRole → Bool
is_known_role (other s) = false
is_known_role _ = true

abbrev pub is_primary : DependencyRole → Bool
is_primary primary = true
is_primary _ = false

unfoldable pub new_locked_dependency_with_record_path :
    DependencyNodeId → DependencyRole → ResolvedArtifact → Text → Bool → Result LockedDependency
new_locked_dependency_with_record_path node role artifact path action = do
  reject
      (is_empty node.value
        || is_empty artifact.identity.source.value
        || is_empty artifact.declared_integrity)
      "locked dependency requires node, exact artifact, and declared integrity"
  reject (not (is_known_role role)) "locked dependency role is invalid"
  validate_bounded_text path max_install_target_length "dependency record path"
  ok (record {
    node = node;
    role = role;
    artifact = artifact;
    record_path = path;
    host_install_action = action;
  })

unfoldable pub new_locked_dependency :
    DependencyNodeId → DependencyRole → ResolvedArtifact → Result LockedDependency
new_locked_dependency node role artifact =
    new_locked_dependency_with_record_path node role artifact node.value false

unfoldable pub new_locked_dependency_with_host_install_action :
    DependencyNodeId → DependencyRole → ResolvedArtifact → Bool → Result LockedDependency
new_locked_dependency_with_host_install_action node role artifact action =
    new_locked_dependency_with_record_path node role artifact node.value action

pub record DependencyEdge : Type 0 where
  pub from : DependencyNodeId
  pub to : DependencyNodeId

abbrev pub edge_key : DependencyEdge → List Text
edge_key e = e.from.value ∷ e.to.value ∷ []

pub edge_key-injective : (a b : DependencyEdge) → edge_key a ≡ edge_key b → a ≡ b
edge_key-injective a b p = ground arith

instance abbrev pub edge_eq : Eq DependencyEdge
edge_eq = eq_via edge_key edge_key-injective

unfoldable pub new_dependency_edge : DependencyNodeId → DependencyNodeId → Result DependencyEdge
new_dependency_edge from to = do
  reject (is_empty from.value || is_empty to.value || from == to)
      "dependency edge must join distinct nodes"
  ok (record { from = from; to = to })

-- derivation.go
pub record DerivationBinding : Type 0 where
  pub source_digest : ContentDigest
  pub input_digests : List ContentDigest
  pub executor : Text
  pub config_digest : ContentDigest

-- A digest is empty or was met before.
abbrev pub distinct_digests : List ContentDigest → List ContentDigest → Bool
distinct_digests seen [] = true
distinct_digests seen (d ∷ ds) =
    not (is_empty d.value) && not (contains d seen) && distinct_digests (d ∷ seen) ds

unfoldable pub new_derivation_binding :
    ContentDigest → List ContentDigest → Text → ContentDigest → Result DerivationBinding
new_derivation_binding source inputs executor config = do
  reject (is_empty source.value || is_empty config.value || is_empty executor)
      "derivation binding requires source, inputs, executor, and configuration"
  or_error (validate_normalized_identifier executor 64 "derivation executor")
      "derivation binding is invalid"
  reject (is_empty inputs) "derivation binding is invalid"
  reject (not (distinct_digests [] inputs)) "derivation inputs are invalid"
  ok (record {
    source_digest = source;
    input_digests = sort (λ a b. text_lt a.value b.value) inputs;
    executor = executor;
    config_digest = config;
  })

pub record DerivedGraphBinding : Type 0 where
  pub source : DependencyNodeId
  pub derived : DependencyNodeId
  pub binding : DerivationBinding

pub record LockedDependencyGraph : Type 0 where
  pub primary : DependencyNodeId
  pub nodes : List LockedDependency
  pub edges : List DependencyEdge
  pub derivations : List DerivedGraphBinding

abbrev pub node_ids : List LockedDependency → List DependencyNodeId
node_ids = map (λ n. n.node)

-- The loop over the nodes: `seen` holds the keys of `byNode`, `found` the primary of the nodes so far.
unfoldable pub scan_nodes :
    List DependencyNodeId
    → Option DependencyNodeId
    → List LockedDependency
    → Result (Option DependencyNodeId)
scan_nodes seen found [] = ok found
scan_nodes seen found (n ∷ nodes) =
    let taken : Bool = elim found [ none ↦ false | some p ↦ true ] in
    let next = if is_primary n.role then some n.node else found in
    reject
      (is_empty n.node.value
        || is_empty n.artifact.identity.source.value
        || is_empty n.artifact.declared_integrity)
      "locked dependency graph contains an invalid node"
    >> reject (contains n.node seen) "locked dependency graph contains duplicate node IDs"
    >> reject (is_primary n.role && taken)
        "locked dependency graph requires exactly one primary node"
    >> reject (not (is_known_role n.role)) "locked dependency graph contains an invalid role"
    >> scan_nodes (n.node ∷ seen) next nodes

-- The loop over the edges: `ids` are the keys of `byNode`.
unfoldable pub scan_edges :
    List DependencyNodeId → List DependencyEdge → List DependencyEdge → Result (Unit {0})
scan_edges ids seen [] = ok tt
scan_edges ids seen (e ∷ edges) =
    reject (not (contains e.from ids)) "dependency edge source is unknown"
    >> reject (not (contains e.to ids) || e.from == e.to) "dependency edge target is invalid"
    >> reject (contains e seen) "locked dependency graph contains duplicate edges"
    >> scan_edges ids (e ∷ seen) edges

-- `adjacent[node]`
unfoldable pub successors : DependencyNodeId → List DependencyEdge → List DependencyNodeId
successors node [] = []
successors node (e ∷ edges) =
    let rest = successors node edges in if e.from == node then e.to ∷ rest else rest

-- The visited nodes and the queue.
pub record Search : Type 0 where
  pub visited : List DependencyNodeId
  pub queue : List DependencyNodeId

-- A node that was not visited is marked and put at the end of the queue.
unfoldable pub visit_one : DependencyNodeId → Search → Search
visit_one next s =
    if contains next s.visited
    then s
    else record { visited = next ∷ s.visited; queue = s.queue ++ next ∷ [] }

-- The inner loop.
unfoldable pub visit : Search → List DependencyNodeId → Search
visit s [] = s
visit s (next ∷ rest) = visit (visit_one next s) rest

-- The breadth-first loop; `none` means that the fuel ran out.
unfoldable pub search_from :
    ℕ
    → List DependencyEdge
    → List DependencyNodeId
    → List DependencyNodeId
    → Option (List DependencyNodeId)
search_from fuel edges visited [] = some visited
search_from zero edges visited (current ∷ queue) = none
search_from (suc fuel) edges visited (current ∷ queue) =
    let s : Search =
      visit (record { visited = visited; queue = queue }) (successors current edges) in
    search_from fuel edges s.visited s.queue

abbrev pub is_inbound : DependencyNodeId → List DependencyEdge → Bool
is_inbound node edges = any (λ e. e.to == node) edges

abbrev pub find_node : DependencyNodeId → List LockedDependency → Option LockedDependency
find_node id [] = none
find_node id (n ∷ nodes) = let rest = find_node id nodes in if n.node == id then some n else rest

abbrev pub has_variant : DependencyNodeId → List LockedDependency → Text → Bool
has_variant id nodes variant = elim (find_node id nodes) [
  | none ↦ false
  | some n ↦ n.artifact.identity.variant == variant
]

-- The loop over the derivations.
unfoldable pub scan_derivations :
    List LockedDependency → List DependencyNodeId → List DerivedGraphBinding → Result (Unit {0})
scan_derivations nodes seen [] = ok tt
scan_derivations nodes seen (d ∷ ds) =
    reject
      (not (has_variant d.source nodes (codes "sdist"))
        || not (has_variant d.derived nodes (codes "derived-wheel"))
        || is_empty d.binding.source_digest.value
        || contains d.derived seen)
      "locked dependency graph contains an invalid derived binding"
    >> scan_derivations nodes (d.derived ∷ seen) ds

abbrev pub edge_lt : DependencyEdge → DependencyEdge → Bool
edge_lt a b =
    if a.from.value == b.from.value
    then text_lt a.to.value b.to.value
    else text_lt a.from.value b.from.value

-- The fuel of the search is one more than the number of edges.
unfoldable pub new_graph :
    List LockedDependency
    → List DependencyEdge
    → List DerivedGraphBinding
    → Result LockedDependencyGraph
new_graph nodes edges derivations = do
  reject
      (is_empty nodes
        || ltb max_dependency_nodes (length nodes)
        || ltb max_dependency_edges (length edges))
      "locked dependency graph exceeds bounds"
  found ← scan_nodes [] none nodes
  root ← elim found [
    | none ↦ err "locked dependency graph requires one primary node"
    | some p ↦ ok p
  ]
  scan_edges (node_ids nodes) [] edges
  reject (is_inbound root edges) "primary dependency cannot have an inbound edge"
  visited ← elim (search_from (suc (length edges)) edges (root ∷ []) (root ∷ [])) [
    | none ↦ err "the search ran out of fuel"
    | some ids ↦ ok ids
  ]
  reject (not (length visited == length nodes))
      "locked dependency graph must be connected to its primary node"
  scan_derivations nodes [] derivations
  ok (record {
    primary = root;
    nodes = sort (λ a b. text_lt a.node.value b.node.value) nodes;
    edges = sort edge_lt edges;
    derivations = sort (λ a b. text_lt a.derived.value b.derived.value) derivations;
  })

unfoldable pub new_locked_dependency_graph :
    List LockedDependency → List DependencyEdge → Result LockedDependencyGraph
new_locked_dependency_graph nodes edges = new_graph nodes edges []
