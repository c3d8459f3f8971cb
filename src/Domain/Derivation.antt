-- ===== src/Domain/Derivation.antt =====
-- internal/core/domain/derivation.go: controller-derived artifacts, and the graph extended by them.
pub mod Appended
use heliopause.Base.{
  List, Result, [], contains, is_empty, list_eq, nat_eq, not, ok, reject, ◌++◌, ◌==◌, ◌>>=◌, ◌>>◌,
  ◌||◌, ◌∷◌,
}
use heliopause.Domain.Artifact.{AcquiredArtifact, content_digest_eq, identity_eq}
use heliopause.Domain.Check.{CheckExecution, is_completed, is_inspection, is_supported}
use heliopause.Domain.Evidence.{Evidence, check_id_eq}
use heliopause.Domain.Graph.{
  DependencyEdge, DependencyNodeId, DerivationBinding, DerivedGraphBinding, LockedDependency,
  LockedDependencyGraph, new_dependency_edge, new_graph, node_id_eq, node_ids,
}
use heliopause.Text.{codes}

pub record DerivedDependency : Type 0 where
  pub source : DependencyNodeId
  pub node : LockedDependency
  pub artifact : AcquiredArtifact
  pub binding : DerivationBinding
  pub check : CheckExecution
  pub evidence : Evidence

unfoldable pub new_derived_dependency :
    DependencyNodeId
    → LockedDependency
    → AcquiredArtifact
    → DerivationBinding
    → CheckExecution
    → Evidence
    → Result DerivedDependency
new_derived_dependency source node artifact binding check evidence = do
  reject
      (is_empty source.value
        || is_empty node.node.value
        || not (node.artifact.identity.variant == codes "derived-wheel")
        || not (artifact.identity == node.artifact.identity)
        || not (artifact.declared_integrity == node.artifact.declared_integrity)
        || is_empty binding.source_digest.value
        || not check.required
        || not (is_inspection check.kind)
        || not (is_supported check.capability)
        || not (is_completed check.status)
        || not (evidence.check_id == check.id)
        || not (evidence.identity == artifact.identity)
        || not (evidence.digest == artifact.digest))
      "derived dependency binding is invalid"
  ok (record {
    source = source;
    node = node;
    artifact = artifact;
    binding = binding;
    check = check;
    evidence = evidence;
  })

-- What the loop of the extension has gathered.
pub record Extension : Type 0 where
  pub nodes : List LockedDependency
  pub edges : List DependencyEdge
  pub bindings : List DerivedGraphBinding
  pub known : List DependencyNodeId

unfoldable pub extend_by : Extension → List DerivedDependency → Result Extension
extend_by x [] = ok x
extend_by x (item ∷ derived) =
    reject (not (contains item.source x.known) || contains item.node.node x.known)
      "derived dependency graph binding is invalid"
    >> (new_dependency_edge item.source item.node.node >>= λ edge.
        extend_by
          (record {
            nodes = x.nodes ++ item.node ∷ [];
            edges = x.edges ++ edge ∷ [];
            bindings =
                x.bindings
                ++ record { source = item.source; derived = item.node.node; binding = item.binding }
                  ∷ [];
            known = item.node.node ∷ x.known;
          })
          derived)

unfoldable pub extend_locked_dependency_graph :
    LockedDependencyGraph → List DerivedDependency → Result LockedDependencyGraph
extend_locked_dependency_graph graph derived = do
  x ←
      extend_by
        (record {
          nodes = graph.nodes;
          edges = graph.edges;
          bindings = graph.derivations;
          known = node_ids graph.nodes;
        })
        derived
  new_graph x.nodes x.edges x.bindings
