-- ===== src/Tests/Derived.antt =====
-- A source distribution and the wheel that is built from it.
use heliopause.Base.{[], ok, refl, ◌++◌, ◌∷◌, ◌≡◌}
use heliopause.Base.Order.{sort}
use heliopause.Domain.Artifact.{ResolvedArtifactIdentity}
use heliopause.Domain.Check.{inspection}
use heliopause.Domain.Derivation.{DerivedDependency, extend_by, extend_locked_dependency_graph}
use heliopause.Domain.Derivation.Appended.{derived_edge, extend_locked_dependency_graph-IsAccepted}
use heliopause.Domain.Graph.{
  DependencyRole, DerivationBinding, LockedDependency, LockedDependencyGraph, new_dependency_edge,
  new_graph, primary, scan_derivations, scan_edges, scan_nodes, search_from, successors, transitive,
  visit, visit_one,
}
use heliopause.Domain.Graph.Accepted.{IsAccepted}
use heliopause.Tests.Data.{
  sample_artifact, sample_check, sample_digest, sample_evidence, sample_identity, sample_locked,
  sample_node, sample_resolved,
}
use heliopause.Text.{Text, codes}

abbrev variant_of : Text → Text → ResolvedArtifactIdentity
variant_of name variant = record (sample_identity name) { variant = variant }

abbrev variant_node : DependencyRole → Text → Text → LockedDependency
variant_node role name variant = record (sample_locked role name) {
  artifact = record (sample_resolved name) { identity = variant_of name variant };
}

abbrev sdist_graph : LockedDependencyGraph
sdist_graph = record {
  primary = sample_node (codes "lib");
  nodes = variant_node primary (codes "lib") (codes "sdist") ∷ [];
  edges = [];
  derivations = [];
}

abbrev wheel_binding : DerivationBinding
wheel_binding = record {
  source_digest = sample_digest;
  input_digests = sample_digest ∷ [];
  executor = codes "build";
  config_digest = sample_digest;
}

abbrev wheel : DerivedDependency
wheel = record {
  source = sample_node (codes "lib");
  node = variant_node transitive (codes "wheel") (codes "derived-wheel");
  artifact = record (sample_artifact (codes "wheel")) {
    identity = variant_of (codes "wheel") (codes "derived-wheel");
  };
  binding = wheel_binding;
  check = sample_check inspection;
  evidence = record (sample_evidence (codes "built")) {
    identity = variant_of (codes "wheel") (codes "derived-wheel");
  };
}

abbrev wheel_graph : LockedDependencyGraph
wheel_graph = record {
  primary = sample_node (codes "lib");
  nodes =
      variant_node primary (codes "lib") (codes "sdist")
      ∷ variant_node transitive (codes "wheel") (codes "derived-wheel")
      ∷ [];
  edges = record { from = sample_node (codes "lib"); to = sample_node (codes "wheel") } ∷ [];
  derivations =
      record {
        source = sample_node (codes "lib");
        derived = sample_node (codes "wheel");
        binding = wheel_binding;
      }
      ∷ [];
}

extended_graph : extend_locked_dependency_graph sdist_graph (wheel ∷ []) ≡ ok wheel_graph
unfolding extend_locked_dependency_graph extend_by new_dependency_edge new_graph scan_nodes
    scan_edges search_from visit visit_one successors scan_derivations sort
extended_graph = refl

extend_locked_dependency_graph-IsAccepted_example :
    IsAccepted (sdist_graph.nodes ++ wheel.node ∷ []) (derived_edge wheel ∷ []) wheel_graph
extend_locked_dependency_graph-IsAccepted_example =
    extend_locked_dependency_graph-IsAccepted sdist_graph (wheel ∷ []) wheel_graph extended_graph
