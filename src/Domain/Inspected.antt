-- ===== src/Domain/Inspected.antt =====
-- internal/core/domain/verified_set.go, and `DependencyResolution` of install.go: the inspections of a
-- locked graph, complete or refused.
pub mod Coverage
use heliopause.Base.{
  Bool, List, Option, Result, [], any, contains, err, if◌then◌else◌, is_empty, length, list_eq,
  nat_eq, none, not, ok, reject, some, true, ◌&&◌, ◌==◌, ◌>>◌, ◌||◌, ◌∷◌,
}
use heliopause.Base.Order.{sort}
use heliopause.Domain.Artifact.{
  AcquiredArtifact, ContentDigest, ResolvedArtifact, identity_eq, validate_bounded_text,
}
use heliopause.Domain.Check.{CheckExecution}
use heliopause.Domain.Evidence.{EvidenceId, EvidenceReference, evidence_id_eq}
use heliopause.Domain.Graph.{DependencyNodeId, LockedDependency, LockedDependencyGraph, node_id_eq}
use heliopause.Domain.Identifier.{RunId}
use heliopause.Domain.Install.{max_install_target_length}
use heliopause.Domain.Run.{PolicyDecision}
use heliopause.Text.{Text, text_lt}

pub record DependencyResolution : Type 0 where
  pub graph : LockedDependencyGraph
  pub runtime_identity : Text
  pub lockfile_digest : ContentDigest

unfoldable pub new_dependency_resolution :
    LockedDependencyGraph → Text → ContentDigest → Result DependencyResolution
new_dependency_resolution graph runtime digest = do
  reject (is_empty graph.nodes || is_empty digest.value)
      "dependency resolution requires graph and lockfile digest"
  validate_bounded_text runtime max_install_target_length "resolver runtime identity"
  ok (record { graph = graph; runtime_identity = runtime; lockfile_digest = digest })

pub record DependencyInspection : Type 0 where
  pub node : DependencyNodeId
  pub run_id : RunId
  pub artifact : AcquiredArtifact
  pub checks : List CheckExecution
  pub evidence : List EvidenceReference
  pub decision : PolicyDecision

-- An identifier is empty or was met before.
abbrev pub distinct_references : List EvidenceId → List EvidenceReference → Bool
distinct_references seen [] = true
distinct_references seen (r ∷ rs) =
    not (is_empty r.id.value) && not (contains r.id seen) && distinct_references (r.id ∷ seen) rs

unfoldable pub new_dependency_inspection :
    DependencyNodeId
    → RunId
    → AcquiredArtifact
    → List CheckExecution
    → List EvidenceReference
    → PolicyDecision
    → Result DependencyInspection
new_dependency_inspection node run_id artifact checks evidence decision = do
  reject
      (is_empty node.value
        || is_empty run_id.value
        || is_empty artifact.identity.source.value
        || is_empty decision.policy_id)
      "dependency inspection requires node, completed run subject, and policy decision"
  reject (is_empty checks || is_empty evidence)
      "dependency inspection requires checks and recorded evidence"
  reject (any (λ check. is_empty check.id.value) checks)
      "dependency inspection contains an invalid check"
  reject (not (distinct_references [] evidence))
      "dependency inspection contains invalid evidence references"
  ok (record {
    node = node;
    run_id = run_id;
    artifact = artifact;
    checks = checks;
    evidence = evidence;
    decision = decision;
  })

pub record InspectedDependencySet : Type 0 where
  pub graph : LockedDependencyGraph
  pub inspections : List DependencyInspection

-- The map that the nodes fill in order: a later node replaces an earlier one.
unfoldable pub locked_node : DependencyNodeId → List LockedDependency → Option LockedDependency
locked_node id [] = none
locked_node id (n ∷ nodes) = elim (locked_node id nodes) [
  | some m ↦ some m
  | none ↦ if n.node == id then some n else none
]

-- The acquired subject is the one that was locked.
unfoldable pub matches_locked : AcquiredArtifact → ResolvedArtifact → Bool
matches_locked a locked =
    a.identity == locked.identity && a.declared_integrity == locked.declared_integrity

-- The tests on one inspection, with the nodes that were inspected before it.
unfoldable pub check_inspection :
    List LockedDependency → List DependencyNodeId → DependencyInspection → Result (Unit {0})
check_inspection nodes seen i = elim (locked_node i.node nodes) [
  | none ↦ err "inspected dependency set contains an unknown or duplicate node"
  | some n ↦
      reject (contains i.node seen) "inspected dependency set contains an unknown or duplicate node"
      >> reject (not (matches_locked i.artifact n.artifact))
          "dependency inspection subject does not match locked dependency"
]

unfoldable pub check_inspections :
    List LockedDependency → List DependencyNodeId → List DependencyInspection → Result (Unit {0})
check_inspections nodes seen [] = ok tt
check_inspections nodes seen (i ∷ inspections) =
    check_inspection nodes seen i >> check_inspections nodes (i.node ∷ seen) inspections

unfoldable pub new_inspected_dependency_set :
    LockedDependencyGraph → List DependencyInspection → Result InspectedDependencySet
new_inspected_dependency_set graph inspections = do
  reject (is_empty graph.nodes || not (length inspections == length graph.nodes))
      "inspected dependency set requires every locked graph node"
  check_inspections graph.nodes [] inspections
  ok (record {
    graph = graph;
    inspections = sort (λ a b. text_lt a.node.value b.node.value) inspections;
  })

-- `Valid`
unfoldable pub is_valid_set : InspectedDependencySet → Bool
is_valid_set s = not (is_empty s.graph.nodes) && length s.inspections == length s.graph.nodes
