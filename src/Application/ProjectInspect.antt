-- ===== src/Application/ProjectInspect.antt =====
-- internal/application/project_inspect.go: the inspection of each dependency of a project snapshot, and
-- the decision on the whole. Of the ports it uses those of one dependency and the identifiers only; the
-- set policy and SHA-256 are parameters. A nil or cancelled context is left out.
pub mod Verified
use heliopause.Application.Entry.{inspect_dependency}
use heliopause.Application.Workflow.{InstallPorts, Workflow, ask, generates_operation, pure, try}
use heliopause.Base.{List, Result, String, [], err, if◌then◌else◌, not, ok, reject, ℕ, ◌∷◌}
use heliopause.Domain.Artifact.{ResolvedArtifact}
use heliopause.Domain.Graph.{new_locked_dependency, transitive}
use heliopause.Domain.Identifier.{OperationId}
use heliopause.Domain.Inspected.{DependencyInspection}
use heliopause.Domain.Project.{
  InspectedProjectSet, ProjectVerifiedSet, new_inspected_project_set, new_project_verified_set,
  project_dependency_node_id,
}
use heliopause.Domain.Run.{PolicyDecision, is_allow}
use heliopause.Domain.Snapshot.{ProjectDependencySnapshot, is_valid_snapshot}
use heliopause.Text.{Text}

-- What `InspectProject` returns: a `ProjectPolicyFailure`, another error, or the set.
pub data ProjectOutcome : Type 0 where
  project_error : String → ProjectOutcome
  project_refused : InspectedProjectSet → PolicyDecision → ProjectOutcome
  project_verified : ProjectVerifiedSet → ProjectOutcome

-- The loop over the dependencies of the snapshot.
unfoldable pub inspect_snapshot :
    InstallPorts
    → (List ℕ → Text)
    → OperationId
    → List ResolvedArtifact
    → Workflow (Result (List DependencyInspection))
inspect_snapshot p sha256 operation_id [] = pure (ok [])
inspect_snapshot p sha256 operation_id (artifact ∷ dependencies) =
    try (pure (project_dependency_node_id sha256 artifact.identity)) (λ e. pure (err e))
      λ node.
        try (pure (new_locked_dependency node transitive artifact)) (λ e. pure (err e))
          λ dependency.
            try (inspect_dependency p operation_id dependency) (λ e. pure (err e))
              λ entry.
                try (inspect_snapshot p sha256 operation_id dependencies) (λ e. pure (err e))
                  λ inspections. pure (ok (entry.inspection ∷ inspections))

abbrev pub verified_outcome : Result ProjectVerifiedSet → ProjectOutcome
verified_outcome (ok set) = project_verified set
verified_outcome (err e) = project_error e

-- What follows the decision of the set policy, and what follows the set.
unfoldable pub project_decided : InspectedProjectSet → Result PolicyDecision → ProjectOutcome
project_decided set (err e) = project_error e
project_decided set (ok decision) =
    if is_allow decision.decision
    then verified_outcome (new_project_verified_set set decision)
    else project_refused set decision

unfoldable pub decide_project :
    (InspectedProjectSet → Result PolicyDecision) → Result InspectedProjectSet → ProjectOutcome
decide_project evaluate_project (err e) = project_error e
decide_project evaluate_project (ok set) = project_decided set (evaluate_project set)

-- `InspectProject`
unfoldable pub inspect_project :
    InstallPorts
    → (List ℕ → Text)
    → (InspectedProjectSet → Result PolicyDecision)
    → ProjectDependencySnapshot
    → Workflow ProjectOutcome
inspect_project p sha256 evaluate_project snapshot =
    try
      (pure
        (reject (not (is_valid_snapshot snapshot)) "valid project snapshot inspection is required"))
      (λ e. pure (project_error e))
      λ valid.
        try (ask generates_operation p.new_operation_id) (λ e. pure (project_error e))
          λ operation_id.
            try (inspect_snapshot p sha256 operation_id snapshot.dependencies)
              (λ e. pure (project_error e))
              λ inspections. pure (
                decide_project evaluate_project
                  (new_inspected_project_set sha256 snapshot inspections))
