-- ===== src/Application/SetInspect.antt =====
-- internal/application/install_inspect.go: the inspection of each node of a graph in turn, and the parts
-- that `Inspect` and `inspectGraphAware` share: the derived artifacts, and the decision on the set.
pub mod Judged
use heliopause.Application.Entry.{DiagnosedEntry, inspect_acquired_dependency, inspect_dependency}
use heliopause.Application.Workflow.{History, InstallPorts, Workflow, ask, derives, pure, try}
use heliopause.Base.{List, Option, Result, [], err, none, ok, some, ◌++◌, ◌>>=◌, ◌>>◌, ◌∷◌}
use heliopause.Domain.Derivation.{DerivedDependency, extend_locked_dependency_graph}
use heliopause.Domain.Graph.{LockedDependency, LockedDependencyGraph}
use heliopause.Domain.Identifier.{OperationId}
use heliopause.Domain.Inspected.{
  DependencyInspection, InspectedDependencySet, new_inspected_dependency_set,
}
use heliopause.Domain.Run.{PolicyDecision}

-- The loop of `Inspect` over the nodes.
unfoldable pub inspect_dependencies :
    InstallPorts → OperationId → List LockedDependency → Workflow (Result (List DiagnosedEntry))
inspect_dependencies p operation_id [] = pure (ok [])
inspect_dependencies p operation_id (d ∷ nodes) =
    try (inspect_dependency p operation_id d) (λ e. pure (err e))
      λ entry.
        try (inspect_dependencies p operation_id nodes) (λ e. pure (err e))
          λ entries. pure (ok (entry ∷ entries))

-- The loop over the derived dependencies.
unfoldable pub inspect_derived :
    InstallPorts
    → OperationId
    → List DerivedDependency
    → Workflow (Result (List DependencyInspection))
inspect_derived p operation_id [] = pure (ok [])
inspect_derived p operation_id (item ∷ derived) =
    try
      (inspect_acquired_dependency p operation_id item.node item.artifact (item.check ∷ [])
        (item.evidence ∷ []))
      (λ e. pure (err e))
      λ entry.
        try (inspect_derived p operation_id derived) (λ e. pure (err e))
          λ inspections. pure (ok (entry.inspection ∷ inspections))

pub record InspectedGraph : Type 0 where
  pub graph : LockedDependencyGraph
  pub inspections : List DependencyInspection

-- What follows if the service has a derivation.
unfoldable pub derive_with :
    InstallPorts
    → (History → List DependencyInspection → Result (List DerivedDependency))
    → OperationId
    → LockedDependencyGraph
    → List DependencyInspection
    → Workflow (Result InspectedGraph)
derive_with p derive operation_id graph inspections =
    try (ask (derives inspections) (λ h. derive h inspections)) (λ e. pure (err e))
      λ derived.
        try (pure (extend_locked_dependency_graph graph derived)) (λ e. pure (err e))
          λ extended.
            try (inspect_derived p operation_id derived) (λ e. pure (err e))
              λ more. pure (ok (record { graph = extended; inspections = inspections ++ more }))

-- The phase of the derived artifacts, which a service has if it has a derivation.
unfoldable pub derive_if :
    InstallPorts
    → Option (History → List DependencyInspection → Result (List DerivedDependency))
    → OperationId
    → LockedDependencyGraph
    → List DependencyInspection
    → Workflow (Result InspectedGraph)
derive_if p none operation_id graph inspections =
    pure (ok (record { graph = graph; inspections = inspections }))
derive_if p (some derive) operation_id graph inspections =
    derive_with p derive operation_id graph inspections

abbrev pub derive_dependencies :
    InstallPorts
    → OperationId
    → LockedDependencyGraph
    → List DependencyInspection
    → Workflow (Result InspectedGraph)
derive_dependencies p = derive_if p p.derive

pub record DecidedSet : Type 0 where
  pub set : InspectedDependencySet
  pub decision : PolicyDecision

unfoldable pub decide_set : InstallPorts → InspectedGraph → Result DecidedSet
decide_set p g = do
  set ← new_inspected_dependency_set g.graph g.inspections
  decision ← p.evaluate_set set
  ok (record { set = set; decision = decision })
