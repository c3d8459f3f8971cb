-- ===== src/Application/GraphInspect.antt =====
-- internal/application/install_inspect.go: `inspectGraphAware`, where all nodes are acquired and verified
-- before one inspection of the whole graph. A map from nodes is a list.
pub mod Pending
pub mod Ensures
pub mod Judged
use heliopause.Application.Diagnostic.{
  InspectedInstall, InstallRequest, new_dependency_policy_diagnostic, new_inspected_install,
}
use heliopause.Application.Entry.{DiagnosedEntry, closed_run, locked_reference}
use heliopause.Application.GraphReports.{
  graph_dynamic_install_diagnostics, graph_static_diagnostics, report_of, validate_graph_reports,
}
use heliopause.Application.SetInspect.{decide_set, derive_dependencies}
use heliopause.Application.Workflow.{
  GraphReport, History, InstallPorts, Workflow, acquires, ask, create, generates_run,
  inspects_graph, pure, put_away, records, try, verifies,
}
use heliopause.Base.{
  Bool, List, Option, Result, String, [], err, if◌then◌else◌, is_empty, list_eq, map, nat_eq, none,
  not, ok, reject, some, ◌&&◌, ◌++◌, ◌==◌, ◌>>=◌, ◌>>◌, ◌∷◌,
}
use heliopause.Domain.Artifact.{AcquiredArtifact, identity_eq}
use heliopause.Domain.Check.{CheckExecution}
use heliopause.Domain.Evidence.{EvidenceReference}
use heliopause.Domain.Graph.{DependencyNodeId, LockedDependency, LockedDependencyGraph, node_id_eq}
use heliopause.Domain.Identifier.{OperationId, RunId}
use heliopause.Domain.Inspected.{DependencyResolution, new_dependency_inspection}
use heliopause.Domain.Operation.{new_policy_input}
use heliopause.Domain.Report.{VerificationReport}
use heliopause.Domain.Run.{
  InspectionRun, PolicyDecision, activate, bind_acquired_artifact, finalize_completed,
  finalize_failed, new_inspection_run,
}
use heliopause.Text.{Text, codes}

-- `pendingDependencyInspection`, as it is before the graph is inspected.
pub record PendingDependencyInspection : Type 0 where
  pub dependency : LockedDependency
  pub run_id : RunId
  pub run : InspectionRun
  pub artifact : AcquiredArtifact
  pub verification : VerificationReport

-- What the decision of the entry policy adds to it.
pub record JudgedDependencyInspection : Type 0 where
  pub pending : PendingDependencyInspection
  pub references : List EvidenceReference
  pub decision : PolicyDecision
  pub checks : List CheckExecution

-- `failPending`, with the runs that are not finalized.
unfoldable pub fail_pending {ℓ} :
    {A : Type ℓ} → List InspectionRun → Text → String → Workflow (Result A)
fail_pending runs why cause =
    put_away (map (λ r. closed_run r (finalize_failed why r)) runs) (err cause)

-- `acquiredMatchesLocked`
unfoldable pub acquired_matches_locked : AcquiredArtifact → LockedDependency → RunId → Bool
acquired_matches_locked acquired dependency run_id =
    dependency.artifact.identity == acquired.identity
    && not (is_empty acquired.digest.value)
    && not (is_empty acquired.declared_integrity)
    && acquired.declared_integrity == dependency.artifact.declared_integrity
    && acquired.handle == codes "intake:" ++ run_id.value ++ b':' ∷ acquired.identity.variant

-- The body of the first loop from the binding of the artifact on, with the runs of the nodes before.
unfoldable pub bind_pending :
    InstallPorts
    → List InspectionRun
    → LockedDependency
    → RunId
    → InspectionRun
    → AcquiredArtifact
    → Workflow (Result PendingDependencyInspection)
bind_pending p runs dependency run_id run artifact =
    try (pure (bind_acquired_artifact artifact run))
      (fail_pending (runs ++ run ∷ []) (codes "ARTIFACT_BINDING_FAILED"))
      λ bound.
        try
          (pure (
            reject (not (acquired_matches_locked artifact dependency run_id))
              "acquired artifact binding is invalid for dependency"))
          (fail_pending (runs ++ bound ∷ []) (codes "ARTIFACT_BINDING_INVALID"))
          λ matches.
            try (ask (verifies artifact) (λ h. p.verify h artifact))
              (fail_pending (runs ++ bound ∷ []) (codes "VERIFICATION_PROVIDER_FAILED"))
              λ verification. pure (
                ok (record {
                  dependency = dependency;
                  run_id = run_id;
                  run = bound;
                  artifact = artifact;
                  verification = verification;
                }))

-- The body of the first loop.
unfoldable pub acquire_pending :
    InstallPorts
    → OperationId
    → List InspectionRun
    → LockedDependency
    → Workflow (Result PendingDependencyInspection)
acquire_pending p operation_id runs dependency =
    try (ask generates_run p.new_run_id) (fail_pending runs (codes "RUN_ID_GENERATION_FAILED"))
      λ run_id.
        try (pure (locked_reference dependency.artifact))
          (fail_pending runs (codes "REFERENCE_INVALID"))
          λ reference.
            try
              (create
                (new_inspection_run run_id operation_id reference dependency.artifact.identity))
              (fail_pending runs (codes "RUN_CREATION_FAILED"))
              λ created_run.
                try (pure (activate created_run))
                  (fail_pending runs (codes "RUN_ACTIVATION_FAILED"))
                  λ run.
                    try
                      (ask (acquires run_id dependency.artifact)
                        (λ h. p.acquire h run_id dependency.artifact))
                      (fail_pending (runs ++ run ∷ []) (codes "ARTIFACT_ACQUIRE_FAILED"))
                      λ artifact. bind_pending p runs dependency run_id run artifact

-- The first loop.
unfoldable pub acquire_all :
    InstallPorts
    → OperationId
    → List PendingDependencyInspection
    → List LockedDependency
    → Workflow (Result (List PendingDependencyInspection))
acquire_all p operation_id pending [] = pure (ok pending)
acquire_all p operation_id pending (dependency ∷ nodes) =
    try (acquire_pending p operation_id (map (λ i. i.run) pending) dependency) (λ e. pure (err e))
      λ item. acquire_all p operation_id (pending ++ item ∷ []) nodes

-- `byNode`, where a later item replaces an earlier one.
unfoldable pub pending_at :
    DependencyNodeId → List PendingDependencyInspection → Option PendingDependencyInspection
pending_at node [] = none
pending_at node (i ∷ pending) = elim (pending_at node pending) [
  | some j ↦ some j
  | none ↦ if i.dependency.node == node then some i else none
]

-- The loop that fills the map of artifacts, in the order of the nodes.
unfoldable pub artifacts_of :
    List PendingDependencyInspection → List LockedDependency → Result (List AcquiredArtifact)
artifacts_of pending [] = ok []
artifacts_of pending (dependency ∷ nodes) = elim (pending_at dependency.node pending) [
  | none ↦ err "acquired dependency is absent for node"
  | some item ↦ artifacts_of pending nodes >>= λ artifacts. ok (item.artifact ∷ artifacts)
]

-- The body of the second loop, with the runs that are not finalized, its own among them.
unfoldable pub judge_pending :
    InstallPorts
    → List GraphReport
    → PendingDependencyInspection
    → List InspectionRun
    → Workflow (Result JudgedDependencyInspection)
judge_pending p reports item runs =
    let report = report_of item.dependency.node reports in
    let checks = item.verification.execution ∷ report.executions in
    let evidence = item.verification.evidence ++ report.evidence in
    try (ask (records item.run_id evidence) (λ h. p.record_evidence h item.run_id evidence))
      (fail_pending runs (codes "EVIDENCE_RECORD_FAILED"))
      λ references.
        try (pure (new_policy_input item.run_id item.artifact item.verification report references))
          (fail_pending runs (codes "POLICY_INPUT_INVALID"))
          λ input.
            try (pure (p.evaluate input)) (fail_pending runs (codes "POLICY_EVALUATION_FAILED"))
              λ decision.
                try (pure (finalize_completed decision item.run))
                  (fail_pending runs (codes "RUN_FINALIZATION_FAILED"))
                  λ done. put_away (done ∷ []) (
                    ok (record {
                      pending = record item { run = done };
                      references = references;
                      decision = decision;
                      checks = checks;
                    }))

-- The second loop.
unfoldable pub judge_all :
    InstallPorts
    → List GraphReport
    → List PendingDependencyInspection
    → Workflow (Result (List JudgedDependencyInspection))
judge_all p reports [] = pure (ok [])
judge_all p reports (item ∷ pending) =
    try (judge_pending p reports item (item.run ∷ map (λ i. i.run) pending)) (λ e. pure (err e))
      λ judged.
        try (judge_all p reports pending) (λ e. pure (err e)) λ rest. pure (ok (judged ∷ rest))

-- The third loop.
unfoldable pub record_judged :
    List GraphReport → List JudgedDependencyInspection → Result (List DiagnosedEntry)
record_judged reports [] = ok []
record_judged reports (j ∷ judged) = do
  let item = j.pending
  inspection ←
      new_dependency_inspection item.dependency.node item.run_id item.artifact j.checks j.references
        j.decision
  diagnostic ←
      new_dependency_policy_diagnostic item.dependency j.decision
        (report_of item.dependency.node reports).findings
  rest ← record_judged reports judged
  ok (record { inspection = inspection; diagnostic = diagnostic } ∷ rest)

-- From the report of each node on.
unfoldable pub finish_graph :
    InstallPorts
    → InstallRequest
    → DependencyResolution
    → OperationId
    → List GraphReport
    → List JudgedDependencyInspection
    → Workflow (Result InspectedInstall)
finish_graph p request resolution operation_id reports judged =
    try (pure (record_judged reports judged)) (λ e. pure (err e))
      λ entries.
        try (derive_dependencies p operation_id resolution.graph (map (λ e. e.inspection) entries))
          (λ e. pure (err e))
          λ g. pure (do
            decided ← decide_set p g
            diagnostics ← graph_static_diagnostics reports g.graph.nodes
            dynamic_diagnostics ← graph_dynamic_install_diagnostics reports g.graph.nodes
            ok
                (record (new_inspected_install operation_id request resolution decided.set
                  decided.decision) {
                    diagnostics = diagnostics;
                    dynamic_diagnostics = dynamic_diagnostics;
                    policy_diagnostics = map (λ e. e.diagnostic) entries;
                  }))

-- `inspectGraphAware`
unfoldable pub inspect_graph_aware :
    InstallPorts
    → (History → LockedDependencyGraph → List AcquiredArtifact → Result (List GraphReport))
    → OperationId
    → InstallRequest
    → DependencyResolution
    → Workflow (Result InspectedInstall)
inspect_graph_aware p inspector operation_id request resolution =
    let graph = resolution.graph in
    try (acquire_all p operation_id [] graph.nodes) (λ e. pure (err e))
      λ pending.
        let runs = map (λ i. i.run) pending in
        try (pure (artifacts_of pending graph.nodes))
          (fail_pending runs (codes "DEPENDENCY_ARTIFACTS_INVALID"))
          λ artifacts.
            try (ask (inspects_graph graph artifacts) (λ h. inspector h graph artifacts))
              (fail_pending runs (codes "INSPECTION_PROVIDER_FAILED"))
              λ reports.
                try (pure (validate_graph_reports graph reports))
                  (fail_pending runs (codes "INSPECTION_REPORT_INVALID"))
                  λ valid.
                    try (judge_all p reports pending) (λ e. pure (err e))
                      λ judged. finish_graph p request resolution operation_id reports judged
