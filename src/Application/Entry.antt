-- ===== src/Application/Entry.antt =====
-- internal/application/install_inspect.go: the inspection of one locked dependency.
pub mod Judged
pub mod Begun
pub mod Extra
use Prim.Native.Char.{code}
use heliopause.Application.Diagnostic.{DependencyPolicyDiagnostic, new_dependency_policy_diagnostic}
use heliopause.Application.Workflow.{
  InstallPorts, Workflow, acquires, ask, create, generates_run, inspects, pure, put_away, records,
  try, verifies,
}
use heliopause.Base.{List, Result, String, [], err, ok, ◌++◌, ◌>>=◌, ◌∷◌}
use heliopause.Domain.Artifact.{
  AcquiredArtifact, ArtifactReference, ResolvedArtifact, new_artifact_reference,
}
use heliopause.Domain.Check.{CheckExecution}
use heliopause.Domain.Evidence.{Evidence, Finding}
use heliopause.Domain.Graph.{LockedDependency}
use heliopause.Domain.Identifier.{OperationId, RunId}
use heliopause.Domain.Inspected.{DependencyInspection, new_dependency_inspection}
use heliopause.Domain.Operation.{new_policy_input}
use heliopause.Domain.Run.{
  InspectionRun, activate, bind_acquired_artifact, finalize_completed, finalize_failed,
  new_inspection_run,
}
use heliopause.Text.{Text, codes}

-- `lockedReference`
unfoldable pub locked_reference : ResolvedArtifact → Result ArtifactReference
locked_reference a =
    new_artifact_reference a.identity.source (a.identity.name ++ b'@' ∷ a.identity.version)

abbrev pub closed_run : InspectionRun → Result InspectionRun → InspectionRun
closed_run run (ok closed) = closed
closed_run run (err e) = run

-- `failDependencyRun`, which leaves the run finalized where that is possible.
unfoldable pub fail_dependency_run {ℓ} :
    {A : Type ℓ} → InspectionRun → Text → String → Workflow (Result A)
fail_dependency_run run code cause =
    put_away (closed_run run (finalize_failed code run) ∷ []) (err cause)

-- A step of a run: what fails it, and what follows.
abbrev pub step_run {ℓ κ} :
    {A : Type ℓ} {B : Type κ}
    → InspectionRun
    → Text
    → Workflow (Result A)
    → (A → Workflow (Result B))
    → Workflow (Result B)
step_run run code m next = try m (fail_dependency_run run code) next

-- What an inspection gives: the record, and the findings of the artifact's report.
pub record Entry : Type 0 where
  pub inspection : DependencyInspection
  pub findings : List Finding

-- From the verification of a bound artifact on. A derived artifact brings its own check and evidence.
unfoldable pub judge_entry :
    InstallPorts
    → LockedDependency
    → RunId
    → AcquiredArtifact
    → InspectionRun
    → List CheckExecution
    → List Evidence
    → Workflow (Result Entry)
judge_entry p dependency run_id artifact run additional_checks additional_evidence =
    step_run run (codes "VERIFICATION_PROVIDER_FAILED")
      (ask (verifies artifact) (λ h. p.verify h artifact))
      λ verification.
        step_run run (codes "INSPECTION_PROVIDER_FAILED")
          (ask (inspects artifact) (λ h. p.inspect h artifact))
          λ inspection.
            let checks = verification.execution ∷ (inspection.executions ++ additional_checks) in
            let evidence = verification.evidence ++ (inspection.evidence ++ additional_evidence) in
            step_run run (codes "EVIDENCE_RECORD_FAILED")
              (ask (records run_id evidence) (λ h. p.record_evidence h run_id evidence))
              λ references.
                step_run run (codes "POLICY_INPUT_INVALID")
                  (pure (new_policy_input run_id artifact verification inspection references))
                  λ input.
                    step_run run (codes "POLICY_EVALUATION_FAILED") (pure (p.evaluate input))
                      λ decision.
                        step_run run (codes "RUN_FINALIZATION_FAILED")
                          (pure (finalize_completed decision run))
                          λ done. put_away (done ∷ []) (
                            new_dependency_inspection dependency.node run_id artifact checks
                              references decision
                            >>= λ record_.
                                ok
                                  (record { inspection = record_; findings = inspection.findings }))

-- A run of its own for a dependency, active.
unfoldable pub begin_run :
    InstallPorts
    → OperationId
    → LockedDependency
    → (RunId → InspectionRun → Workflow (Result Entry))
    → Workflow (Result Entry)
begin_run p operation_id dependency next =
    try (ask generates_run p.new_run_id) (λ e. pure (err e))
      λ run_id.
        try (pure (locked_reference dependency.artifact)) (λ e. pure (err e))
          λ reference.
            try
              (create
                (new_inspection_run run_id operation_id reference dependency.artifact.identity))
              (λ e. pure (err e))
              λ created_run.
                step_run created_run (codes "RUN_ACTIVATION_FAILED") (pure (activate created_run))
                  λ run. next run_id run

-- `inspectAcquiredDependency`
unfoldable pub inspect_acquired_dependency :
    InstallPorts
    → OperationId
    → LockedDependency
    → AcquiredArtifact
    → List CheckExecution
    → List Evidence
    → Workflow (Result Entry)
inspect_acquired_dependency p operation_id dependency artifact additional_checks
      additional_evidence =
    begin_run p operation_id dependency λ run_id run.
      step_run run (codes "ARTIFACT_BINDING_FAILED") (pure (bind_acquired_artifact artifact run))
        λ bound.
          judge_entry p dependency run_id artifact bound additional_checks additional_evidence

pub record DiagnosedEntry : Type 0 where
  pub inspection : DependencyInspection
  pub diagnostic : DependencyPolicyDiagnostic

-- `inspectDependency`
unfoldable pub inspect_dependency :
    InstallPorts → OperationId → LockedDependency → Workflow (Result DiagnosedEntry)
inspect_dependency p operation_id dependency =
    try
      (begin_run p operation_id dependency λ run_id run.
        step_run run (codes "ARTIFACT_ACQUIRE_FAILED")
          (ask (acquires run_id dependency.artifact) (λ h. p.acquire h run_id dependency.artifact))
          λ artifact.
            step_run run (codes "ARTIFACT_BINDING_FAILED")
              (pure (bind_acquired_artifact artifact run))
              λ bound. judge_entry p dependency run_id artifact bound [] [])
      (λ e. pure (err e))
      λ entry. pure (
        new_dependency_policy_diagnostic dependency entry.inspection.decision entry.findings
        >>= λ diagnostic. ok (record { inspection = entry.inspection; diagnostic = diagnostic }))
