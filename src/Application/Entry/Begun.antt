-- ===== src/Application/Entry/Begun.antt =====
-- internal/application/install_inspect.go: the runs of one dependency, and what its inspection ensures.
use heliopause.Application.Diagnostic.{new_dependency_policy_diagnostic}
use heliopause.Application.Entry.{
  DiagnosedEntry, Entry, begin_run, inspect_acquired_dependency, inspect_dependency, judge_entry,
  locked_reference, step_run,
}
use heliopause.Application.Entry.Judged.{
  IsEntryJudged, entry_codes, judge_entry-Ensures, step_run-Ensures,
}
use heliopause.Application.Workflow.{InstallPorts, Workflow, acquires, ask, pure}
use heliopause.Application.Workflow.Ensures.{
  Ensures, Ensures-create, Ensures-passed, Ensures-pure, Keeps, Keeps-ask, Keeps-on, Keeps-pure,
  Keeps-try, OnOk,
}
use heliopause.Base.{
  ==→≡, List, Result, Result-cases, [], arith, inl, inr, list_eq, nat_eq, ok, refl, ◌∙◌, ◌≡◌,
}
use heliopause.Domain.Artifact.{
  AcquiredArtifact, ArtifactReference, ResolvedArtifactIdentity, identity_eq,
}
use heliopause.Domain.Check.{CheckExecution}
use heliopause.Domain.Evidence.{Evidence}
use heliopause.Domain.Graph.{LockedDependency}
use heliopause.Domain.Identifier.{OperationId, RunId}
use heliopause.Domain.Run.{
  InspectionRun, activate, active, bind_acquired_artifact, created, new_inspection_run,
}
use heliopause.Text.{codes}

pub started_run :
    (run_id : RunId) (operation_id : OperationId) (reference : ArtifactReference)
    (identity : ResolvedArtifactIdentity) (r : InspectionRun)
    → new_inspection_run run_id operation_id reference identity ≡ ok r
    → (r.lifecycle ≡ created) × (r.identity ≡ identity)
unfolding new_inspection_run
started_run run_id operation_id reference identity r h = ground arith

pub activated_run :
    (r : InspectionRun) → r.lifecycle ≡ created → activate r ≡ ok (record r { lifecycle = active })
unfolding activate
activated_run r c = rw c

pub bound_run :
    (artifact : AcquiredArtifact) (r bound : InspectionRun)
    → bind_acquired_artifact artifact r ≡ ok bound
    → (bound.lifecycle ≡ active) × (artifact.identity ≡ r.identity)
unfolding bind_acquired_artifact
bound_run artifact r bound h = ground (arith, ==→≡ artifact.identity r.identity)

module _ (p : InstallPorts) (operation_id : OperationId) (dependency : LockedDependency)
    (P : Entry → Type 0) where
  begin_run-Ensures :
      (next : RunId → InspectionRun → Workflow (Result Entry))
      → ((run_id : RunId) (run : InspectionRun)
          → run.lifecycle ≡ active
          → run.identity ≡ dependency.artifact.identity
          → Ensures 1 (λ _. 0) (OnOk P) (next run_id run))
      → Keeps 0 (OnOk P) (begin_run p operation_id dependency next)
  unfolding begin_run
  begin_run-Ensures next h =
      Keeps-try _ _ (λ _. 0) _ _ (Keeps-on _ (Keeps-ask _ _ refl))
        λ run_id _.
          Keeps-try _ _ (λ _. 0) _ _
            (Keeps-on _ (Keeps-pure (locked_reference dependency.artifact)))
            λ reference _.
              Keeps-try _ _ (λ _. 1) _ _
                (Ensures-create
                  (new_inspection_run run_id operation_id reference dependency.artifact.identity))
                λ r s.
                  let (c, i) =
                    started_run run_id operation_id reference dependency.artifact.identity r s in
                  Ensures-passed _ _ _ (record r { lifecycle = active }) _ _ (activated_run r c)
                    (h run_id _ refl i)

  -- The inspection of an acquired artifact, if `P` holds of what is recorded of a bound one.
  pub inspect_acquired_dependency-Ensures_of :
      (artifact : AcquiredArtifact) (checks : List CheckExecution) (evidence : List Evidence)
      → ((run_id : RunId) (run : InspectionRun)
          → run.lifecycle ≡ active
          → artifact.identity ≡ dependency.artifact.identity
          → Ensures 1
              (λ _. 0)
              (OnOk P)
              (judge_entry p dependency run_id artifact run checks evidence))
      → Keeps 0
          (OnOk P)
          (inspect_acquired_dependency p operation_id dependency artifact checks evidence)
  unfolding inspect_acquired_dependency
  inspect_acquired_dependency-Ensures_of artifact checks evidence h =
      begin_run-Ensures _ λ run_id run a i.
        step_run-Ensures _ _ run _ _ _ a entry_codes.2
          (Keeps-pure (bind_acquired_artifact artifact run))
          λ bound b. let (a', i') = bound_run artifact run bound b in h run_id bound a' (i' ∙ i)

module _ (p : InstallPorts) (operation_id : OperationId) (dependency : LockedDependency) where
  pub inspect_acquired_dependency-Ensures :
      (artifact : AcquiredArtifact) (checks : List CheckExecution) (evidence : List Evidence)
      → Keeps 0
          (OnOk (λ (e : Entry). IsEntryJudged p dependency e.inspection))
          (inspect_acquired_dependency p operation_id dependency artifact checks evidence)
  inspect_acquired_dependency-Ensures artifact checks evidence =
      inspect_acquired_dependency-Ensures_of p operation_id dependency _ artifact checks evidence
        λ run_id run a i. judge_entry-Ensures p dependency run_id artifact run checks evidence a i

  entry-Ensures : Keeps 0 (OnOk (λ (e : Entry). IsEntryJudged p dependency e.inspection)) (
      begin_run p operation_id dependency λ run_id run.
        step_run run
          (codes "ARTIFACT_ACQUIRE_FAILED")
          (ask (acquires run_id dependency.artifact) (λ h. p.acquire h run_id dependency.artifact))
          λ artifact.
            step_run run
              (codes "ARTIFACT_BINDING_FAILED")
              (pure (bind_acquired_artifact artifact run))
              λ bound. judge_entry p dependency run_id artifact bound [] [])
  entry-Ensures = begin_run-Ensures p operation_id dependency _ _ λ run_id run a i.
      step_run-Ensures _ _ run _ _ _ a entry_codes.1 (Keeps-ask _ _ refl) λ artifact _.
        step_run-Ensures _ _ run _ _ _ a entry_codes.2
          (Keeps-pure (bind_acquired_artifact artifact run))
          λ bound b.
            let (a', i') = bound_run artifact run bound b in
            judge_entry-Ensures p dependency run_id artifact bound [] [] a' (i' ∙ i)

  pub inspect_dependency-Ensures :
      Keeps 0
        (OnOk (λ (e : DiagnosedEntry). IsEntryJudged p dependency e.inspection))
        (inspect_dependency p operation_id dependency)
  unfolding inspect_dependency
  inspect_dependency-Ensures =
      Keeps-try _ _ (λ _. 0) _ _ (Keeps-on _ entry-Ensures)
        λ entry j.
          Ensures-pure _ _ _ refl
            (elim (Result-cases (
              new_dependency_policy_diagnostic dependency entry.inspection.decision
                entry.findings)) [ inl (d, e) ↦ rw e j | inr (x, e) ↦ rw e tt ])
