-- ===== src/Application/Inspect.antt =====
-- internal/application/inspect.go: the inspect workflow, over its ports (internal/core/ports). A port
-- is called at most once in a run, so that it is a function of its arguments.
pub mod Failure
pub mod Report
pub mod Provenance
use Prim.Native.Char.{code}
use heliopause.Base.{
  List, Option, Result, String, [], err, is_empty, list_eq, nat_eq, none, ok, reject, some, ◌++◌,
  ◌∷◌,
}
use heliopause.Domain.Artifact.{
  AcquiredArtifact, ArtifactReference, ContentDigest, ResolvedArtifact, ResolvedArtifactIdentity,
}
use heliopause.Domain.Check.{CheckExecution}
use heliopause.Domain.Evidence.{Evidence, EvidenceReference}
use heliopause.Domain.Identifier.{OperationId, RunId}
use heliopause.Domain.Operation.{
  OperationError, OperationResult, OperationStatus, PolicyInput, new_inspect_operation_result,
  new_operation_error, new_policy_input, zero_identity,
}
use heliopause.Domain.Report.{InspectionReport, VerificationReport}
use heliopause.Domain.Run.{
  InspectionRun, PolicyDecision, RunOutcome, activate, bind_acquired_artifact, finalize_completed,
  finalize_failed, new_inspection_run, run_outcome, zero_decision,
}
use heliopause.Text.{Text, codes}

pub record InspectPorts : Type 0 where
  pub new_operation_id : Result OperationId
  pub new_run_id : Result RunId
  pub resolve : ArtifactReference → Result ResolvedArtifact
  pub acquire : RunId → ResolvedArtifact → Result AcquiredArtifact
  pub verify : AcquiredArtifact → Result VerificationReport
  pub inspect : AcquiredArtifact → Result InspectionReport
  pub record_evidence : RunId → List Evidence → Result (List EvidenceReference)
  pub evaluate : PolicyInput → Result PolicyDecision

-- Go's two results: `none` is the zero result, and the absent error.
pub record Outcome : Type 0 where
  pub result : Option OperationResult
  pub error : Option String

abbrev pub refuse : String → Outcome
refuse e = record { result = none; error = some e }

-- `value, err := m; if err != nil { return … }`
abbrev pub attempt {ℓ} : {A : Type ℓ} → Result A → (String → Outcome) → (A → Outcome) → Outcome
attempt (ok a) fail continue = continue a
attempt (err e) fail continue = fail e

abbrev pub no_digest : ContentDigest
no_digest = record { value = [] }

abbrev pub no_error : OperationError
no_error = record { code = []; message = [] }

-- `failedBeforeRun`
unfoldable pub failed_before_run :
    OperationId → ArtifactReference → ResolvedArtifactIdentity → Text → Text → String → Outcome
failed_before_run operation_id reference identity code message cause =
    attempt (new_operation_error code message) (λ e. refuse cause)
      λ operation_error.
        attempt
          (new_inspect_operation_result (record {
            operation_id = operation_id;
            status = OperationStatus.failed;
            reference = reference;
            resolved_identity = identity;
            digest = no_digest;
            run_id = record { value = [] };
            run_outcome = RunOutcome.unset;
            checks = [];
            evidence = [];
            decision = zero_decision;
            operational_error = operation_error;
          }))
          (λ e. refuse cause) λ result. record { result = some result; error = some cause }

-- `failRun`: the digest is copied when there is one, so that the artifact's digest serves either way.
unfoldable pub fail_run :
    InspectionRun
    → ArtifactReference
    → ContentDigest
    → List CheckExecution
    → List EvidenceReference
    → Text
    → Text
    → String
    → Outcome
fail_run run reference digest checks references code message cause =
    attempt (finalize_failed code run) (λ e. refuse cause)
      λ finalized_run.
        attempt (new_operation_error code message) (λ e. refuse cause)
          λ operation_error.
            attempt
              (new_inspect_operation_result (record {
                operation_id = finalized_run.operation_id;
                status = OperationStatus.failed;
                reference = reference;
                resolved_identity = finalized_run.identity;
                digest = digest;
                run_id = finalized_run.id;
                run_outcome = RunOutcome.failed;
                checks = checks;
                evidence = references;
                decision = zero_decision;
                operational_error = operation_error;
              }))
              (λ e. refuse cause) λ result. record { result = some result; error = some cause }

abbrev pub outcome_of : Result OperationResult → Outcome
outcome_of (ok r) = record { result = some r; error = none }
outcome_of (err e) = refuse e

-- From the policy on: the decision finalizes the run.
unfoldable pub decide_run :
    InspectPorts
    → ArtifactReference
    → InspectionRun
    → AcquiredArtifact
    → List CheckExecution
    → List EvidenceReference
    → PolicyInput
    → Outcome
decide_run p reference run artifact checks references input =
    attempt (p.evaluate input)
      (fail_run run reference artifact.digest checks references (codes "POLICY_EVALUATION_FAILED")
        (codes "Policy evaluation failed operationally."))
      λ decision.
        attempt (finalize_completed decision run)
          (fail_run run reference artifact.digest checks references
            (codes "RUN_FINALIZATION_FAILED") (codes "Inspection Run finalization failed."))
          λ done. outcome_of (
            new_inspect_operation_result (record {
              operation_id = run.operation_id;
              status = OperationStatus.completed;
              reference = reference;
              resolved_identity = run.identity;
              digest = artifact.digest;
              run_id = run.id;
              run_outcome = RunOutcome.completed;
              checks = checks;
              evidence = references;
              decision = decision;
              operational_error = no_error;
            }))

-- The checks of a bound artifact, and their evidence.
unfoldable pub check_run :
    InspectPorts → ArtifactReference → InspectionRun → AcquiredArtifact → Outcome
check_run p reference run artifact =
    attempt (p.verify artifact)
      (fail_run run reference artifact.digest [] [] (codes "VERIFICATION_PROVIDER_FAILED")
        (codes "Artifact verification failed operationally."))
      λ verification.
        attempt (p.inspect artifact)
          (fail_run run reference artifact.digest (verification.execution ∷ []) []
            (codes "INSPECTION_PROVIDER_FAILED")
            (codes "Artifact inspection failed operationally."))
          λ inspection.
            let checks = verification.execution ∷ inspection.executions in
            attempt (p.record_evidence run.id (verification.evidence ++ inspection.evidence))
              (fail_run run reference artifact.digest checks [] (codes "EVIDENCE_RECORD_FAILED")
                (codes "Evidence recording failed."))
              λ references.
                attempt (new_policy_input run.id artifact verification inspection references)
                  (fail_run run reference artifact.digest checks references
                    (codes "POLICY_INPUT_INVALID") (codes "Policy input construction failed."))
                  λ input. decide_run p reference run artifact checks references input

-- A run from its creation to its bound artifact.
unfoldable pub start_run :
    InspectPorts → ArtifactReference → ResolvedArtifact → InspectionRun → Outcome
start_run p reference resolved created_run =
    attempt (activate created_run)
      (fail_run created_run reference no_digest [] [] (codes "RUN_ACTIVATION_FAILED")
        (codes "Inspection Run activation failed."))
      λ run.
        attempt (p.acquire run.id resolved)
          (fail_run run reference no_digest [] [] (codes "ARTIFACT_ACQUIRE_FAILED")
            (codes "Artifact acquisition failed."))
          λ artifact.
            attempt (bind_acquired_artifact artifact run)
              (fail_run run reference no_digest [] [] (codes "ARTIFACT_BINDING_FAILED")
                (codes "Acquired Artifact binding failed."))
              λ bound. check_run p reference bound artifact

-- `context` is `none` where the context is nil, and an error where it has ended.
unfoldable pub inspect : InspectPorts → Option (Result (Unit {0})) → ArtifactReference → Outcome
inspect p none reference = refuse "context is required"
inspect p (some context) reference = attempt context refuse λ _.
    attempt (reject (is_empty reference.source.value) "validated Inspect request is required")
      refuse
      λ _. attempt p.new_operation_id refuse λ operation_id.
        attempt (p.resolve reference)
          (failed_before_run operation_id reference zero_identity (codes "ARTIFACT_RESOLVE_FAILED")
            (codes "Artifact identity resolution failed."))
          λ resolved.
            attempt p.new_run_id
              (failed_before_run operation_id reference resolved.identity
                (codes "RUN_ID_GENERATION_FAILED")
                (codes "Inspection Run identifier generation failed."))
              λ run_id.
                attempt (new_inspection_run run_id operation_id reference resolved.identity)
                  (failed_before_run operation_id reference resolved.identity
                    (codes "RUN_CREATION_FAILED") (codes "Inspection Run creation failed."))
                  λ run. start_run p reference resolved run
