-- ===== src/Domain/Operation.antt =====
-- internal/core/domain/operation.go: results of an inspect operation, and the input of a policy.
pub mod Axes
pub mod Input
use heliopause.Base.{
  Bool, List, Result, [], any, contains, err, false, if◌then◌else◌, is_empty, length, list_eq, map,
  nat_eq, not, ok, reject, true, ◌&&◌, ◌++◌, ◌==◌, ◌>>◌, ◌||◌, ◌∷◌,
}
use heliopause.Domain.Artifact.{
  AcquiredArtifact, ArtifactReference, ContentDigest, ResolvedArtifactIdentity, content_digest_eq,
  identity_eq, validate_bounded_text,
}
use heliopause.Domain.Check.{CheckExecution}
use heliopause.Domain.Evidence.{
  EvidenceId, EvidenceReference, contains_sensitive_evidence, evidence_id_eq,
}
use heliopause.Domain.Identifier.{OperationId, RunId}
use heliopause.Domain.Report.{InspectionReport, VerificationReport}
use heliopause.Domain.Run.{PolicyDecision, RunOutcome, is_completed_outcome, is_failed_outcome}
use heliopause.Text.{Text}
use heliopause.Text.Pattern.{failure_code_pattern}

pub data OperationStatus : Type 0 where
  completed failed paused not_performed : OperationStatus
  other : Text → OperationStatus

pub record OperationError : Type 0 where
  pub code : Text
  pub message : Text

unfoldable pub new_operation_error : Text → Text → Result OperationError
new_operation_error code message = do
  reject (not (failure_code_pattern code)) "operation error code must be an uppercase identifier"
  validate_bounded_text message 256 "operation error message"
  reject (contains_sensitive_evidence message)
      "operation error message contains a sensitive pattern"
  ok (record { code = code; message = message })

abbrev pub zero_identity : ResolvedArtifactIdentity
zero_identity = record { source = record { value = [] }; name = []; version = []; variant = [] }

-- `OperationResultData`, and `OperationResult`, which has the same fields.
pub record OperationResult : Type 0 where
  pub operation_id : OperationId
  pub status : OperationStatus
  pub reference : ArtifactReference
  pub resolved_identity : ResolvedArtifactIdentity
  pub digest : ContentDigest
  pub run_id : RunId
  pub run_outcome : RunOutcome
  pub checks : List CheckExecution
  pub evidence : List EvidenceReference
  pub decision : PolicyDecision
  pub operational_error : OperationError

abbrev pub is_unset_outcome : RunOutcome → Bool
is_unset_outcome RunOutcome.unset = true
is_unset_outcome _ = false

abbrev pub is_completed_status : OperationStatus → Bool
is_completed_status completed = true
is_completed_status _ = false

abbrev pub check_axes : OperationStatus → OperationResult → Result (Unit {0})
check_axes completed d = do
  reject
      (is_empty d.run_id.value
        || not (is_completed_outcome d.run_outcome)
        || is_empty d.resolved_identity.source.value
        || is_empty d.digest.value
        || is_empty d.decision.policy_id)
      "completed Inspect result requires completed Run, exact subject, and Policy Decision"
  reject (not (is_empty d.operational_error.code))
      "completed Inspect result cannot contain an operational error"
check_axes failed d = do
  reject (is_empty d.operational_error.code) "failed Inspect result requires an operational error"
  reject (not (is_empty d.decision.policy_id))
      "failed Inspect result cannot contain a Policy Decision"
  reject (not (is_empty d.run_id.value) && not (is_failed_outcome d.run_outcome))
      "failed Inspect result with a Run requires failed Run Outcome"
  reject (is_empty d.run_id.value && not (is_unset_outcome d.run_outcome))
      "run outcome cannot exist without a Run ID"
check_axes _ d = err "invalid M1 Inspect operation status"

unfoldable pub new_inspect_operation_result : OperationResult → Result OperationResult
new_inspect_operation_result d = do
  reject (is_empty d.operation_id.value || is_empty d.reference.source.value)
      "operation ID and Artifact Reference are required"
  check_axes d.status d
  ok d

pub record PolicyInput : Type 0 where
  pub run_id : RunId
  pub artifact : AcquiredArtifact
  pub verification : VerificationReport
  pub inspection : InspectionReport
  pub evidence : List EvidenceReference

-- The keys of the map that the loop fills: each identifier once.
unfoldable pub distinct_ids : List EvidenceId → List EvidenceId → List EvidenceId
distinct_ids seen [] = seen
distinct_ids seen (id ∷ ids) = distinct_ids (if contains id seen then seen else id ∷ seen) ids

unfoldable pub check_references :
    List EvidenceId → List EvidenceId → List EvidenceReference → Result (Unit {0})
check_references want seen [] = ok tt
check_references want seen (r ∷ references) =
    reject (not (contains r.id want) || contains r.id seen)
      "policy input contains unknown or duplicate Evidence references"
    >> check_references want (r.id ∷ seen) references

unfoldable pub new_policy_input :
    RunId
    → AcquiredArtifact
    → VerificationReport
    → InspectionReport
    → List EvidenceReference
    → Result PolicyInput
new_policy_input run_id artifact verification inspection evidence = do
  reject (is_empty run_id.value || is_empty artifact.identity.source.value)
      "policy input requires Run ID and acquired Artifact"
  reject (is_empty verification.execution.id.value || is_empty inspection.execution.id.value)
      "policy input requires Verification and Inspection reports"
  reject (is_empty evidence) "policy input requires recorded Evidence references"
  let reported = verification.evidence ++ inspection.evidence
  reject
      (any
        (λ item. not (item.identity == artifact.identity) || not (item.digest == artifact.digest))
        reported)
      "policy input Evidence subject does not match acquired Artifact"
  let want = distinct_ids [] (map (λ item. item.id) reported)
  reject (not (length evidence == length want))
      "policy input Evidence references do not cover normalized Evidence"
  check_references want [] evidence
  ok (record {
    run_id = run_id;
    artifact = artifact;
    verification = verification;
    inspection = inspection;
    evidence = evidence;
  })

-- `Valid`
unfoldable pub is_valid_input : PolicyInput → Bool
is_valid_input i =
    not (is_empty i.run_id.value)
    && not (is_empty i.artifact.identity.source.value)
    && not (is_empty i.verification.execution.id.value)
    && not (is_empty i.inspection.execution.id.value)
    && not (is_empty i.evidence)
