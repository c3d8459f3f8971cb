-- ===== src/Domain/Run.antt =====
-- internal/core/domain/run.go: policy decisions, and the life of an inspection run. A method on
-- `*InspectionRun` takes and returns the run; a nil receiver is left to the callers, which never pass
-- one.
pub mod Lifecycle
use Prim.Native.Char.{code}
use heliopause.Base.{
  Bool, List, Option, Result, [], any, err, false, if◌then◌else◌, is_empty, list_eq, nat_eq, none,
  not, ok, reject, some, true, ℕ, ◌==◌, ◌>>◌, ◌||◌,
}
use heliopause.Domain.Artifact.{
  AcquiredArtifact, ArtifactReference, ResolvedArtifactIdentity, identity_eq, source_id_eq,
  validate_normalized_identifier,
}
use heliopause.Domain.Identifier.{OperationId, RunId}
use heliopause.Text.{Text}
use heliopause.Text.Pattern.{failure_code_pattern}

pub data RunLifecycle : Type 0 where
  created active finalized : RunLifecycle

pub data RunOutcome : Type 0 where
  completed failed unset : RunOutcome
  other : Text → RunOutcome

pub data Decision : Type 0 where
  allow manual_review block unset : Decision
  other : Text → Decision

pub record PolicyDecision : Type 0 where
  pub decision : Decision
  pub policy_id : Text
  pub version : ℕ
  pub reasons : List Text

abbrev pub zero_decision : PolicyDecision
zero_decision = record { decision = Decision.unset; policy_id = []; version = 0; reasons = [] }

abbrev pub is_allow : Decision → Bool
is_allow allow = true
is_allow _ = false

abbrev pub is_block : Decision → Bool
is_block block = true
is_block _ = false

-- `validateDecision`
abbrev pub validate_decision : Decision → Result (Unit {0})
validate_decision allow = ok tt
validate_decision manual_review = ok tt
validate_decision block = ok tt
validate_decision _ = err "invalid Policy Decision"

unfoldable pub new_policy_decision : Decision → Text → ℕ → List Text → Result PolicyDecision
new_policy_decision decision policy_id version reasons = do
  validate_decision decision
  validate_normalized_identifier policy_id 64 "policy ID"
  reject (version == 0) "policy version must be greater than zero"
  reject (is_empty reasons) "policy decision requires at least one reason"
  reject (any (λ reason. not (failure_code_pattern reason)) reasons)
      "policy reason must be 1 to 64 uppercase identifier characters"
  ok (record { decision = decision; policy_id = policy_id; version = version; reasons = reasons })

-- `artifact` is `none` while `hasArtifact` is false.
pub record InspectionRun : Type 0 where
  pub id : RunId
  pub operation_id : OperationId
  pub reference : ArtifactReference
  pub identity : ResolvedArtifactIdentity
  pub lifecycle : RunLifecycle
  pub artifact : Option AcquiredArtifact
  pub outcome : RunOutcome
  pub decision : PolicyDecision
  pub failure_code : Text

unfoldable pub new_inspection_run :
    RunId → OperationId → ArtifactReference → ResolvedArtifactIdentity → Result InspectionRun
new_inspection_run id operation_id reference identity = do
  reject (is_empty id.value) "run ID is required"
  reject (is_empty operation_id.value) "operation ID is required"
  reject (is_empty reference.source.value) "artifact reference is required"
  reject (is_empty identity.source.value) "resolved artifact identity is required"
  reject (not (reference.source == identity.source))
      "reference and resolved identity source mismatch"
  ok (record {
    id = id;
    operation_id = operation_id;
    reference = reference;
    identity = identity;
    lifecycle = created;
    artifact = none;
    outcome = RunOutcome.unset;
    decision = zero_decision;
    failure_code = [];
  })

abbrev pub is_created : RunLifecycle → Bool
is_created created = true
is_created _ = false

abbrev pub is_active : RunLifecycle → Bool
is_active active = true
is_active _ = false

abbrev pub is_finalized : RunLifecycle → Bool
is_finalized finalized = true
is_finalized _ = false

abbrev pub is_none : Option AcquiredArtifact → Bool
is_none none = true
is_none (some a) = false

unfoldable pub activate : InspectionRun → Result InspectionRun
activate r = do
  reject (not (is_created r.lifecycle)) "inspection run can only activate from CREATED"
  ok (record r { lifecycle = active })

unfoldable pub bind_acquired_artifact : AcquiredArtifact → InspectionRun → Result InspectionRun
bind_acquired_artifact a r = do
  reject (not (is_active r.lifecycle)) "acquired artifact can only bind to an ACTIVE run"
  reject (not (is_none r.artifact)) "acquired artifact is already bound"
  reject (not (a.identity == r.identity)) "acquired artifact identity does not match the run"
  reject (is_empty a.digest.value) "acquired artifact digest is required"
  ok (record r { artifact = some a })

unfoldable pub finalize_completed : PolicyDecision → InspectionRun → Result InspectionRun
finalize_completed d r = do
  reject (not (is_active r.lifecycle)) "inspection run can only finalize from ACTIVE"
  reject (is_none r.artifact) "completed inspection run requires an acquired artifact"
  reject (is_empty d.policy_id || is_empty d.reasons)
      "completed inspection run requires a valid Policy Decision"
  ok (record r { lifecycle = finalized; outcome = RunOutcome.completed; decision = d })

unfoldable pub finalize_failed : Text → InspectionRun → Result InspectionRun
finalize_failed code r = do
  reject (not (is_active r.lifecycle)) "inspection run can only finalize from ACTIVE"
  reject (not (failure_code_pattern code))
      "operational failure code must be 1 to 64 uppercase identifier characters"
  ok (record r { lifecycle = finalized; outcome = RunOutcome.failed; failure_code = code })

-- `Outcome`, `PolicyDecision` and `FailureCode`: none stands for a false second result.
unfoldable pub run_outcome : InspectionRun → Option RunOutcome
run_outcome r = if is_finalized r.lifecycle then some r.outcome else none

abbrev pub is_completed_outcome : RunOutcome → Bool
is_completed_outcome RunOutcome.completed = true
is_completed_outcome _ = false

abbrev pub is_failed_outcome : RunOutcome → Bool
is_failed_outcome RunOutcome.failed = true
is_failed_outcome _ = false

unfoldable pub policy_decision : InspectionRun → Option PolicyDecision
policy_decision r = if is_completed_outcome r.outcome then some r.decision else none

unfoldable pub run_failure_code : InspectionRun → Option Text
run_failure_code r = if is_failed_outcome r.outcome then some r.failure_code else none
