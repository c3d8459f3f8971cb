-- ===== src/Domain/Check.antt =====
-- internal/core/domain/check.go: diagnostics and check executions.
-- A Go string type with constants is a data type with `other` for each further string, the empty one
-- (the zero value) among them.
use heliopause.Base.{
  Bool, Result, err, false, if◌then◌else◌, is_empty, list_eq, nat_eq, not, ok, reject, true, ◌&&◌,
  ◌>>◌,
}
use heliopause.Domain.Evidence.{CheckId, check_id_eq, evidence_id_eq}
use heliopause.Text.{Text}
use heliopause.Text.Pattern.{failure_code_pattern}

pub data CheckKind : Type 0 where
  verification inspection : CheckKind
  other : Text → CheckKind

pub data Capability : Type 0 where
  supported unsupported : Capability
  other : Text → Capability

pub data ExecutionStatus : Type 0 where
  completed failed incomplete not_executed unavailable : ExecutionStatus
  other : Text → ExecutionStatus

pub data InspectionDiagnosticCause : Type 0 where
  static_finding static_incomplete sdist_dynamic_unavailable : InspectionDiagnosticCause
  resource_exceeded invalid_wheel : InspectionDiagnosticCause
  other : Text → InspectionDiagnosticCause

pub data InspectionDiagnosticStage : Type 0 where
  filename compatibility zip digest metadata_identity : InspectionDiagnosticStage
  dist_info_identity wheel_tag record_file file_type other_stage : InspectionDiagnosticStage
  per_artifact_compressed per_artifact_uncompressed : InspectionDiagnosticStage
  file_count metadata graph_uncompressed : InspectionDiagnosticStage
  empty : InspectionDiagnosticStage
  other : Text → InspectionDiagnosticStage

pub record InspectionDiagnostic : Type 0 where
  pub cause : InspectionDiagnosticCause
  pub stage : InspectionDiagnosticStage

abbrev pub is_wheel_stage : InspectionDiagnosticStage → Bool
is_wheel_stage filename = true
is_wheel_stage compatibility = true
is_wheel_stage zip = true
is_wheel_stage digest = true
is_wheel_stage metadata_identity = true
is_wheel_stage dist_info_identity = true
is_wheel_stage wheel_tag = true
is_wheel_stage record_file = true
is_wheel_stage file_type = true
is_wheel_stage other_stage = true
is_wheel_stage _ = false

abbrev pub is_resource_stage : InspectionDiagnosticStage → Bool
is_resource_stage per_artifact_compressed = true
is_resource_stage per_artifact_uncompressed = true
is_resource_stage file_count = true
is_resource_stage metadata = true
is_resource_stage graph_uncompressed = true
is_resource_stage other_stage = true
is_resource_stage _ = false

abbrev pub is_empty_stage : InspectionDiagnosticStage → Bool
is_empty_stage empty = true
is_empty_stage _ = false

unfoldable pub new_inspection_diagnostic :
    InspectionDiagnosticCause → InspectionDiagnosticStage → Result InspectionDiagnostic
new_inspection_diagnostic (other s) stage = err "invalid inspection diagnostic cause"
new_inspection_diagnostic invalid_wheel stage =
    if is_wheel_stage stage
    then ok (record { cause = invalid_wheel; stage = stage })
    else err "invalid wheel diagnostic stage"
new_inspection_diagnostic resource_exceeded stage =
    if is_resource_stage stage
    then ok (record { cause = resource_exceeded; stage = stage })
    else err "invalid resource diagnostic stage"
new_inspection_diagnostic cause stage =
    if is_empty_stage stage
    then ok (record { cause = cause; stage = stage })
    else err "diagnostic stage is not applicable"

pub record CheckExecution : Type 0 where
  pub id : CheckId
  pub kind : CheckKind
  pub required : Bool
  pub capability : Capability
  pub status : ExecutionStatus
  pub limitation : Text

abbrev pub is_known_kind : CheckKind → Bool
is_known_kind (other s) = false
is_known_kind _ = true

abbrev pub is_known_capability : Capability → Bool
is_known_capability (other s) = false
is_known_capability _ = true

abbrev pub is_known_status : ExecutionStatus → Bool
is_known_status (other s) = false
is_known_status _ = true

abbrev pub is_verification : CheckKind → Bool
is_verification verification = true
is_verification _ = false

abbrev pub is_inspection : CheckKind → Bool
is_inspection inspection = true
is_inspection _ = false

abbrev pub is_supported : Capability → Bool
is_supported supported = true
is_supported _ = false

abbrev pub is_unsupported : Capability → Bool
is_unsupported unsupported = true
is_unsupported _ = false

abbrev pub is_completed : ExecutionStatus → Bool
is_completed completed = true
is_completed _ = false

abbrev pub is_not_executed : ExecutionStatus → Bool
is_not_executed not_executed = true
is_not_executed _ = false

unfoldable pub new_check_execution :
    CheckId → CheckKind → Bool → Capability → ExecutionStatus → Text → Result CheckExecution
new_check_execution id kind required capability status limitation = do
  reject (is_empty id.value) "check ID is required"
  reject (not (is_known_kind kind)) "invalid check kind"
  reject (not (is_known_capability capability)) "invalid capability"
  reject (not (is_known_status status)) "invalid execution status"
  reject (is_unsupported capability && not (is_not_executed status))
      "unsupported check must be NOT_EXECUTED"
  reject (is_completed status && not (is_empty limitation))
      "completed check cannot have a limitation"
  reject (not (is_completed status) && not (failure_code_pattern limitation))
      "non-completed check requires an uppercase limitation code"
  ok (record {
    id = id;
    kind = kind;
    required = required;
    capability = capability;
    status = status;
    limitation = limitation;
  })
